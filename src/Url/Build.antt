-- ===== src/Url/Build.antt =====
-- `build_async_url` (api/db/url.py).
pub mod Laws
pub mod Tests
use balotly_backend.Base.{
  ℕ, Option, none, some, Bool, true, false, not, ◌&&◌, ◌||◌, List, [], ◌∷◌, ◌++◌, if◌then◌else◌,
}
use balotly_backend.Base.Text.{Text, codes, same_text}
use balotly_backend.Url.Query.{Pairs, parse_qsl, urlencode}
use balotly_backend.Url.Split.{SplitResult, urlsplit, urlunsplit}

-- The ValueErrors: `urlsplit`'s own and the four of this function.
pub data Error : Type 0 where
  empty_url bad_netloc wrong_scheme many_sslmodes unsupported_sslmode : Error

pub data Result (A : Type 0) : Type 0 where
  ok : A → Result A
  err : Error → Result A

infixl 5 ◌>>=◌ ◌>>◌
abbrev pub ◌>>=◌ : {A B : Type 0} → Result A → (A → Result B) → Result B
ok a >>= f = f a
err e >>= f = err e

abbrev pub ◌>>◌ : {B : Type 0} → Result (Unit {0}) → Result B → Result B
m >> k = m >>= λ _. k

abbrev require : Bool → Error → Result (Unit {0})
require true e = ok tt
require false e = err e

abbrev or_raise : {A : Type 0} → Option A → Error → Result A
or_raise none e = err e
or_raise (some a) e = ok a

abbrev pub one_of : List Text → Text → Bool
one_of [] t = false
one_of (s ∷ ss) t = same_text t s || one_of ss t

-- `ASYNCPG_SSL_MODES`
abbrev pub ssl_mode_names : List Text
ssl_mode_names =
    codes "disable"
    ∷ codes "allow"
    ∷ codes "prefer"
    ∷ codes "require"
    ∷ codes "verify-ca"
    ∷ codes "verify-full"
    ∷ []

abbrev pub async_scheme : Text
async_scheme = codes "postgresql+asyncpg"

abbrev pub schemes : List Text
schemes = codes "postgres" ∷ codes "postgresql" ∷ async_scheme ∷ []

-- The scheme that the URL gets; none where the function refuses its own.
new_scheme : Text → Option Text
new_scheme scheme =
    if one_of (codes "postgres" ∷ codes "postgresql" ∷ []) scheme
    then some async_scheme
    else if same_text scheme async_scheme
    then some scheme
    else none

-- The loop over the query's pairs: the sslmode values, and the pairs that stay.
pub sort_params : Pairs → List Text × Pairs
sort_params [] = ([], [])
sort_params ((key, value) ∷ ps) =
    let rest = sort_params ps in
    if same_text key (codes "sslmode")
    then (value ∷ rest.0, rest.1)
    else if same_text key (codes "channel_binding")
    then rest
    else (rest.0, (key, value) ∷ rest.1)

-- At most one value, and a supported one.
pub choose_mode : List Text → Result (Option Text)
choose_mode [] = ok none
choose_mode (mode ∷ []) = require (one_of ssl_mode_names mode) unsupported_sslmode >> ok (some mode)
choose_mode (mode ∷ more ∷ modes) = err many_sslmodes

abbrev is_empty : Text → Bool
is_empty [] = true
is_empty (c ∷ t) = false

pub build_async_url : (netloc_ok : Text → Bool) → Text → Result (Text × Option Text)
unfolding new_scheme sort_params choose_mode
build_async_url netloc_ok url = do
  require (not (is_empty url)) empty_url
  parsed ← or_raise (urlsplit netloc_ok url) bad_netloc
  scheme ← or_raise (new_scheme parsed.scheme) wrong_scheme
  let (modes, retained) = sort_params (parse_qsl parsed.query)
  mode ← choose_mode modes
  ok (urlunsplit (record parsed { scheme = scheme; query = urlencode retained }), mode)
