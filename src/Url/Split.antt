-- ===== src/Url/Split.antt =====
-- `urlsplit` and `urlunsplit` of Python 3.12's `urllib.parse`, as api/db/url.py calls them.
use balotly_backend.Base.{
  ℕ, ◌+◌, Option, none, some, Bool, true, false, ◌&&◌, ◌||◌, [], ◌∷◌, ◌++◌, leb, eqb, if◌then◌else◌,
}
use balotly_backend.Base.Text.{Text, codes, split_first}

pub record SplitResult : Type 0 where
  pub scheme : Text
  pub netloc : Text
  pub path : Text
  pub query : Text
  pub fragment : Text

is_letter : ℕ → Bool
is_letter c = (leb b'a' c && leb c b'z') || (leb b'A' c && leb c b'Z')

-- `scheme_chars`
is_scheme_char : ℕ → Bool
unfolding is_letter
is_scheme_char c =
    is_letter c || (leb b'0' c && leb c b'9') || eqb c b'+' || eqb c b'-' || eqb c b'.'

abbrev all_bytes : (ℕ → Bool) → Text → Bool
all_bytes p [] = true
all_bytes p (c ∷ t) = p c && all_bytes p t

-- `lstrip` of C0 control characters and spaces.
strip_left : Text → Text
strip_left [] = []
strip_left (c ∷ t) = let rest = strip_left t in if leb c 32 then rest else c ∷ t

-- Tabs and line ends go wherever they stand.
drop_unsafe : Text → Text
drop_unsafe [] = []
drop_unsafe (c ∷ t) =
    let rest = drop_unsafe t in if eqb c 9 || eqb c 10 || eqb c 13 then rest else c ∷ rest

-- `str.lower` on a scheme, whose characters are ASCII.
lower : Text → Text
lower [] = []
lower (c ∷ t) = (if leb b'A' c && leb c b'Z' then c + 32 else c) ∷ lower t

starts_with_letter : Text → Bool
unfolding is_letter
starts_with_letter [] = false
starts_with_letter (c ∷ t) = is_letter c

-- The scheme, in lower case, and the rest; no scheme where the text before the first colon is none.
take_scheme : Text → Text × Text
unfolding starts_with_letter is_scheme_char lower
take_scheme url = elim (split_first b':' url).1 [
  | none ↦ ([], url)
  | some rest ↦
      let name = (split_first b':' url).0 in
      if starts_with_letter name && all_bytes is_scheme_char name
      then (lower name, rest)
      else ([], url)
]

-- `_splitnetloc`: up to the first of `/?#`.
take_netloc : Text → Text × Text
take_netloc [] = ([], [])
take_netloc (c ∷ t) =
    let rest = take_netloc t in
    if eqb c b'/' || eqb c b'?' || eqb c b'#' then ([], c ∷ t) else (c ∷ rest.0, rest.1)

split_netloc : Text → Text × Text
unfolding take_netloc
split_netloc (c ∷ d ∷ t) = if eqb c b'/' && eqb d b'/' then take_netloc t else ([], c ∷ d ∷ t)
split_netloc t = ([], t)

abbrev or_empty : Option Text → Text
or_empty none = []
or_empty (some t) = t

-- `urlsplit`. `netloc_ok` is what Python asks of the brackets and the Unicode form of a network
-- location; none is its ValueError.
unfoldable pub urlsplit : (netloc_ok : Text → Bool) → Text → Option SplitResult
unfolding strip_left drop_unsafe take_scheme split_netloc
urlsplit netloc_ok url =
    let (scheme, rest) = take_scheme (drop_unsafe (strip_left url)) in
    let (netloc, rest') = split_netloc rest in
    let (rest'', fragment) = split_first b'#' rest' in
    let (path, query) = split_first b'?' rest'' in
    if netloc_ok netloc
    then some (record {
      scheme = scheme;
      netloc = netloc;
      path = path;
      query = or_empty query;
      fragment = or_empty fragment;
    })
    else none

abbrev is_empty : Text → Bool
is_empty [] = true
is_empty (c ∷ t) = false

abbrev starts_with_slash : Text → Bool
starts_with_slash [] = false
starts_with_slash (c ∷ t) = eqb c b'/'

abbrev pub starts_with_slashes : Text → Bool
starts_with_slashes (c ∷ d ∷ t) = eqb c b'/' && eqb d b'/'
starts_with_slashes t = false

-- The network location and the path, for a scheme that is not in `uses_netloc`.
unfoldable pub authority_and_path : Text → Text → Text
authority_and_path [] path = if starts_with_slashes path then codes "//" ++ path else path
authority_and_path (c ∷ netloc) path =
    codes "//"
    ++ (c ∷ netloc)
    ++ (if is_empty path || starts_with_slash path then path else b'/' ∷ path)

abbrev pub prefixed : ℕ → Text → Text
prefixed c [] = []
prefixed c (d ∷ t) = c ∷ d ∷ t

-- `urlunsplit`, for a scheme that is neither empty nor in `uses_netloc`, as `postgresql+asyncpg`.
unfoldable pub urlunsplit : SplitResult → Text
unfolding authority_and_path
urlunsplit p =
    p.scheme
    ++ b':'
      ∷ (authority_and_path p.netloc p.path ++ (prefixed b'?' p.query ++ prefixed b'#' p.fragment))
