-- ===== src/Url/Build/Tests.antt =====
-- The URL functions (api/db/url.py) on concrete URLs.
use balotly_backend.Base.{none, some, Bool, true, ◌≡◌, ◌↔◌, refl, [], ◌∷◌}
use balotly_backend.Base.Text.{Text, codes, split_first, split_on, join}
use balotly_backend.Url.Query.{
  Pairs, parse_qsl, urlencode, parse_field, unquote_plus, encode_pair, quote_plus, quote_byte,
}
use balotly_backend.Url.Split.{SplitResult, urlsplit, urlunsplit}
use balotly_backend.Url.Build.{Error, ok, err, build_async_url}
use balotly_backend.Url.Build.Laws.{Builds, build_async_url_iff}

-- A test that accepts every network location.
abbrev pub any_netloc : Text → Bool
any_netloc t = true

abbrev url_pairs : Pairs
url_pairs =
    (codes "sslmode", codes "require") ∷ (codes "a", []) ∷ (codes "channel_binding", codes "x") ∷ []

abbrev pub source_url : Text
source_url = codes "postgres://u:p@db/x?sslmode=require&a=&channel_binding=x"

abbrev pub target_url : Text
target_url = codes "postgresql+asyncpg://u:p@db/x?a="

build_async_url_iff_example :
    (build_async_url any_netloc source_url ≡ ok (target_url, some (codes "require")))
    ↔ Builds any_netloc source_url target_url (some (codes "require"))
build_async_url_iff_example =
    build_async_url_iff any_netloc source_url target_url (some (codes "require"))

-- The URL is accepted.
pub source_url-target_url :
    build_async_url any_netloc source_url ≡ ok (target_url, some (codes "require"))
unfolding build_async_url urlsplit urlunsplit parse_qsl urlencode split_first split_on parse_field
    unquote_plus join encode_pair quote_plus quote_byte
source_url-target_url = refl

-- Two modes are refused.
two_modes :
    build_async_url any_netloc (codes "postgres://h/x?sslmode=require&sslmode=allow")
    ≡ err Error.many_sslmodes
unfolding build_async_url urlsplit urlunsplit parse_qsl urlencode split_first split_on parse_field
    unquote_plus join encode_pair quote_plus quote_byte
two_modes = refl

abbrev bare_url : Text
bare_url = codes "postgresql:///x"

abbrev bare_parts : SplitResult
bare_parts = record {
  scheme = codes "postgresql";
  netloc = [];
  path = codes "/x";
  query = [];
  fragment = [];
}

bare_url-bare_parts : urlsplit any_netloc bare_url ≡ some bare_parts
unfolding urlsplit split_first
bare_url-bare_parts = refl

-- A URL without a host loses its two slashes.
no_host : build_async_url any_netloc bare_url ≡ ok (codes "postgresql+asyncpg:/x", none)
unfolding build_async_url urlsplit urlunsplit parse_qsl urlencode split_first split_on parse_field
    unquote_plus join encode_pair quote_plus quote_byte
no_host = refl

-- An escape that is no UTF-8 comes back as U+FFFD, in a value that is kept.
replaced :
    parse_qsl (codes "x=a%FFb%E2%82&y=%c3%a9")
    ≡ (codes "x", b'a' ∷ 239 ∷ 191 ∷ 189 ∷ b'b' ∷ 239 ∷ 191 ∷ 189 ∷ [])
      ∷ (codes "y", 195 ∷ 169 ∷ [])
      ∷ []
unfolding parse_qsl split_first split_on parse_field unquote_plus
replaced = refl
