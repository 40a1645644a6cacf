-- ===== src/Url/Build/Laws.antt =====
-- What `build_async_url` (api/db/url.py) accepts, and what it gives.
use balotly_backend.Base.{
  Option, none, some, Bool, true, ◌||◌, ◌≡◌, ◌≢◌, ◌↔◌, refl, subst, List, [], ◌∷◌, arith,
  if◌then◌else◌, ◌⊎◌, inl, inr, Option-cases,
}
use balotly_backend.Base.Text.{Text, codes, same_text, same_text_iff}
use balotly_backend.Url.Query.{Pairs, parse_qsl, urlencode}
use balotly_backend.Url.Split.{SplitResult, urlsplit, urlunsplit}
use balotly_backend.Url.Build.{
  Error, Result, ok, err, one_of, ssl_mode_names, async_scheme, schemes, new_scheme, sort_params,
  choose_mode, build_async_url,
}

-- The values of the pairs that are called sslmode.
abbrev pub ssl_values : Pairs → List Text
ssl_values [] = []
ssl_values ((k, v) ∷ ps) =
    let rest = ssl_values ps in if same_text k (codes "sslmode") then v ∷ rest else rest

-- The pairs that are called neither sslmode nor channel_binding.
abbrev pub unrelated : Pairs → Pairs
unrelated [] = []
unrelated ((k, v) ∷ ps) =
    let rest = unrelated ps in
    if same_text k (codes "sslmode") || same_text k (codes "channel_binding")
    then rest
    else (k, v) ∷ rest

sort_params-eq : (ps : Pairs) → sort_params ps ≡ (ssl_values ps, unrelated ps)
unfolding sort_params
sort_params-eq [] = refl
sort_params-eq ((k, v) ∷ ps) = ground (arith, sort_params-eq ps)

abbrev pub mode_values : Option Text → List Text
mode_values none = []
mode_values (some m) = m ∷ []

abbrev pub IsSupported : Option Text → Type 0
IsSupported none = Unit
IsSupported (some m) = one_of ssl_mode_names m ≡ true

-- What a URL and the mode beside it are to the URL that was given.
pub record Builds (netloc_ok : Text → Bool) (url clean : Text) (mode : Option Text) : Type 0 where
  pub nonempty : url ≢ []
  pub parsed : SplitResult
  pub splits : urlsplit netloc_ok url ≡ some parsed
  pub postgres : one_of schemes parsed.scheme ≡ true
  pub one_mode : ssl_values (parse_qsl parsed.query) ≡ mode_values mode
  pub supported : IsSupported mode
  pub cleaned :
      clean
      ≡ urlunsplit (record parsed {
        scheme = async_scheme;
        query = urlencode (unrelated (parse_qsl parsed.query));
      })

new_scheme-some : (s : Text) → one_of schemes s ≡ true → new_scheme s ≡ some async_scheme
unfolding new_scheme
new_scheme-some s h = ground (arith, same_text_iff s async_scheme)

new_scheme-one_of : (s t : Text) → new_scheme s ≡ some t → one_of schemes s ≡ true
unfolding new_scheme
new_scheme-one_of s t e = ground arith

choose_mode-ok :
    (vs : List Text) (mode : Option Text)
    → choose_mode vs ≡ ok mode
    → (vs ≡ mode_values mode) × IsSupported mode
unfolding choose_mode
choose_mode-ok [] none e = (refl, tt)
choose_mode-ok [] (some m) e = cc
choose_mode-ok (v ∷ []) none e = absurd (ground arith)
choose_mode-ok (v ∷ []) (some m) e = ground arith
choose_mode-ok (v ∷ w ∷ vs) mode e = cc

choose_mode-values :
    (mode : Option Text) → IsSupported mode → choose_mode (mode_values mode) ≡ ok mode
unfolding choose_mode
choose_mode-values none h = refl
choose_mode-values (some m) h = rw h

Result-cases : {A : Type 0} (m : Result A) → ((a : A) × (m ≡ ok a)) ⊎ ((x : Error) × (m ≡ err x))
Result-cases (ok a) = inl (a, refl)
Result-cases (err x) = inr (x, refl)

module _ (netloc_ok : Text → Bool) (url clean : Text) (mode : Option Text) where
  build-Builds : build_async_url netloc_ok url ≡ ok (clean, mode) → Builds netloc_ok url clean mode
  unfolding build_async_url
  build-Builds e = elim (Option-cases (urlsplit netloc_ok url)) [
    | inl bad ↦ absurd (ground arith)
    | inr (p, split) ↦ elim (Option-cases (new_scheme p.scheme)) [
      | inl bad ↦ absurd (ground arith)
      | inr (s, scheme) ↦ elim (Result-cases (choose_mode (ssl_values (parse_qsl p.query)))) [
        | inr (x, bad) ↦ absurd (ground (arith, sort_params-eq (parse_qsl p.query)))
        | inl (m, chosen) ↦
            let known = new_scheme-one_of p.scheme s scheme in
            let same : m ≡ mode = ground (arith, sort_params-eq (parse_qsl p.query)) in
            let values = choose_mode-ok (ssl_values (parse_qsl p.query)) m chosen in
            record {
              nonempty = ground arith;
              parsed = p;
              splits = split;
              postgres = known;
              one_mode = ground (arith, values, sort_params-eq (parse_qsl p.query));
              supported = subst IsSupported same values.1;
              cleaned =
                  ground
                    (arith, new_scheme-some p.scheme known, sort_params-eq (parse_qsl p.query));
            }
      ]
    ]
  ]

  Builds-build : Builds netloc_ok url clean mode → build_async_url netloc_ok url ≡ ok (clean, mode)
  unfolding build_async_url
  Builds-build b = ground (
    arith,
    b.nonempty,
    b.splits,
    new_scheme-some b.parsed.scheme b.postgres,
    sort_params-eq (parse_qsl b.parsed.query),
    b.one_mode,
    choose_mode-values mode b.supported,
    b.cleaned,
  )

  -- The function gives a URL and a mode exactly if the text is not empty, Python splits it, its scheme
  -- is one of the three, and it has no sslmode or one supported one, which is the mode; and the URL is
  -- then the same one under the asyncpg scheme, with the pairs that Python reads from its query in
  -- their order, except those called sslmode or channel_binding.
  pub build_async_url_iff :
      (build_async_url netloc_ok url ≡ ok (clean, mode)) ↔ Builds netloc_ok url clean mode
  build_async_url_iff = (build-Builds, Builds-build)
