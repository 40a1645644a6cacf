-- ===== src/App/Responses/Laws.antt =====
-- What a client finds in an error of api/core/errors.py.
use balotly_backend.Base.{
  ℕ, Option, none, some, ◌≡◌, ◌≢◌, refl, ap, ◌∙◌, String, [], ◌∷◌, arith, string_eq,
}
use balotly_backend.Base.Dict.{Dict, lookup, insert, lookup-insert, NodupKeys}
use balotly_backend.Base.Text.{Text}
use balotly_backend.App.Responses.{update, api_error}

module _ {V : Type 0} where
  abbrev pub prefer : Option V → Option V → Option V
  prefer none o = o
  prefer (some v) o = some v

  lookup-update :
      (k : String) (d e : Dict String V)
      → NodupKeys e
      → lookup k (update d e) ≡ prefer (lookup k e) (lookup k d)
  lookup-update k d [] u = refl
  lookup-update k d ((j, v) ∷ e) u =
      ground (arith, lookup-update k (insert j v d) e u.1, lookup-insert k j v d, u.0)

  abbrev given : (Text → V) → (code message : Text) → Dict String V
  given text code message = ("code", text code) ∷ ("message", text message) ∷ []

  given_other :
      (text : Text → V) (code message : Text) (k : String)
      → k ≢ "code"
      → k ≢ "message"
      → lookup k (given text code message) ≡ none
  given_other text code message k a b = ground (arith, a, b)

  prefer-none : (o : Option V) → prefer o none ≡ o
  prefer-none none = refl
  prefer-none (some v) = refl

  -- The detail of an error has its code, its message and whatever extra names it was given, and
  -- nothing else, whatever the extra values are.
  pub api_error_detail :
      (text : Text → V) (status : ℕ) (code message : Text) (extra : Dict String V)
      → NodupKeys extra
      → lookup "code" extra ≡ none
      → lookup "message" extra ≡ none
      → let detail = (api_error text status code message extra).detail in
        (lookup "code" detail ≡ some (text code))
        × (lookup "message" detail ≡ some (text message))
        × ((k : String) → k ≢ "code" → k ≢ "message" → lookup k detail ≡ lookup k extra)
  unfolding api_error string_eq
  api_error_detail text status code message extra u no_code no_message = (
    ground (arith, lookup-update "code" (given text code message) extra u, no_code),
    ground (arith, lookup-update "message" (given text code message) extra u, no_message),
    λ k a b.
        lookup-update k (given text code message) extra u
        ∙ ap (prefer (lookup k extra)) (given_other text code message k a b)
        ∙ prefer-none (lookup k extra),
  )
