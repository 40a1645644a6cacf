-- ===== src/App/Environment/Laws.antt =====
-- The database of alembic/env.py beside that of api/db/database.py.
use balotly_backend.Base.{
  ℕ, Option, some, Bool, ◌≡◌, ◌≢◌, refl, String, [], ◌∷◌, arith, string_eq, inl, inr, ◌⊎◌,
}
use balotly_backend.Base.Dict.{Dict}
use balotly_backend.Base.Text.{Text}
use balotly_backend.Url.Build
use balotly_backend.Url.Build.{build_async_url}
use balotly_backend.App.Engine.{Settings, Engine, queue_pool, connect_args, get_db_engine}
use balotly_backend.App.Environment.{Environment, ok, load, chosen_url, escape_percent}

Result-cases :
    {A : Type 0} (m : Build.Result A)
    → ((a : A) × (m ≡ Build.ok a)) ⊎ ((e : Build.Error) × (m ≡ Build.err e))
Result-cases (Build.ok a) = inl (a, refl)
Result-cases (Build.err e) = inr (e, refl)

module _ (netloc_ok : Text → Bool) where
  -- Where Alembic's environment loads, and the URL that it chooses from the variables is the one that
  -- pydantic has read into the settings, the API's engine can be made too, and the engine of the
  -- migrations has its URL and its TLS mode.
  pub load-get_db_engine :
      (settings : Settings) (variables : Dict String Text)
      → chosen_url variables ≡ some settings.db_url
      → {env : Environment} → load netloc_ok (some settings) variables ≡ ok env
      → (engine : Engine) × (get_db_engine netloc_ok settings ≡ Build.ok engine)
        × (env.engine.url ≡ engine.url)
        × (env.engine.ssl ≡ engine.ssl)
  unfolding load get_db_engine
  load-get_db_engine settings variables chosen {env} h =
      elim (Result-cases (build_async_url netloc_ok settings.db_url)) [
        | inl (r, e) ↦ (
          record {
            url = r.0;
            ssl = connect_args r.1;
            pool =
                queue_pool settings.db_pool_size settings.db_max_overflow settings.db_pool_timeout
                  settings.db_pool_recycle;
          },
          ground (arith, e),
          ground (arith, h, chosen, e),
          ground (arith, h, chosen, e),
        )
        | inr (x, e) ↦ absurd (ground (arith, e, h))
      ]

-- The interpolation of Python's `configparser` gives back the URL that the option was made from.
pub interpolate-escape_percent :
    (interpolate : Text → Option Text)
    -- The documented syntax: %% stands for %, other characters for themselves.
    → interpolate [] ≡ some []
    → ((t u : Text) → interpolate t ≡ some u → interpolate (b'%' ∷ b'%' ∷ t) ≡ some (b'%' ∷ u))
    → ((c : ℕ) (t u : Text)
        → c ≢ b'%'
        → interpolate t ≡ some u
        → interpolate (c ∷ t) ≡ some (c ∷ u))
    → (url : Text) → interpolate (escape_percent url) ≡ some url
unfolding escape_percent
interpolate-escape_percent interpolate nil percent other [] = nil
interpolate-escape_percent interpolate nil percent other (c ∷ t) =
    let rest = interpolate-escape_percent interpolate nil percent other t in
    ground (
      arith,
      rest,
      percent (escape_percent t) t rest,
      λ (h : c ≢ b'%'). other c (escape_percent t) t h rest,
    )
