-- ===== src/App/Environment/Tests.antt =====
-- The environment of alembic/env.py for a concrete DB_URL, and the theorems about it.
use balotly_backend.Base.{
  ℕ, Option, none, some, Bool, true, ◌≡◌, refl, ap, String, List, [], ◌∷◌, arith, eqb, string_eq,
  if◌then◌else◌,
}
use balotly_backend.Base.Dict.{Dict}
use balotly_backend.Base.Text.{Text, codes}
use balotly_backend.Url.Build
use balotly_backend.Url.Build.{build_async_url}
use balotly_backend.Url.Build.Tests.{any_netloc, source_url, target_url, source_url-target_url}
use balotly_backend.App.Engine.{Settings, Engine, null_pool, connect_args, get_db_engine}
use balotly_backend.App.Environment.{
  Environment, ok, load, chosen_url, escape_percent, connect, configure, begin_transaction,
  run_migrations, rollback, close_connection, MigrationStep, run,
}
use balotly_backend.App.Environment.Laws.{load-get_db_engine, interpolate-escape_percent}
use balotly_backend.App.Environment.Runs.{follow, plan, run-follow}

abbrev settings_of : Text → Settings
settings_of url = record {
  db_url = url;
  db_pool_size = 5;
  db_max_overflow = 10;
  db_pool_timeout = 30;
  db_pool_recycle = 1800;
}

abbrev variables : Dict String Text
variables = ("DATABASE_URL", codes "sqlite://") ∷ ("DB_URL", source_url) ∷ []

abbrev environment : Environment
environment = record {
  engine = record { url = target_url; ssl = some (codes "require"); pool = null_pool };
  option = target_url;
}

loads : load any_netloc (some (settings_of source_url)) variables ≡ ok environment
unfolding load get_db_engine chosen_url connect_args escape_percent string_eq
loads = ground (arith, source_url-target_url)

chooses : chosen_url variables ≡ some source_url
unfolding chosen_url string_eq
chooses = refl

load-get_db_engine_example :
    (engine : Engine) × (get_db_engine any_netloc (settings_of source_url) ≡ Build.ok engine)
    × (target_url ≡ engine.url)
    × (some (codes "require") ≡ engine.ssl)
load-get_db_engine_example =
    load-get_db_engine any_netloc (settings_of source_url) variables chooses loads

-- Migrations that fail are rolled back, and the connection is closed.
abbrev broken : List MigrationStep → MigrationStep → Bool
broken t run_migrations = Bool.false
broken t s = true

broken-run : run broken Bool.false ≡ (
  Bool.false,
  connect ∷ configure ∷ begin_transaction ∷ run_migrations ∷ rollback ∷ close_connection ∷ [],
)
unfolding run
broken-run = refl

run-follow_example : run broken Bool.false ≡ follow broken Bool.false (plan Bool.false) []
run-follow_example = run-follow broken Bool.false

abbrev cons_text : ℕ → Option Text → Option Text
cons_text c none = none
cons_text c (some t) = some (c ∷ t)

-- The interpolation without names: a single % is an error.
abbrev interpolate_after : (waiting : Bool) → Text → Option Text
interpolate_after Bool.false [] = some []
interpolate_after true [] = none
interpolate_after Bool.false (c ∷ t) =
    let plain = interpolate_after Bool.false t in
    let special = interpolate_after true t in if eqb c b'%' then special else cons_text c plain
interpolate_after true (c ∷ t) =
    let rest = interpolate_after Bool.false t in if eqb c b'%' then cons_text b'%' rest else none

interpolate-escape_percent_example :
    interpolate_after Bool.false (escape_percent (codes "a%20b")) ≡ some (codes "a%20b")
interpolate-escape_percent_example =
    interpolate-escape_percent (interpolate_after Bool.false) refl (λ t u h. ap (cons_text b'%') h)
      (λ c t u other h. ground (arith, other, h)) (codes "a%20b")
