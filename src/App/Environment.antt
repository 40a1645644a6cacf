-- ===== src/App/Environment.antt =====
-- Alembic's environment (alembic/env.py): the URL that it chooses, the option that it sets, and the
-- run of the migrations, online and offline.
--
-- The settings are what pydantic read when api.db.database was imported, none if it refused them: its
-- names ignore case and it reads a .env file of its own, so that they are given apart from the
-- variables, which are `os.environ` after `load_dotenv`. How each step of a run ends is a parameter
-- that may depend on all that has happened before.
pub mod Laws
pub mod Runs
mod Tests
use balotly_backend.Base.{
  ℕ, Option, none, some, Bool, true, false, String, List, [], ◌∷◌, ◌++◌, eqb, string_eq,
  if◌then◌else◌,
}
use balotly_backend.Base.Dict.{Dict, lookup}
use balotly_backend.Base.Text.{Text}
use balotly_backend.Url.Build
use balotly_backend.Url.Build.{build_async_url}
use balotly_backend.App.Engine.{Settings, Engine, null_pool, connect_args, get_db_engine}

-- pydantic's ValidationError, the ValueErrors of `build_async_url`, and the RuntimeError.
pub data Error : Type 0 where
  bad_settings : Error
  bad_url : Build.Error → Error
  no_url : Error

pub data Result (A : Type 0) : Type 0 where
  ok : A → Result A
  err : Error → Result A

infixl 5 ◌>>=◌ ◌>>◌
abbrev pub ◌>>=◌ : {A B : Type 0} → Result A → (A → Result B) → Result B
ok a >>= f = f a
err e >>= f = err e

abbrev pub ◌>>◌ : {A B : Type 0} → Result A → Result B → Result B
m >> k = m >>= λ _. k

abbrev pub or_raise : {A : Type 0} → Option A → Error → Result A
or_raise none e = err e
or_raise (some a) e = ok a

abbrev pub lift : {A : Type 0} → Build.Result A → Result A
lift (Build.ok a) = ok a
lift (Build.err e) = err (bad_url e)

-- `a or b` for texts that may be missing; an empty text counts as missing.
abbrev pub first_text : Option Text → Option Text → Option Text
first_text none b = b
first_text (some []) b = b
first_text (some (c ∷ t)) b = some (c ∷ t)

-- `os.getenv("DB_URL") or os.getenv("DATABASE_URL")`, then `if not db_url`.
unfoldable pub chosen_url : Dict String Text → Option Text
chosen_url variables =
    first_text (first_text (lookup "DB_URL" variables) (lookup "DATABASE_URL" variables)) none

-- `db_url.replace("%", "%%")`
unfoldable pub escape_percent : Text → Text
escape_percent [] = []
escape_percent (c ∷ t) =
    let rest = escape_percent t in if eqb c b'%' then c ∷ c ∷ rest else c ∷ rest

-- What the module has after its top: the engine of an online run, and the option sqlalchemy.url.
pub record Environment : Type 0 where
  pub engine : Engine
  pub option : Text

-- The module's top. Its import of api.db.database makes the API's engine of the settings.
unfoldable pub load :
    (netloc_ok : Text → Bool) → Option Settings → Dict String Text → Result Environment
load netloc_ok read variables = do
  settings ← or_raise read bad_settings
  lift (get_db_engine netloc_ok settings)
  db_url ← or_raise (chosen_url variables) no_url
  (url, mode) ← lift (build_async_url netloc_ok db_url)
  ok (record {
    engine = record { url = url; ssl = connect_args mode; pool = null_pool };
    option = escape_percent url;
  })

pub data MigrationStep : Type 0 where
  connect configure begin_transaction run_migrations commit rollback : MigrationStep
  close_connection dispose_engine : MigrationStep

-- The steps so far, and whether the last block ended without an exception.
abbrev pub Ended : Type 0
Ended = Bool × List MigrationStep

abbrev pub then_do : Ended → (List MigrationStep → Ended) → Ended
then_do (true, t) f = f t
then_do (false, t) f = (false, t)

module _ (succeeds : List MigrationStep → MigrationStep → Bool) where
  abbrev pub do_step : MigrationStep → List MigrationStep → Ended
  do_step s t = (succeeds t s, t ++ s ∷ [])

  -- The exit of a `with` block after an exception, which goes on.
  abbrev pub fail_with : MigrationStep → List MigrationStep → Ended
  fail_with s t = (false, t ++ s ∷ [])

  abbrev pub leave : (good bad : MigrationStep) → Ended → Ended
  leave good bad (true, t) = do_step good t
  leave good bad (false, t) = fail_with bad t

  -- `with context.begin_transaction(): context.run_migrations()` on a connection: the block's exit
  -- commits, or rolls back after an exception. What SQLAlchemy does of itself where the
  -- commit fails is part of that step.
  abbrev pub in_transaction : List MigrationStep → Ended
  in_transaction t =
      then_do (do_step begin_transaction t) (λ u. leave commit rollback (do_step run_migrations u))

  unfoldable pub do_run_migrations : List MigrationStep → Ended
  do_run_migrations t = then_do (do_step configure t) in_transaction

  -- The same block offline: BEGIN and COMMIT are only written out, and nothing is written after an
  -- exception.
  abbrev pub in_script : List MigrationStep → Ended
  in_script t =
      then_do (do_step begin_transaction t)
        (λ u. then_do (do_step run_migrations u) (do_step commit))

  unfoldable pub run_migrations_offline : List MigrationStep → Ended
  run_migrations_offline t = then_do (do_step configure t) in_script

  unfoldable pub run_migrations_online : List MigrationStep → Ended
  unfolding do_run_migrations
  run_migrations_online t =
      then_do
        (then_do (do_step connect t)
          (λ u. leave close_connection close_connection (do_run_migrations u)))
        (do_step dispose_engine)

  -- The module's bottom.
  unfoldable pub run : (offline : Bool) → Ended
  unfolding run_migrations_offline run_migrations_online
  run offline = if offline then run_migrations_offline [] else run_migrations_online []
