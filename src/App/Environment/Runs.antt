-- ===== src/App/Environment/Runs.antt =====
-- The runs of the migrations (alembic/env.py) against a plan: the steps in their order, and what is done
-- after a step that fails.
use balotly_backend.Base.{Bool, true, false, ◌≡◌, List, [], ◌∷◌, ◌++◌, arith, if◌then◌else◌}
use balotly_backend.App.Environment.{
  MigrationStep, Ended, connect, configure, begin_transaction, run_migrations, commit, rollback,
  close_connection, dispose_engine, do_run_migrations, run_migrations_online,
  run_migrations_offline, run,
}

-- The steps of a run in which none fails.
abbrev pub plan : (offline : Bool) → List MigrationStep
plan true = configure ∷ begin_transaction ∷ run_migrations ∷ commit ∷ []
plan false =
    connect ∷ configure ∷ begin_transaction ∷ run_migrations ∷ commit ∷ close_connection
    ∷ dispose_engine ∷ []

-- What must follow a step that fails: migrations that fail are rolled back, and an open connection is
-- closed.
abbrev pub amends : (offline : Bool) → MigrationStep → List MigrationStep
amends true s = []
amends false run_migrations = rollback ∷ close_connection ∷ []
amends false configure = close_connection ∷ []
amends false begin_transaction = close_connection ∷ []
amends false commit = close_connection ∷ []
amends false s = []

-- The steps of the plan after those that are done, up to the first that fails and its amends.
pub follow :
    (succeeds : List MigrationStep → MigrationStep → Bool) (offline : Bool)
    (steps done : List MigrationStep)
    → Ended
follow succeeds offline [] done = (true, done)
follow succeeds offline (s ∷ steps) done =
    if succeeds done s
    then follow succeeds offline steps (done ++ s ∷ [])
    else (false, (done ++ s ∷ []) ++ amends offline s)

-- However its steps end, a run does the steps of the plan in their order up to the first that fails.
-- Migrations are committed right after they have all succeeded; online, those that fail are rolled
-- back, and the connection is closed after every failure; offline nothing follows a failure.
pub run-follow :
    (succeeds : List MigrationStep → MigrationStep → Bool) (offline : Bool)
    → run succeeds offline ≡ follow succeeds offline (plan offline) []
unfolding run do_run_migrations run_migrations_online run_migrations_offline follow
run-follow succeeds true = ground arith
run-follow succeeds false = ground arith
