-- ===== src/Migration/Simulation/Histories.antt =====
-- Commands and sequences of commands by the revision's catalog (alembic/versions) beside
-- Schema.Statements.
use mathlib.Core.List.{map-append}
use balotly_backend.Schema.Statements.Ledger.{recorded, votes-run}
use balotly_backend.Migration.Simulation.Stores.{vote_rows}
use balotly_backend.Base.{◌++◌, sym, some, ◌≡◌, refl, ap, ◌∙◌, List, [], ◌∷◌, map, string_eq}
use balotly_backend.Schema.Database.{Database, Result, ok, err}
use balotly_backend.Schema.Statements.{execute, truncate_votes, run, after}
use balotly_backend.Migration.Operations.{migrate, apply}
use balotly_backend.Migration.Revision.{upgrade}
use balotly_backend.Migration.Revision.Roundtrip.{upgraded, catalog_of}
use balotly_backend.Migration.Cells.{vote_cells, tables_of}
use balotly_backend.Migration.Execution.{truncate_table}
use balotly_backend.Migration.Commands.{
  Command, insert, update, delete, truncate, perform, perform_all, settled, statement_of,
  map_result,
}
use balotly_backend.Migration.Simulation.Writes.{perform-insert, perform-update}
use balotly_backend.Migration.Simulation.Deletes.{perform-delete}

perform-truncate :
    (db : Database)
    → perform upgraded truncate (tables_of db)
      ≡ some (map_result tables_of (execute (statement_of truncate) db))
unfolding perform truncate_table execute truncate_votes upgraded catalog_of upgrade migrate apply
    string_eq
perform-truncate db = refl

-- One command, run by the catalog on the tables of a database, has the result of its statement on the
-- database: the same error, or the tables of the database that the statement leaves.
pub perform-execute :
    (command : Command) (db : Database)
    → perform upgraded command (tables_of db)
      ≡ some (map_result tables_of (execute (statement_of command) db))
perform-execute (insert w) db = perform-insert w db
perform-execute (update w) db = perform-update w db
perform-execute (delete e p) db = perform-delete e p db
perform-execute truncate db = perform-truncate db

settled-after :
    (db : Database) (m : Result Database)
    → settled (tables_of db) (some (map_result tables_of m)) ≡ tables_of (after db m)
settled-after db (ok next) = refl
settled-after db (err e) = refl

-- From every database, every sequence of INSERT, UPDATE and DELETE on the ten tables and TRUNCATE of
-- votes, run by the catalog that the revision makes, ends in the tables of the database in which the
-- statements end.
pub perform_all-run :
    (commands : List Command) (db : Database)
    → perform_all upgraded commands (tables_of db) ≡ tables_of (run (map statement_of commands) db)
unfolding perform_all run
perform_all-run [] db = refl
perform_all-run (command ∷ commands) db =
    ap (λ m. perform_all upgraded commands (settled (tables_of db) m)) (perform-execute command db)
    ∙ ap (perform_all upgraded commands) (settled-after db (execute (statement_of command) db))
    ∙ perform_all-run commands (after db (execute (statement_of command) db))

-- Under the catalog that the revision makes, with its triggers, no sequence of commands changes,
-- removes or reorders a row of votes: afterwards the table has its old rows, and then those of the
-- successful INSERTs in their order.
pub votes-perform_all :
    (commands : List Command) (db : Database)
    → perform_all upgraded commands (tables_of db) "votes"
      ≡ tables_of db "votes" ++ map vote_cells (recorded (map statement_of commands) db)
votes-perform_all commands db =
    ap (λ tables. tables "votes") (perform_all-run commands db)
    ∙ vote_rows (run (map statement_of commands) db)
    ∙ ap (map vote_cells) (votes-run (map statement_of commands) db)
    ∙ map-append vote_cells db.votes (recorded (map statement_of commands) db)
    ∙ ap (λ rows. rows ++ map vote_cells (recorded (map statement_of commands) db))
        (sym (vote_rows db))
