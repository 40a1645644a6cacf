-- ===== src/Migration/Tests.antt =====
-- The theorems about the initial revision (alembic/versions) at concrete inputs.
use balotly_backend.Base.{List, some, true, ◌≡◌, refl, [], ◌∷◌, ◌++◌, string_eq, arith, map}
use balotly_backend.Base.Dict.{lookup}
use balotly_backend.Schema.Database.{unique_violation, restrict_violation, err}
use balotly_backend.Schema.Checks.{transaction_types}
use balotly_backend.Schema.Constraints.{validate_transaction}
use balotly_backend.Migration.Writes.{
  of_vote, Write, of_transaction, table_of, cells_of, validate_write,
}
use balotly_backend.Schema.Statements.{
  insert_row, mutate_votes, truncate_votes, execute, delete_rows, cascade, is_restricted,
}
use balotly_backend.Schema.Constraints.{validate_vote}
use balotly_backend.Schema.Statements.Ledger.{recorded}
use balotly_backend.Schema.Fixtures.{paid, second_vote, db}
use balotly_backend.Migration.Catalog.{Catalog, required, varchar}
use balotly_backend.Migration.Operations.{migrate}
use balotly_backend.Migration.Operations as Operations
use balotly_backend.Migration.Operations.Frame.{beside, all_avoid}
use balotly_backend.Migration.Revision.{upgrade, downgrade}
use balotly_backend.Migration.Revision.Roundtrip.{upgraded, downgrade-upgrade}
use balotly_backend.Migration.Enforcement.{validate}
use balotly_backend.Migration.Cells.{vote_cells, tables_of}
use balotly_backend.Migration.Refinement.{validate-write}
use balotly_backend.Migration.Execution.{cascaded, rows_where, delete_chosen}
use balotly_backend.Migration.Commands.{
  Command, insert, truncate, delete, vote, contest, perform_all, perform, statement_of, map_result,
}
use balotly_backend.Migration.Simulation.Deletes.{delete_chosen-cascaded}
use balotly_backend.Migration.Simulation.Histories.{perform-execute, votes-perform_all}
use balotly_backend.Migration.Metadata.{declare}
use balotly_backend.Migration.Metadata.Same.{column_at, check_at, foreign_key_at, uniques_at}
use balotly_backend.Migration.Metadata.Agreement.{models, upgraded-models}

-- A database that has Alembic's own table and nothing else.
abbrev versioned : Catalog
versioned = record {
  tables =
      (
        "alembic_version",
        record {
          columns = ("version_num", required (varchar 32)) ∷ [];
          checks = [];
          foreign_keys = [];
          uniques = [];
        },
      )
      ∷ [];
  indexes = [];
  functions = [];
  triggers = [];
}

versioned_free : all_avoid (upgrade ++ downgrade) versioned ≡ true
unfolding upgrade downgrade string_eq
versioned_free = refl

downgrade-upgrade_example :
    (migrate upgrade versioned ≡ Operations.ok (beside versioned upgraded))
    × (migrate downgrade (beside versioned upgraded) ≡ Operations.ok versioned)
downgrade-upgrade_example = downgrade-upgrade versioned versioned_free

-- A second transaction under the same identity.
abbrev again : Write
again =
    of_transaction
      (record paid { base = record paid.base { id = 51 }; paystack_reference = "ref-2" })

again_refused : validate_write db again ≡ err unique_violation
unfolding validate_transaction transaction_types string_eq
again_refused = refl

validate-write_example :
    validate upgraded (table_of again) (tables_of db) (cells_of again)
    ≡ some (validate_write db again)
validate-write_example = validate-write again db

upgraded-models_example :
    (column_at upgraded "votes" "candidate_id" ≡ column_at (declare models) "votes" "candidate_id")
    × (check_at upgraded "votes" "candidate_id" ≡ check_at (declare models) "votes" "candidate_id")
    × (foreign_key_at upgraded "votes" "candidate_id"
        ≡ foreign_key_at (declare models) "votes" "candidate_id")
    × (uniques_at upgraded "votes" ≡ uniques_at (declare models) "votes")
    × (lookup "candidate_id" upgraded.indexes ≡ lookup "candidate_id" (declare models).indexes)
upgraded-models_example = upgraded-models "votes" "candidate_id"

-- A contest whose candidates have been paid for.
abbrev close_contest : Command
close_contest = delete contest (λ r. true)

close_contest_refused : execute (statement_of close_contest) db ≡ err restrict_violation
unfolding execute delete_rows cascade is_restricted string_eq
close_contest_refused = refl

perform-execute_example :
    perform upgraded close_contest (tables_of db)
    ≡ some (map_result tables_of (execute (statement_of close_contest) db))
perform-execute_example = perform-execute close_contest db

delete_chosen-cascaded_example :
    delete_chosen upgraded
      (cascaded upgraded (tables_of db) (rows_where "contests" (λ r. true)) 10)
      (tables_of db)
    ≡ delete_chosen upgraded
        (cascaded upgraded (tables_of db) (rows_where "contests" (λ r. true)) 4)
        (tables_of db)
delete_chosen-cascaded_example = delete_chosen-cascaded db "contests" (λ r. true) 10 (omega arith)

-- A vote, an attempt to clear the ledger, and an attempt to take the vote back.
abbrev attempts : List Command
attempts = insert (of_vote second_vote) ∷ truncate ∷ delete vote (λ r. true) ∷ []

votes-perform_all_example :
    perform_all upgraded attempts (tables_of db) "votes"
    ≡ tables_of db "votes" ++ map vote_cells (recorded (map statement_of attempts) db)
votes-perform_all_example = votes-perform_all attempts db

one_vote_more : recorded (map statement_of attempts) db ≡ second_vote ∷ []
unfolding recorded execute insert_row mutate_votes truncate_votes validate_vote string_eq
one_vote_more = refl
