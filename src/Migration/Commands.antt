-- ===== src/Migration/Commands.antt =====
-- SQL commands on the ten tables (api/v1/models): as PostgreSQL runs them by a catalog, and as the
-- statements of Schema.Statements.
use balotly_backend.Base.{Option, some, Bool, String, List, [], ◌∷◌, eqb, ◌==◌, string_eq, ◌&&◌}
use balotly_backend.Schema.Database.{Result, ok, err}
use balotly_backend.Schema.Statements.{
  Doomed, Statement, insert_organization, insert_user, insert_contest, insert_category,
  insert_candidate, insert_vote_package, insert_subaccount, insert_transaction, insert_vote,
  insert_settlement, update_organization, update_user, update_contest, update_category,
  update_candidate, update_vote_package, update_subaccount, update_transaction, update_settlement,
  delete_votes, update_votes,
}
use balotly_backend.Schema.Statements
use balotly_backend.Migration.Conditions.{Row}
use balotly_backend.Migration.Catalog.{Catalog}
use balotly_backend.Migration.Cells.{
  organization_cells, user_cells, contest_cells, category_cells, candidate_cells,
  vote_package_cells, subaccount_cells, transaction_cells, vote_cells, settlement_cells,
}
use balotly_backend.Migration.Writes.{
  Write, of_organization, of_user, of_contest, of_category, of_candidate, of_vote_package,
  of_subaccount, of_transaction, of_vote, of_settlement, table_of, cells_of,
}
use balotly_backend.Migration.Execution.{
  Tables, insert_into, update_in, delete_from, truncate_table,
}

pub data Entity : Type 0 where
  organization user contest category candidate vote_package subaccount transaction vote settlement :
      Entity

abbrev pub table_name : Entity → String
table_name organization = "organizations"
table_name user = "users"
table_name contest = "contests"
table_name category = "categories"
table_name candidate = "candidates"
table_name vote_package = "vote_packages"
table_name subaccount = "subaccounts"
table_name transaction = "transactions"
table_name vote = "votes"
table_name settlement = "settlements"

-- INSERT and UPDATE of a row by its primary key, DELETE of the rows of a table that a condition names,
-- and TRUNCATE votes.
pub data Command : Type 0 where
  insert update : Write → Command
  delete : Entity → (Row → Bool) → Command
  truncate : Command

unfoldable pub perform : Catalog → Command → Tables → Option (Result Tables)
unfolding insert_into update_in delete_from truncate_table
perform c (insert w) tables = insert_into c (table_of w) (cells_of w) tables
perform c (update w) tables = update_in c (table_of w) (cells_of w) tables
perform c (delete e p) tables = delete_from c (table_name e) p tables
perform c truncate tables = truncate_table c "votes" tables

-- What a command leaves behind: one that fails changes nothing.
abbrev pub settled : Tables → Option (Result Tables) → Tables
settled tables (some (ok next)) = next
settled tables result = tables

unfoldable pub perform_all : Catalog → List Command → Tables → Tables
perform_all c [] tables = tables
perform_all c (command ∷ commands) tables =
    perform_all c commands (settled tables (perform c command tables))

-- The rows of one table that a condition names; those of votes are not among them.
abbrev pub doomed_where : String → (Row → Bool) → Doomed
doomed_where t p = record {
  organizations = λ r. ("organizations" == t) && p (organization_cells r);
  users = λ r. ("users" == t) && p (user_cells r);
  contests = λ r. ("contests" == t) && p (contest_cells r);
  categories = λ r. ("categories" == t) && p (category_cells r);
  candidates = λ r. ("candidates" == t) && p (candidate_cells r);
  vote_packages = λ r. ("vote_packages" == t) && p (vote_package_cells r);
  subaccounts = λ r. ("subaccounts" == t) && p (subaccount_cells r);
  transactions = λ r. ("transactions" == t) && p (transaction_cells r);
  settlements = λ r. ("settlements" == t) && p (settlement_cells r);
}

abbrev insertion : Write → Statement
insertion (of_organization r) = insert_organization r
insertion (of_user r) = insert_user r
insertion (of_contest r) = insert_contest r
insertion (of_category r) = insert_category r
insertion (of_candidate r) = insert_candidate r
insertion (of_vote_package r) = insert_vote_package r
insertion (of_subaccount r) = insert_subaccount r
insertion (of_transaction r) = insert_transaction r
insertion (of_vote r) = insert_vote r
insertion (of_settlement r) = insert_settlement r

abbrev change : Write → Statement
change (of_organization r) = update_organization r
change (of_user r) = update_user r
change (of_contest r) = update_contest r
change (of_category r) = update_category r
change (of_candidate r) = update_candidate r
change (of_vote_package r) = update_vote_package r
change (of_subaccount r) = update_subaccount r
change (of_transaction r) = update_transaction r
change (of_settlement r) = update_settlement r
change (of_vote r) = update_votes (λ v. eqb v.id r.id)

abbrev deletion : Entity → (Row → Bool) → Statement
deletion vote p = delete_votes (λ v. p (vote_cells v))
deletion e p = Statements.delete (doomed_where (table_name e) p)

abbrev pub statement_of : Command → Statement
statement_of (insert w) = insertion w
statement_of (update w) = change w
statement_of (delete e p) = deletion e p
statement_of truncate = Statements.truncate

abbrev pub map_result : {A B : Type 0} → (A → B) → Result A → Result B
map_result f (ok a) = ok (f a)
map_result f (err e) = err e
