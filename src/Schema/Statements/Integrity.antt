-- ===== src/Schema/Statements/Integrity.antt =====
-- Referential integrity in every state that statements can lead to (api/v1/models, alembic/versions).
use balotly_backend.Base.{List}
use balotly_backend.Schema.Database.{Database}
use balotly_backend.Schema.References.{IsReferential}
use balotly_backend.Schema.References.Writes.{
  insert_organization-IsReferential, insert_user-IsReferential, insert_contest-IsReferential,
  insert_category-IsReferential, insert_candidate-IsReferential, insert_vote_package-IsReferential,
  insert_subaccount-IsReferential, insert_transaction-IsReferential, insert_vote-IsReferential,
  insert_settlement-IsReferential, update_organization-IsReferential, update_user-IsReferential,
  update_contest-IsReferential, update_category-IsReferential, update_candidate-IsReferential,
  update_vote_package-IsReferential, update_subaccount-IsReferential,
  update_transaction-IsReferential, update_settlement-IsReferential,
}
use balotly_backend.Schema.Statements.{Statement, run}
use balotly_backend.Schema.Statements.Deletes.{delete_rows-IsReferential}
use balotly_backend.Schema.Statements.Invariants.{IsKept, run-kept}

writes_keep : IsKept IsReferential
writes_keep = record {
  add_organization = λ db v r free h. insert_organization-IsReferential db v r h;
  add_user = λ db v r free h. insert_user-IsReferential db v r h;
  add_contest = λ db v r free h. insert_contest-IsReferential db v r h;
  add_category = λ db v r free h. insert_category-IsReferential db v r h;
  add_candidate = λ db v r free h. insert_candidate-IsReferential db v r h;
  add_vote_package = λ db v r free h. insert_vote_package-IsReferential db v r h;
  add_subaccount = λ db v r free h. insert_subaccount-IsReferential db v r h;
  add_transaction = λ db v r free h. insert_transaction-IsReferential db v r h;
  add_vote = λ db v r free h. insert_vote-IsReferential db v r h;
  add_settlement = λ db v r free h. insert_settlement-IsReferential db v r h;
  change_organization = update_organization-IsReferential;
  change_user = update_user-IsReferential;
  change_contest = update_contest-IsReferential;
  change_category = update_category-IsReferential;
  change_candidate = update_candidate-IsReferential;
  change_vote_package = update_vote_package-IsReferential;
  change_subaccount = update_subaccount-IsReferential;
  change_transaction = update_transaction-IsReferential;
  change_settlement = update_settlement-IsReferential;
  erase_rows = λ db named v e. delete_rows-IsReferential db named v e;
}

-- No sequence of statements leaves a foreign key that names a missing row: if every foreign key names
-- a row before, it does so afterwards. In particular every vote's transaction and candidate are there.
pub run-IsReferential :
    (sts : List Statement) (db : Database) → IsReferential db → IsReferential (run sts db)
run-IsReferential sts db v = run-kept writes_keep sts db v
