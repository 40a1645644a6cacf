-- ===== src/Schema/Statements/Soundness.antt =====
-- CHECK constraints and unique indexes in every state that statements can lead to (api/v1/models,
-- alembic/versions).
mod Rules
mod Inserts
mod Updates
mod Erasure
pub use Rules.{IsSound}
use balotly_backend.Base.{subst, true, false, ◌≡◌, refl, ◌∙◌, List, [], ◌∷◌, ◌++◌, arith, string_eq}
use balotly_backend.Schema.Rows.{
  Organization, User, Contest, Category, Candidate, VotePackage, Subaccount, Transaction, Vote,
  Settlement,
}
use balotly_backend.Schema.Checks.{
  organization_checks, user_checks, contest_checks, candidate_checks, vote_package_checks,
  subaccount_checks, transaction_checks, settlement_checks,
}
use balotly_backend.Schema.Table.{
  all, remove, replace, all-append, all-replace, all-remove, all-map,
}
use balotly_backend.Schema.Table.Unique.{
  is_unique, is_unique-append, is_unique-replace, is_unique-remove, is_unique-map,
}
use balotly_backend.Schema.Constraints.{
  user_clash, category_clash, candidate_clash, subaccount_clash, transaction_clash,
  validate_organization, validate_user, validate_contest, validate_category, validate_candidate,
  validate_vote_package, validate_subaccount, validate_transaction, validate_vote,
  validate_settlement,
}
use balotly_backend.Schema.Database.{
  Database, ok, organization_key, user_key, contest_key, category_key, candidate_key,
  vote_package_key, subaccount_key, transaction_key, settlement_key,
}
use balotly_backend.Schema.Statements.{
  Doomed, Statement, run, cascade, erase, unlink_organization, unlink_user, unlink_candidate,
  unlink_settlement, delete_rows,
}
use balotly_backend.Schema.Statements.Invariants.{IsKept, run-kept}
use balotly_backend.Schema.Statements.Soundness.Inserts.{
  insert_organization-IsSound, insert_user-IsSound, insert_contest-IsSound, insert_category-IsSound,
  insert_candidate-IsSound, insert_vote_package-IsSound, insert_subaccount-IsSound,
  insert_transaction-IsSound, insert_vote-IsSound, insert_settlement-IsSound,
}
use balotly_backend.Schema.Statements.Soundness.Updates.{
  update_organization-IsSound, update_user-IsSound, update_contest-IsSound, update_category-IsSound,
  update_candidate-IsSound, update_vote_package-IsSound, update_subaccount-IsSound,
  update_transaction-IsSound, update_settlement-IsSound,
}
use balotly_backend.Schema.Statements.Soundness.Erasure.{delete_rows-IsSound}

writes_keep : IsKept IsSound
writes_keep = record {
  add_organization = λ db v r free h. insert_organization-IsSound db v r h;
  add_user = λ db v r free h. insert_user-IsSound db v r h;
  add_contest = λ db v r free h. insert_contest-IsSound db v r h;
  add_category = λ db v r free h. insert_category-IsSound db v r h;
  add_candidate = λ db v r free h. insert_candidate-IsSound db v r h;
  add_vote_package = λ db v r free h. insert_vote_package-IsSound db v r h;
  add_subaccount = λ db v r free h. insert_subaccount-IsSound db v r h;
  add_transaction = λ db v r free h. insert_transaction-IsSound db v r h;
  add_vote = λ db v r free h. insert_vote-IsSound db v r h;
  add_settlement = λ db v r free h. insert_settlement-IsSound db v r h;
  change_organization = update_organization-IsSound;
  change_user = update_user-IsSound;
  change_contest = update_contest-IsSound;
  change_category = update_category-IsSound;
  change_candidate = update_candidate-IsSound;
  change_vote_package = update_vote_package-IsSound;
  change_subaccount = update_subaccount-IsSound;
  change_transaction = update_transaction-IsSound;
  change_settlement = update_settlement-IsSound;
  erase_rows = λ db named v e. delete_rows-IsSound db v named e;
}

-- No sequence of statements leaves a row that breaks a CHECK constraint, or two rows that break a
-- unique index, if there were none before.
pub run-IsSound : (sts : List Statement) (db : Database) → IsSound db → IsSound (run sts db)
run-IsSound sts db v = run-kept writes_keep sts db v
