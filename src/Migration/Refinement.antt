-- ===== src/Migration/Refinement.antt =====
-- The tests of Schema.Constraints beside those of the catalog that the revision makes
-- (alembic/versions).
pub mod Columns
pub mod Conditions
pub mod Indexes
pub mod Identity
pub mod Clashes
pub mod Targets
use balotly_backend.Base.{
  Option, some, Bool, true, false, not, ◌≡◌, refl, ◌∙◌, ap, String, List, map, arith, string_eq,
}
use balotly_backend.Base.Dict.{Dict}
use balotly_backend.Schema.Rows.{
  Organization, User, Contest, Category, Candidate, VotePackage, Subaccount, Transaction, Vote,
  Settlement,
}
use balotly_backend.Schema.Table.{any}
use balotly_backend.Schema.Checks.{
  organization_types, user_types, contest_types, category_types, candidate_types,
  vote_package_types, subaccount_types, transaction_types, settlement_types, organization_checks,
  user_checks, contest_checks, candidate_checks, vote_package_checks, subaccount_checks,
  transaction_checks, settlement_checks,
}
use balotly_backend.Schema.Constraints.{
  user_clash, category_clash, candidate_clash, subaccount_clash, transaction_clash,
  organization_refs, user_refs, contest_refs, category_refs, candidate_refs, vote_package_refs,
  subaccount_refs, transaction_refs, vote_refs, settlement_refs, validate_organization,
  validate_user, validate_contest, validate_category, validate_candidate, validate_vote_package,
  validate_subaccount, validate_transaction, validate_vote, validate_settlement,
}
use balotly_backend.Schema.Database.{
  Database, Result, ◌>>◌, require, out_of_range, check_violation, unique_violation,
  foreign_key_violation,
}
use balotly_backend.Migration.Conditions.{Row}
use balotly_backend.Migration.Catalog.{Table, Index}
use balotly_backend.Migration.Operations.{migrate, apply}
use balotly_backend.Migration.Enforcement.{
  columns_accept, checks_accept, rows_clash, targets_there, enforce, validate,
}
use balotly_backend.Migration.Cells.{
  organization_cells, user_cells, contest_cells, category_cells, candidate_cells,
  vote_package_cells, subaccount_cells, transaction_cells, vote_cells, settlement_cells, tables_of,
}
use balotly_backend.Migration.Writes.{
  Write, of_organization, of_user, of_contest, of_category, of_candidate, of_vote_package,
  of_subaccount, of_transaction, of_vote, of_settlement, table_of, cells_of, validate_write,
}
use balotly_backend.Migration.Revision.Accounts.{organizations, users}
use balotly_backend.Migration.Revision.Contests.{contests, categories, candidates, vote_packages}
use balotly_backend.Migration.Revision.Payments.{subaccounts, transactions, votes, settlements}
use balotly_backend.Migration.Revision.{upgrade}
use balotly_backend.Migration.Revision.Roundtrip.{upgraded, catalog_of}
use balotly_backend.Migration.Refinement.Columns.{
  organization_columns, user_columns, contest_columns, category_columns, candidate_columns,
  vote_package_columns, subaccount_columns, transaction_columns, vote_columns, settlement_columns,
}
use balotly_backend.Migration.Refinement.Conditions.{
  organization_conditions, user_conditions, contest_conditions, category_conditions,
  candidate_conditions, vote_package_conditions, subaccount_conditions, transaction_conditions,
  vote_conditions, settlement_conditions,
}
use balotly_backend.Migration.Refinement.Indexes.{
  organization_indexes, user_indexes, contest_indexes, category_indexes, candidate_indexes,
  vote_package_indexes, subaccount_indexes, transaction_indexes, vote_indexes, settlement_indexes,
}
use balotly_backend.Migration.Refinement.Clashes.{
  organization_clashes, user_clashes, contest_clashes, category_clashes, candidate_clashes,
  vote_package_clashes, subaccount_clashes, transaction_clashes, vote_clashes, settlement_clashes,
}
use balotly_backend.Migration.Refinement.Targets.{
  organization_targets, user_targets, contest_targets, category_targets, candidate_targets,
  vote_package_targets, subaccount_targets, transaction_targets, vote_targets, settlement_targets,
  linked_organizations,
}

-- The four tests in their order.
abbrev decide : (types checks clashes targets : Bool) → Result (Unit {0})
decide types checks clashes targets = do
  require types out_of_range
  require checks check_violation
  require (not clashes) unique_violation
  require targets foreign_key_violation

enforce-decide :
    (t : Table) (is : Dict String Index) (rows : List Row) (tables : String → List Row) (r : Row)
    {types checks clashes targets : Bool}
    → columns_accept t.columns r ≡ types
    → checks_accept t.checks r ≡ checks
    → any (rows_clash t is r) rows ≡ clashes
    → targets_there t.foreign_keys tables r ≡ targets
    → enforce t is rows tables r ≡ decide types checks clashes targets
enforce-decide t is rows tables r {types} {checks} {clashes} {targets} a b c d =
    ap
      (λ x.
        decide x (checks_accept t.checks r) (any (rows_clash t is r) rows)
          (targets_there t.foreign_keys tables r))
      a
    ∙ ap
        (λ x. decide types x (any (rows_clash t is r) rows) (targets_there t.foreign_keys tables r))
        b
    ∙ ap (λ x. decide types checks x (targets_there t.foreign_keys tables r)) c
    ∙ ap (decide types checks clashes) d

organization_validated :
    (db : Database) (r : Organization)
    → validate upgraded "organizations" (tables_of db) (organization_cells r)
      ≡ some (validate_organization db r)
unfolding validate upgraded catalog_of upgrade migrate apply validate_organization tables_of
    string_eq
organization_validated db r = ap some (
    enforce-decide linked_organizations organization_indexes
      (map organization_cells db.organizations) (tables_of db) (organization_cells r)
      (organization_columns r) (organization_conditions r) (organization_clashes r db.organizations)
      (organization_targets db r))

user_validated :
    (db : Database) (r : User)
    → validate upgraded "users" (tables_of db) (user_cells r) ≡ some (validate_user db r)
unfolding validate upgraded catalog_of upgrade migrate apply validate_user tables_of string_eq
user_validated db r = ap some (
    enforce-decide users user_indexes (map user_cells db.users) (tables_of db) (user_cells r)
      (user_columns r) (user_conditions r) (user_clashes r db.users) (user_targets db r))

contest_validated :
    (db : Database) (r : Contest)
    → validate upgraded "contests" (tables_of db) (contest_cells r) ≡ some (validate_contest db r)
unfolding validate upgraded catalog_of upgrade migrate apply validate_contest tables_of string_eq
contest_validated db r = ap some (
    enforce-decide contests contest_indexes (map contest_cells db.contests) (tables_of db)
      (contest_cells r) (contest_columns r) (contest_conditions r) (contest_clashes r db.contests)
      (contest_targets db r))

category_validated :
    (db : Database) (r : Category)
    → validate upgraded "categories" (tables_of db) (category_cells r)
      ≡ some (validate_category db r)
unfolding validate upgraded catalog_of upgrade migrate apply validate_category tables_of string_eq
category_validated db r = ap some (
    enforce-decide categories category_indexes (map category_cells db.categories) (tables_of db)
      (category_cells r) (category_columns r) (category_conditions r)
      (category_clashes r db.categories) (category_targets db r))

candidate_validated :
    (db : Database) (r : Candidate)
    → validate upgraded "candidates" (tables_of db) (candidate_cells r)
      ≡ some (validate_candidate db r)
unfolding validate upgraded catalog_of upgrade migrate apply validate_candidate tables_of string_eq
candidate_validated db r = ap some (
    enforce-decide candidates candidate_indexes (map candidate_cells db.candidates) (tables_of db)
      (candidate_cells r) (candidate_columns r) (candidate_conditions r)
      (candidate_clashes r db.candidates) (candidate_targets db r))

vote_package_validated :
    (db : Database) (r : VotePackage)
    → validate upgraded "vote_packages" (tables_of db) (vote_package_cells r)
      ≡ some (validate_vote_package db r)
unfolding validate upgraded catalog_of upgrade migrate apply validate_vote_package tables_of
    string_eq
vote_package_validated db r = ap some (
    enforce-decide vote_packages vote_package_indexes (map vote_package_cells db.vote_packages)
      (tables_of db) (vote_package_cells r) (vote_package_columns r) (vote_package_conditions r)
      (vote_package_clashes r db.vote_packages) (vote_package_targets db r))

subaccount_validated :
    (db : Database) (r : Subaccount)
    → validate upgraded "subaccounts" (tables_of db) (subaccount_cells r)
      ≡ some (validate_subaccount db r)
unfolding validate upgraded catalog_of upgrade migrate apply validate_subaccount tables_of string_eq
subaccount_validated db r = ap some (
    enforce-decide subaccounts subaccount_indexes (map subaccount_cells db.subaccounts)
      (tables_of db) (subaccount_cells r) (subaccount_columns r) (subaccount_conditions r)
      (subaccount_clashes r db.subaccounts) (subaccount_targets db r))

transaction_validated :
    (db : Database) (r : Transaction)
    → validate upgraded "transactions" (tables_of db) (transaction_cells r)
      ≡ some (validate_transaction db r)
unfolding validate upgraded catalog_of upgrade migrate apply validate_transaction tables_of
    string_eq
transaction_validated db r = ap some (
    enforce-decide transactions transaction_indexes (map transaction_cells db.transactions)
      (tables_of db) (transaction_cells r) (transaction_columns r) (transaction_conditions r)
      (transaction_clashes r db.transactions) (transaction_targets db r))

vote_validated :
    (db : Database) (r : Vote)
    → validate upgraded "votes" (tables_of db) (vote_cells r) ≡ some (validate_vote db r)
unfolding validate upgraded catalog_of upgrade migrate apply validate_vote tables_of string_eq
vote_validated db r = ap some (
    enforce-decide votes vote_indexes (map vote_cells db.votes) (tables_of db) (vote_cells r)
      (vote_columns r) (vote_conditions r) (vote_clashes r db.votes) (vote_targets db r))

settlement_validated :
    (db : Database) (r : Settlement)
    → validate upgraded "settlements" (tables_of db) (settlement_cells r)
      ≡ some (validate_settlement db r)
unfolding validate upgraded catalog_of upgrade migrate apply validate_settlement tables_of string_eq
settlement_validated db r = ap some (
    enforce-decide settlements settlement_indexes (map settlement_cells db.settlements)
      (tables_of db) (settlement_cells r) (settlement_columns r) (settlement_conditions r)
      (settlement_clashes r db.settlements) (settlement_targets db r))

-- For every row of the models and every database, what PostgreSQL asks of the row by the catalog that
-- the revision makes, read column by column and condition by condition, is what the tests of its table
-- ask, with the same error where it is refused.
pub validate-write :
    (w : Write) (db : Database)
    → validate upgraded (table_of w) (tables_of db) (cells_of w) ≡ some (validate_write db w)
validate-write (of_organization r) db = organization_validated db r
validate-write (of_user r) db = user_validated db r
validate-write (of_contest r) db = contest_validated db r
validate-write (of_category r) db = category_validated db r
validate-write (of_candidate r) db = candidate_validated db r
validate-write (of_vote_package r) db = vote_package_validated db r
validate-write (of_subaccount r) db = subaccount_validated db r
validate-write (of_transaction r) db = transaction_validated db r
validate-write (of_vote r) db = vote_validated db r
validate-write (of_settlement r) db = settlement_validated db r
