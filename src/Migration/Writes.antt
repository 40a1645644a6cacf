-- ===== src/Migration/Writes.antt =====
-- A row of any of the ten tables (api/v1/models) that a statement would write.
use balotly_backend.Base.{String}
use balotly_backend.Schema.Rows.{
  Organization, User, Contest, Category, Candidate, VotePackage, Subaccount, Transaction, Vote,
  Settlement,
}
use balotly_backend.Schema.Constraints.{
  validate_organization, validate_user, validate_contest, validate_category, validate_candidate,
  validate_vote_package, validate_subaccount, validate_transaction, validate_vote,
  validate_settlement,
}
use balotly_backend.Schema.Database.{Database, Result}
use balotly_backend.Migration.Conditions.{Row}
use balotly_backend.Migration.Cells.{
  organization_cells, user_cells, contest_cells, category_cells, candidate_cells,
  vote_package_cells, subaccount_cells, transaction_cells, vote_cells, settlement_cells,
}

pub data Write : Type 0 where
  of_organization : Organization → Write
  of_user : User → Write
  of_contest : Contest → Write
  of_category : Category → Write
  of_candidate : Candidate → Write
  of_vote_package : VotePackage → Write
  of_subaccount : Subaccount → Write
  of_transaction : Transaction → Write
  of_vote : Vote → Write
  of_settlement : Settlement → Write

abbrev pub table_of : Write → String
table_of (of_organization r) = "organizations"
table_of (of_user r) = "users"
table_of (of_contest r) = "contests"
table_of (of_category r) = "categories"
table_of (of_candidate r) = "candidates"
table_of (of_vote_package r) = "vote_packages"
table_of (of_subaccount r) = "subaccounts"
table_of (of_transaction r) = "transactions"
table_of (of_vote r) = "votes"
table_of (of_settlement r) = "settlements"

abbrev pub cells_of : Write → Row
cells_of (of_organization r) = organization_cells r
cells_of (of_user r) = user_cells r
cells_of (of_contest r) = contest_cells r
cells_of (of_category r) = category_cells r
cells_of (of_candidate r) = candidate_cells r
cells_of (of_vote_package r) = vote_package_cells r
cells_of (of_subaccount r) = subaccount_cells r
cells_of (of_transaction r) = transaction_cells r
cells_of (of_vote r) = vote_cells r
cells_of (of_settlement r) = settlement_cells r

abbrev pub validate_write : Database → Write → Result (Unit {0})
validate_write db (of_organization r) = validate_organization db r
validate_write db (of_user r) = validate_user db r
validate_write db (of_contest r) = validate_contest db r
validate_write db (of_category r) = validate_category db r
validate_write db (of_candidate r) = validate_candidate db r
validate_write db (of_vote_package r) = validate_vote_package db r
validate_write db (of_subaccount r) = validate_subaccount db r
validate_write db (of_transaction r) = validate_transaction db r
validate_write db (of_vote r) = validate_vote db r
validate_write db (of_settlement r) = validate_settlement db r
