-- ===== src/Migration/Refinement/Columns.antt =====
-- Column types and NOT NULL: what the revision's columns (alembic/versions) and Schema.Checks ask
-- of a row.
use balotly_backend.Base.{true, ◌≡◌, refl, arith, string_eq}
use balotly_backend.Schema.Rows.{
  Organization, User, Contest, Category, Candidate, VotePackage, Subaccount, Transaction, Vote,
  Settlement,
}
use balotly_backend.Schema.Sql.{fits_varchar, fits_varchar_null, fits_numeric, fits_integer}
use balotly_backend.Schema.Checks.{
  organization_types, user_types, contest_types, category_types, candidate_types,
  vote_package_types, subaccount_types, transaction_types, settlement_types,
}
use balotly_backend.Migration.Enforcement.{columns_accept}
use balotly_backend.Migration.Cells.{
  organization_cells, user_cells, contest_cells, category_cells, candidate_cells,
  vote_package_cells, subaccount_cells, transaction_cells, vote_cells, settlement_cells,
}
use balotly_backend.Migration.Revision.Accounts.{organizations, users}
use balotly_backend.Migration.Revision.Contests.{contests, categories, candidates, vote_packages}
use balotly_backend.Migration.Revision.Payments.{subaccounts, transactions, votes, settlements}

pub organization_columns :
    (r : Organization)
    → columns_accept organizations.columns (organization_cells r) ≡ organization_types r
unfolding organization_types organization_cells string_eq fits_varchar fits_varchar_null
    fits_numeric fits_integer
organization_columns r = ground arith

pub user_columns : (r : User) → columns_accept users.columns (user_cells r) ≡ user_types r
unfolding user_types user_cells string_eq fits_varchar fits_varchar_null fits_numeric fits_integer
user_columns r = ground arith

pub contest_columns :
    (r : Contest) → columns_accept contests.columns (contest_cells r) ≡ contest_types r
unfolding contest_types contest_cells string_eq fits_varchar fits_varchar_null fits_numeric
    fits_integer
contest_columns r = ground arith

pub category_columns :
    (r : Category) → columns_accept categories.columns (category_cells r) ≡ category_types r
unfolding category_types category_cells string_eq fits_varchar fits_varchar_null fits_numeric
    fits_integer
category_columns r = ground arith

pub candidate_columns :
    (r : Candidate) → columns_accept candidates.columns (candidate_cells r) ≡ candidate_types r
unfolding candidate_types candidate_cells string_eq fits_varchar fits_varchar_null fits_numeric
    fits_integer
candidate_columns r = ground arith

pub vote_package_columns :
    (r : VotePackage)
    → columns_accept vote_packages.columns (vote_package_cells r) ≡ vote_package_types r
unfolding vote_package_types vote_package_cells string_eq fits_varchar fits_varchar_null
    fits_numeric fits_integer
vote_package_columns r = ground arith

pub subaccount_columns :
    (r : Subaccount) → columns_accept subaccounts.columns (subaccount_cells r) ≡ subaccount_types r
unfolding subaccount_types subaccount_cells string_eq fits_varchar fits_varchar_null fits_numeric
    fits_integer
subaccount_columns r = ground arith

pub transaction_columns :
    (r : Transaction)
    → columns_accept transactions.columns (transaction_cells r) ≡ transaction_types r
unfolding transaction_types transaction_cells string_eq fits_varchar fits_varchar_null fits_numeric
    fits_integer
transaction_columns r = ground arith

pub vote_columns : (r : Vote) → columns_accept votes.columns (vote_cells r) ≡ true
unfolding vote_cells string_eq
vote_columns r = refl

pub settlement_columns :
    (r : Settlement) → columns_accept settlements.columns (settlement_cells r) ≡ settlement_types r
unfolding settlement_types settlement_cells string_eq fits_varchar fits_varchar_null fits_numeric
    fits_integer
settlement_columns r = ground arith
