-- ===== src/Migration/Refinement/Conditions.antt =====
-- CHECK constraints: the values of the revision's conditions in a row (alembic/versions) and those
-- of Schema.Checks.
use balotly_backend.Base.{true, ◌≡◌, refl, arith, string_eq}
use balotly_backend.Schema.Rows.{
  Organization, User, Contest, Category, Candidate, VotePackage, Subaccount, Transaction, Vote,
  Settlement,
}
use balotly_backend.Schema.Checks.{
  organization_checks, user_checks, contest_checks, candidate_checks, vote_package_checks,
  subaccount_checks, transaction_checks, settlement_checks,
}
use balotly_backend.Migration.Enforcement.{checks_accept}
use balotly_backend.Migration.Cells.{
  organization_cells, user_cells, contest_cells, category_cells, candidate_cells,
  vote_package_cells, subaccount_cells, transaction_cells, vote_cells, settlement_cells,
}
use balotly_backend.Migration.Revision.Accounts.{organizations, users}
use balotly_backend.Migration.Revision.Contests.{contests, categories, candidates, vote_packages}
use balotly_backend.Migration.Revision.Payments.{subaccounts, transactions, votes, settlements}

pub organization_conditions :
    (r : Organization)
    → checks_accept organizations.checks (organization_cells r) ≡ organization_checks r
unfolding organization_cells string_eq
organization_conditions r = ground arith

pub user_conditions : (r : User) → checks_accept users.checks (user_cells r) ≡ user_checks r
unfolding user_cells string_eq
user_conditions r = ground arith

pub contest_conditions :
    (r : Contest) → checks_accept contests.checks (contest_cells r) ≡ contest_checks r
unfolding contest_cells string_eq
contest_conditions r = ground arith

pub category_conditions : (r : Category) → checks_accept categories.checks (category_cells r) ≡ true
unfolding category_cells string_eq
category_conditions r = refl

pub candidate_conditions :
    (r : Candidate) → checks_accept candidates.checks (candidate_cells r) ≡ candidate_checks r
unfolding candidate_cells string_eq
candidate_conditions r = ground arith

pub vote_package_conditions :
    (r : VotePackage)
    → checks_accept vote_packages.checks (vote_package_cells r) ≡ vote_package_checks r
unfolding vote_package_cells string_eq
vote_package_conditions r = ground arith

pub subaccount_conditions :
    (r : Subaccount) → checks_accept subaccounts.checks (subaccount_cells r) ≡ subaccount_checks r
unfolding subaccount_cells string_eq
subaccount_conditions r = ground arith

pub transaction_conditions :
    (r : Transaction)
    → checks_accept transactions.checks (transaction_cells r) ≡ transaction_checks r
unfolding transaction_cells string_eq
transaction_conditions r = ground arith

pub vote_conditions : (r : Vote) → checks_accept votes.checks (vote_cells r) ≡ true
unfolding vote_cells string_eq
vote_conditions r = refl

pub settlement_conditions :
    (r : Settlement) → checks_accept settlements.checks (settlement_cells r) ≡ settlement_checks r
unfolding settlement_cells string_eq
settlement_conditions r = ground arith
