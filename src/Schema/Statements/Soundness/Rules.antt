-- ===== src/Schema/Statements/Soundness/Rules.antt =====
-- The CHECK constraints and the unique indexes of all tables as one invariant (api/v1/models).
use balotly_backend.Base.{true, false, ◌≡◌, arith, string_eq}
use balotly_backend.Schema.Rows.{User, Category, Candidate, Subaccount, Transaction}
use balotly_backend.Schema.Checks.{
  organization_checks, user_checks, contest_checks, candidate_checks, vote_package_checks,
  subaccount_checks, transaction_checks, settlement_checks,
}
use balotly_backend.Schema.Table.{all}
use balotly_backend.Schema.Table.Unique.{is_unique}
use balotly_backend.Schema.Constraints.{
  user_clash, category_clash, candidate_clash, subaccount_clash, transaction_clash,
}
use balotly_backend.Schema.Database.{Database}

-- Every row meets its CHECK constraints, and no two rows stand against a unique index.
pub record IsSound (db : Database) : Type 0 where
  pub organizations : all organization_checks db.organizations ≡ true
  pub users : all user_checks db.users ≡ true
  pub contests : all contest_checks db.contests ≡ true
  pub candidates : all candidate_checks db.candidates ≡ true
  pub vote_packages : all vote_package_checks db.vote_packages ≡ true
  pub subaccounts : all subaccount_checks db.subaccounts ≡ true
  pub transactions : all transaction_checks db.transactions ≡ true
  pub settlements : all settlement_checks db.settlements ≡ true
  pub unique_users : is_unique user_clash db.users ≡ true
  pub unique_categories : is_unique category_clash db.categories ≡ true
  pub unique_candidates : is_unique candidate_clash db.candidates ≡ true
  pub unique_subaccounts : is_unique subaccount_clash db.subaccounts ≡ true
  pub unique_transactions : is_unique transaction_clash db.transactions ≡ true

pub user_clash-flip : (a b : User) → user_clash a b ≡ user_clash b a
user_clash-flip a b = ground arith

pub user_clash-never : (a : User) → user_clash a a ≡ false
user_clash-never a = ground arith

pub category_clash-flip : (a b : Category) → category_clash a b ≡ category_clash b a
category_clash-flip a b = ground arith

pub category_clash-never : (a : Category) → category_clash a a ≡ false
category_clash-never a = ground arith

pub candidate_clash-flip : (a b : Candidate) → candidate_clash a b ≡ candidate_clash b a
candidate_clash-flip a b = ground arith

pub candidate_clash-never : (a : Candidate) → candidate_clash a a ≡ false
candidate_clash-never a = ground arith

pub subaccount_clash-flip : (a b : Subaccount) → subaccount_clash a b ≡ subaccount_clash b a
subaccount_clash-flip a b = ground arith

pub subaccount_clash-never : (a : Subaccount) → subaccount_clash a a ≡ false
subaccount_clash-never a = ground arith

pub transaction_clash-flip : (a b : Transaction) → transaction_clash a b ≡ transaction_clash b a
transaction_clash-flip a b = ground arith

pub transaction_clash-never : (a : Transaction) → transaction_clash a a ≡ false
transaction_clash-never a = ground arith
