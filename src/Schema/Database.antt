-- ===== src/Schema/Database.antt =====
-- The state that the schema describes (`Base.metadata` of api/v1/models): the rows of each table, and
-- how a statement on them ends.
use balotly_backend.Base.{ℕ, Bool, true, false, List}
use balotly_backend.Schema.Rows.{
  Organization, User, Contest, Category, Candidate, VotePackage, Subaccount, Transaction, Vote,
  Settlement,
}

pub record Database : Type 0 where
  pub organizations : List Organization
  pub users : List User
  pub contests : List Contest
  pub categories : List Category
  pub candidates : List Candidate
  pub vote_packages : List VotePackage
  pub subaccounts : List Subaccount
  pub transactions : List Transaction
  pub votes : List Vote
  pub settlements : List Settlement

-- The primary keys.
abbrev pub organization_key : Organization → ℕ
organization_key r = r.id

abbrev pub user_key : User → ℕ
user_key r = r.id

abbrev pub contest_key : Contest → ℕ
contest_key r = r.id

abbrev pub category_key : Category → ℕ
category_key r = r.id

abbrev pub candidate_key : Candidate → ℕ
candidate_key r = r.id

abbrev pub vote_package_key : VotePackage → ℕ
vote_package_key r = r.id

abbrev pub subaccount_key : Subaccount → ℕ
subaccount_key r = r.id

abbrev pub transaction_key : Transaction → ℕ
transaction_key r = r.id

abbrev pub vote_key : Vote → ℕ
vote_key r = r.id

abbrev pub settlement_key : Settlement → ℕ
settlement_key r = r.id

-- How PostgreSQL refuses a statement.
pub data Error : Type 0 where
  out_of_range check_violation unique_violation foreign_key_violation restrict_violation : Error

pub data Result (A : Type 0) : Type 0 where
  ok : A → Result A
  err : Error → Result A

infixl 5 ◌>>=◌ ◌>>◌
abbrev pub ◌>>=◌ : {A B : Type 0} → Result A → (A → Result B) → Result B
ok a >>= f = f a
err e >>= f = err e

abbrev pub ◌>>◌ : {B : Type 0} → Result (Unit {0}) → Result B → Result B
m >> k = m >>= λ _. k

-- A test that the statement must pass.
abbrev pub require : Bool → Error → Result (Unit {0})
require true e = ok tt
require false e = err e
