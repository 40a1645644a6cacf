-- ===== src/Schema/References.antt =====
-- Referential integrity (the foreign keys of api/v1/models).
pub mod Writes
use balotly_backend.Base.{
  ℕ, Option, none, some, Bool, true, false, ◌≡◌, refl, List, [], ◌∷◌, ◌++◌, ◌∙◌, arith,
}
use balotly_backend.Schema.Rows.{
  Organization, User, Contest, Category, Candidate, VotePackage, Subaccount, Transaction, Vote,
  Settlement,
}
use balotly_backend.Schema.Table.{
  has, has_null, all, replace, all-append, all-replace, all_impl, has-append, has-replace,
}
use balotly_backend.Schema.Constraints.{
  organization_refs, user_refs, contest_refs, category_refs, candidate_refs, vote_package_refs,
  subaccount_refs, transaction_refs, vote_refs, settlement_refs, validate_organization,
  validate_user, validate_contest, validate_category, validate_candidate, validate_vote_package,
  validate_subaccount, validate_transaction, validate_vote, validate_settlement,
}
use balotly_backend.Schema.Database.{
  Database, Result, ok, err, organization_key, user_key, contest_key, category_key, candidate_key,
  vote_package_key, subaccount_key, transaction_key, vote_key, settlement_key,
}

-- Every foreign key of the rows of one database names a row of another.
pub record Refs (db rows : Database) : Type 0 where
  pub organizations : all (organization_refs db) rows.organizations ≡ true
  pub users : all (user_refs db) rows.users ≡ true
  pub contests : all (contest_refs db) rows.contests ≡ true
  pub categories : all (category_refs db) rows.categories ≡ true
  pub candidates : all (candidate_refs db) rows.candidates ≡ true
  pub vote_packages : all (vote_package_refs db) rows.vote_packages ≡ true
  pub subaccounts : all (subaccount_refs db) rows.subaccounts ≡ true
  pub transactions : all (transaction_refs db) rows.transactions ≡ true
  pub votes : all (vote_refs db) rows.votes ≡ true
  pub settlements : all (settlement_refs db) rows.settlements ≡ true

-- Every foreign key names a row.
abbrev pub IsReferential : Database → Type 0
IsReferential db = Refs db db

-- Every row that can be referred to is still there.
pub record Extends (db next : Database) : Type 0 where
  pub organizations :
      (k : ℕ)
      → has organization_key db.organizations k ≡ true
      → has organization_key next.organizations k ≡ true
  pub users : (k : ℕ) → has user_key db.users k ≡ true → has user_key next.users k ≡ true
  pub contests :
      (k : ℕ) → has contest_key db.contests k ≡ true → has contest_key next.contests k ≡ true
  pub categories :
      (k : ℕ) → has category_key db.categories k ≡ true → has category_key next.categories k ≡ true
  pub candidates :
      (k : ℕ)
      → has candidate_key db.candidates k ≡ true
      → has candidate_key next.candidates k ≡ true
  pub vote_packages :
      (k : ℕ)
      → has vote_package_key db.vote_packages k ≡ true
      → has vote_package_key next.vote_packages k ≡ true
  pub transactions :
      (k : ℕ)
      → has transaction_key db.transactions k ≡ true
      → has transaction_key next.transactions k ≡ true

has_null_mono :
    {R : Type 0} (key : R → ℕ) (rs ss : List R) (o : Option ℕ)
    → ((k : ℕ) → has key rs k ≡ true → has key ss k ≡ true)
    → has_null key rs o ≡ true
    → has_null key ss o ≡ true
has_null_mono key rs ss none h e = refl
has_null_mono key rs ss (some k) h e = h k e

module _ {db next : Database} (e : Extends db next) where
  organization_refs_mono :
      (r : Organization) → organization_refs db r ≡ true → organization_refs next r ≡ true
  organization_refs_mono r h =
      ground (arith, has_null_mono user_key db.users next.users r.created_by_user_id e.users)

  user_refs_mono : (r : User) → user_refs db r ≡ true → user_refs next r ≡ true
  user_refs_mono r h = ground (
    arith,
    has_null_mono organization_key db.organizations next.organizations r.organization_id
        e.organizations,
  )

  contest_refs_mono : (r : Contest) → contest_refs db r ≡ true → contest_refs next r ≡ true
  contest_refs_mono r h = ground (arith, e.organizations r.organization_id)

  category_refs_mono : (r : Category) → category_refs db r ≡ true → category_refs next r ≡ true
  category_refs_mono r h = ground (arith, e.contests r.contest_id)

  candidate_refs_mono : (r : Candidate) → candidate_refs db r ≡ true → candidate_refs next r ≡ true
  candidate_refs_mono r h = ground (
    arith,
    e.categories r.category_id,
    has_null_mono user_key db.users next.users r.user_id e.users,
  )

  vote_package_refs_mono :
      (r : VotePackage) → vote_package_refs db r ≡ true → vote_package_refs next r ≡ true
  vote_package_refs_mono r h = ground (arith, e.contests r.contest_id)

  subaccount_refs_mono :
      (r : Subaccount) → subaccount_refs db r ≡ true → subaccount_refs next r ≡ true
  subaccount_refs_mono r h = ground (arith, e.candidates r.candidate_id)

  transaction_refs_mono :
      (r : Transaction) → transaction_refs db r ≡ true → transaction_refs next r ≡ true
  transaction_refs_mono r h = ground (
    arith,
    e.candidates r.candidate_id,
    e.vote_packages r.vote_package_id,
    e.contests r.contest_id,
  )

  vote_refs_mono : (r : Vote) → vote_refs db r ≡ true → vote_refs next r ≡ true
  vote_refs_mono r h = ground (arith, e.transactions r.transaction_id, e.candidates r.candidate_id)

  settlement_refs_mono :
      (r : Settlement) → settlement_refs db r ≡ true → settlement_refs next r ≡ true
  settlement_refs_mono r h = ground (
    arith,
    e.candidates r.candidate_id,
    has_null_mono user_key db.users next.users r.actioned_by_user_id e.users,
  )

  pub Refs-grow : {rows : Database} → Refs db rows → Refs next rows
  Refs-grow {rows} v = record {
    organizations =
        all_impl (organization_refs db) (organization_refs next) rows.organizations
          organization_refs_mono v.organizations;
    users = all_impl (user_refs db) (user_refs next) rows.users user_refs_mono v.users;
    contests =
        all_impl (contest_refs db) (contest_refs next) rows.contests contest_refs_mono v.contests;
    categories =
        all_impl (category_refs db) (category_refs next) rows.categories category_refs_mono
          v.categories;
    candidates =
        all_impl (candidate_refs db) (candidate_refs next) rows.candidates candidate_refs_mono
          v.candidates;
    vote_packages =
        all_impl (vote_package_refs db) (vote_package_refs next) rows.vote_packages
          vote_package_refs_mono v.vote_packages;
    subaccounts =
        all_impl (subaccount_refs db) (subaccount_refs next) rows.subaccounts subaccount_refs_mono
          v.subaccounts;
    transactions =
        all_impl (transaction_refs db) (transaction_refs next) rows.transactions
          transaction_refs_mono v.transactions;
    votes = all_impl (vote_refs db) (vote_refs next) rows.votes vote_refs_mono v.votes;
    settlements =
        all_impl (settlement_refs db) (settlement_refs next) rows.settlements settlement_refs_mono
          v.settlements;
  }
