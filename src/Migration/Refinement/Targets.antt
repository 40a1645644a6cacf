-- ===== src/Migration/Refinement/Targets.antt =====
-- Foreign keys: whether a row's targets are there, by the revision (alembic/versions) and by
-- Schema.Constraints.
use balotly_backend.Base.{ℕ, Option, none, some, ◌≡◌, refl, List, [], ◌∷◌, map, arith, string_eq}
use balotly_backend.Schema.Rows.{
  Organization, User, Contest, Category, Candidate, VotePackage, Subaccount, Transaction, Vote,
  Settlement,
}
use balotly_backend.Schema.Table.{has, has_null}
use balotly_backend.Schema.Database.{
  Database, organization_key, user_key, contest_key, category_key, candidate_key, vote_package_key,
  transaction_key,
}
use balotly_backend.Schema.Constraints.{
  organization_refs, user_refs, contest_refs, category_refs, candidate_refs, vote_package_refs,
  subaccount_refs, transaction_refs, vote_refs, settlement_refs,
}
use balotly_backend.Migration.Conditions.{key, Row}
use balotly_backend.Migration.Catalog.{Table, set_null}
use balotly_backend.Migration.Operations.{add_foreign_key}
use balotly_backend.Migration.Enforcement.{is_there, targets_there}
use balotly_backend.Migration.Cells.{
  organization_cells, user_cells, contest_cells, category_cells, candidate_cells,
  vote_package_cells, subaccount_cells, transaction_cells, vote_cells, settlement_cells, tables_of,
  maybe,
}
use balotly_backend.Migration.Revision.Accounts.{organizations, users}
use balotly_backend.Migration.Revision.Contests.{contests, categories, candidates, vote_packages}
use balotly_backend.Migration.Revision.Payments.{subaccounts, transactions, votes, settlements}

module _ {R : Type 0} (cells : R → Row) (key_of : R → ℕ)
    (keyed : (r : R) → cells r "id" ≡ key (key_of r)) where
  pub is_there-map : (rs : List R) (k : ℕ) → is_there (map cells rs) (key k) ≡ has key_of rs k
  is_there-map [] k = refl
  is_there-map (r ∷ rs) k = ground (arith, keyed r, is_there-map rs k)

  is_there-maybe :
      (rs : List R) (o : Option ℕ) → is_there (map cells rs) (maybe key o) ≡ has_null key_of rs o
  is_there-maybe rs none = refl
  is_there-maybe rs (some k) = is_there-map rs k

pub organization_id : (r : Organization) → organization_cells r "id" ≡ key r.id
unfolding organization_cells string_eq
organization_id r = refl

pub user_id : (r : User) → user_cells r "id" ≡ key r.id
unfolding user_cells string_eq
user_id r = refl

pub contest_id : (r : Contest) → contest_cells r "id" ≡ key r.id
unfolding contest_cells string_eq
contest_id r = refl

pub category_id : (r : Category) → category_cells r "id" ≡ key r.id
unfolding category_cells string_eq
category_id r = refl

pub candidate_id : (r : Candidate) → candidate_cells r "id" ≡ key r.id
unfolding candidate_cells string_eq
candidate_id r = refl

pub vote_package_id : (r : VotePackage) → vote_package_cells r "id" ≡ key r.id
unfolding vote_package_cells string_eq
vote_package_id r = refl

pub transaction_id : (r : Transaction) → transaction_cells r "id" ≡ key r.id
unfolding transaction_cells string_eq
transaction_id r = refl

pub subaccount_id : (r : Subaccount) → subaccount_cells r "id" ≡ key r.id
unfolding subaccount_cells string_eq
subaccount_id r = refl

pub vote_id : (r : Vote) → vote_cells r "id" ≡ key r.id
unfolding vote_cells string_eq
vote_id r = refl

pub settlement_id : (r : Settlement) → settlement_cells r "id" ≡ key r.id
unfolding settlement_cells string_eq
settlement_id r = refl

-- The table organizations, with the foreign key that comes after users.
abbrev pub linked_organizations : Table
linked_organizations =
    add_foreign_key "fk_organizations_created_by_user_id_users" "created_by_user_id" "users"
      set_null organizations

pub organization_targets :
    (db : Database) (r : Organization)
    → targets_there linked_organizations.foreign_keys (tables_of db) (organization_cells r)
      ≡ organization_refs db r
unfolding tables_of organization_cells string_eq
organization_targets db r =
    ground (arith, is_there-maybe user_cells user_key user_id db.users r.created_by_user_id)

pub user_targets :
    (db : Database) (r : User)
    → targets_there users.foreign_keys (tables_of db) (user_cells r) ≡ user_refs db r
unfolding tables_of user_cells string_eq
user_targets db r = ground (
  arith,
  is_there-maybe organization_cells organization_key organization_id db.organizations
      r.organization_id,
)

pub contest_targets :
    (db : Database) (r : Contest)
    → targets_there contests.foreign_keys (tables_of db) (contest_cells r) ≡ contest_refs db r
unfolding tables_of contest_cells string_eq
contest_targets db r = ground (
  arith,
  is_there-map organization_cells organization_key organization_id db.organizations
      r.organization_id,
)

pub category_targets :
    (db : Database) (r : Category)
    → targets_there categories.foreign_keys (tables_of db) (category_cells r) ≡ category_refs db r
unfolding tables_of category_cells string_eq
category_targets db r =
    ground (arith, is_there-map contest_cells contest_key contest_id db.contests r.contest_id)

pub candidate_targets :
    (db : Database) (r : Candidate)
    → targets_there candidates.foreign_keys (tables_of db) (candidate_cells r) ≡ candidate_refs db r
unfolding tables_of candidate_cells string_eq
candidate_targets db r = ground (
  arith,
  is_there-map category_cells category_key category_id db.categories r.category_id,
  is_there-maybe user_cells user_key user_id db.users r.user_id,
)

pub vote_package_targets :
    (db : Database) (r : VotePackage)
    → targets_there vote_packages.foreign_keys (tables_of db) (vote_package_cells r)
      ≡ vote_package_refs db r
unfolding tables_of vote_package_cells string_eq
vote_package_targets db r =
    ground (arith, is_there-map contest_cells contest_key contest_id db.contests r.contest_id)

pub subaccount_targets :
    (db : Database) (r : Subaccount)
    → targets_there subaccounts.foreign_keys (tables_of db) (subaccount_cells r)
      ≡ subaccount_refs db r
unfolding tables_of subaccount_cells string_eq
subaccount_targets db r =
    ground
      (arith, is_there-map candidate_cells candidate_key candidate_id db.candidates r.candidate_id)

pub transaction_targets :
    (db : Database) (r : Transaction)
    → targets_there transactions.foreign_keys (tables_of db) (transaction_cells r)
      ≡ transaction_refs db r
unfolding tables_of transaction_cells string_eq
transaction_targets db r = ground (
  arith,
  is_there-map candidate_cells candidate_key candidate_id db.candidates r.candidate_id,
  is_there-map vote_package_cells vote_package_key vote_package_id db.vote_packages
      r.vote_package_id,
  is_there-map contest_cells contest_key contest_id db.contests r.contest_id,
)

pub vote_targets :
    (db : Database) (r : Vote)
    → targets_there votes.foreign_keys (tables_of db) (vote_cells r) ≡ vote_refs db r
unfolding tables_of vote_cells string_eq
vote_targets db r = ground (
  arith,
  is_there-map transaction_cells transaction_key transaction_id db.transactions r.transaction_id,
  is_there-map candidate_cells candidate_key candidate_id db.candidates r.candidate_id,
)

pub settlement_targets :
    (db : Database) (r : Settlement)
    → targets_there settlements.foreign_keys (tables_of db) (settlement_cells r)
      ≡ settlement_refs db r
unfolding tables_of settlement_cells string_eq
settlement_targets db r = ground (
  arith,
  is_there-map candidate_cells candidate_key candidate_id db.candidates r.candidate_id,
  is_there-maybe user_cells user_key user_id db.users r.actioned_by_user_id,
)
