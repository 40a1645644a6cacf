-- ===== src/Migration/Simulation/Referrers.antt =====
-- Foreign keys to rows that are to go, in the catalog's tables (alembic/versions) and by
-- Schema.Table.
use balotly_backend.Base.{
  ℕ, Option, none, some, Bool, true, ◌≡◌, refl, List, [], ◌∷◌, map, arith, string_eq, if◌then◌else◌,
}
use balotly_backend.Schema.Table.{any, remove, is_doomed}
use balotly_backend.Schema.Statements.{set_null}
use balotly_backend.Migration.Conditions.{Row, key, null}
use balotly_backend.Migration.Cells.{maybe}
use balotly_backend.Migration.Execution.{refers, keys_of}
use balotly_backend.Migration.Operations.{migrate, apply}
use balotly_backend.Migration.Revision.{upgrade}
use balotly_backend.Migration.Revision.Roundtrip.{upgraded, catalog_of}
use balotly_backend.Migration.Revision.Accounts.{users}
use balotly_backend.Migration.Revision.Contests.{contests, categories, candidates, vote_packages}
use balotly_backend.Migration.Revision.Payments.{subaccounts, transactions, votes, settlements}
use balotly_backend.Migration.Refinement.Targets.{linked_organizations}

module _ {R : Type 0} (cells : R → Row) (key_of : R → ℕ)
    (keyed : (r : R) → cells r "id" ≡ key (key_of r)) (chosen : Row → Bool)
    (doomed : R → Bool) where
  pub refers_sound :
      (rs : List R) (k : ℕ)
      → ((r : R) → chosen (cells r) ≡ true → doomed r ≡ true)
      → refers chosen (map cells rs) (key k) ≡ true
      → is_doomed key_of doomed rs k ≡ true
  refers_sound [] k f h = cc
  refers_sound (r ∷ rs) k f h = ground (arith, keyed r, f r, refers_sound rs k f)

  pub refers_complete :
      (rs : List R) (k : ℕ)
      → ((r : R) → doomed r ≡ true → chosen (cells r) ≡ true)
      → is_doomed key_of doomed rs k ≡ true
      → refers chosen (map cells rs) (key k) ≡ true
  refers_complete [] k f h = cc
  refers_complete (r ∷ rs) k f h = ground (arith, keyed r, f r, refers_complete rs k f)

  module _ (same : (r : R) → chosen (cells r) ≡ doomed r) where
    pub refers-map :
        (rs : List R) (k : ℕ) → refers chosen (map cells rs) (key k) ≡ is_doomed key_of doomed rs k
    refers-map [] k = refl
    refers-map (r ∷ rs) k = ground (arith, keyed r, same r, refers-map rs k)

    pub any-chosen : (rs : List R) → any chosen (map cells rs) ≡ any doomed rs
    any-chosen [] = refl
    any-chosen (r ∷ rs) = ground (arith, same r, any-chosen rs)

    pub remove-map : (rs : List R) → remove chosen (map cells rs) ≡ map cells (remove doomed rs)
    remove-map [] = refl
    remove-map (r ∷ rs) = ground (arith, same r, remove-map rs)

    -- SET NULL of one cell.
    pub nulled :
        (rs : List R) (o : Option ℕ)
        → (if refers chosen (map cells rs) (maybe key o) then null else maybe key o)
          ≡ maybe key (set_null key_of doomed rs o)
    nulled rs none = refl
    nulled rs (some k) = ground (arith, refers-map rs k)

pub organization_keys : keys_of upgraded "organizations" ≡ linked_organizations.foreign_keys
unfolding upgraded catalog_of upgrade migrate apply string_eq
organization_keys = refl

pub user_keys : keys_of upgraded "users" ≡ users.foreign_keys
unfolding upgraded catalog_of upgrade migrate apply string_eq
user_keys = refl

pub contest_keys : keys_of upgraded "contests" ≡ contests.foreign_keys
unfolding upgraded catalog_of upgrade migrate apply string_eq
contest_keys = refl

pub category_keys : keys_of upgraded "categories" ≡ categories.foreign_keys
unfolding upgraded catalog_of upgrade migrate apply string_eq
category_keys = refl

pub candidate_keys : keys_of upgraded "candidates" ≡ candidates.foreign_keys
unfolding upgraded catalog_of upgrade migrate apply string_eq
candidate_keys = refl

pub vote_package_keys : keys_of upgraded "vote_packages" ≡ vote_packages.foreign_keys
unfolding upgraded catalog_of upgrade migrate apply string_eq
vote_package_keys = refl

pub subaccount_keys : keys_of upgraded "subaccounts" ≡ subaccounts.foreign_keys
unfolding upgraded catalog_of upgrade migrate apply string_eq
subaccount_keys = refl

pub transaction_keys : keys_of upgraded "transactions" ≡ transactions.foreign_keys
unfolding upgraded catalog_of upgrade migrate apply string_eq
transaction_keys = refl

pub vote_keys : keys_of upgraded "votes" ≡ votes.foreign_keys
unfolding upgraded catalog_of upgrade migrate apply string_eq
vote_keys = refl

pub settlement_keys : keys_of upgraded "settlements" ≡ settlements.foreign_keys
unfolding upgraded catalog_of upgrade migrate apply string_eq
settlement_keys = refl
