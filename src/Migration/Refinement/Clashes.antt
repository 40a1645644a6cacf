-- ===== src/Migration/Refinement/Clashes.antt =====
-- UNIQUE constraints and unique indexes: when two rows clash by the revision (alembic/versions) and
-- by Schema.Constraints.
use balotly_backend.Base.{Bool, false, ◌≡◌, refl, List, [], ◌∷◌, map, arith, string_eq}
use balotly_backend.Schema.Rows.{
  Organization, User, Contest, Category, Candidate, VotePackage, Subaccount, Transaction, Vote,
  Settlement,
}
use balotly_backend.Schema.Table.{any}
use balotly_backend.Schema.Constraints.{
  user_clash, category_clash, candidate_clash, subaccount_clash, transaction_clash,
}
use balotly_backend.Migration.Conditions.{Row}
use balotly_backend.Migration.Enforcement.{rows_clash}
use balotly_backend.Migration.Cells.{
  organization_cells, user_cells, contest_cells, category_cells, candidate_cells,
  vote_package_cells, subaccount_cells, transaction_cells, vote_cells, settlement_cells,
}
use balotly_backend.Migration.Revision.Accounts.{organizations, users}
use balotly_backend.Migration.Revision.Contests.{contests, categories, candidates, vote_packages}
use balotly_backend.Migration.Revision.Payments.{subaccounts, transactions, votes, settlements}
use balotly_backend.Migration.Refinement.Indexes.{
  organization_indexes, user_indexes, contest_indexes, category_indexes, candidate_indexes,
  vote_package_indexes, subaccount_indexes, transaction_indexes, vote_indexes, settlement_indexes,
}
use balotly_backend.Migration.Refinement.Identity.{transaction_pairs}

pub any-map :
    {R : Type 0} (cells : R → Row) (p : Row → Bool) (q : R → Bool) (rs : List R)
    → ((r : R) → p (cells r) ≡ q r)
    → any p (map cells rs) ≡ any q rs
any-map cells p q [] h = refl
any-map cells p q (r ∷ rs) h = ground (arith, h r, any-map cells p q rs h)

pub any_never :
    {R : Type 0} (cells : R → Row) (p : Row → Bool) (rs : List R)
    → ((r : R) → p (cells r) ≡ false)
    → any p (map cells rs) ≡ false
any_never cells p [] h = refl
any_never cells p (r ∷ rs) h = ground (arith, h r, any_never cells p rs h)

organization_pairs :
    (a b : Organization)
    → rows_clash organizations organization_indexes (organization_cells a) (organization_cells b)
      ≡ false
organization_pairs a b = ground arith

pub organization_clashes :
    (r : Organization) (rs : List Organization)
    → any
        (rows_clash organizations organization_indexes (organization_cells r))
        (map organization_cells rs)
      ≡ false
organization_clashes r rs =
    any_never organization_cells
      (rows_clash organizations organization_indexes (organization_cells r)) rs
      (organization_pairs r)

user_pairs :
    (a b : User) → rows_clash users user_indexes (user_cells a) (user_cells b) ≡ user_clash a b
unfolding user_cells string_eq
user_pairs a b = ground arith

pub user_clashes :
    (r : User) (rs : List User)
    → any (rows_clash users user_indexes (user_cells r)) (map user_cells rs) ≡ any (user_clash r) rs
user_clashes r rs =
    any-map user_cells (rows_clash users user_indexes (user_cells r)) (user_clash r) rs
      (user_pairs r)

contest_pairs :
    (a b : Contest)
    → rows_clash contests contest_indexes (contest_cells a) (contest_cells b) ≡ false
contest_pairs a b = ground arith

pub contest_clashes :
    (r : Contest) (rs : List Contest)
    → any (rows_clash contests contest_indexes (contest_cells r)) (map contest_cells rs) ≡ false
contest_clashes r rs =
    any_never contest_cells (rows_clash contests contest_indexes (contest_cells r)) rs
      (contest_pairs r)

category_pairs :
    (a b : Category)
    → rows_clash categories category_indexes (category_cells a) (category_cells b)
      ≡ category_clash a b
unfolding category_cells string_eq
category_pairs a b = ground arith

pub category_clashes :
    (r : Category) (rs : List Category)
    → any (rows_clash categories category_indexes (category_cells r)) (map category_cells rs)
      ≡ any (category_clash r) rs
category_clashes r rs =
    any-map category_cells (rows_clash categories category_indexes (category_cells r))
      (category_clash r) rs (category_pairs r)

candidate_pairs :
    (a b : Candidate)
    → rows_clash candidates candidate_indexes (candidate_cells a) (candidate_cells b)
      ≡ candidate_clash a b
unfolding candidate_cells string_eq
candidate_pairs a b = ground arith

pub candidate_clashes :
    (r : Candidate) (rs : List Candidate)
    → any (rows_clash candidates candidate_indexes (candidate_cells r)) (map candidate_cells rs)
      ≡ any (candidate_clash r) rs
candidate_clashes r rs =
    any-map candidate_cells (rows_clash candidates candidate_indexes (candidate_cells r))
      (candidate_clash r) rs (candidate_pairs r)

vote_package_pairs :
    (a b : VotePackage)
    → rows_clash vote_packages vote_package_indexes (vote_package_cells a) (vote_package_cells b)
      ≡ false
vote_package_pairs a b = ground arith

pub vote_package_clashes :
    (r : VotePackage) (rs : List VotePackage)
    → any
        (rows_clash vote_packages vote_package_indexes (vote_package_cells r))
        (map vote_package_cells rs)
      ≡ false
vote_package_clashes r rs =
    any_never vote_package_cells
      (rows_clash vote_packages vote_package_indexes (vote_package_cells r)) rs
      (vote_package_pairs r)

subaccount_pairs :
    (a b : Subaccount)
    → rows_clash subaccounts subaccount_indexes (subaccount_cells a) (subaccount_cells b)
      ≡ subaccount_clash a b
unfolding subaccount_cells string_eq
subaccount_pairs a b = ground arith

pub subaccount_clashes :
    (r : Subaccount) (rs : List Subaccount)
    → any (rows_clash subaccounts subaccount_indexes (subaccount_cells r)) (map subaccount_cells rs)
      ≡ any (subaccount_clash r) rs
subaccount_clashes r rs =
    any-map subaccount_cells (rows_clash subaccounts subaccount_indexes (subaccount_cells r))
      (subaccount_clash r) rs (subaccount_pairs r)

pub transaction_clashes :
    (r : Transaction) (rs : List Transaction)
    → any
        (rows_clash transactions transaction_indexes (transaction_cells r))
        (map transaction_cells rs)
      ≡ any (transaction_clash r) rs
transaction_clashes r rs =
    any-map transaction_cells (rows_clash transactions transaction_indexes (transaction_cells r))
      (transaction_clash r) rs (transaction_pairs r)

vote_pairs : (a b : Vote) → rows_clash votes vote_indexes (vote_cells a) (vote_cells b) ≡ false
vote_pairs a b = ground arith

pub vote_clashes :
    (r : Vote) (rs : List Vote)
    → any (rows_clash votes vote_indexes (vote_cells r)) (map vote_cells rs) ≡ false
vote_clashes r rs =
    any_never vote_cells (rows_clash votes vote_indexes (vote_cells r)) rs (vote_pairs r)

settlement_pairs :
    (a b : Settlement)
    → rows_clash settlements settlement_indexes (settlement_cells a) (settlement_cells b) ≡ false
settlement_pairs a b = ground arith

pub settlement_clashes :
    (r : Settlement) (rs : List Settlement)
    → any (rows_clash settlements settlement_indexes (settlement_cells r)) (map settlement_cells rs)
      ≡ false
settlement_clashes r rs =
    any_never settlement_cells (rows_clash settlements settlement_indexes (settlement_cells r)) rs
      (settlement_pairs r)
