-- ===== src/Migration/Simulation/Stores.antt =====
-- The tables of a database after one of them has been written (alembic/versions).
use balotly_backend.Base.{◌≡◌, refl, fun_ext, arith, string_eq, List, map, ◌≢◌, String, ap}
use balotly_backend.Schema.Rows.{
  Organization, User, Contest, Category, Candidate, VotePackage, Subaccount, Transaction, Vote,
  Settlement,
}
use balotly_backend.Schema.Database.{Database}
use balotly_backend.Migration.Cells.{
  organization_cells, user_cells, contest_cells, category_cells, candidate_cells,
  vote_package_cells, subaccount_cells, transaction_cells, vote_cells, settlement_cells, tables_of,
}
use balotly_backend.Migration.Execution.{Tables, replaced}
use balotly_backend.Migration.Conditions.{Row}

-- Tables are known by what they have under one name and under the others.
replaced_by :
    (t : String) (rows : List Row) (tables next : Tables)
    → next t ≡ rows
    → ((u : String) → u ≢ t → tables u ≡ next u)
    → replaced t rows tables ≡ next
replaced_by t rows tables next there others = fun_ext (λ u. elim (string_eq.dec u t) [
  | yes p ↦ ground (arith, p, there, ap next p)
  | no differ ↦ ground (arith, differ, others u differ)
])

pub organization_rows :
    (db : Database) → tables_of db "organizations" ≡ map organization_cells db.organizations
unfolding tables_of string_eq
organization_rows db = refl

pub put_organization :
    (db : Database) (rs : List Organization)
    → replaced "organizations" (map organization_cells rs) (tables_of db)
      ≡ tables_of (record db { organizations = rs })
unfolding tables_of
put_organization db rs =
    replaced_by "organizations" (map organization_cells rs) (tables_of db)
      (tables_of (record db { organizations = rs }))
      (organization_rows (record db { organizations = rs })) (λ u differ. ground (arith, differ))

pub user_rows : (db : Database) → tables_of db "users" ≡ map user_cells db.users
unfolding tables_of string_eq
user_rows db = refl

pub put_user :
    (db : Database) (rs : List User)
    → replaced "users" (map user_cells rs) (tables_of db) ≡ tables_of (record db { users = rs })
unfolding tables_of
put_user db rs =
    replaced_by "users" (map user_cells rs) (tables_of db) (tables_of (record db { users = rs }))
      (user_rows (record db { users = rs })) (λ u differ. ground (arith, differ))

pub contest_rows : (db : Database) → tables_of db "contests" ≡ map contest_cells db.contests
unfolding tables_of string_eq
contest_rows db = refl

pub put_contest :
    (db : Database) (rs : List Contest)
    → replaced "contests" (map contest_cells rs) (tables_of db)
      ≡ tables_of (record db { contests = rs })
unfolding tables_of
put_contest db rs =
    replaced_by "contests" (map contest_cells rs) (tables_of db)
      (tables_of (record db { contests = rs })) (contest_rows (record db { contests = rs }))
      (λ u differ. ground (arith, differ))

pub category_rows : (db : Database) → tables_of db "categories" ≡ map category_cells db.categories
unfolding tables_of string_eq
category_rows db = refl

pub put_category :
    (db : Database) (rs : List Category)
    → replaced "categories" (map category_cells rs) (tables_of db)
      ≡ tables_of (record db { categories = rs })
unfolding tables_of
put_category db rs =
    replaced_by "categories" (map category_cells rs) (tables_of db)
      (tables_of (record db { categories = rs })) (category_rows (record db { categories = rs }))
      (λ u differ. ground (arith, differ))

pub candidate_rows : (db : Database) → tables_of db "candidates" ≡ map candidate_cells db.candidates
unfolding tables_of string_eq
candidate_rows db = refl

pub put_candidate :
    (db : Database) (rs : List Candidate)
    → replaced "candidates" (map candidate_cells rs) (tables_of db)
      ≡ tables_of (record db { candidates = rs })
unfolding tables_of
put_candidate db rs =
    replaced_by "candidates" (map candidate_cells rs) (tables_of db)
      (tables_of (record db { candidates = rs })) (candidate_rows (record db { candidates = rs }))
      (λ u differ. ground (arith, differ))

pub vote_package_rows :
    (db : Database) → tables_of db "vote_packages" ≡ map vote_package_cells db.vote_packages
unfolding tables_of string_eq
vote_package_rows db = refl

pub put_vote_package :
    (db : Database) (rs : List VotePackage)
    → replaced "vote_packages" (map vote_package_cells rs) (tables_of db)
      ≡ tables_of (record db { vote_packages = rs })
unfolding tables_of
put_vote_package db rs =
    replaced_by "vote_packages" (map vote_package_cells rs) (tables_of db)
      (tables_of (record db { vote_packages = rs }))
      (vote_package_rows (record db { vote_packages = rs })) (λ u differ. ground (arith, differ))

pub subaccount_rows :
    (db : Database) → tables_of db "subaccounts" ≡ map subaccount_cells db.subaccounts
unfolding tables_of string_eq
subaccount_rows db = refl

pub put_subaccount :
    (db : Database) (rs : List Subaccount)
    → replaced "subaccounts" (map subaccount_cells rs) (tables_of db)
      ≡ tables_of (record db { subaccounts = rs })
unfolding tables_of
put_subaccount db rs =
    replaced_by "subaccounts" (map subaccount_cells rs) (tables_of db)
      (tables_of (record db { subaccounts = rs }))
      (subaccount_rows (record db { subaccounts = rs })) (λ u differ. ground (arith, differ))

pub transaction_rows :
    (db : Database) → tables_of db "transactions" ≡ map transaction_cells db.transactions
unfolding tables_of string_eq
transaction_rows db = refl

pub put_transaction :
    (db : Database) (rs : List Transaction)
    → replaced "transactions" (map transaction_cells rs) (tables_of db)
      ≡ tables_of (record db { transactions = rs })
unfolding tables_of
put_transaction db rs =
    replaced_by "transactions" (map transaction_cells rs) (tables_of db)
      (tables_of (record db { transactions = rs }))
      (transaction_rows (record db { transactions = rs })) (λ u differ. ground (arith, differ))

pub vote_rows : (db : Database) → tables_of db "votes" ≡ map vote_cells db.votes
unfolding tables_of string_eq
vote_rows db = refl

pub put_vote :
    (db : Database) (rs : List Vote)
    → replaced "votes" (map vote_cells rs) (tables_of db) ≡ tables_of (record db { votes = rs })
unfolding tables_of
put_vote db rs =
    replaced_by "votes" (map vote_cells rs) (tables_of db) (tables_of (record db { votes = rs }))
      (vote_rows (record db { votes = rs })) (λ u differ. ground (arith, differ))

pub settlement_rows :
    (db : Database) → tables_of db "settlements" ≡ map settlement_cells db.settlements
unfolding tables_of string_eq
settlement_rows db = refl

pub put_settlement :
    (db : Database) (rs : List Settlement)
    → replaced "settlements" (map settlement_cells rs) (tables_of db)
      ≡ tables_of (record db { settlements = rs })
unfolding tables_of
put_settlement db rs =
    replaced_by "settlements" (map settlement_cells rs) (tables_of db)
      (tables_of (record db { settlements = rs }))
      (settlement_rows (record db { settlements = rs })) (λ u differ. ground (arith, differ))
