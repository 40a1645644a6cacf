-- ===== src/Migration/Simulation/Restrictions.antt =====
-- ON DELETE RESTRICT and the triggers: the deletes that they hold up by the revision's catalog
-- (alembic/versions) and by Schema.Statements.
use balotly_backend.Base.{
  ℕ, suc, Bool, false, ◌&&◌, ◌||◌, ◌≡◌, refl, ap, ◌∙◌, String, [], ◌∷◌, ◌==◌, arith, string_eq,
}
use balotly_backend.Schema.Table.{any, is_doomed}
use balotly_backend.Schema.Database.{
  Database, contest_key, candidate_key, vote_package_key, transaction_key, vote_key,
}
use balotly_backend.Schema.Statements.{is_restricted}
use balotly_backend.Migration.Conditions.{Row}
use balotly_backend.Migration.Operations.{migrate, apply}
use balotly_backend.Migration.Revision.{upgrade}
use balotly_backend.Migration.Revision.Roundtrip.{upgraded, catalog_of}
use balotly_backend.Migration.Revision.Accounts.{users}
use balotly_backend.Migration.Revision.Contests.{contests, categories, candidates, vote_packages}
use balotly_backend.Migration.Revision.Payments.{subaccounts, transactions, votes, settlements}
use balotly_backend.Migration.Cells.{
  organization_cells, user_cells, contest_cells, category_cells, candidate_cells,
  vote_package_cells, subaccount_cells, transaction_cells, vote_cells, settlement_cells, tables_of,
}
use balotly_backend.Migration.Execution.{Rows, is_bound, is_restrict, is_held, is_refused}
use balotly_backend.Migration.Refinement.Targets.{
  contest_id, candidate_id, vote_package_id, transaction_id, vote_id, linked_organizations,
}
use balotly_backend.Migration.Refinement.Clashes.{any-map, any_never}
use balotly_backend.Migration.Simulation.Referrers.{refers-map, any-chosen}
use balotly_backend.Migration.Simulation.Cascades.Closure.{
  contest_chosen, candidate_chosen, vote_package_chosen,
}
use balotly_backend.Migration.Simulation.Cascades.{chosen, closed, transaction_chosen, vote_chosen}

module _ (db : Database) (t : String) (p : Row → Bool) (m : ℕ) where
  -- The rows that go, after enough rounds of ON DELETE CASCADE.
  abbrev goes : Rows
  goes = chosen db t p (suc (suc (suc (suc m))))

  organization_held :
      any
        (is_bound is_restrict linked_organizations.foreign_keys goes (tables_of db))
        (tables_of db "organizations")
      ≡ false
  unfolding tables_of string_eq
  organization_held =
      any_never organization_cells
        (is_bound is_restrict linked_organizations.foreign_keys goes (tables_of db))
        db.organizations (λ r. refl)

  user_held :
      any (is_bound is_restrict users.foreign_keys goes (tables_of db)) (tables_of db "users")
      ≡ false
  unfolding tables_of string_eq
  user_held =
      any_never user_cells (is_bound is_restrict users.foreign_keys goes (tables_of db)) db.users
        (λ r. refl)

  contest_held :
      any (is_bound is_restrict contests.foreign_keys goes (tables_of db)) (tables_of db "contests")
      ≡ false
  unfolding tables_of string_eq
  contest_held =
      any_never contest_cells (is_bound is_restrict contests.foreign_keys goes (tables_of db))
        db.contests (λ r. refl)

  category_held :
      any
        (is_bound is_restrict categories.foreign_keys goes (tables_of db))
        (tables_of db "categories")
      ≡ false
  unfolding tables_of string_eq
  category_held =
      any_never category_cells (is_bound is_restrict categories.foreign_keys goes (tables_of db))
        db.categories (λ r. refl)

  candidate_held :
      any
        (is_bound is_restrict candidates.foreign_keys goes (tables_of db))
        (tables_of db "candidates")
      ≡ false
  unfolding tables_of string_eq
  candidate_held =
      any_never candidate_cells (is_bound is_restrict candidates.foreign_keys goes (tables_of db))
        db.candidates (λ r. refl)

  vote_package_held :
      any
        (is_bound is_restrict vote_packages.foreign_keys goes (tables_of db))
        (tables_of db "vote_packages")
      ≡ false
  unfolding tables_of string_eq
  vote_package_held =
      any_never vote_package_cells
        (is_bound is_restrict vote_packages.foreign_keys goes (tables_of db)) db.vote_packages
        (λ r. refl)

  subaccount_held :
      any
        (is_bound is_restrict subaccounts.foreign_keys goes (tables_of db))
        (tables_of db "subaccounts")
      ≡ false
  unfolding tables_of string_eq
  subaccount_held =
      any_never subaccount_cells (is_bound is_restrict subaccounts.foreign_keys goes (tables_of db))
        db.subaccounts (λ r. refl)

  transaction_held :
      any
        (is_bound is_restrict transactions.foreign_keys goes (tables_of db))
        (tables_of db "transactions")
      ≡ any
          (λ r.
            is_doomed candidate_key (closed db t p).candidates db.candidates r.candidate_id
            || is_doomed vote_package_key
                (closed db t p).vote_packages
                db.vote_packages
                r.vote_package_id
            || is_doomed contest_key (closed db t p).contests db.contests r.contest_id)
          db.transactions
  unfolding tables_of transaction_cells string_eq
  transaction_held =
      any-map transaction_cells (is_bound is_restrict transactions.foreign_keys goes (tables_of db))
        (λ r.
          is_doomed candidate_key (closed db t p).candidates db.candidates r.candidate_id
          || is_doomed vote_package_key (closed db t p).vote_packages db.vote_packages
              r.vote_package_id
          || is_doomed contest_key (closed db t p).contests db.contests r.contest_id)
        db.transactions
        (λ r. ground (
          arith,
          refers-map candidate_cells candidate_key candidate_id (goes "candidates")
              (closed db t p).candidates (candidate_chosen db t p (suc m)) db.candidates
              r.candidate_id,
          refers-map vote_package_cells vote_package_key vote_package_id (goes "vote_packages")
              (closed db t p).vote_packages (vote_package_chosen db t p (suc (suc m)))
              db.vote_packages r.vote_package_id,
          refers-map contest_cells contest_key contest_id (goes "contests") (closed db t p).contests
              (contest_chosen db t p (suc (suc (suc m)))) db.contests r.contest_id,
        ))

  vote_held :
      any (is_bound is_restrict votes.foreign_keys goes (tables_of db)) (tables_of db "votes")
      ≡ any
          (λ r.
            is_doomed transaction_key (closed db t p).transactions db.transactions r.transaction_id
            || is_doomed candidate_key (closed db t p).candidates db.candidates r.candidate_id)
          db.votes
  unfolding tables_of vote_cells string_eq
  vote_held =
      any-map vote_cells (is_bound is_restrict votes.foreign_keys goes (tables_of db))
        (λ r.
          is_doomed transaction_key (closed db t p).transactions db.transactions r.transaction_id
          || is_doomed candidate_key (closed db t p).candidates db.candidates r.candidate_id)
        db.votes
        (λ r. ground (
          arith,
          refers-map transaction_cells transaction_key transaction_id (goes "transactions")
              (closed db t p).transactions (transaction_chosen db t p (suc (suc (suc (suc m)))))
              db.transactions r.transaction_id,
          refers-map candidate_cells candidate_key candidate_id (goes "candidates")
              (closed db t p).candidates (candidate_chosen db t p (suc m)) db.candidates
              r.candidate_id,
        ))

  settlement_held :
      any
        (is_bound is_restrict settlements.foreign_keys goes (tables_of db))
        (tables_of db "settlements")
      ≡ any
          (λ r. is_doomed candidate_key (closed db t p).candidates db.candidates r.candidate_id)
          db.settlements
  unfolding tables_of settlement_cells string_eq
  settlement_held =
      any-map settlement_cells (is_bound is_restrict settlements.foreign_keys goes (tables_of db))
        (λ r. is_doomed candidate_key (closed db t p).candidates db.candidates r.candidate_id)
        db.settlements
        (λ r. ground (
          arith,
          refers-map candidate_cells candidate_key candidate_id (goes "candidates")
              (closed db t p).candidates (candidate_chosen db t p (suc m)) db.candidates
              r.candidate_id,
        ))

  -- The tables that the revision makes, in its order.
  upgraded_tables :
      upgraded.tables
      ≡ ("organizations", linked_organizations)
        ∷ ("users", users)
        ∷ ("contests", contests)
        ∷ ("categories", categories)
        ∷ ("candidates", candidates)
        ∷ ("vote_packages", vote_packages)
        ∷ ("subaccounts", subaccounts)
        ∷ ("transactions", transactions)
        ∷ ("votes", votes)
        ∷ ("settlements", settlements)
        ∷ []
  unfolding upgraded catalog_of upgrade migrate apply string_eq
  upgraded_tables = refl

  pub held : is_held upgraded.tables goes (tables_of db) ≡ is_restricted db (closed db t p)
  unfolding is_restricted
  held =
      ap (λ ts. is_held ts goes (tables_of db)) upgraded_tables
      ∙ ground (
        arith, organization_held, user_held, contest_held, category_held, candidate_held,
        vote_package_held, subaccount_held, transaction_held, vote_held, settlement_held,
      )

  pub refused :
      is_refused upgraded.triggers goes (tables_of db)
      ≡ any (λ v. ("votes" == t) && p (vote_cells v)) db.votes
  unfolding upgraded catalog_of upgrade migrate apply tables_of string_eq
  refused = ground (
    arith,
    any-chosen vote_cells vote_key vote_id (goes "votes") (λ v. ("votes" == t) && p (vote_cells v))
        (vote_chosen db t p (suc (suc (suc (suc m))))) db.votes,
  )
