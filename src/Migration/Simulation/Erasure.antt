-- ===== src/Migration/Simulation/Erasure.antt =====
-- The rows that a DELETE leaves, with its SET NULL, by the revision's catalog (alembic/versions)
-- and by Schema.Statements.erase.
pub mod Unlinking
pub mod Remains
use balotly_backend.Base.{
  ℕ, suc, zero, Option, none, some, Bool, true, false, not, ◌&&◌, ◌||◌, ◌≡◌, ◌≢◌, refl, ap, ◌∙◌,
  sym, String, List, [], ◌∷◌, ◌==◌, map, arith, string_eq, fun_ext, if◌then◌else◌,
}
use balotly_backend.Base.Dict.{Dict, lookup}
use balotly_backend.Schema.Rows.{
  Organization, User, Contest, Category, Candidate, VotePackage, Subaccount, Transaction, Vote,
  Settlement,
}
use balotly_backend.Schema.Table.{any, remove, is_doomed}
use balotly_backend.Schema.Database.{
  Database, Result, ok, err, restrict_violation, organization_key, user_key, contest_key,
  category_key, candidate_key, vote_package_key, subaccount_key, transaction_key, vote_key,
  settlement_key,
}
use balotly_backend.Schema.Statements.{
  Doomed, cascade, is_restricted, erase, unlink_organization, unlink_user, unlink_candidate,
  unlink_settlement, delete_rows, mutate_votes, set_null, no_rows, execute,
}
use balotly_backend.Migration.Conditions.{Row, Value, null, key}
use balotly_backend.Migration.Catalog.{Table}
use balotly_backend.Migration.Operations.{migrate, apply}
use balotly_backend.Migration.Revision.{upgrade}
use balotly_backend.Migration.Revision.Roundtrip.{upgraded, catalog_of}
use balotly_backend.Migration.Revision.Accounts.{organizations, users}
use balotly_backend.Migration.Revision.Contests.{contests, categories, candidates, vote_packages}
use balotly_backend.Migration.Revision.Payments.{subaccounts, transactions, votes, settlements}
use balotly_backend.Migration.Cells.{
  organization_cells, user_cells, contest_cells, category_cells, candidate_cells,
  vote_package_cells, subaccount_cells, transaction_cells, vote_cells, settlement_cells, tables_of,
  maybe,
}
use balotly_backend.Migration.Execution.{
  Tables, Rows, refers, is_bound, is_restrict, is_held, is_refused, unlink, erase_chosen, keys_of,
  rows_where, entries, delete_chosen, if_there, delete_from, cascaded,
}
use balotly_backend.Migration.Commands.{
  Entity, organization, user, contest, category, candidate, vote_package, subaccount, transaction,
  vote, settlement, table_name, doomed_where, map_result, perform, delete, statement_of,
}
use balotly_backend.Migration.Refinement.Targets.{
  organization_id, user_id, contest_id, category_id, candidate_id, vote_package_id, subaccount_id,
  transaction_id, vote_id, settlement_id, linked_organizations,
}
use balotly_backend.Migration.Refinement.Clashes.{any-map, any_never}
use balotly_backend.Migration.Simulation.Referrers.{
  refers-map, any-chosen, remove-map, nulled, organization_keys, user_keys, contest_keys,
  category_keys, candidate_keys, vote_package_keys, subaccount_keys, transaction_keys, vote_keys,
  settlement_keys,
}
use balotly_backend.Migration.Simulation.Cascades.Closure.{
  contest_chosen, category_chosen, candidate_chosen, vote_package_chosen, subaccount_chosen,
}
use balotly_backend.Migration.Simulation.Cascades.{
  chosen, closed, organization_chosen, user_chosen, transaction_chosen, vote_chosen,
  settlement_chosen,
}
use balotly_backend.Migration.Simulation.Erasure.Remains.{
  erased_changed, erased_unchanged, remove_none,
}
use balotly_backend.Migration.Simulation.Erasure.Unlinking.{
  organization_unlinked, user_unlinked, candidate_unlinked, settlement_unlinked,
}
use balotly_backend.Migration.Catalog.{ForeignKey}

module _ (db : Database) (t : String) (p : Row → Bool) (m : ℕ) where
  -- The rows that go, after enough rounds of ON DELETE CASCADE.
  abbrev goes : Rows
  goes = chosen db t p (suc (suc (suc (suc m))))

  -- Whether rows of votes are named.
  abbrev votes_named : Bool
  votes_named = any (λ v. rows_where t p "votes" (vote_cells v)) db.votes

  organizations_erased :
      erase_chosen upgraded goes (tables_of db) "organizations"
      ≡ tables_of (erase db (closed db t p)) "organizations"
  unfolding tables_of erase string_eq
  organizations_erased =
      erased_changed goes (tables_of db) organization_cells db.organizations
        (remove (closed db t p).organizations db.organizations) "organizations" organization_keys
        refl
        (remove-map organization_cells organization_key organization_id (goes "organizations")
          (closed db t p).organizations (organization_chosen db t p (suc (suc (suc (suc m)))))
          db.organizations)
        (unlink_organization db (closed db t p)) (organization_unlinked db t p m)

  users_erased :
      erase_chosen upgraded goes (tables_of db) "users"
      ≡ tables_of (erase db (closed db t p)) "users"
  unfolding tables_of erase string_eq
  users_erased =
      erased_changed goes (tables_of db) user_cells db.users (remove (closed db t p).users db.users)
        "users" user_keys refl
        (remove-map user_cells user_key user_id (goes "users") (closed db t p).users
          (user_chosen db t p (suc (suc (suc (suc m))))) db.users)
        (unlink_user db (closed db t p)) (user_unlinked db t p m)

  contests_erased :
      erase_chosen upgraded goes (tables_of db) "contests"
      ≡ tables_of (erase db (closed db t p)) "contests"
  unfolding tables_of erase string_eq
  contests_erased =
      erased_unchanged goes (tables_of db) contest_cells db.contests
        (remove (closed db t p).contests db.contests) "contests" contest_keys refl
        (remove-map contest_cells contest_key contest_id (goes "contests") (closed db t p).contests
          (contest_chosen db t p (suc (suc (suc m)))) db.contests)
        (λ r. refl)

  categories_erased :
      erase_chosen upgraded goes (tables_of db) "categories"
      ≡ tables_of (erase db (closed db t p)) "categories"
  unfolding tables_of erase string_eq
  categories_erased =
      erased_unchanged goes (tables_of db) category_cells db.categories
        (remove (closed db t p).categories db.categories) "categories" category_keys refl
        (remove-map category_cells category_key category_id (goes "categories")
          (closed db t p).categories (category_chosen db t p (suc (suc m))) db.categories)
        (λ r. refl)

  candidates_erased :
      erase_chosen upgraded goes (tables_of db) "candidates"
      ≡ tables_of (erase db (closed db t p)) "candidates"
  unfolding tables_of erase string_eq
  candidates_erased =
      erased_changed goes (tables_of db) candidate_cells db.candidates
        (remove (closed db t p).candidates db.candidates) "candidates" candidate_keys refl
        (remove-map candidate_cells candidate_key candidate_id (goes "candidates")
          (closed db t p).candidates (candidate_chosen db t p (suc m)) db.candidates)
        (unlink_candidate db (closed db t p)) (candidate_unlinked db t p m)

  vote_packages_erased :
      erase_chosen upgraded goes (tables_of db) "vote_packages"
      ≡ tables_of (erase db (closed db t p)) "vote_packages"
  unfolding tables_of erase string_eq
  vote_packages_erased =
      erased_unchanged goes (tables_of db) vote_package_cells db.vote_packages
        (remove (closed db t p).vote_packages db.vote_packages) "vote_packages" vote_package_keys
        refl
        (remove-map vote_package_cells vote_package_key vote_package_id (goes "vote_packages")
          (closed db t p).vote_packages (vote_package_chosen db t p (suc (suc m))) db.vote_packages)
        (λ r. refl)

  subaccounts_erased :
      erase_chosen upgraded goes (tables_of db) "subaccounts"
      ≡ tables_of (erase db (closed db t p)) "subaccounts"
  unfolding tables_of erase string_eq
  subaccounts_erased =
      erased_unchanged goes (tables_of db) subaccount_cells db.subaccounts
        (remove (closed db t p).subaccounts db.subaccounts) "subaccounts" subaccount_keys refl
        (remove-map subaccount_cells subaccount_key subaccount_id (goes "subaccounts")
          (closed db t p).subaccounts (subaccount_chosen db t p m) db.subaccounts)
        (λ r. refl)

  transactions_erased :
      erase_chosen upgraded goes (tables_of db) "transactions"
      ≡ tables_of (erase db (closed db t p)) "transactions"
  unfolding tables_of erase string_eq
  transactions_erased =
      erased_unchanged goes (tables_of db) transaction_cells db.transactions
        (remove (closed db t p).transactions db.transactions) "transactions" transaction_keys refl
        (remove-map transaction_cells transaction_key transaction_id (goes "transactions")
          (closed db t p).transactions (transaction_chosen db t p (suc (suc (suc (suc m)))))
          db.transactions)
        (λ r. refl)

  votes_erased :
      votes_named ≡ false
      → erase_chosen upgraded goes (tables_of db) "votes"
        ≡ tables_of (erase db (closed db t p)) "votes"
  unfolding tables_of erase string_eq
  votes_erased h =
      erased_unchanged goes (tables_of db) vote_cells db.votes db.votes "votes" vote_keys refl
        (remove-map vote_cells vote_key vote_id (goes "votes")
            (λ v. rows_where t p "votes" (vote_cells v))
            (vote_chosen db t p (suc (suc (suc (suc m))))) db.votes
          ∙ ap (map vote_cells)
              (remove_none (λ v. rows_where t p "votes" (vote_cells v)) db.votes h))
        (λ r. refl)

  settlements_erased :
      erase_chosen upgraded goes (tables_of db) "settlements"
      ≡ tables_of (erase db (closed db t p)) "settlements"
  unfolding tables_of erase string_eq
  settlements_erased =
      erased_changed goes (tables_of db) settlement_cells db.settlements
        (remove (closed db t p).settlements db.settlements) "settlements" settlement_keys refl
        (remove-map settlement_cells settlement_key settlement_id (goes "settlements")
          (closed db t p).settlements (settlement_chosen db t p (suc (suc (suc (suc m)))))
          db.settlements)
        (unlink_settlement db (closed db t p)) (settlement_unlinked db t p m)

  no_such_rows :
      (u : String) (next : Database)
      → u ≢ "organizations"
      → u ≢ "users"
      → u ≢ "contests"
      → u ≢ "categories"
      → u ≢ "candidates"
      → u ≢ "vote_packages"
      → u ≢ "subaccounts"
      → u ≢ "transactions"
      → u ≢ "votes"
      → u ≢ "settlements"
      → tables_of next u ≡ []
  unfolding tables_of
  no_such_rows u next d0 d1 d2 d3 d4 d5 d6 d7 d8 d9 =
      ground (arith, d0, d1, d2, d3, d4, d5, d6, d7, d8, d9)

  at_name : (u n : String) (f g : Tables) → f n ≡ g n → (u ≢ n → f u ≡ g u) → f u ≡ g u
  at_name u n f g there others = elim (string_eq.dec u n) [
    | yes p ↦ ap f p ∙ there ∙ sym (ap g p)
    | no differ ↦ others differ
  ]

  pub erased :
      votes_named ≡ false
      → erase_chosen upgraded goes (tables_of db) ≡ tables_of (erase db (closed db t p))
  erased h = fun_ext (λ u.
      at_name u "organizations" (erase_chosen upgraded goes (tables_of db))
        (tables_of (erase db (closed db t p))) organizations_erased
        (λ d0.
          at_name u "users" (erase_chosen upgraded goes (tables_of db))
            (tables_of (erase db (closed db t p))) users_erased
            (λ d1.
              at_name u "contests" (erase_chosen upgraded goes (tables_of db))
                (tables_of (erase db (closed db t p))) contests_erased
                (λ d2.
                  at_name u "categories" (erase_chosen upgraded goes (tables_of db))
                    (tables_of (erase db (closed db t p))) categories_erased
                    (λ d3.
                      at_name u "candidates" (erase_chosen upgraded goes (tables_of db))
                        (tables_of (erase db (closed db t p))) candidates_erased
                        (λ d4.
                          at_name u "vote_packages" (erase_chosen upgraded goes (tables_of db))
                            (tables_of (erase db (closed db t p))) vote_packages_erased
                            (λ d5.
                              at_name u "subaccounts" (erase_chosen upgraded goes (tables_of db))
                                (tables_of (erase db (closed db t p))) subaccounts_erased
                                (λ d6.
                                  at_name u "transactions"
                                    (erase_chosen upgraded goes (tables_of db))
                                    (tables_of (erase db (closed db t p))) transactions_erased
                                    (λ d7.
                                      at_name u "votes" (erase_chosen upgraded goes (tables_of db))
                                        (tables_of (erase db (closed db t p))) (votes_erased h)
                                        (λ d8.
                                          at_name u "settlements"
                                            (erase_chosen upgraded goes (tables_of db))
                                            (tables_of (erase db (closed db t p)))
                                            settlements_erased
                                            (λ d9. ground (
                                              arith,
                                              no_such_rows u db d0 d1 d2 d3 d4 d5 d6 d7 d8 d9,
                                              no_such_rows u (erase db (closed db t p)) d0 d1 d2 d3
                                                  d4 d5 d6 d7 d8 d9,
                                            ))))))))))))
