-- ===== src/Migration/Simulation/Cascades.antt =====
-- ON DELETE CASCADE by the revision's catalog (alembic/versions) beside Schema.Statements.cascade:
-- the tables that no cascade reaches, and one step of the others.
pub mod Closure
use balotly_backend.Base.{
  ℕ, zero, suc, some, Bool, true, false, ◌&&◌, ◌||◌, ◌≡◌, refl, ap, ◌∙◌, String, List, [], ◌∷◌,
  ◌==◌, map, arith, string_eq,
}
use balotly_backend.Base.Dict.{Dict}
use balotly_backend.Schema.Rows.{
  Organization, User, Contest, Category, Candidate, VotePackage, Subaccount, Transaction, Vote,
  Settlement,
}
use balotly_backend.Schema.Table.{is_doomed}
use balotly_backend.Schema.Database.{
  Database, organization_key, user_key, contest_key, category_key, candidate_key, vote_package_key,
  subaccount_key, transaction_key, vote_key, settlement_key,
}
use balotly_backend.Schema.Statements.{Doomed, cascade}
use balotly_backend.Migration.Conditions.{Row, key}
use balotly_backend.Migration.Catalog.{ForeignKey}
use balotly_backend.Migration.Revision.Roundtrip.{upgraded}
use balotly_backend.Migration.Cells.{
  organization_cells, user_cells, contest_cells, category_cells, candidate_cells,
  vote_package_cells, subaccount_cells, transaction_cells, vote_cells, settlement_cells, tables_of,
}
use balotly_backend.Migration.Execution.{
  Rows, refers, is_bound, is_cascade, keys_of, rows_where, cascaded,
}
use balotly_backend.Migration.Commands.{doomed_where}
use balotly_backend.Migration.Refinement.Targets.{
  organization_id, user_id, contest_id, category_id, candidate_id, vote_package_id, subaccount_id,
  transaction_id, vote_id, settlement_id,
}
use balotly_backend.Migration.Simulation.Referrers.{
  refers_sound, refers_complete, organization_keys, user_keys, contest_keys, category_keys,
  candidate_keys, vote_package_keys, subaccount_keys, transaction_keys, vote_keys, settlement_keys,
}

module _ (db : Database) (t : String) (p : Row → Bool) where
  abbrev pub chosen : ℕ → Rows
  chosen n = cascaded upgraded (tables_of db) (rows_where t p) n

  abbrev pub closed : Doomed
  closed = cascade db (doomed_where t p)

  -- Rows that are named stay chosen.
  pub named_chosen :
      (n : ℕ) (u : String) (r : Row) → rows_where t p u r ≡ true → chosen n u r ≡ true
  named_chosen zero u r h = h
  named_chosen (suc n) u r h = ground (arith, named_chosen n u r h)

  -- One step, by the foreign keys that the revision gives a table.
  pub chosen_step :
      {ks : Dict String ForeignKey} (u : String)
      → keys_of upgraded u ≡ ks
      → (n : ℕ) (r : Row)
      → chosen (suc n) u r ≡ (chosen n u r || is_bound is_cascade ks (chosen n) (tables_of db) r)
  chosen_step u keys n r =
      ap (λ ks. chosen n u r || is_bound is_cascade ks (chosen n) (tables_of db) r) keys

  -- Without ON DELETE CASCADE only the named rows go.
  chosen_named :
      {ks : Dict String ForeignKey} (u : String)
      → keys_of upgraded u ≡ ks
      → ((n : ℕ) (r : Row) → is_bound is_cascade ks (chosen n) (tables_of db) r ≡ false)
      → (n : ℕ) (r : Row) → chosen n u r ≡ rows_where t p u r
  chosen_named u keys free zero r = refl
  chosen_named u keys free (suc n) r =
      ground (arith, chosen_step u keys n r, free n r, chosen_named u keys free n r)

  pub organization_chosen :
      (n : ℕ) (r : Organization)
      → chosen n "organizations" (organization_cells r) ≡ closed.organizations r
  unfolding cascade
  organization_chosen n r =
      chosen_named "organizations" organization_keys (λ m s. refl) n (organization_cells r)

  pub user_chosen : (n : ℕ) (r : User) → chosen n "users" (user_cells r) ≡ closed.users r
  unfolding cascade
  user_chosen n r = chosen_named "users" user_keys (λ m s. refl) n (user_cells r)

  pub transaction_chosen :
      (n : ℕ) (r : Transaction)
      → chosen n "transactions" (transaction_cells r) ≡ closed.transactions r
  unfolding cascade
  transaction_chosen n r =
      chosen_named "transactions" transaction_keys (λ m s. refl) n (transaction_cells r)

  pub vote_chosen :
      (n : ℕ) (r : Vote) → chosen n "votes" (vote_cells r) ≡ rows_where t p "votes" (vote_cells r)
  unfolding cascade
  vote_chosen n r = chosen_named "votes" vote_keys (λ m s. refl) n (vote_cells r)

  pub settlement_chosen :
      (n : ℕ) (r : Settlement) → chosen n "settlements" (settlement_cells r) ≡ closed.settlements r
  unfolding cascade
  settlement_chosen n r =
      chosen_named "settlements" settlement_keys (λ m s. refl) n (settlement_cells r)
