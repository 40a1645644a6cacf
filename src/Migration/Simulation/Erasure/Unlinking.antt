-- ===== src/Migration/Simulation/Erasure/Unlinking.antt =====
-- ON DELETE SET NULL by the revision's catalog (alembic/versions), row by row.
use balotly_backend.Base.{
  ℕ, suc, Bool, ◌&&◌, ◌≡◌, ◌≢◌, refl, ap, sym, String, ◌==◌, map, arith, string_eq, fun_ext,
  if◌then◌else◌,
}
use balotly_backend.Schema.Rows.{Organization, User, Candidate, Settlement}
use balotly_backend.Schema.Database.{Database, organization_key, user_key}
use balotly_backend.Schema.Statements.{
  unlink_organization, unlink_user, unlink_candidate, unlink_settlement,
}
use balotly_backend.Migration.Conditions.{Row, Value, null, key}
use balotly_backend.Migration.Revision.Accounts.{users}
use balotly_backend.Migration.Revision.Contests.{candidates}
use balotly_backend.Migration.Revision.Payments.{settlements}
use balotly_backend.Migration.Cells.{
  organization_cells, user_cells, candidate_cells, settlement_cells, tables_of, maybe,
}
use balotly_backend.Migration.Execution.{Rows, refers, unlink}
use balotly_backend.Migration.Refinement.Targets.{organization_id, user_id, linked_organizations}
use balotly_backend.Migration.Simulation.Referrers.{nulled}
use balotly_backend.Migration.Simulation.Cascades.{chosen, closed, organization_chosen, user_chosen}

-- A row is known by what it has in one column and in the others.
nulled_column :
    (column : String) (v : Value) (goes : Bool) (old new : Row)
    → old column ≡ v
    → new column ≡ (if goes then null else v)
    → ((n : String) → n ≢ column → old n ≡ new n)
    → (λ n. if (n == column) && goes then null else old n) ≡ new
nulled_column column v goes old new before after others = fun_ext (λ n.
    elim (string_eq.dec n column) [
      | yes p ↦ ground (arith, p, before, after, ap new p, ap old p)
      | no differ ↦ ground (arith, differ, others n differ)
    ])

module _ (db : Database) (t : String) (p : Row → Bool) (m : ℕ) where
  -- The rows that go, after enough rounds of ON DELETE CASCADE.
  abbrev goes : Rows
  goes = chosen db t p (suc (suc (suc (suc m))))

  organization_others :
      (r : Organization) (n : String)
      → n ≢ "created_by_user_id"
      → organization_cells r n ≡ organization_cells (unlink_organization db (closed db t p) r) n
  unfolding organization_cells
  organization_others r n differ = ground (arith, differ)

  pub organization_unlinked :
      (r : Organization)
      → unlink linked_organizations.foreign_keys goes (tables_of db) (organization_cells r)
        ≡ organization_cells (unlink_organization db (closed db t p) r)
  unfolding tables_of organization_cells string_eq
  organization_unlinked r =
      nulled_column "created_by_user_id" (maybe key r.created_by_user_id)
        (refers (goes "users") (map user_cells db.users) (maybe key r.created_by_user_id))
        (organization_cells r) (organization_cells (unlink_organization db (closed db t p) r)) refl
        (sym (
          nulled user_cells user_key user_id (goes "users") (closed db t p).users
            (user_chosen db t p (suc (suc (suc (suc m))))) db.users r.created_by_user_id))
        (organization_others r)

  user_others :
      (r : User) (n : String)
      → n ≢ "organization_id"
      → user_cells r n ≡ user_cells (unlink_user db (closed db t p) r) n
  unfolding user_cells
  user_others r n differ = ground (arith, differ)

  pub user_unlinked :
      (r : User)
      → unlink users.foreign_keys goes (tables_of db) (user_cells r)
        ≡ user_cells (unlink_user db (closed db t p) r)
  unfolding tables_of user_cells string_eq
  user_unlinked r =
      nulled_column "organization_id" (maybe key r.organization_id)
        (refers (goes "organizations") (map organization_cells db.organizations)
          (maybe key r.organization_id))
        (user_cells r) (user_cells (unlink_user db (closed db t p) r)) refl
        (sym (
          nulled organization_cells organization_key organization_id (goes "organizations")
            (closed db t p).organizations (organization_chosen db t p (suc (suc (suc (suc m)))))
            db.organizations r.organization_id))
        (user_others r)

  candidate_others :
      (r : Candidate) (n : String)
      → n ≢ "user_id"
      → candidate_cells r n ≡ candidate_cells (unlink_candidate db (closed db t p) r) n
  unfolding candidate_cells
  candidate_others r n differ = ground (arith, differ)

  pub candidate_unlinked :
      (r : Candidate)
      → unlink candidates.foreign_keys goes (tables_of db) (candidate_cells r)
        ≡ candidate_cells (unlink_candidate db (closed db t p) r)
  unfolding tables_of candidate_cells string_eq
  candidate_unlinked r =
      nulled_column "user_id" (maybe key r.user_id)
        (refers (goes "users") (map user_cells db.users) (maybe key r.user_id)) (candidate_cells r)
        (candidate_cells (unlink_candidate db (closed db t p) r)) refl
        (sym (
          nulled user_cells user_key user_id (goes "users") (closed db t p).users
            (user_chosen db t p (suc (suc (suc (suc m))))) db.users r.user_id))
        (candidate_others r)

  settlement_others :
      (r : Settlement) (n : String)
      → n ≢ "actioned_by_user_id"
      → settlement_cells r n ≡ settlement_cells (unlink_settlement db (closed db t p) r) n
  unfolding settlement_cells
  settlement_others r n differ = ground (arith, differ)

  pub settlement_unlinked :
      (r : Settlement)
      → unlink settlements.foreign_keys goes (tables_of db) (settlement_cells r)
        ≡ settlement_cells (unlink_settlement db (closed db t p) r)
  unfolding tables_of settlement_cells string_eq
  settlement_unlinked r =
      nulled_column "actioned_by_user_id" (maybe key r.actioned_by_user_id)
        (refers (goes "users") (map user_cells db.users) (maybe key r.actioned_by_user_id))
        (settlement_cells r) (settlement_cells (unlink_settlement db (closed db t p) r)) refl
        (sym (
          nulled user_cells user_key user_id (goes "users") (closed db t p).users
            (user_chosen db t p (suc (suc (suc (suc m))))) db.users r.actioned_by_user_id))
        (settlement_others r)
