-- ===== src/Migration/Simulation/Deletes.antt =====
-- DELETE by the revision's catalog (alembic/versions) beside the statement of Schema.Statements.
use balotly_backend.Base.{
  ◌≤◌, ℕ, suc, zero, some, Bool, true, false, ◌&&◌, ◌≡◌, refl, ap, ◌∙◌, sym, String, ◌==◌, arith,
  string_eq,
}
use balotly_backend.Schema.Table.{any}
use balotly_backend.Schema.Database.{Database, Result, err, restrict_violation}
use balotly_backend.Schema.Statements.{delete_rows, mutate_votes, execute}
use balotly_backend.Migration.Conditions.{Row}
use balotly_backend.Migration.Operations.{migrate, apply}
use balotly_backend.Migration.Revision.{upgrade}
use balotly_backend.Migration.Revision.Roundtrip.{upgraded, catalog_of}
use balotly_backend.Migration.Cells.{vote_cells, tables_of}
use balotly_backend.Migration.Execution.{Tables, rows_where, delete_chosen, delete_from, cascaded}
use balotly_backend.Migration.Commands.{
  Entity, organization, user, contest, category, candidate, vote_package, subaccount, transaction,
  vote, settlement, table_name, doomed_where, map_result, perform, delete, statement_of,
}
use balotly_backend.Migration.Simulation.Restrictions.{held, refused}
use balotly_backend.Migration.Simulation.Erasure.{erased}
use balotly_backend.Migration.Simulation.Nothing.{any_none, delete_nothing}
use balotly_backend.Migration.Simulation.Cascades.{chosen}

-- What a DELETE on the catalog's tables comes to.
decided : Bool → Result Database → Result Database
decided true rest = err restrict_violation
decided false rest = rest

chosen_deleted :
    (db : Database) (t : String) (p : Row → Bool) (m : ℕ)
    → delete_chosen upgraded (chosen db t p (suc (suc (suc (suc m))))) (tables_of db)
      ≡ map_result tables_of (
          decided
            (any (λ v. ("votes" == t) && p (vote_cells v)) db.votes)
            (delete_rows (doomed_where t p) db))
unfolding decided delete_rows
chosen_deleted db t p m = ground (arith, refused db t p m, held db t p m, erased db t p m)

-- On any database and for any table and condition, four rounds of ON DELETE CASCADE take along all the
-- rows that any larger number of rounds does: the DELETE has the same result.
pub delete_chosen-cascaded :
    (db : Database) (t : String) (p : Row → Bool) (n : ℕ)
    → 4 ≤ n
    → delete_chosen upgraded (cascaded upgraded (tables_of db) (rows_where t p) n) (tables_of db)
      ≡ delete_chosen upgraded (cascaded upgraded (tables_of db) (rows_where t p) 4) (tables_of db)
delete_chosen-cascaded db t p zero h = absurd (omega arith)
delete_chosen-cascaded db t p (suc zero) h = absurd (omega arith)
delete_chosen-cascaded db t p (suc (suc zero)) h = absurd (omega arith)
delete_chosen-cascaded db t p (suc (suc (suc zero))) h = absurd (omega arith)
delete_chosen-cascaded db t p (suc (suc (suc (suc m)))) h =
    chosen_deleted db t p m ∙ sym (chosen_deleted db t p 0)

delete_from-upgraded :
    (e : Entity) (p : Row → Bool) (tables : Tables)
    → delete_from upgraded (table_name e) p tables
      ≡ some (
          delete_chosen upgraded (cascaded upgraded tables (rows_where (table_name e) p) 10) tables)
unfolding delete_from upgraded catalog_of upgrade migrate apply string_eq
delete_from-upgraded organization p tables = refl
delete_from-upgraded user p tables = refl
delete_from-upgraded contest p tables = refl
delete_from-upgraded category p tables = refl
delete_from-upgraded candidate p tables = refl
delete_from-upgraded vote_package p tables = refl
delete_from-upgraded subaccount p tables = refl
delete_from-upgraded transaction p tables = refl
delete_from-upgraded vote p tables = refl
delete_from-upgraded settlement p tables = refl

not_votes :
    (db : Database) (t : String) (p : Row → Bool)
    → ("votes" == t) ≡ false
    → any (λ v. ("votes" == t) && p (vote_cells v)) db.votes ≡ false
not_votes db t p h =
    any_none (λ v. ("votes" == t) && p (vote_cells v)) db.votes (λ v. ground (arith, h))

deletion_lem :
    (db : Database) (e : Entity) (p : Row → Bool)
    → decided
        (any (λ v. ("votes" == table_name e) && p (vote_cells v)) db.votes)
        (delete_rows (doomed_where (table_name e) p) db)
      ≡ execute (statement_of (delete e p)) db
unfolding decided execute mutate_votes string_eq
deletion_lem db organization p =
    ap (λ b. decided b (delete_rows (doomed_where "organizations" p) db))
      (not_votes db "organizations" p refl)
deletion_lem db user p =
    ap (λ b. decided b (delete_rows (doomed_where "users" p) db)) (not_votes db "users" p refl)
deletion_lem db contest p =
    ap (λ b. decided b (delete_rows (doomed_where "contests" p) db))
      (not_votes db "contests" p refl)
deletion_lem db category p =
    ap (λ b. decided b (delete_rows (doomed_where "categories" p) db))
      (not_votes db "categories" p refl)
deletion_lem db candidate p =
    ap (λ b. decided b (delete_rows (doomed_where "candidates" p) db))
      (not_votes db "candidates" p refl)
deletion_lem db vote_package p =
    ap (λ b. decided b (delete_rows (doomed_where "vote_packages" p) db))
      (not_votes db "vote_packages" p refl)
deletion_lem db subaccount p =
    ap (λ b. decided b (delete_rows (doomed_where "subaccounts" p) db))
      (not_votes db "subaccounts" p refl)
deletion_lem db transaction p =
    ap (λ b. decided b (delete_rows (doomed_where "transactions" p) db))
      (not_votes db "transactions" p refl)
deletion_lem db vote p = ground (arith, delete_nothing db)
deletion_lem db settlement p =
    ap (λ b. decided b (delete_rows (doomed_where "settlements" p) db))
      (not_votes db "settlements" p refl)

pub perform-delete :
    (e : Entity) (p : Row → Bool) (db : Database)
    → perform upgraded (delete e p) (tables_of db)
      ≡ some (map_result tables_of (execute (statement_of (delete e p)) db))
unfolding perform
perform-delete e p db =
    delete_from-upgraded e p (tables_of db)
    ∙ ap some
        (chosen_deleted db (table_name e) p 6 ∙ ap (map_result tables_of) (deletion_lem db e p))
