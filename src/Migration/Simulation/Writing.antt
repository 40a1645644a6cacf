-- ===== src/Migration/Simulation/Writing.antt =====
-- INSERT and UPDATE of one row: what they leave behind in the tables of the catalog and in those of
-- Schema.Database (alembic/versions).
use mathlib.Core.List.{map-append}
use balotly_backend.Base.{
  ℕ, some, false, ◌≡◌, refl, ap, ◌∙◌, sym, String, List, [], ◌∷◌, ◌++◌, map, arith, string_eq,
}
use balotly_backend.Schema.Table.{has, replace}
use balotly_backend.Schema.Database.{Database, Result, ok, ◌>>=◌}
use balotly_backend.Schema.Statements.{insert_row, update_row}
use balotly_backend.Migration.Conditions.{Row, key}
use balotly_backend.Migration.Cells.{tables_of}
use balotly_backend.Migration.Enforcement.{is_there}
use balotly_backend.Migration.Execution.{Tables, replaced, place, overwrite, write_over}
use balotly_backend.Migration.Commands.{map_result}
use balotly_backend.Migration.Refinement.Targets.{is_there-map}

module _ {R : Type 0} (cells : R → Row) (key_of : R → ℕ)
    (keyed : (r : R) → cells r "id" ≡ key (key_of r)) where
  pub overwrite-map :
      (new : R) (rs : List R)
      → overwrite (cells new) (map cells rs) ≡ map cells (replace key_of new rs)
  overwrite-map new [] = refl
  overwrite-map new (r ∷ rs) = ground (arith, keyed new, keyed r, overwrite-map new rs)

  module _ (t : String) (tables : Tables) (rs : List R) (put : List R → Database) (r : R)
      (verdict : Result (Unit {0})) (there : tables t ≡ map cells rs)
      (stored : (xs : List R) → replaced t (map cells xs) tables ≡ tables_of (put xs)) where
    present : is_there (tables t) (cells r "id") ≡ has key_of rs (key_of r)
    present =
        ap (λ rows. is_there rows (cells r "id")) there
        ∙ ap (is_there (map cells rs)) (keyed r)
        ∙ is_there-map cells key_of keyed rs (key_of r)

    appended : replaced t (tables t ++ cells r ∷ []) tables ≡ tables_of (put (rs ++ r ∷ []))
    appended =
        ap (λ rows. replaced t (rows ++ cells r ∷ []) tables) there
        ∙ ap (λ rows. replaced t rows tables) (sym (map-append cells rs (r ∷ [])))
        ∙ stored (rs ++ r ∷ [])

    overwritten :
        replaced t (overwrite (cells r) (tables t)) tables ≡ tables_of (put (replace key_of r rs))
    overwritten =
        ap (λ rows. replaced t (overwrite (cells r) rows) tables) there
        ∙ ap (λ rows. replaced t rows tables) (overwrite-map r rs)
        ∙ stored (replace key_of r rs)

    pub placed :
        place t (cells r) tables (some verdict)
        ≡ some (map_result tables_of (insert_row key_of verdict rs r >>= λ xs. ok (put xs)))
    unfolding insert_row
    placed = ground (arith, present, appended)

    pub written_over :
        tables_of (put rs) ≡ tables
        → write_over false t (cells r) tables (some verdict)
          ≡ some (map_result tables_of (update_row key_of verdict rs r >>= λ xs. ok (put xs)))
    unfolding update_row
    written_over same = ground (arith, present, overwritten, same)
