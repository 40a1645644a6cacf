-- ===== src/Migration/Simulation/Erasure/Remains.antt =====
-- What a DELETE leaves of one table of the catalog (alembic/versions).
use balotly_backend.Base.{
  Bool, false, ◌≡◌, refl, ap, ◌∙◌, String, List, [], ◌∷◌, map, arith, string_eq,
}
use balotly_backend.Base.Dict.{Dict}
use balotly_backend.Schema.Table.{any, remove}
use balotly_backend.Migration.Conditions.{Row}
use balotly_backend.Migration.Revision.Roundtrip.{upgraded}
use balotly_backend.Migration.Execution.{Tables, Rows, unlink, erase_chosen, keys_of}
use balotly_backend.Migration.Catalog.{ForeignKey}

-- What is left of a table that holds the rows of a model.
module _ (chosen : Rows) (tables : Tables) {R : Type 0} (cells : R → Row) (rs : List R) where
  -- Rows that are changed alike, and rows that stay as they are.
  map_changed :
      (g : Row → Row) (f : R → R) (rows : List R)
      → ((r : R) → g (cells r) ≡ cells (f r))
      → map g (map cells rows) ≡ map cells (map f rows)
  map_changed g f [] h = refl
  map_changed g f (r ∷ rows) h = ground (arith, h r, map_changed g f rows h)

  map_unchanged :
      (g : Row → Row) (rows : List R)
      → ((r : R) → g (cells r) ≡ cells r)
      → map g (map cells rows) ≡ map cells rows
  map_unchanged g [] h = refl
  map_unchanged g (r ∷ rows) h = ground (arith, h r, map_unchanged g rows h)

  module _ {ks : Dict String ForeignKey} (left : List R) (n : String)
      (keys : keys_of upgraded n ≡ ks) (there : tables n ≡ map cells rs)
      (gone : remove (chosen n) (map cells rs) ≡ map cells left) where
    open_erased :
        erase_chosen upgraded chosen tables n ≡ map (unlink ks chosen tables) (map cells left)
    open_erased =
        ap (λ ks. map (unlink ks chosen tables) (remove (chosen n) (tables n))) keys
        ∙ ap (λ rows. map (unlink ks chosen tables) (remove (chosen n) rows)) there
        ∙ ap (map (unlink ks chosen tables)) gone

    pub erased_changed :
        (f : R → R)
        → ((r : R) → unlink ks chosen tables (cells r) ≡ cells (f r))
        → erase_chosen upgraded chosen tables n ≡ map cells (map f left)
    erased_changed f h = open_erased ∙ map_changed (unlink ks chosen tables) f left h

    pub erased_unchanged :
        ((r : R) → unlink ks chosen tables (cells r) ≡ cells r)
        → erase_chosen upgraded chosen tables n ≡ map cells left
    erased_unchanged h = open_erased ∙ map_unchanged (unlink ks chosen tables) left h

pub remove_none : {R : Type 0} (f : R → Bool) (rs : List R) → any f rs ≡ false → remove f rs ≡ rs
remove_none f [] h = refl
remove_none f (r ∷ rs) h = ground (arith, remove_none f rs)
