-- ===== src/Migration/Revision/Roundtrip.antt =====
-- `upgrade` followed by `downgrade` (alembic/versions/07f7b6151968_initial_schema.py).
use mathlib.Core.List.{append-nil}
use balotly_backend.Base.{true, ◌≡◌, refl, ap, ◌∙◌, subst, List, [], ◌∷◌, ◌++◌, arith, string_eq}
use balotly_backend.Migration.Catalog.{Catalog, nothing}
use balotly_backend.Migration.Operations.{Result, ok, err, Operation, migrate, apply}
use balotly_backend.Migration.Operations.Frame.{beside, all_avoid, migrate-beside}
use balotly_backend.Migration.Revision.{upgrade, downgrade}

unfoldable pub catalog_of : Result Catalog → Catalog
catalog_of (ok c) = c
catalog_of (err e) = nothing

-- What the revision makes in an empty database.
unfoldable pub upgraded : Catalog
unfolding catalog_of upgrade migrate apply string_eq
upgraded = catalog_of (migrate upgrade nothing)

pub upgrade-nothing : migrate upgrade nothing ≡ ok upgraded
unfolding upgraded catalog_of upgrade migrate apply string_eq
upgrade-nothing = refl

downgrade-upgraded : migrate downgrade upgraded ≡ ok nothing
unfolding upgraded catalog_of upgrade downgrade migrate apply string_eq
downgrade-upgraded = refl

all_avoid-append :
    (xs ys : List Operation) (c : Catalog)
    → all_avoid (xs ++ ys) c ≡ true
    → (all_avoid xs c ≡ true) × (all_avoid ys c ≡ true)
all_avoid-append [] ys c h = (refl, h)
all_avoid-append (x ∷ xs) ys c h = ground (arith, all_avoid-append xs ys c)

beside-nothing : (c : Catalog) → beside c nothing ≡ c
beside-nothing c = ground (
  arith,
  append-nil c.tables,
  append-nil c.indexes,
  append-nil c.functions,
  append-nil c.triggers,
)

-- In a database whose objects have nothing to do with those of the revision, `upgrade` succeeds, and
-- `downgrade` then succeeds and leaves exactly the objects that were there.
pub downgrade-upgrade :
    (c : Catalog)
    → all_avoid (upgrade ++ downgrade) c ≡ true
    → (migrate upgrade c ≡ ok (beside c upgraded)) × (migrate downgrade (beside c upgraded) ≡ ok c)
downgrade-upgrade c free =
    let (up, down) = all_avoid-append upgrade downgrade c free in
    (
      subst (λ d. migrate upgrade d ≡ ok (beside c upgraded)) (beside-nothing c)
          (migrate-beside upgrade c nothing up upgrade-nothing),
      migrate-beside downgrade c upgraded down downgrade-upgraded ∙ ap ok (beside-nothing c),
    )
