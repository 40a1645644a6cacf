-- ===== src/Schema/Statements/Outcomes.antt =====
-- How a statement can end, and what a successful INSERT or UPDATE of one table shows (PostgreSQL on api/v1/models).
use balotly_backend.Base.{ℕ, false, ◌≡◌, ◌⊎◌, inl, inr, refl, List, [], ◌∷◌, ◌++◌, arith}
use balotly_backend.Schema.Table.{has, replace}
use balotly_backend.Schema.Database.{Database, Error, Result, ok, err, ◌>>=◌}
use balotly_backend.Schema.Statements.{insert_row, update_row}

pub Result-cases :
    {A : Type 0} (m : Result A) → ((a : A) × (m ≡ ok a)) ⊎ ((x : Error) × (m ≡ err x))
Result-cases (ok a) = inl (a, refl)
Result-cases (err x) = inr (x, refl)

pub insert_row-ok :
    {R : Type 0} (key : R → ℕ) (verdict : Result (Unit {0})) (rows : List R) (r : R) {next : List R}
    → insert_row key verdict rows r ≡ ok next
    → (verdict ≡ ok tt) × (has key rows (key r) ≡ false) × (next ≡ rows ++ r ∷ [])
unfolding insert_row
insert_row-ok key verdict rows r e = ground arith

pub update_row-ok :
    {R : Type 0} (key : R → ℕ) (verdict : Result (Unit {0})) (rows : List R) (r : R) {next : List R}
    → update_row key verdict rows r ≡ ok next
    → ((verdict ≡ ok tt) × (next ≡ replace key r rows)) ⊎ (next ≡ rows)
unfolding update_row
update_row-ok key verdict rows r e = ground arith

-- A statement that writes one table has written it.
pub written :
    {R : Type 0} (m : Result (List R)) (f : List R → Database) {next : Database}
    → (m >>= λ rows. ok (f rows)) ≡ ok next
    → (rows : List R) × (m ≡ ok rows) × (next ≡ f rows)
written (ok rows) f e = (rows, refl, ground arith)
written (err x) f e = cc
