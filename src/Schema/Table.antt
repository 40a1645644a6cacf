-- ===== src/Schema/Table.antt =====
-- Tables with a numeric primary key, and what PostgreSQL does to them: rows are added, replaced and
-- removed, and foreign keys are followed.
pub mod Unique
pub mod Keys
use balotly_backend.Base.{
  ℕ, Option, none, some, Bool, true, false, not, ◌&&◌, ◌||◌, ◌≡◌, refl, List, [], ◌∷◌, ◌++◌, arith,
  eqb, if◌then◌else◌, map, get_elem?, zero, suc,
}

module _ {R : Type 0} where
  abbrev pub all : (R → Bool) → List R → Bool
  all p [] = true
  all p (r ∷ rs) = p r && all p rs

  abbrev pub any : (R → Bool) → List R → Bool
  any p [] = false
  any p (r ∷ rs) = p r || any p rs

  -- The rows that a DELETE leaves.
  abbrev pub remove : (R → Bool) → List R → List R
  remove doomed [] = []
  remove doomed (r ∷ rs) = let rest = remove doomed rs in if doomed r then rest else r ∷ rest

  pub all-append :
      (p : R → Bool) (rs : List R) (r : R)
      → all p rs ≡ true
      → p r ≡ true
      → all p (rs ++ r ∷ []) ≡ true
  all-append p [] r h k = ground arith
  all-append p (x ∷ rs) r h k = ground (arith, all-append p rs r)

  pub all-remove :
      (p doomed : R → Bool) (rs : List R) → all p rs ≡ true → all p (remove doomed rs) ≡ true
  all-remove p doomed [] h = refl
  all-remove p doomed (x ∷ rs) h = ground (arith, all-remove p doomed rs)

  pub all_impl :
      (p q : R → Bool) (rs : List R)
      → ((r : R) → p r ≡ true → q r ≡ true)
      → all p rs ≡ true
      → all q rs ≡ true
  all_impl p q [] f h = refl
  all_impl p q (x ∷ rs) f h = ground (arith, f x, all_impl p q rs f)

  -- The tests seen from a row's position.
  pub all-get_elem? :
      (p : R → Bool) (rs : List R) (i : ℕ) (r : R)
      → all p rs ≡ true
      → get_elem? rs i ≡ some r
      → p r ≡ true
  all-get_elem? p [] i r h e = cc
  all-get_elem? p (x ∷ rs) zero r h e = ground arith
  all-get_elem? p (x ∷ rs) (suc i) r h e = ground (arith, all-get_elem? p rs i r)

  pub any-get_elem? :
      (p : R → Bool) (rs : List R) (i : ℕ) (r : R)
      → get_elem? rs i ≡ some r
      → p r ≡ true
      → any p rs ≡ true
  any-get_elem? p [] i r e h = cc
  any-get_elem? p (x ∷ rs) zero r e h = ground arith
  any-get_elem? p (x ∷ rs) (suc i) r e h = ground (arith, any-get_elem? p rs i r)

module _ {R : Type 0} (key : R → ℕ) where
  -- `EXISTS (SELECT ... WHERE key = k)`
  abbrev pub has : List R → ℕ → Bool
  has [] k = false
  has (r ∷ rs) k = eqb (key r) k || has rs k

  -- UPDATE of the row with the new row's key.
  abbrev pub replace : R → List R → List R
  replace new [] = []
  replace new (r ∷ rs) = (if eqb (key r) (key new) then new else r) ∷ replace new rs

  -- Whether a key belongs to a row that is being deleted.
  abbrev pub is_doomed : (R → Bool) → List R → ℕ → Bool
  is_doomed doomed rs k = any (λ r. doomed r && eqb (key r) k) rs

  -- A foreign key that may be NULL.
  abbrev pub has_null : List R → Option ℕ → Bool
  has_null rs none = true
  has_null rs (some k) = has rs k

  -- A row that is there is found by its key, and if it is to go, its key is doomed.
  pub has-get_elem? :
      (rs : List R) (i : ℕ) (r : R) (k : ℕ) → get_elem? rs i ≡ some r → key r ≡ k → has rs k ≡ true
  has-get_elem? [] i r k e h = cc
  has-get_elem? (x ∷ rs) zero r k e h = ground arith
  has-get_elem? (x ∷ rs) (suc i) r k e h = ground (arith, has-get_elem? rs i r k)

  pub is_doomed-get_elem? :
      (doomed : R → Bool) (rs : List R) (i : ℕ) (r : R) (k : ℕ)
      → get_elem? rs i ≡ some r
      → doomed r ≡ true
      → key r ≡ k
      → is_doomed doomed rs k ≡ true
  is_doomed-get_elem? doomed rs i r k e d h =
      any-get_elem? (λ s. doomed s && eqb (key s) k) rs i r e (ground arith)

  pub has-append : (rs : List R) (new : R) (k : ℕ) → has rs k ≡ true → has (rs ++ new ∷ []) k ≡ true
  has-append [] new k h = cc
  has-append (r ∷ rs) new k h = ground (arith, has-append rs new k)

  pub has-replace : (rs : List R) (new : R) (k : ℕ) → has (replace new rs) k ≡ has rs k
  has-replace [] new k = refl
  has-replace (r ∷ rs) new k = ground (arith, has-replace rs new k)

  pub has-remove :
      (doomed : R → Bool) (rs : List R) (k : ℕ)
      → has rs k ≡ true
      → is_doomed doomed rs k ≡ false
      → has (remove doomed rs) k ≡ true
  has-remove doomed [] k h safe = cc
  has-remove doomed (r ∷ rs) k h safe = ground (arith, has-remove doomed rs k)

  pub all-replace :
      (p : R → Bool) (rs : List R) (new : R)
      → all p rs ≡ true
      → p new ≡ true
      → all p (replace new rs) ≡ true
  all-replace p [] new h q = refl
  all-replace p (r ∷ rs) new h q = ground (arith, all-replace p rs new)

module _ {R : Type 0} (p q : R → Bool) where
  -- What holds of the rows that a DELETE leaves.
  pub all-remove_impl :
      (doomed : R → Bool) (rs : List R)
      → ((r : R) → doomed r ≡ false → p r ≡ true → q r ≡ true)
      → all p rs ≡ true
      → all q (remove doomed rs) ≡ true
  all-remove_impl doomed [] f h = refl
  all-remove_impl doomed (x ∷ rs) f h = ground (arith, f x, all-remove_impl doomed rs f)

  -- What holds of the rows where none is bad.
  pub all_unless :
      (bad : R → Bool) (rs : List R)
      → any bad rs ≡ false
      → ((r : R) → bad r ≡ false → p r ≡ true → q r ≡ true)
      → all p rs ≡ true
      → all q rs ≡ true
  all_unless bad [] n f h = refl
  all_unless bad (x ∷ rs) n f h = ground (arith, f x, all_unless bad rs)

pub all-map :
    {R S : Type 0} (q : S → Bool) (f : R → S) (rs : List R)
    → all q (map f rs) ≡ all (λ r. q (f r)) rs
all-map q f [] = refl
all-map q f (r ∷ rs) = ground (arith, all-map q f rs)

pub has-map :
    {R : Type 0} (key : R → ℕ) (f : R → R) (rs : List R) (k : ℕ)
    → ((r : R) → key (f r) ≡ key r)
    → has key (map f rs) k ≡ has key rs k
has-map key f [] k same = refl
has-map key f (r ∷ rs) k same = ground (arith, same r, has-map key f rs k same)
