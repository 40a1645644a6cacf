-- ===== src/Schema/Table/Keys.antt =====
-- Primary keys: no two rows of a table have one key, and what each write does to that.
use balotly_backend.Base.{
  get_elem?, some, zero, suc, sym, ap, ℕ, Bool, true, false, not, ◌||◌, ◌&&◌, ◌≡◌, refl, List, [],
  ◌∷◌, ◌++◌, arith, map, eqb,
}
use balotly_backend.Schema.Table.{has, remove, replace, has-replace, has-get_elem?}

module _ {R : Type 0} (key : R → ℕ) where
  abbrev pub distinct_keys : List R → Bool
  distinct_keys [] = true
  distinct_keys (r ∷ rs) = not (has key rs (key r)) && distinct_keys rs

  has-snoc :
      (rs : List R) (new : R) (k : ℕ)
      → has key (rs ++ new ∷ []) k ≡ (has key rs k || eqb (key new) k)
  has-snoc [] new k = ground arith
  has-snoc (r ∷ rs) new k = ground (arith, has-snoc rs new k)

  lost :
      (doomed : R → Bool) (rs : List R) (k : ℕ)
      → has key rs k ≡ false
      → has key (remove doomed rs) k ≡ false
  lost doomed [] k h = refl
  lost doomed (r ∷ rs) k h = ground (arith, lost doomed rs k)

  has-map :
      (f : R → R)
      → ((r : R) → key (f r) ≡ key r)
      → (rs : List R) (k : ℕ) → has key (map f rs) k ≡ has key rs k
  has-map f same [] k = refl
  has-map f same (r ∷ rs) k = ground (arith, same r, has-map f same rs k)

  pub distinct_keys-append :
      (rs : List R) (new : R)
      → has key rs (key new) ≡ false
      → distinct_keys rs ≡ true
      → distinct_keys (rs ++ new ∷ []) ≡ true
  distinct_keys-append [] new free h = ground arith
  distinct_keys-append (r ∷ rs) new free h =
      ground (arith, distinct_keys-append rs new, has-snoc rs new (key r))

  pub distinct_keys-replace :
      (rs : List R) (new : R) → distinct_keys rs ≡ true → distinct_keys (replace key new rs) ≡ true
  distinct_keys-replace [] new h = refl
  distinct_keys-replace (r ∷ rs) new h =
      ground (arith, distinct_keys-replace rs new, has-replace key rs new (key r))

  pub distinct_keys-remove :
      (doomed : R → Bool) (rs : List R)
      → distinct_keys rs ≡ true
      → distinct_keys (remove doomed rs) ≡ true
  distinct_keys-remove doomed [] h = refl
  distinct_keys-remove doomed (r ∷ rs) h =
      ground (arith, distinct_keys-remove doomed rs, lost doomed rs (key r))

  pub distinct_keys-map :
      (f : R → R)
      → ((r : R) → key (f r) ≡ key r)
      → (rs : List R) → distinct_keys rs ≡ true
      → distinct_keys (map f rs) ≡ true
  distinct_keys-map f same [] h = refl
  distinct_keys-map f same (r ∷ rs) h =
      ground (arith, same r, distinct_keys-map f same rs, has-map f same rs (key r))

  -- Two rows with one key stand at one position.
  pub distinct_keys-get_elem? :
      (rs : List R) (i j : ℕ) (r s : R)
      → distinct_keys rs ≡ true
      → get_elem? rs i ≡ some r
      → get_elem? rs j ≡ some s
      → key r ≡ key s
      → i ≡ j
  distinct_keys-get_elem? [] i j r s h e f k = cc
  distinct_keys-get_elem? (x ∷ rs) zero zero r s h e f k = refl
  distinct_keys-get_elem? (x ∷ rs) zero (suc j) r s h e f k =
      absurd (ground (arith, h, e, has-get_elem? key rs j s (key r) f (sym k)))
  distinct_keys-get_elem? (x ∷ rs) (suc i) zero r s h e f k =
      absurd (ground (arith, h, f, has-get_elem? key rs i r (key s) e k))
  distinct_keys-get_elem? (x ∷ rs) (suc i) (suc j) r s h e f k =
      ap suc (distinct_keys-get_elem? rs i j r s (ground (arith, h)) e f k)
