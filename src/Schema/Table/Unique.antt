-- ===== src/Schema/Table/Unique.antt =====
-- Unique indexes: no two rows of a table clash, and what each write does to that.
use balotly_backend.Base.{
  ℕ, Bool, true, false, not, ◌||◌, ◌≡◌, refl, ◌∙◌, List, [], ◌∷◌, ◌++◌, arith, map,
}
use balotly_backend.Schema.Table.{
  all, any, remove, replace, all-append, all-replace, all_unless, all-remove_impl, all_impl,
  all-map,
}

module _ {R : Type 0} where
  any-append : (p : R → Bool) (rs : List R) (x : R) → any p (rs ++ x ∷ []) ≡ (any p rs || p x)
  any-append p [] x = ground arith
  any-append p (r ∷ rs) x = ground (arith, any-append p rs x)

  any-remove :
      (p doomed : R → Bool) (rs : List R) → any p rs ≡ false → any p (remove doomed rs) ≡ false
  any-remove p doomed [] h = refl
  any-remove p doomed (r ∷ rs) h = ground (arith, any-remove p doomed rs)

  any-replace :
      (p : R → Bool) (key : R → ℕ) (rs : List R) (new : R)
      → any p rs ≡ false
      → p new ≡ false
      → any p (replace key new rs) ≡ false
  any-replace p key [] new h q = refl
  any-replace p key (r ∷ rs) new h q = ground (arith, any-replace p key rs new)

  any-map : (p : R → Bool) (f : R → R) (rs : List R) → any p (map f rs) ≡ any (λ r. p (f r)) rs
  any-map p f [] = refl
  any-map p f (r ∷ rs) = ground (arith, any-map p f rs)

  any_same : (p q : R → Bool) → ((r : R) → p r ≡ q r) → (rs : List R) → any p rs ≡ any q rs
  any_same p q same [] = refl
  any_same p q same (r ∷ rs) = ground (arith, same r, any_same p q same rs)

module _ {R : Type 0} (clash : R → R → Bool) where
  abbrev pub is_alone : List R → R → Bool
  is_alone rs r = not (any (clash r) rs)

  -- No two rows clash.
  abbrev pub is_unique : List R → Bool
  is_unique rs = all (is_alone rs) rs

  pub is_unique-remove :
      (doomed : R → Bool) (rs : List R) → is_unique rs ≡ true → is_unique (remove doomed rs) ≡ true
  is_unique-remove doomed rs h =
      all-remove_impl (is_alone rs) (is_alone (remove doomed rs)) doomed rs
        (λ r left alone. ground (arith, any-remove (clash r) doomed rs)) h

module _ {R : Type 0} (clash : R → R → Bool) (flip : (a b : R) → clash a b ≡ clash b a)
    (never : (a : R) → clash a a ≡ false) where
  pub is_unique-append :
      (rs : List R) (new : R)
      → any (clash new) rs ≡ false
      → is_unique clash rs ≡ true
      → is_unique clash (rs ++ new ∷ []) ≡ true
  is_unique-append rs new free h =
      all-append (is_alone clash (rs ++ new ∷ [])) rs new
        (all_unless (is_alone clash rs) (is_alone clash (rs ++ new ∷ [])) (clash new) rs free
          (λ r apart alone. ground (arith, any-append (clash r) rs new, flip r new)) h)
        (ground (arith, any-append (clash new) rs new, never new))

  pub is_unique-replace :
      (key : R → ℕ) (rs : List R) (new : R)
      → any (clash new) rs ≡ false
      → is_unique clash rs ≡ true
      → is_unique clash (replace key new rs) ≡ true
  is_unique-replace key rs new free h =
      all-replace key (is_alone clash (replace key new rs)) rs new
        (all_unless (is_alone clash rs) (is_alone clash (replace key new rs)) (clash new) rs free
          (λ r apart alone. ground (arith, any-replace (clash r) key rs new, flip r new)) h)
        (ground (arith, any-replace (clash new) key rs new, never new))

-- A change that no index sees.
pub is_unique-map :
    {R : Type 0} (clash : R → R → Bool) (f : R → R)
    (same : (a b : R) → clash (f a) (f b) ≡ clash a b) (rs : List R)
    → is_unique clash rs ≡ true
    → is_unique clash (map f rs) ≡ true
is_unique-map clash f same rs h =
    all-map (is_alone clash (map f rs)) f rs
    ∙ all_impl (is_alone clash rs) (λ r. is_alone clash (map f rs) (f r)) rs
        (λ r alone. ground (
          arith,
          any-map (clash (f r)) f rs,
          any_same (λ s. clash (f r) (f s)) (clash r) (same r) rs,
        ))
        h
