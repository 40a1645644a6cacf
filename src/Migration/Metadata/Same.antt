-- ===== src/Migration/Metadata/Same.antt =====
-- Two catalogs that differ in nothing but an order: equal lookups instead of equal lists.
use balotly_backend.Base.{
  Option, none, some, ◌≡◌, refl, ◌∙◌, sym, String, List, [], ◌∷◌, arith, inl, inr, Option-cases,
  string_eq,
}
use balotly_backend.Base.Dict.{Dict, lookup}
use balotly_backend.Migration.Conditions.{Condition}
use balotly_backend.Migration.Catalog.{Column, ForeignKey, Unique, Table, Catalog}

-- What a dict in a table of a catalog has under a name; none where there is no such table.
abbrev entry_of : {V : Type 0} → (Table → Dict String V) → String → Option Table → Option V
entry_of f n none = none
entry_of f n (some t) = lookup n (f t)

abbrev uniques_in : Option Table → List Unique
uniques_in none = []
uniques_in (some t) = t.uniques

abbrev pub column_at : Catalog → String → String → Option Column
column_at c t n = entry_of (λ t. t.columns) n (lookup t c.tables)

abbrev pub check_at : Catalog → String → String → Option Condition
check_at c t n = entry_of (λ t. t.checks) n (lookup t c.tables)

abbrev pub foreign_key_at : Catalog → String → String → Option ForeignKey
foreign_key_at c t n = entry_of (λ t. t.foreign_keys) n (lookup t c.tables)

abbrev pub uniques_at : Catalog → String → List Unique
uniques_at c t = uniques_in (lookup t c.tables)

module _ {V : Type 0} where
  -- What one dict has under the names of another, and what that other has.
  abbrev pub found : Dict String V → Dict String V → List (Option V)
  found [] e = []
  found ((k, v) ∷ d) e = lookup k e ∷ found d e

  abbrev pub values : Dict String V → List (Option V)
  values [] = []
  values ((k, v) ∷ d) = some v ∷ values d

  -- Every entry of one dict is found in another.
  abbrev pub Covers : Dict String V → Dict String V → Type 0
  Covers d e = found d e ≡ values d

  Covers-lookup :
      (d e : Dict String V) (n : String) (v : V)
      → Covers d e
      → lookup n d ≡ some v
      → lookup n e ≡ some v
  Covers-lookup [] e n v h f = cc
  Covers-lookup ((k, w) ∷ d) e n v h f = ground (arith, Covers-lookup d e n v)

  pub same_entries :
      (d e : Dict String V) → Covers d e → Covers e d → (n : String) → lookup n d ≡ lookup n e
  same_entries d e there back n = elim (Option-cases (lookup n d)) [
    | inr (v, f) ↦ f ∙ sym (Covers-lookup d e n v there f)
    | inl f ↦ elim (Option-cases (lookup n e)) [
      | inl g ↦ f ∙ sym g
      | inr (w, g) ↦ absurd (ground (arith, Covers-lookup e d n w back g, f))
    ]
  ]

-- Two tables that differ in nothing but an order.
pub record Agree (t u : Table) : Type 0 where
  pub columns : (n : String) → lookup n t.columns ≡ lookup n u.columns
  pub checks : (n : String) → lookup n t.checks ≡ lookup n u.checks
  pub foreign_keys : (n : String) → lookup n t.foreign_keys ≡ lookup n u.foreign_keys
  pub uniques : t.uniques ≡ u.uniques

pub agree :
    (t u : Table)
    → Covers t.columns u.columns
    → Covers u.columns t.columns
    → Covers t.checks u.checks
    → Covers u.checks t.checks
    → Covers t.foreign_keys u.foreign_keys
    → Covers u.foreign_keys t.foreign_keys
    → t.uniques ≡ u.uniques
    → Agree t u
agree t u a b c d e f g = record {
  columns = same_entries t.columns u.columns a b;
  checks = same_entries t.checks u.checks c d;
  foreign_keys = same_entries t.foreign_keys u.foreign_keys e f;
  uniques = g;
}

-- The same names in the same order, each for two tables that agree.
abbrev pub AllAgree : Dict String Table → Dict String Table → Type 0
AllAgree [] [] = Unit
AllAgree [] (y ∷ ys) = ⊥
AllAgree (x ∷ xs) [] = ⊥
AllAgree (x ∷ xs) (y ∷ ys) = (x.0 ≡ y.0) × (Agree x.1 y.1 × AllAgree xs ys)

-- What two tables say of their columns and constraints, where there are such tables.
abbrev pub SameAt : Option Table → Option Table → Type 0
SameAt x y =
    (n : String)
    → (entry_of (λ t. t.columns) n x ≡ entry_of (λ t. t.columns) n y)
      × (entry_of (λ t. t.checks) n x ≡ entry_of (λ t. t.checks) n y)
      × (entry_of (λ t. t.foreign_keys) n x ≡ entry_of (λ t. t.foreign_keys) n y)
      × (uniques_in x ≡ uniques_in y)

pub AllAgree-lookup :
    (xs ys : Dict String Table) → AllAgree xs ys → (t : String) → SameAt (lookup t xs) (lookup t ys)
AllAgree-lookup [] [] h t n = (refl, refl, refl, refl)
AllAgree-lookup [] (y ∷ ys) h t n = absurd h
AllAgree-lookup (x ∷ xs) [] h t n = absurd h
AllAgree-lookup (x ∷ xs) (y ∷ ys) h t n =
    let rest = AllAgree-lookup xs ys h.1.1 t n in
    let same = h.1.0 in
    ground (arith, h.0, rest, same.columns n, same.checks n, same.foreign_keys n, same.uniques)
