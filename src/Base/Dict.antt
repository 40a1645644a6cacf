-- ===== src/Base/Dict.antt =====
-- Python dicts as association lists in insertion order.
use balotly_backend.Base.Tests.{if◌then◌else◌}
use balotly_backend.Base.Equality.{Eq, ◌==◌, contains, ==-refl}
use mathlib.Core.Path.{◌≡◌, refl, ap}
use mathlib.Core.Logic.{◌≢◌}
use mathlib.Core.Option
use mathlib.Core.Option.{Option, none, some}
use mathlib.Core.Bool.{Bool, true, false, ◌&&◌}
use mathlib.Core.List.{List, [], ◌∷◌}
use native.Mathlib.Omega.{arith}

abbrev pub Dict {ℓ κ} : Type ℓ → Type κ → Type (ℓ ⊔ κ)
Dict K V = List (K × V)

abbrev pub keys {ℓ κ} : {K : Type ℓ} {V : Type κ} → Dict K V → List K
keys [] = []
keys ((k, v) ∷ d) = k ∷ keys d

-- `{k: f(v) for k, v in d.items()}`
abbrev pub map_values {ℓ κ μ} :
    {K : Type ℓ} {V : Type κ} {W : Type μ} → (V → W) → Dict K V → Dict K W
map_values f [] = []
map_values f ((k, v) ∷ d) = (k, f v) ∷ map_values f d

abbrev pub is_some {ℓ} : {A : Type ℓ} → Option A → Bool
is_some none = false
is_some (some a) = true

module _ {ℓ κ} {K : Type ℓ} {V : Type κ} ⦃e : Eq K⦄ where
  -- `d.get(k)`
  abbrev pub lookup : K → Dict K V → Option V
  lookup k [] = none
  lookup k ((j, v) ∷ d) = if k == j then some v else lookup k d

  -- `d[k] = v`
  abbrev pub insert : K → V → Dict K V → Dict K V
  insert k v [] = (k, v) ∷ []
  insert k v ((j, w) ∷ d) = if k == j then (j, v) ∷ d else (j, w) ∷ insert k v d

  pub lookup-insert :
      (j k : K) (v : V) (d : Dict K V)
      → lookup j (insert k v d) ≡ (if j == k then some v else lookup j d)
  lookup-insert j k v [] = refl
  lookup-insert j k v ((i, w) ∷ d) = ground (arith, lookup-insert j k v d)

  pub keys-insert :
      (k : K) (v : V) (d : Dict K V) → lookup k d ≢ none → keys (insert k v d) ≡ keys d
  keys-insert k v [] h = absurd (h refl)
  keys-insert k v ((i, w) ∷ d) h = ground (arith, keys-insert k v d)

  -- No key stands twice.
  abbrev pub NodupKeys : Dict K V → Type κ
  NodupKeys [] = Unit
  NodupKeys ((k, v) ∷ d) = (lookup k d ≡ none) × NodupKeys d

  pub insert-NodupKeys : (k : K) (v : V) (d : Dict K V) → NodupKeys d → NodupKeys (insert k v d)
  insert-NodupKeys k v [] u = (refl, tt)
  insert-NodupKeys k v ((j, w) ∷ d) u =
      ground (arith, insert-NodupKeys k v d u.1, lookup-insert j k v d)

  -- A test that every value of the dict passes, seen through `lookup`.
  abbrev pub all_values : (V → Bool) → Dict K V → Bool
  all_values p [] = true
  all_values p ((k, v) ∷ d) = p v && all_values p d

  pub all_values_of :
      (p : V → Bool) (d : Dict K V)
      → NodupKeys d
      → ((k : K) (v : V) → lookup k d ≡ some v → p v ≡ true)
      → all_values p d ≡ true
  all_values_of p [] u h = refl
  all_values_of p ((k, v) ∷ d) u h =
      ground (arith, h k v, ==-refl k, all_values_of p d u.1 (λ j w e. h j w (ground (arith, u.0))))

  pub lookup-all_values :
      (p : V → Bool) (k : K) (v : V) (d : Dict K V)
      → all_values p d ≡ true
      → lookup k d ≡ some v
      → p v ≡ true
  lookup-all_values p k v [] a e = cc
  lookup-all_values p k v ((j, w) ∷ d) a e = ground (arith, lookup-all_values p k v d)

  pub contains-keys : (k : K) (d : Dict K V) → contains (keys d) k ≡ is_some (lookup k d)
  contains-keys k [] = refl
  contains-keys k ((i, w) ∷ d) = ground (arith, contains-keys k d)

module _ {ℓ κ μ} {K : Type ℓ} {V : Type κ} {W : Type μ} ⦃e : Eq K⦄ where
  pub lookup-map_values :
      (f : V → W) (k : K) (d : Dict K V) → lookup k (map_values f d) ≡ Option.map f (lookup k d)
  lookup-map_values f k [] = refl
  lookup-map_values f k ((i, w) ∷ d) = ground (arith, lookup-map_values f k d)

  pub map_values-NodupKeys : (f : V → W) (d : Dict K V) → NodupKeys d → NodupKeys (map_values f d)
  map_values-NodupKeys f [] u = tt
  map_values-NodupKeys f ((i, w) ∷ d) u =
      (rw (lookup-map_values f i d, u.0), map_values-NodupKeys f d u.1)

pub keys-map_values {ℓ κ μ} :
    {K : Type ℓ} {V : Type κ} {W : Type μ} (f : V → W) (d : Dict K V)
    → keys (map_values f d) ≡ keys d
keys-map_values f [] = refl
keys-map_values f ((i, w) ∷ d) = ap (◌∷◌ i) (keys-map_values f d)
