-- ===== src/Runtime/Backoff.antt =====
-- The delay before a restart (workers/runtime.py, `__init__` and `_supervise`).
--
-- A finite double is an integer multiple of 2^-1074, so a finite Python float is modelled by that
-- integer. The product by a power of two that `math.ldexp` computes is then exact, and it overflows
-- at 2^1024 seconds.
use native.Mathlib.Nat.{pow-le-pow_right, two-pow-succ, mul-le-mul_left}
use balotly_backend.Base.{
  ℕ, zero, suc, ◌+◌, ◌*◌, ◌^◌, ◌≤◌, ◌<◌, min, ◌≡◌, refl, Option, none, some, arith, ltb,
  if◌then◌else◌, ap, dec_lt,
}

-- 2^1024 seconds.
unfoldable pub float_limit : ℕ
float_limit = 2 ^ 2098

-- `math.ldexp`; none is its OverflowError.
unfoldable pub ldexp : ℕ → ℕ → Option ℕ
ldexp x e = if ltb (x * 2 ^ e) float_limit then some (x * 2 ^ e) else none

-- The three numbers that the constructor keeps.
pub record BackoffConfig : Type 0 where
  pub base : ℕ
  pub maximum : ℕ
  pub max_exponent : ℕ

-- `retry_seconds` at a restart count; none is an OverflowError.
unfoldable pub retry_seconds : BackoffConfig → ℕ → Option ℕ
retry_seconds c count = elim (ldexp c.base (min count c.max_exponent)) [
  | none ↦ none
  | some delay ↦ some (min delay c.maximum)
]

-- What `math.ceil(math.log2(maximum) - math.log2(base))` gives where the logarithms are exact: the
-- least exponent that lifts the base to the maximum.
pub record IsExponent (c : BackoffConfig) : Type 0 where
  pub positive : 0 < c.base
  pub ordered : c.base ≤ c.maximum
  pub reaches : c.maximum ≤ c.base * 2 ^ c.max_exponent
  pub least : (e : ℕ) → e < c.max_exponent → c.base * 2 ^ e < c.maximum

-- Doubling more often gives no less.
pub scale_mono : (b m n : ℕ) → m ≤ n → b * 2 ^ m ≤ b * 2 ^ n
scale_mono b m n h = mul-le-mul_left b (pow-le-pow_right (omega arith) h)

scale_suc : (b n : ℕ) → b * 2 ^ suc n ≡ b * 2 ^ n + b * 2 ^ n
scale_suc b n = rw (two-pow-succ n) (omega arith)

le-scale : (b n : ℕ) → b ≤ b * 2 ^ n
le-scale b n = omega (arith, scale_mono b 0 n (omega arith))

module _ {c : BackoffConfig} (h : IsExponent c) where
  -- The largest product stays under twice the maximum.
  scale_top : (e : ℕ) → c.max_exponent ≡ e → c.base * 2 ^ e < c.maximum + c.maximum
  scale_top zero p = omega (arith, h.positive, h.ordered)
  scale_top (suc e) p = omega (arith, scale_suc c.base e, h.least e (omega arith))

  scale_min_lt : (n : ℕ) → c.base * 2 ^ min n c.max_exponent < c.maximum + c.maximum
  scale_min_lt n = omega (
    arith,
    scale_top c.max_exponent refl,
    scale_mono c.base (min n c.max_exponent) c.max_exponent (omega arith),
  )

  -- Past the largest exponent both products exceed the maximum.
  min_scale :
      (n : ℕ) → min (c.base * 2 ^ min n c.max_exponent) c.maximum ≡ min (c.base * 2 ^ n) c.maximum
  min_scale n = elim (dec_lt n c.max_exponent) [
    | yes p ↦ ap (λ (e : ℕ). min (c.base * 2 ^ e) c.maximum) (omega arith)
    | no p ↦
        let e : min n c.max_exponent ≡ c.max_exponent = omega arith in
        rw e (omega (arith, h.reaches, scale_mono c.base c.max_exponent n (omega arith)))
  ]

  -- Where the exponent is the least one that reaches the maximum and twice the maximum is a float,
  -- the delay never overflows, and capping the exponent does not show: after n restarts it is the
  -- base doubled n times, cut off at the maximum.
  pub retry_seconds-eq-min :
      (n : ℕ)
      → c.maximum + c.maximum ≤ float_limit
      → retry_seconds c n ≡ some (min (c.base * 2 ^ n) c.maximum)
  unfolding retry_seconds ldexp
  retry_seconds-eq-min n fits = ground (arith, scale_min_lt n, min_scale n)

-- Every delay lies between the base and the maximum.
pub retry_seconds_bounds :
    (c : BackoffConfig) (n : ℕ) {r : ℕ}
    → c.base ≤ c.maximum
    → retry_seconds c n ≡ some r
    → (c.base ≤ r) × (r ≤ c.maximum)
unfolding retry_seconds ldexp
retry_seconds_bounds c n ordered e = ground (arith, le-scale c.base (min n c.max_exponent))

-- A later restart never waits less than an earlier one.
pub retry_seconds_mono :
    (c : BackoffConfig) {m n r s : ℕ}
    → m ≤ n
    → retry_seconds c m ≡ some r
    → retry_seconds c n ≡ some s
    → r ≤ s
unfolding retry_seconds ldexp
retry_seconds_mono c {m} {n} h e f =
    let p : min m c.max_exponent ≤ min n c.max_exponent = omega arith in
    ground (arith, scale_mono c.base (min m c.max_exponent) (min n c.max_exponent) p)

pub retry_seconds-overflow :
    (c : BackoffConfig) (n : ℕ)
    → float_limit ≤ c.base * 2 ^ c.max_exponent
    → c.max_exponent ≤ n
    → retry_seconds c n ≡ none
unfolding retry_seconds ldexp
retry_seconds-overflow c n big often =
    let e : min n c.max_exponent ≡ c.max_exponent = omega arith in
    rw (e, retry_seconds, ldexp) (ground arith)
