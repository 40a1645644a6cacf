-- ===== src/Schema/Sql.antt =====
-- What the constraints of the schema use of SQL: three-valued logic, comparisons, and column types.
use balotly_backend.Base.{
  ℕ, suc, Option, none, some, Bool, true, false, String, List, leb, ◌==◌, string_eq, contains, ◌-◌,
  ◌^◌,
}
use balotly_backend.Base.Int.{ℤ, pos, negsuc, leb_ℤ}

-- The value of a condition; `unknown` is NULL.
pub data Truth : Type 0 where
  holds fails unknown : Truth

abbrev pub truth : Bool → Truth
truth true = holds
truth false = fails

-- `NOT`
abbrev pub negate : Truth → Truth
negate holds = fails
negate fails = holds
negate unknown = unknown

-- `OR`
abbrev pub either : Truth → Truth → Truth
either holds q = holds
either fails q = q
either unknown holds = holds
either unknown q = unknown

-- `AND`
abbrev pub both : Truth → Truth → Truth
both fails q = fails
both holds q = q
both unknown fails = fails
both unknown q = unknown

-- A CHECK constraint refuses a row only where its condition is false.
abbrev pub accepts : Truth → Bool
accepts fails = false
accepts t = true

-- `IS NULL`, which is never unknown.
abbrev pub is_null {ℓ} : {A : Type ℓ} → Option A → Truth
is_null none = holds
is_null (some a) = fails

abbrev pub is_not_null {ℓ} : {A : Type ℓ} → Option A → Truth
is_not_null none = fails
is_not_null (some a) = holds

-- `b >= a` and `b <= a`, for a column b that may be NULL.
abbrev pub at_least : ℤ → Option ℤ → Truth
at_least a none = unknown
at_least a (some b) = truth (leb_ℤ a b)

abbrev pub at_most : ℤ → Option ℤ → Truth
at_most a none = unknown
at_most a (some b) = truth (leb_ℤ b a)

-- `s = 'text'` and `s IN (...)`, for a column that is never NULL.
abbrev pub equals : String → String → Truth
equals s t = truth (s == t)

abbrev pub one_of : List String → String → Truth
one_of ts s = truth (contains ts s)

-- VARCHAR(n): at most n characters.
abbrev pub characters : String → ℕ
characters String.[] = 0
characters (String.◌∷◌ c s) = suc (characters s)

unfoldable pub fits_varchar : ℕ → String → Bool
fits_varchar n s = leb (characters s) n

unfoldable pub fits_varchar_null : ℕ → Option String → Bool
unfolding fits_varchar
fits_varchar_null n none = true
fits_varchar_null n (some s) = fits_varchar n s

-- A signed integer of w + 1 bits: INTEGER has w = 31, BIGINT has w = 63.
unfoldable pub fits_integer : ℕ → ℤ → Bool
fits_integer w (pos n) = leb n (2 ^ w - 1)
fits_integer w (negsuc n) = leb n (2 ^ w - 1)

-- NUMERIC(5, 2), as a number of hundredths.
unfoldable pub fits_numeric : Option ℤ → Bool
fits_numeric none = true
fits_numeric (some (pos n)) = leb n 99999
fits_numeric (some (negsuc n)) = leb n 99998
