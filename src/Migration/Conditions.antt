-- ===== src/Migration/Conditions.antt =====
-- The SQL conditions of CHECK constraints and partial indexes (alembic/versions, api/v1/models), and
-- their value in a row.
use balotly_backend.Base.{ℕ, ◌*◌, Bool, not, String, List, leb, ltb, ◌==◌, string_eq, contains}
use balotly_backend.Base.Int.{ℤ, pos, leb_ℤ}
use balotly_backend.Schema.Sql.{Truth, holds, fails, unknown, truth, negate, either, both}

-- The value of a column: a NUMERIC(5, 2) in hundredths, a TIMESTAMPTZ in microseconds.
pub data Value : Type 0 where
  null : Value
  key moment : ℕ → Value
  string : String → Value
  whole hundredths : ℤ → Value
  flag : Bool → Value
  bytes : List ℕ → Value

abbrev pub Row : Type 0
Row = String → Value

-- A column or a literal.
pub data Operand : Type 0 where
  column : String → Operand
  number : ℕ → Operand

pub data Condition : Type 0 where
  is_null is_not_null is_true : String → Condition
  equals differs : String → String → Condition
  is_in : String → List String → Condition
  at_least above : String → Operand → Condition
  at_most : String → Operand → Condition
  or_else and_also : Condition → Condition → Condition
  negated : Condition → Condition

abbrev operand : Row → Operand → Value
operand r (column c) = r c
operand r (number n) = Value.whole (pos n)

-- `a <= b`; a whole number beside hundredths counts a hundred.
abbrev at_most_value : Value → Value → Truth
at_most_value (whole a) (whole b) = truth (leb_ℤ a b)
at_most_value (hundredths a) (whole (pos b)) = truth (leb_ℤ a (pos (100 * b)))
at_most_value (whole (pos a)) (hundredths b) = truth (leb_ℤ (pos (100 * a)) b)
at_most_value (moment a) (moment b) = truth (leb a b)
at_most_value a b = unknown

-- `a < b`
abbrev below_value : Value → Value → Truth
below_value (whole a) (whole b) = truth (not (leb_ℤ b a))
below_value (moment a) (moment b) = truth (ltb a b)
below_value a b = unknown

abbrev equals_text : Value → String → Truth
equals_text (string s) t = truth (s == t)
equals_text v t = unknown

abbrev one_of_texts : Value → List String → Truth
one_of_texts (string s) ts = truth (contains ts s)
one_of_texts v ts = unknown

abbrev truth_value : Value → Truth
truth_value (flag b) = truth b
truth_value v = unknown

abbrev null_value : Value → Truth
null_value null = holds
null_value v = fails

-- The value of a condition in a row.
abbrev pub evaluate : Row → Condition → Truth
evaluate r (is_null c) = null_value (r c)
evaluate r (is_not_null c) = negate (null_value (r c))
evaluate r (is_true c) = truth_value (r c)
evaluate r (equals c s) = equals_text (r c) s
evaluate r (differs c s) = negate (equals_text (r c) s)
evaluate r (is_in c ss) = one_of_texts (r c) ss
evaluate r (at_least c x) = at_most_value (operand r x) (r c)
evaluate r (above c x) = below_value (operand r x) (r c)
evaluate r (at_most c x) = at_most_value (r c) (operand r x)
evaluate r (or_else p q) = either (evaluate r p) (evaluate r q)
evaluate r (and_also p q) = both (evaluate r p) (evaluate r q)
evaluate r (negated p) = negate (evaluate r p)
