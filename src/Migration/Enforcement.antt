-- ===== src/Migration/Enforcement.antt =====
-- What PostgreSQL tests before it writes a row, as the catalog says it (alembic/versions): column
-- types and NOT NULL, CHECK constraints, UNIQUE constraints and unique indexes, foreign keys. A row is
-- written under its primary key, so that it is compared with the rows of other keys.
use balotly_backend.Base.{
  Option, none, some, Bool, true, false, not, ◌&&◌, ◌||◌, String, List, [], ◌∷◌, eqb, ◌==◌,
  string_eq,
}
use balotly_backend.Base.Int.{pos, negsuc}
use balotly_backend.Base.Dict.{Dict, lookup}
use balotly_backend.Schema.Sql.{Truth, holds, accepts, fits_varchar, fits_integer, fits_numeric}
use balotly_backend.Schema.Table.{any}
use balotly_backend.Schema.Database.{
  Result, ◌>>◌, require, out_of_range, check_violation, unique_violation, foreign_key_violation,
}
use balotly_backend.Migration.Conditions.{
  Value, null, key, moment, string, whole, hundredths, flag, bytes, Row, Condition, evaluate,
}
use balotly_backend.Migration.Catalog.{
  ColumnType, uuid, numeric_5_2, integer, bigint, boolean, timestamptz, bytea, varchar, Column,
  ForeignKey, Unique, Table, Index, Catalog,
}
use balotly_backend.Migration.Operations.{keep}

abbrev pub fits_type : ColumnType → Value → Bool
fits_type (varchar n) (string s) = fits_varchar n s
fits_type ColumnType.text (string s) = true
fits_type numeric_5_2 (hundredths a) = fits_numeric (some a)
fits_type integer (whole a) = fits_integer 31 a
fits_type bigint (whole a) = fits_integer 63 a
fits_type uuid (key k) = true
fits_type boolean (flag b) = true
fits_type timestamptz (moment t) = true
fits_type bytea (bytes bs) = true
fits_type k v = false

abbrev pub column_accepts : Column → Value → Bool
column_accepts c null = c.nullable
column_accepts c v = fits_type c.kind v

abbrev pub columns_accept : Dict String Column → Row → Bool
columns_accept [] r = true
columns_accept ((n, c) ∷ cs) r = column_accepts c (r n) && columns_accept cs r

abbrev pub checks_accept : Dict String Condition → Row → Bool
checks_accept [] r = true
checks_accept ((n, p) ∷ ps) r = accepts (evaluate r p) && checks_accept ps r

-- Equality in an index, where NULLs are distinct.
abbrev pub same_value : Value → Value → Bool
same_value (key a) (key b) = eqb a b
same_value (moment a) (moment b) = eqb a b
same_value (string a) (string b) = a == b
same_value (whole (pos a)) (whole (pos b)) = eqb a b
same_value (whole (negsuc a)) (whole (negsuc b)) = eqb a b
same_value (hundredths (pos a)) (hundredths (pos b)) = eqb a b
same_value (hundredths (negsuc a)) (hundredths (negsuc b)) = eqb a b
same_value (flag true) (flag b) = b
same_value (flag false) (flag b) = not b
same_value v w = false

abbrev pub same_columns : List String → Row → Row → Bool
same_columns [] a b = true
same_columns (n ∷ ns) a b = same_value (a n) (b n) && same_columns ns a b

-- A row stands in a partial index only where the predicate is true.
abbrev pub is_holding : Truth → Bool
is_holding holds = true
is_holding t = false

abbrev pub is_indexed : Option Condition → Row → Bool
is_indexed none r = true
is_indexed (some p) r = is_holding (evaluate r p)

abbrev pub unique_clash : List Unique → Row → Row → Bool
unique_clash [] a b = false
unique_clash (u ∷ us) a b = same_columns u.columns a b || unique_clash us a b

abbrev pub index_clash : Dict String Index → Row → Row → Bool
index_clash [] a b = false
index_clash ((n, i) ∷ is) a b =
    (i.unique && is_indexed i.predicate a && is_indexed i.predicate b && same_columns i.columns a b)
    || index_clash is a b

abbrev pub rows_clash : Table → Dict String Index → Row → Row → Bool
rows_clash t is a b =
    not (same_value (a "id") (b "id")) && (unique_clash t.uniques a b || index_clash is a b)

abbrev pub is_there : List Row → Value → Bool
is_there rows null = true
is_there rows v = any (λ row. same_value (row "id") v) rows

abbrev pub targets_there : Dict String ForeignKey → (String → List Row) → Row → Bool
targets_there [] tables r = true
targets_there ((n, k) ∷ ks) tables r = is_there (tables k.target) (r n) && targets_there ks tables r

abbrev pub enforce :
    Table → Dict String Index → List Row → (String → List Row) → Row → Result (Unit {0})
enforce t is rows tables r = do
  require (columns_accept t.columns r) out_of_range
  require (checks_accept t.checks r) check_violation
  require (not (any (rows_clash t is r) rows)) unique_violation
  require (targets_there t.foreign_keys tables r) foreign_key_violation

abbrev pub enforce_if_there :
    Option Table
    → Dict String Index
    → List Row
    → (String → List Row)
    → Row
    → Option (Result (Unit {0}))
enforce_if_there none is rows tables r = none
enforce_if_there (some t) is rows tables r = some (enforce t is rows tables r)

-- The tests of a row of one table, in a database whose tables have these rows; none where there is no
-- such table.
unfoldable pub validate : Catalog → String → (String → List Row) → Row → Option (Result (Unit {0}))
validate c table tables r =
    enforce_if_there (lookup table c.tables) (keep (λ n i. i.table == table) c.indexes)
      (tables table) tables r
