-- ===== src/Migration/Execution.antt =====
-- What PostgreSQL does with a statement on tables that a catalog describes (alembic/versions): the
-- tests of a written row, the ON DELETE actions of the foreign keys, the triggers.
--
-- Cascades are followed once for each table of the catalog, which is as far as they reach where no
-- chain of ON DELETE CASCADE comes back to a table. Each trigger's function is the revision's, which
-- raises restrict_violation. A foreign key's SET NULL is not tested again.
use balotly_backend.Base.{
  ℕ, zero, suc, Option, none, some, Bool, true, false, not, ◌&&◌, ◌||◌, String, List, [], ◌∷◌, ◌++◌,
  ◌==◌, string_eq, map, if◌then◌else◌,
}
use balotly_backend.Base.Dict.{Dict, lookup}
use balotly_backend.Schema.Table.{any, remove}
use balotly_backend.Schema.Database.{Result, ok, ◌>>◌, require, restrict_violation}
use balotly_backend.Schema.Statements.{refuse_duplicate}
use balotly_backend.Migration.Conditions.{Value, null, Row}
use balotly_backend.Migration.Catalog.{
  Action, ForeignKey, Table, Event, row_change, truncation, Trigger, Catalog,
}
use balotly_backend.Migration.Operations.{some_entry}
use balotly_backend.Migration.Enforcement.{same_value, is_there, validate}

-- The rows of each table, and a choice of some of them.
abbrev pub Tables : Type 0
Tables = String → List Row

abbrev pub Rows : Type 0
Rows = String → Row → Bool

-- The same tables, but for the rows of one.
abbrev pub replaced : String → List Row → Tables → Tables
replaced t rows tables = λ u. if u == t then rows else tables u

abbrev pub same_key : Row → Row → Bool
same_key a b = same_value (a "id") (b "id")

abbrev pub is_truncation : Event → Bool
is_truncation truncation = true
is_truncation row_change = false

-- Whether a trigger refuses the change of a row of a table.
abbrev pub is_guarded : Catalog → String → Bool
is_guarded c t = some_entry (λ n g. not (is_truncation g.event) && (g.table == t)) c.triggers

-- The verdict on a row that is new to its table, and what it leaves behind.
abbrev pub place : String → Row → Tables → Option (Result (Unit {0})) → Option (Result Tables)
place t r tables none = none
place t r tables (some verdict) = some (do
  refuse_duplicate (is_there (tables t) (r "id")) verdict
  verdict
  ok (replaced t (tables t ++ r ∷ []) tables))

-- INSERT INTO t
unfoldable pub insert_into : Catalog → String → Row → Tables → Option (Result Tables)
insert_into c t r tables = place t r tables (validate c t tables r)

abbrev pub overwrite : Row → List Row → List Row
overwrite new [] = []
overwrite new (r ∷ rs) = (if same_key r new then new else r) ∷ overwrite new rs

abbrev pub write_over :
    (guarded : Bool) → String → Row → Tables → Option (Result (Unit {0})) → Option (Result Tables)
write_over guarded t r tables none = none
write_over guarded t r tables (some verdict) = some (
    if is_there (tables t) (r "id")
    then (do
      require (not guarded) restrict_violation
      verdict
      ok (replaced t (overwrite r (tables t)) tables))
    else ok tables)

-- UPDATE t SET ... WHERE id = r.id
unfoldable pub update_in : Catalog → String → Row → Tables → Option (Result Tables)
update_in c t r tables = write_over (is_guarded c t) t r tables (validate c t tables r)

-- Whether a cell refers to one of the chosen rows.
abbrev pub refers : (Row → Bool) → List Row → Value → Bool
refers chosen rows null = false
refers chosen rows v = any (λ row. chosen row && same_value (row "id") v) rows

abbrev pub is_cascade : Action → Bool
is_cascade Action.cascade = true
is_cascade a = false

abbrev pub is_restrict : Action → Bool
is_restrict Action.restrict = true
is_restrict a = false

abbrev pub is_set_null : Action → Bool
is_set_null Action.set_null = true
is_set_null a = false

-- Whether a row refers to a chosen row by a foreign key with such an action.
abbrev pub is_bound : (Action → Bool) → Dict String ForeignKey → Rows → Tables → Row → Bool
is_bound action [] chosen tables r = false
is_bound action ((n, k) ∷ ks) chosen tables r =
    (action k.on_delete && refers (chosen k.target) (tables k.target) (r n))
    || is_bound action ks chosen tables r

abbrev keys_if_there : Option Table → Dict String ForeignKey
keys_if_there none = []
keys_if_there (some t) = t.foreign_keys

abbrev pub keys_of : Catalog → String → Dict String ForeignKey
keys_of c t = keys_if_there (lookup t c.tables)

-- ON DELETE CASCADE, followed n times.
abbrev pub cascaded : Catalog → Tables → Rows → ℕ → Rows
cascaded c tables named zero t r = named t r
cascaded c tables named (suc n) t r =
    cascaded c tables named n t r
    || is_bound is_cascade (keys_of c t) (cascaded c tables named n) tables r

-- ON DELETE RESTRICT: a row refers to one that is to go.
abbrev pub is_held : Dict String Table → Rows → Tables → Bool
is_held [] chosen tables = false
is_held ((n, t) ∷ ts) chosen tables =
    any (is_bound is_restrict t.foreign_keys chosen tables) (tables n) || is_held ts chosen tables

-- Whether a trigger refuses to let one of the chosen rows go.
abbrev pub is_refused : Dict String Trigger → Rows → Tables → Bool
is_refused gs chosen tables =
    some_entry (λ n g. not (is_truncation g.event) && any (chosen g.table) (tables g.table)) gs

-- ON DELETE SET NULL.
abbrev pub unlink : Dict String ForeignKey → Rows → Tables → Row → Row
unlink [] chosen tables r = r
unlink ((n, k) ∷ ks) chosen tables r = λ column.
    if is_set_null k.on_delete && (column == n) && refers (chosen k.target) (tables k.target) (r n)
    then null
    else unlink ks chosen tables r column

abbrev pub erase_chosen : Catalog → Rows → Tables → Tables
erase_chosen c chosen tables =
    λ t. map (unlink (keys_of c t) chosen tables) (remove (chosen t) (tables t))

abbrev pub entries : {V : Type 0} → Dict String V → ℕ
entries [] = 0
entries ((k, v) ∷ d) = suc (entries d)

-- The rows of one table that a condition names.
abbrev pub rows_where : String → (Row → Bool) → Rows
rows_where t p u r = (u == t) && p r

abbrev pub delete_chosen : Catalog → Rows → Tables → Result Tables
delete_chosen c chosen tables = do
  require (not (is_refused c.triggers chosen tables)) restrict_violation
  require (not (is_held c.tables chosen tables)) restrict_violation
  ok (erase_chosen c chosen tables)

abbrev pub if_there : {A : Type 0} → Option Table → A → Option A
if_there none a = none
if_there (some t) a = some a

-- DELETE FROM t WHERE p
unfoldable pub delete_from : Catalog → String → (Row → Bool) → Tables → Option (Result Tables)
delete_from c t p tables =
    if_there (lookup t c.tables)
      (delete_chosen c (cascaded c tables (rows_where t p) (entries c.tables)) tables)

-- TRUNCATE t, for a table that no foreign key refers to.
unfoldable pub truncate_table : Catalog → String → Tables → Option (Result Tables)
truncate_table c t tables = if_there (lookup t c.tables) (do
  require (not (some_entry (λ n g. is_truncation g.event && (g.table == t)) c.triggers))
      restrict_violation
  ok (replaced t [] tables))
