-- ===== src/Migration/Operations.antt =====
-- What Alembic's operations do to the catalog (alembic/versions), each as PostgreSQL runs it. The
-- indexes that it makes by itself for keys and UNIQUE constraints are not in the model.
pub mod Entries
pub mod Frame
use balotly_backend.Base.{
  Option, none, some, Bool, true, false, not, ◌&&◌, ◌||◌, String, List, [], ◌∷◌, ◌++◌, ◌==◌,
  string_eq, contains, if◌then◌else◌,
}
use balotly_backend.Base.Dict.{Dict, lookup, is_some}
use balotly_backend.Migration.Catalog.{Action, ForeignKey, Table, Index, Trigger, Catalog}

pub data Error : Type 0 where
  duplicate undefined in_use : Error

pub data Result (A : Type 0) : Type 0 where
  ok : A → Result A
  err : Error → Result A

infixl 5 ◌>>=◌ ◌>>◌
abbrev pub ◌>>=◌ : {A B : Type 0} → Result A → (A → Result B) → Result B
ok a >>= f = f a
err e >>= f = err e

abbrev pub ◌>>◌ : {B : Type 0} → Result (Unit {0}) → Result B → Result B
m >> k = m >>= λ _. k

abbrev pub require : Bool → Error → Result (Unit {0})
require true e = ok tt
require false e = err e

-- The calls of `op`, and the statements that `op.execute` runs.
pub data Operation : Type 0 where
  create_table : String → Table → Operation
  create_index : String → Index → Operation
  create_foreign_key : (name source target column : String) → Action → Operation
  create_function : String → Operation
  create_trigger : String → Trigger → Operation
  drop_table : String → Operation
  drop_constraint : (name source : String) → Operation
  drop_trigger_if_exists : (name table : String) → Operation
  drop_function_if_exists : String → Operation

abbrev pub has_key : {V : Type 0} → String → Dict String V → Bool
has_key k d = is_some (lookup k d)

-- The entries that pass a test.
abbrev pub keep : {V : Type 0} → (String → V → Bool) → Dict String V → Dict String V
keep p [] = []
keep p ((k, v) ∷ d) = let rest = keep p d in if p k v then (k, v) ∷ rest else rest

-- Whether an entry passes a test.
abbrev pub some_entry : {V : Type 0} → (String → V → Bool) → Dict String V → Bool
some_entry p [] = false
some_entry p ((k, v) ∷ d) = p k v || some_entry p d

-- The entry under a key, changed.
abbrev pub alter : {V : Type 0} → String → (V → V) → Dict String V → Dict String V
alter k f [] = []
alter k f ((j, v) ∷ d) = (j, if j == k then f v else v) ∷ alter k f d

abbrev pub without : String → List String → List String
without n [] = []
without n (f ∷ fs) = let rest = without n fs in if f == n then rest else f ∷ rest

-- Whether a table has a foreign key with such a target.
abbrev pub refers_to : String → Table → Bool
refers_to target t = some_entry (λ c k. k.target == target) t.foreign_keys

-- Whether all tables that the foreign keys name are there; a table may name itself.
abbrev pub known_targets : String → Dict String Table → Dict String ForeignKey → Bool
known_targets n tables [] = true
known_targets n tables ((c, k) ∷ ks) =
    (k.target == n || has_key k.target tables) && known_targets n tables ks

abbrev pub is_called : String → Option String → Bool
is_called n none = false
is_called n (some m) = m == n

abbrev pub has_constraint : String → Table → Bool
has_constraint n t = some_entry (λ c k. is_called n k.name) t.foreign_keys

abbrev pub table_has_constraint : String → Option Table → Bool
table_has_constraint n none = false
table_has_constraint n (some t) = has_constraint n t

abbrev pub add_foreign_key : (name column target : String) → Action → Table → Table
add_foreign_key name column target action t = record t {
  foreign_keys =
      t.foreign_keys
      ++ (column, record { name = some name; target = target; on_delete = action }) ∷ [];
}

abbrev pub remove_constraint : String → Table → Table
remove_constraint n t = record t {
  foreign_keys = keep (λ c k. not (is_called n k.name)) t.foreign_keys;
}

unfoldable pub apply : Operation → Catalog → Result Catalog
apply (create_table n t) c = do
  require (not (has_key n c.tables)) duplicate
  require (known_targets n c.tables t.foreign_keys) undefined
  ok (record c { tables = c.tables ++ (n, t) ∷ [] })
apply (create_index n i) c = do
  require (not (has_key n c.indexes)) duplicate
  require (has_key i.table c.tables) undefined
  ok (record c { indexes = c.indexes ++ (n, i) ∷ [] })
apply (create_foreign_key n source target column action) c = do
  require (has_key source c.tables) undefined
  require (has_key target c.tables) undefined
  require (not (table_has_constraint n (lookup source c.tables))) duplicate
  ok (record c { tables = alter source (add_foreign_key n column target action) c.tables })
apply (create_function n) c = do
  require (not (contains c.functions n)) duplicate
  ok (record c { functions = c.functions ++ n ∷ [] })
apply (create_trigger n t) c = do
  require (not (some_entry (λ m u. m == n && (u.table == t.table)) c.triggers)) duplicate
  require (has_key t.table c.tables) undefined
  require (contains c.functions t.function) undefined
  ok (record c { triggers = c.triggers ++ (n, t) ∷ [] })
apply (drop_table n) c = do
  require (has_key n c.tables) undefined
  require (not (some_entry (λ m t. not (m == n) && refers_to n t) c.tables)) in_use
  ok (record c {
    tables = keep (λ m t. not (m == n)) c.tables;
    indexes = keep (λ m i. not (i.table == n)) c.indexes;
    triggers = keep (λ m t. not (t.table == n)) c.triggers;
  })
apply (drop_constraint n source) c = do
  require (table_has_constraint n (lookup source c.tables)) undefined
  ok (record c { tables = alter source (remove_constraint n) c.tables })
apply (drop_trigger_if_exists n table) c =
    ok (record c { triggers = keep (λ m t. not (m == n && (t.table == table))) c.triggers })
apply (drop_function_if_exists n) c = do
  require (not (some_entry (λ m t. t.function == n) c.triggers)) in_use
  ok (record c { functions = without n c.functions })

-- The operations of a revision, in one transaction: the first error ends it.
unfoldable pub migrate : List Operation → Catalog → Result Catalog
unfolding apply
migrate [] c = ok c
migrate (op ∷ ops) c = do next ← apply op c; migrate ops next
