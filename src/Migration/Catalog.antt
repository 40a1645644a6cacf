-- ===== src/Migration/Catalog.antt =====
-- PostgreSQL's catalog as far as the initial revision changes it (alembic/versions, api/v1/models).
use balotly_backend.Base.{ℕ, Option, none, some, Bool, true, false, String, List, []}
use balotly_backend.Base.Dict.{Dict}
use balotly_backend.Migration.Conditions.{Condition}

pub data ColumnType : Type 0 where
  uuid text numeric_5_2 integer bigint boolean timestamptz bytea : ColumnType
  varchar : ℕ → ColumnType

-- `server_default` is the text that stands behind DEFAULT.
pub record Column : Type 0 where
  pub kind : ColumnType
  pub nullable : Bool
  pub server_default : Option String

pub data Action : Type 0 where
  cascade restrict set_null : Action

-- A foreign key on the target's primary key.
pub record ForeignKey : Type 0 where
  pub name : Option String
  pub target : String
  pub on_delete : Action

-- UNIQUE over some columns; `name` is none where PostgreSQL chooses one.
pub record Unique : Type 0 where
  pub name : Option String
  pub columns : List String

-- A table, whose primary key is `id`. Its foreign keys stand under their column, its CHECK
-- constraints under their name.
pub record Table : Type 0 where
  pub columns : Dict String Column
  pub checks : Dict String Condition
  pub foreign_keys : Dict String ForeignKey
  pub uniques : List Unique

-- A partial index has a predicate.
pub record Index : Type 0 where
  pub table : String
  pub columns : List String
  pub unique : Bool
  pub predicate : Option Condition

-- The two kinds of triggers: before each row's UPDATE or DELETE, and before a TRUNCATE.
pub data Event : Type 0 where
  row_change truncation : Event

pub record Trigger : Type 0 where
  pub table : String
  pub event : Event
  pub function : String

pub record Catalog : Type 0 where
  pub tables : Dict String Table
  pub indexes : Dict String Index
  pub functions : List String
  pub triggers : Dict String Trigger

abbrev pub nothing : Catalog
nothing = record { tables = []; indexes = []; functions = []; triggers = [] }

-- `nullable=False`, `nullable=True`, and `nullable=False` with a `server_default`.
abbrev pub required : ColumnType → Column
required k = record { kind = k; nullable = false; server_default = none }

abbrev pub optional : ColumnType → Column
optional k = record { kind = k; nullable = true; server_default = none }

abbrev pub defaulted : ColumnType → String → Column
defaulted k expression = record { kind = k; nullable = false; server_default = some expression }

-- `ForeignKeyConstraint([...], [target.id], ondelete=...)`
abbrev pub references : String → Action → ForeignKey
references target action = record { name = none; target = target; on_delete = action }

-- `create_index` without `unique` and `postgresql_where`, and with `unique=True`.
abbrev pub plain_index : String → List String → Index
plain_index table columns = record {
  table = table;
  columns = columns;
  unique = false;
  predicate = none;
}

abbrev pub unique_index : String → List String → Index
unique_index table columns = record {
  table = table;
  columns = columns;
  unique = true;
  predicate = none;
}
