-- ===== src/Migration/Metadata.antt =====
-- `Base.metadata`: the schema as the models declare it (api/v1/models), in the terms of the catalog.
--
-- Of SQLAlchemy it takes what its documentation says of `mapped_column`: `index=True` makes an index
-- called ix_<table>_<column>, which is unique with `unique=True`; `unique=True` alone makes a UNIQUE
-- constraint. `default=` is Python's own, and leaves no trace in the schema.
pub mod Accounts
pub mod Contests
pub mod Payments
pub mod Same
pub mod Agreement
use Prim.Native.String.{◌++◌ as concat}
use balotly_backend.Base.{
  Option, none, some, Bool, true, false, not, ◌&&◌, String, List, [], ◌∷◌, ◌++◌, if◌then◌else◌,
}
use balotly_backend.Base.Dict.{Dict}
use balotly_backend.Migration.Conditions.{Condition}
use balotly_backend.Migration.Catalog.{
  ColumnType, uuid, timestamptz, Column, ForeignKey, Unique, Table, Index, Catalog,
}

-- The arguments of `mapped_column` that the schema is made from.
pub record MappedColumn : Type 0 where
  pub kind : ColumnType
  pub foreign_key : Option ForeignKey
  pub unique : Bool
  pub index : Bool
  pub nullable : Bool
  pub server_default : Option String

-- `__tablename__`, the mapped columns, and `__table_args__`.
pub record Model : Type 0 where
  pub tablename : String
  pub columns : Dict String MappedColumn
  pub checks : Dict String Condition
  pub uniques : List Unique
  pub indexes : Dict String Index

-- A column without `unique`, `index`, a foreign key or a default.
abbrev pub mapped : ColumnType → (nullable : Bool) → MappedColumn
mapped k n = record {
  kind = k;
  foreign_key = none;
  unique = false;
  index = false;
  nullable = n;
  server_default = none;
}

abbrev pub with_default : String → MappedColumn → MappedColumn
with_default expression c = record c { server_default = some expression }

-- `mapped_column(UUID(as_uuid=True), ForeignKey(...), nullable=...)`
abbrev pub linked : ForeignKey → (nullable : Bool) → MappedColumn
linked k n = record (mapped uuid n) { foreign_key = some k }

abbrev pub indexed : MappedColumn → MappedColumn
indexed c = record c { index = true }

abbrev pub unique_column : MappedColumn → MappedColumn
unique_column c = record c { unique = true }

-- The columns of `BaseTableModel`.
abbrev pub base_columns : Dict String MappedColumn
base_columns =
    ("id", mapped uuid false)
    ∷ ("created_at", with_default "now()" (mapped timestamptz false))
    ∷ ("updated_at", with_default "now()" (mapped timestamptz false))
    ∷ []

abbrev columns_of : Dict String MappedColumn → Dict String Column
columns_of [] = []
columns_of ((n, c) ∷ cs) =
    (n, record { kind = c.kind; nullable = c.nullable; server_default = c.server_default })
    ∷ columns_of cs

abbrev add_key : String → Option ForeignKey → Dict String ForeignKey → Dict String ForeignKey
add_key n none ks = ks
add_key n (some k) ks = (n, k) ∷ ks

abbrev keys_of : Dict String MappedColumn → Dict String ForeignKey
keys_of [] = []
keys_of ((n, c) ∷ cs) = add_key n c.foreign_key (keys_of cs)

abbrev uniques_of : Dict String MappedColumn → List Unique
uniques_of [] = []
uniques_of ((n, c) ∷ cs) =
    let rest = uniques_of cs in
    if c.unique && not c.index then record { name = none; columns = n ∷ [] } ∷ rest else rest

abbrev indexes_of : String → Dict String MappedColumn → Dict String Index
indexes_of t [] = []
indexes_of t ((n, c) ∷ cs) =
    let rest = indexes_of t cs in
    if c.index
    then (
      concat "ix_" (concat t (concat "_" n)),
      record { table = t; columns = n ∷ []; unique = c.unique; predicate = none },
    )
      ∷ rest
    else rest

-- The table of a model, and its indexes.
abbrev pub table_of_model : Model → Table
table_of_model m = record {
  columns = columns_of m.columns;
  checks = m.checks;
  foreign_keys = keys_of m.columns;
  uniques = m.uniques ++ uniques_of m.columns;
}

abbrev pub indexes_of_model : Model → Dict String Index
indexes_of_model m = indexes_of m.tablename m.columns ++ m.indexes

-- All tables and indexes of some models.
abbrev pub declare : List Model → Catalog
declare [] = record { tables = []; indexes = []; functions = []; triggers = [] }
declare (m ∷ ms) =
    let rest = declare ms in
    record rest {
      tables = (m.tablename, table_of_model m) ∷ rest.tables;
      indexes = indexes_of_model m ++ rest.indexes;
    }
