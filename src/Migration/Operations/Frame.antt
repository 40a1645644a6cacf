-- ===== src/Migration/Operations/Frame.antt =====
-- Operations beside a catalog of objects that they do not name (alembic/versions).
use mathlib.Core.List.{append_assoc}
use balotly_backend.Base.{
  Bool, true, not, ◌&&◌, ◌≡◌, refl, ◌⊎◌, inl, inr, String, List, [], ◌∷◌, ◌++◌, arith, ◌==◌,
  string_eq, contains,
}
use balotly_backend.Base.Dict.{Dict}
use balotly_backend.Migration.Catalog.{Action, ForeignKey, Table, Index, Trigger, Catalog}
use balotly_backend.Migration.Operations.{
  Error, Result, ok, err, Operation, create_table, create_index, create_foreign_key,
  create_function, create_trigger, drop_table, drop_constraint, drop_trigger_if_exists,
  drop_function_if_exists, has_key, some_entry, refers_to, known_targets, add_foreign_key,
  remove_constraint, apply, migrate,
}
use balotly_backend.Migration.Operations.Entries.{
  lookup-append, has_key-append, keep-append, keep_all, some_entry-append, some_entry_impl,
  alter-append, some_entry_key, contains-append, without-append,
}

-- The objects of two catalogs together.
abbrev pub beside : Catalog → Catalog → Catalog
beside c d = record {
  tables = c.tables ++ d.tables;
  indexes = c.indexes ++ d.indexes;
  functions = c.functions ++ d.functions;
  triggers = c.triggers ++ d.triggers;
}

-- Whether a catalog has nothing that the operation creates, drops or would be held up by.
abbrev pub avoids : Operation → Catalog → Bool
avoids (create_table n t) c = not (has_key n c.tables)
avoids (create_index n i) c = not (has_key n c.indexes)
avoids (create_foreign_key n source target column action) c = not (has_key source c.tables)
avoids (create_function n) c = not (contains c.functions n)
avoids (create_trigger n t) c = not (some_entry (λ m u. m == n && (u.table == t.table)) c.triggers)
avoids (drop_table n) c =
    not (has_key n c.tables)
    && not (some_entry (λ m t. refers_to n t) c.tables)
    && not (some_entry (λ m i. i.table == n) c.indexes)
    && not (some_entry (λ m t. t.table == n) c.triggers)
avoids (drop_constraint n source) c = not (has_key source c.tables)
avoids (drop_trigger_if_exists n table) c =
    not (some_entry (λ m t. m == n && (t.table == table)) c.triggers)
avoids (drop_function_if_exists n) c =
    not (contains c.functions n) && not (some_entry (λ m t. t.function == n) c.triggers)

Result-cases : (m : Result Catalog) → ((d : Catalog) × (m ≡ ok d)) ⊎ ((x : Error) × (m ≡ err x))
Result-cases (ok d) = inl (d, refl)
Result-cases (err x) = inr (x, refl)

known_targets_beside :
    (n : String) (c d : Dict String Table) (ks : Dict String ForeignKey)
    → known_targets n d ks ≡ true
    → known_targets n (c ++ d) ks ≡ true
known_targets_beside n c d [] h = refl
known_targets_beside n c d ((i, k) ∷ ks) h =
    ground (arith, has_key-append k.target c d, known_targets_beside n c d ks)

module _ (c d d' : Catalog) where
  create_table_beside :
      (n : String) (t : Table)
      → avoids (create_table n t) c ≡ true
      → apply (create_table n t) d ≡ ok d'
      → apply (create_table n t) (beside c d) ≡ ok (beside c d')
  unfolding apply
  create_table_beside n t free e = ground (
    arith,
    lookup-append n c.tables d.tables,
    known_targets_beside n c.tables d.tables t.foreign_keys,
    append_assoc c.tables d.tables ((n, t) ∷ []),
  )

  create_index_beside :
      (n : String) (i : Index)
      → avoids (create_index n i) c ≡ true
      → apply (create_index n i) d ≡ ok d'
      → apply (create_index n i) (beside c d) ≡ ok (beside c d')
  unfolding apply
  create_index_beside n i free e = ground (
    arith,
    lookup-append n c.indexes d.indexes,
    has_key-append i.table c.tables d.tables,
    append_assoc c.indexes d.indexes ((n, i) ∷ []),
  )

  create_foreign_key_beside :
      (n source target column : String) (action : Action)
      → avoids (create_foreign_key n source target column action) c ≡ true
      → apply (create_foreign_key n source target column action) d ≡ ok d'
      → apply (create_foreign_key n source target column action) (beside c d) ≡ ok (beside c d')
  unfolding apply
  create_foreign_key_beside n source target column action free e = ground (
    arith,
    lookup-append source c.tables d.tables,
    has_key-append target c.tables d.tables,
    alter-append source (add_foreign_key n column target action) c.tables d.tables,
  )

  create_function_beside :
      (n : String)
      → avoids (create_function n) c ≡ true
      → apply (create_function n) d ≡ ok d'
      → apply (create_function n) (beside c d) ≡ ok (beside c d')
  unfolding apply
  create_function_beside n free e = ground (
    arith,
    contains-append n c.functions d.functions,
    append_assoc c.functions d.functions (n ∷ []),
  )

  create_trigger_beside :
      (n : String) (t : Trigger)
      → avoids (create_trigger n t) c ≡ true
      → apply (create_trigger n t) d ≡ ok d'
      → apply (create_trigger n t) (beside c d) ≡ ok (beside c d')
  unfolding apply
  create_trigger_beside n t free e = ground (
    arith,
    some_entry-append (λ (m : String) (u : Trigger). m == n && (u.table == t.table)) c.triggers
        d.triggers,
    has_key-append t.table c.tables d.tables,
    contains-append t.function c.functions d.functions,
    append_assoc c.triggers d.triggers ((n, t) ∷ []),
  )

  drop_table_beside :
      (n : String)
      → avoids (drop_table n) c ≡ true
      → apply (drop_table n) d ≡ ok d'
      → apply (drop_table n) (beside c d) ≡ ok (beside c d')
  unfolding apply
  drop_table_beside n free e = ground (
    arith,
    has_key-append n c.tables d.tables,
    some_entry-append (λ (m : String) (t : Table). not (m == n) && refers_to n t) c.tables d.tables,
    some_entry_impl (λ (m : String) (t : Table). not (m == n) && refers_to n t)
        (λ (m : String) (t : Table). refers_to n t) c.tables (λ m t h. ground arith),
    keep-append (λ (m : String) (t : Table). not (m == n)) c.tables d.tables,
    keep_all (λ (m : String) (t : Table). not (m == n)) (λ (m : String) (t : Table). m == n)
        c.tables (λ m t h. ground arith),
    some_entry_key n c.tables,
    keep-append (λ (m : String) (i : Index). not (i.table == n)) c.indexes d.indexes,
    keep_all (λ (m : String) (i : Index). not (i.table == n))
        (λ (m : String) (i : Index). i.table == n) c.indexes (λ m i h. ground arith),
    keep-append (λ (m : String) (t : Trigger). not (t.table == n)) c.triggers d.triggers,
    keep_all (λ (m : String) (t : Trigger). not (t.table == n))
        (λ (m : String) (t : Trigger). t.table == n) c.triggers (λ m t h. ground arith),
  )

  drop_constraint_beside :
      (n source : String)
      → avoids (drop_constraint n source) c ≡ true
      → apply (drop_constraint n source) d ≡ ok d'
      → apply (drop_constraint n source) (beside c d) ≡ ok (beside c d')
  unfolding apply
  drop_constraint_beside n source free e = ground (
    arith,
    lookup-append source c.tables d.tables,
    alter-append source (remove_constraint n) c.tables d.tables,
  )

  drop_trigger_beside :
      (n table : String)
      → avoids (drop_trigger_if_exists n table) c ≡ true
      → apply (drop_trigger_if_exists n table) d ≡ ok d'
      → apply (drop_trigger_if_exists n table) (beside c d) ≡ ok (beside c d')
  unfolding apply
  drop_trigger_beside n table free e = ground (
    arith,
    keep-append (λ (m : String) (t : Trigger). not (m == n && (t.table == table))) c.triggers
        d.triggers,
    keep_all (λ (m : String) (t : Trigger). not (m == n && (t.table == table)))
        (λ (m : String) (t : Trigger). m == n && (t.table == table)) c.triggers
        (λ m t h. ground arith),
  )

  drop_function_beside :
      (n : String)
      → avoids (drop_function_if_exists n) c ≡ true
      → apply (drop_function_if_exists n) d ≡ ok d'
      → apply (drop_function_if_exists n) (beside c d) ≡ ok (beside c d')
  unfolding apply
  drop_function_beside n free e = ground (
    arith,
    some_entry-append (λ (m : String) (t : Trigger). t.function == n) c.triggers d.triggers,
    without-append n c.functions d.functions,
  )

  -- One operation beside other objects.
  apply-beside :
      (op : Operation)
      → avoids op c ≡ true
      → apply op d ≡ ok d'
      → apply op (beside c d) ≡ ok (beside c d')
  apply-beside (create_table n t) = create_table_beside n t
  apply-beside (create_index n i) = create_index_beside n i
  apply-beside (create_foreign_key n source target column action) =
      create_foreign_key_beside n source target column action
  apply-beside (create_function n) = create_function_beside n
  apply-beside (create_trigger n t) = create_trigger_beside n t
  apply-beside (drop_table n) = drop_table_beside n
  apply-beside (drop_constraint n source) = drop_constraint_beside n source
  apply-beside (drop_trigger_if_exists n table) = drop_trigger_beside n table
  apply-beside (drop_function_if_exists n) = drop_function_beside n

-- Whether a catalog has nothing to do with any of the operations.
abbrev pub all_avoid : List Operation → Catalog → Bool
all_avoid [] c = true
all_avoid (op ∷ ops) c = avoids op c && all_avoid ops c

-- Beside objects that no operation of it names, a revision that runs by itself runs with the same
-- result, and the objects stay as they were.
pub migrate-beside :
    (ops : List Operation) (c d : Catalog) {d' : Catalog}
    → all_avoid ops c ≡ true
    → migrate ops d ≡ ok d'
    → migrate ops (beside c d) ≡ ok (beside c d')
unfolding migrate
migrate-beside [] c d free e = ground (arith)
migrate-beside (op ∷ ops) c d {d'} free e = elim (Result-cases (apply op d)) [
  | inr (x, bad) ↦ absurd (ground (arith, bad))
  | inl (d1, first) ↦
      ground (arith, first, apply-beside c d d1 op, migrate-beside ops c d1 {d' = d'})
]
