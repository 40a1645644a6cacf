-- ===== src/Migration/Operations/Entries.antt =====
-- Laws of the catalog's dicts, as the operations of alembic/versions read and change them.
use balotly_backend.Base.{
  Bool, true, false, ◌||◌, ◌≡◌, refl, String, List, [], ◌∷◌, ◌++◌, arith, ◌==◌, string_eq, contains,
}
use balotly_backend.Base.Dict.{Dict, lookup}
use balotly_backend.Migration.Operations.{has_key, keep, some_entry, alter, without}

module _ {V : Type 0} where
  pub lookup-append :
      (k : String) (c d : Dict String V) → has_key k c ≡ false → lookup k (c ++ d) ≡ lookup k d
  lookup-append k [] d h = refl
  lookup-append k ((j, v) ∷ c) d h = ground (arith, lookup-append k c d)

  -- An entry that is there stays there.
  pub has_key-append :
      (k : String) (c d : Dict String V) → has_key k d ≡ true → has_key k (c ++ d) ≡ true
  has_key-append k [] d h = h
  has_key-append k ((j, v) ∷ c) d h = ground (arith, has_key-append k c d)

  pub keep-append :
      (p : String → V → Bool) (c d : Dict String V) → keep p (c ++ d) ≡ keep p c ++ keep p d
  keep-append p [] d = refl
  keep-append p ((j, v) ∷ c) d = ground (arith, keep-append p c d)

  -- An entry goes only for a reason.
  pub keep_all :
      (p reason : String → V → Bool) (c : Dict String V)
      → ((k : String) (v : V) → reason k v ≡ false → p k v ≡ true)
      → some_entry reason c ≡ false
      → keep p c ≡ c
  keep_all p reason [] f h = refl
  keep_all p reason ((j, v) ∷ c) f h = ground (arith, f j v, keep_all p reason c f)

  pub some_entry-append :
      (p : String → V → Bool) (c d : Dict String V)
      → some_entry p (c ++ d) ≡ (some_entry p c || some_entry p d)
  some_entry-append p [] d = refl
  some_entry-append p ((j, v) ∷ c) d = ground (arith, some_entry-append p c d)

  pub some_entry_impl :
      (p q : String → V → Bool) (c : Dict String V)
      → ((k : String) (v : V) → q k v ≡ false → p k v ≡ false)
      → some_entry q c ≡ false
      → some_entry p c ≡ false
  some_entry_impl p q [] f h = refl
  some_entry_impl p q ((j, v) ∷ c) f h = ground (arith, f j v, some_entry_impl p q c f)

  pub alter-append :
      (k : String) (f : V → V) (c d : Dict String V)
      → has_key k c ≡ false
      → alter k f (c ++ d) ≡ c ++ alter k f d
  alter-append k f [] d h = refl
  alter-append k f ((j, v) ∷ c) d h = ground (arith, alter-append k f c d)

  -- No entry has a key that the dict lacks.
  pub some_entry_key :
      (k : String) (c : Dict String V) → has_key k c ≡ false → some_entry (λ m v. m == k) c ≡ false
  some_entry_key k [] h = refl
  some_entry_key k ((j, v) ∷ c) h = ground (arith, some_entry_key k c)

pub contains-append :
    (n : String) (c d : List String) → contains (c ++ d) n ≡ (contains c n || contains d n)
contains-append n [] d = refl
contains-append n (f ∷ c) d = ground (arith, contains-append n c d)

pub without-append :
    (n : String) (c d : List String) → contains c n ≡ false → without n (c ++ d) ≡ c ++ without n d
without-append n [] d h = refl
without-append n (f ∷ c) d h = ground (arith, without-append n c d)
