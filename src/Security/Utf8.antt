-- ===== src/Security/Utf8.antt =====
-- `bytes.decode()` of UTF-8, as api/core/security.py calls it: a text is its UTF-8 bytes, so that
-- decoding is a test.
use balotly_backend.Base.{
  ℕ, zero, suc, Option, none, some, Bool, false, ◌&&◌, List, [], ◌∷◌, leb, eqb, if◌then◌else◌,
}

-- How many continuation bytes are to come, and the bounds of the next one.
pub record Expect : Type 0 where
  pub more : ℕ
  pub low : ℕ
  pub high : ℕ

abbrev expect : ℕ → ℕ → ℕ → Option Expect
expect n l h = some (record { more = n; low = l; high = h })

abbrev pub is_between : ℕ → ℕ → ℕ → Bool
is_between l h b = leb l b && leb b h

-- After the first byte of a character. The narrower bounds keep out overlong forms, surrogates and
-- what lies beyond U+10FFFF.
unfoldable pub lead : ℕ → Option Expect
lead b =
    if leb b 127
    then expect 0 0 0
    else if is_between 194 223 b
    then expect 1 128 191
    else if eqb b 224
    then expect 2 160 191
    else if eqb b 237
    then expect 2 128 159
    else if is_between 225 239 b
    then expect 2 128 191
    else if eqb b 240
    then expect 3 144 191
    else if is_between 241 243 b
    then expect 3 128 191
    else if eqb b 244
    then expect 3 128 143
    else none

after_byte : Expect → ℕ → Option Expect
unfolding lead
after_byte e b = elim e.more [
  | zero ↦ lead b
  | suc n ↦ if is_between e.low e.high b then expect n 128 191 else none
]

accepts : Option Expect → List ℕ → Bool
unfolding after_byte
accepts none t = false
accepts (some e) [] = eqb e.more 0
accepts (some e) (b ∷ t) = accepts (after_byte e b) t

unfoldable pub is_utf8 : List ℕ → Bool
unfolding accepts
is_utf8 = accepts (expect 0 0 0)
