-- ===== src/Security/Base64/Laws.antt =====
-- `b64decode` reads back what `b64encode` has written, and how long that is (api/core/security.py).
use balotly_backend.Base.{
  ℕ, ◌+◌, ◌*◌, ◌/◌, ◌%◌, ◌<◌, some, false, ◌≡◌, refl, [], ◌∷◌, arith, eqb, length, if◌then◌else◌,
}
use balotly_backend.Base.Text.{IsBytes}
use balotly_backend.Security.Base64.{
  Bytes, b64_char, b64_value, b64encode, b64decode, all_padding, one_byte, two_bytes, three_bytes,
}

b64_value-b64_char :
    (d : ℕ) → d < 64 → (b64_value (b64_char d) ≡ some d) × (eqb (b64_char d) b'=' ≡ false)
unfolding b64_value b64_char
b64_value-b64_char d h = ground arith

b64decode-nil : b64decode [] ≡ some []
unfolding b64decode
b64decode-nil = refl

-- A text that encodes bytes is padding alone only if it is empty.
all_padding-b64encode :
    (t : Bytes) → IsBytes t → (if all_padding (b64encode t) then some [] else some t) ≡ some t
unfolding b64encode
all_padding-b64encode [] h = refl
all_padding-b64encode (a ∷ []) h = ground (arith, b64_value-b64_char (a / 4))
all_padding-b64encode (a ∷ b ∷ []) h = ground (arith, b64_value-b64_char (a / 4))
all_padding-b64encode (a ∷ b ∷ c ∷ t) h = ground (arith, b64_value-b64_char (a / 4))

-- Every byte string survives base64.
pub b64decode-b64encode : (t : Bytes) → IsBytes t → b64decode (b64encode t) ≡ some t
unfolding b64decode b64encode one_byte two_bytes three_bytes
b64decode-b64encode [] h = refl
b64decode-b64encode (a ∷ []) h =
    ground (arith, b64_value-b64_char (a / 4), b64_value-b64_char (a % 4 * 16))
b64decode-b64encode (a ∷ b ∷ []) h = ground (
  arith,
  b64_value-b64_char (a / 4),
  b64_value-b64_char (a % 4 * 16 + b / 16),
  b64_value-b64_char (b % 16 * 4),
)
b64decode-b64encode (a ∷ b ∷ c ∷ t) h = ground (
  arith,
  b64_value-b64_char (a / 4),
  b64_value-b64_char (a % 4 * 16 + b / 16),
  b64_value-b64_char (b % 16 * 4 + c / 64),
  b64_value-b64_char (c % 64),
  b64decode-b64encode t,
  all_padding-b64encode t,
)

-- Four characters for every three bytes that have begun.
pub length-b64encode : (t : Bytes) → length (b64encode t) ≡ (length t + 2) / 3 * 4
unfolding b64encode
length-b64encode [] = refl
length-b64encode (a ∷ []) = refl
length-b64encode (a ∷ b ∷ []) = refl
length-b64encode (a ∷ b ∷ c ∷ t) = ground (arith, length-b64encode t)
