-- ===== src/Security/Base64.antt =====
-- `b64encode` and `b64decode(..., validate=True)` of Python 3.12's `base64`, as api/core/security.py
-- calls them.
pub mod Laws
use balotly_backend.Base.{
  ℕ, ◌+◌, ◌-◌, ◌*◌, ◌/◌, ◌%◌, Option, none, some, Bool, true, false, ◌&&◌, List, [], ◌∷◌, leb, eqb,
  if◌then◌else◌,
}
use balotly_backend.Base.Text.{Text}

abbrev pub Bytes : Type 0
Bytes = List ℕ

-- The character of six bits.
unfoldable pub b64_char : ℕ → ℕ
b64_char d =
    if leb d 25
    then b'A' + d
    else if leb d 51
    then b'a' + (d - 26)
    else if leb d 61
    then b'0' + (d - 52)
    else if eqb d 62
    then b'+'
    else b'/'

-- The six bits of a character; none outside the alphabet.
unfoldable pub b64_value : ℕ → Option ℕ
b64_value c =
    if leb b'A' c && leb c b'Z'
    then some (c - b'A')
    else if leb b'a' c && leb c b'z'
    then some (c - b'a' + 26)
    else if leb b'0' c && leb c b'9'
    then some (c - b'0' + 52)
    else if eqb c b'+'
    then some 62
    else if eqb c b'/'
    then some 63
    else none

unfoldable pub b64encode : Bytes → Text
b64encode [] = []
b64encode (a ∷ []) = b64_char (a / 4) ∷ b64_char (a % 4 * 16) ∷ b'=' ∷ b'=' ∷ []
b64encode (a ∷ b ∷ []) =
    b64_char (a / 4) ∷ b64_char (a % 4 * 16 + b / 16) ∷ b64_char (b % 16 * 4) ∷ b'=' ∷ []
b64encode (a ∷ b ∷ c ∷ t) =
    b64_char (a / 4)
    ∷ b64_char (a % 4 * 16 + b / 16)
    ∷ b64_char (b % 16 * 4 + c / 64)
    ∷ b64_char (c % 64)
    ∷ b64encode t

infixl 5 ◌>>=◌
abbrev ◌>>=◌ : {A B : Type 0} → Option A → (A → Option B) → Option B
none >>= f = none
some a >>= f = f a

-- The bytes of two, three and four characters. Bits that are left over are not looked at.
unfoldable pub one_byte : ℕ → ℕ → Option Bytes
one_byte a b = do x ← b64_value a; y ← b64_value b; some ((x * 4 + y / 16) ∷ [])

unfoldable pub two_bytes : ℕ → ℕ → ℕ → Option Bytes
two_bytes a b c = do
  x ← b64_value a
  y ← b64_value b
  z ← b64_value c
  some ((x * 4 + y / 16) ∷ (y % 16 * 16 + z / 4) ∷ [])

unfoldable pub three_bytes : ℕ → ℕ → ℕ → ℕ → Option Bytes → Option Bytes
three_bytes a b c d rest = do
  x ← b64_value a
  y ← b64_value b
  z ← b64_value c
  w ← b64_value d
  t ← rest
  some ((x * 4 + y / 16) ∷ (y % 16 * 16 + z / 4) ∷ (z % 4 * 64 + w) ∷ t)

abbrev is_last : Text → Bool
is_last [] = true
is_last (c ∷ t) = false

abbrev pub all_padding : Text → Bool
all_padding [] = true
all_padding (c ∷ t) = eqb c b'=' && all_padding t

-- Padding may only end the text, and after a whole group any number of it is passed over; none is
-- `binascii.Error`.
unfoldable pub b64decode : Text → Option Bytes
b64decode [] = some []
b64decode (a ∷ b ∷ c ∷ d ∷ t) =
    let rest = b64decode t in
    if eqb d b'='
    then if is_last t then if eqb c b'=' then one_byte a b else two_bytes a b c else none
    else three_bytes a b c d (if all_padding t then some [] else rest)
b64decode t = none
