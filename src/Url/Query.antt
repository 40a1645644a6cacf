-- ===== src/Url/Query.antt =====
-- `parse_qsl` and `urlencode` of Python's `urllib.parse`, as api/db/url.py calls them.
--
-- A text is its UTF-8 bytes.
use balotly_backend.Base.{
  ℕ, zero, suc, ◌+◌, ◌-◌, ◌*◌, ◌/◌, ◌%◌, Option, none, some, Bool, ◌&&◌, ◌||◌, List, [], ◌∷◌, ◌++◌,
  leb, eqb, if◌then◌else◌,
}
use balotly_backend.Base.Text.{Text, split_on, join, split_first}
use balotly_backend.Security.Utf8.{Expect, lead, is_between}

-- The bytes that `quote` keeps: letters, digits and `_.-~`.
unfoldable pub is_unreserved : ℕ → Bool
is_unreserved b =
    (leb b'0' b && leb b b'9')
    || (leb b'A' b && leb b b'Z')
    || (leb b'a' b && leb b b'z')
    || eqb b b'_'
    || eqb b b'.'
    || eqb b b'-'
    || eqb b b'~'

-- A hexadecimal digit, in upper case.
unfoldable pub hex_digit : ℕ → ℕ
hex_digit d = if leb d 9 then b'0' + d else b'A' + (d - 10)

-- `int(c, 16)` for one digit, in either case.
unfoldable pub hex_value : ℕ → Option ℕ
hex_value c =
    if leb b'0' c && leb c b'9'
    then some (c - b'0')
    else if leb b'A' c && leb c b'F'
    then some (c - b'A' + 10)
    else if leb b'a' c && leb c b'f'
    then some (c - b'a' + 10)
    else none

-- `quote_plus`
unfoldable pub quote_byte : ℕ → Text
unfolding is_unreserved hex_digit
quote_byte b =
    if eqb b b' '
    then b'+' ∷ []
    else if is_unreserved b
    then b ∷ []
    else b'%' ∷ hex_digit (b / 16) ∷ hex_digit (b % 16) ∷ []

unfoldable pub quote_plus : Text → Text
quote_plus [] = []
quote_plus (b ∷ t) = quote_byte b ++ quote_plus t

-- The byte that the two characters after a percent sign stand for.
unfoldable pub escaped : Text → Option ℕ
unfolding hex_value
escaped (h ∷ l ∷ t) = elim (hex_value h) [
  | none ↦ none
  | some high ↦ elim (hex_value l) [ none ↦ none | some low ↦ some (16 * high + low) ]
]
escaped t = none

-- `bytes.decode("utf-8", "replace")`, byte by byte: the bytes of a character that has begun, and what
-- it expects next.
record Pending : Type 0 where
  expects : Expect
  begun : Text

abbrev idle : Pending
idle = record { expects = record { more = 0; low = 0; high = 0 }; begun = [] }

-- U+FFFD
abbrev replacement : Text
replacement = 239 ∷ 191 ∷ 189 ∷ []

-- A character that has begun and does not go on is replaced.
abbrev break_off : Text → Text
break_off [] = []
break_off (b ∷ t) = replacement

-- The first byte of a character: what is written, and what is pending.
unfoldable begin_char : ℕ → Text × Pending
unfolding lead
begin_char b = elim (lead b) [
  | none ↦ (replacement, idle)
  | some e ↦ if eqb e.more 0 then (b ∷ [], idle) else ([], record { expects = e; begun = b ∷ [] })
]

unfoldable decode_byte : Pending → ℕ → Text × Pending
unfolding begin_char
decode_byte p b = elim p.expects.more [
  | zero ↦ begin_char b
  | suc n ↦
      if is_between p.expects.low p.expects.high b
      then if eqb n 0 then (p.begun ++ b ∷ [], idle) else (
        [],
        record { expects = record { more = n; low = 128; high = 191 }; begun = p.begun ++ b ∷ [] },
      )
      else (break_off p.begun ++ (begin_char b).0, (begin_char b).1)
]

-- One character of a text, of which the rest is given: what is written, how many characters of an
-- escape are still to be passed, and what is pending. Only runs of ASCII are decoded.
unfoldable unquote_char : Pending → ℕ → Text → Text × ℕ × Pending
unfolding decode_byte escaped
unquote_char p c t =
    if leb 128 c
    then (break_off p.begun ++ c ∷ [], 0, idle)
    else if eqb c b'%'
    then elim (escaped t) [
      | none ↦ ((decode_byte p c).0, 0, (decode_byte p c).1)
      | some b ↦ ((decode_byte p b).0, 2, (decode_byte p b).1)
    ]
    else let b = if eqb c b'+' then b' ' else c in ((decode_byte p b).0, 0, (decode_byte p b).1)

unfoldable unquote_from : ℕ → Pending → Text → Text
unfolding unquote_char
unquote_from skip p [] = break_off p.begun
unquote_from (suc skip) p (c ∷ t) = unquote_from skip p t
unquote_from zero p (c ∷ t) =
    let (written, skip, next) = unquote_char p c t in written ++ unquote_from skip next t

-- `unquote(text.replace('+', ' '))`
unfoldable pub unquote_plus : Text → Text
unfolding unquote_from
unquote_plus = unquote_from 0 idle

abbrev pub Pairs : Type 0
Pairs = List (Text × Text)

abbrev value_of : Option Text → Text
value_of none = []
value_of (some v) = v

-- One field of the query; an empty one is passed over, and a missing value is blank.
unfoldable pub parse_field : Text → Pairs
parse_field [] = []
parse_field (c ∷ t) =
    let parts = split_first b'=' (c ∷ t) in
    (unquote_plus parts.0, unquote_plus (value_of parts.1)) ∷ []

unfoldable pub parse_fields : List Text → Pairs
parse_fields [] = []
parse_fields (f ∷ fs) = parse_field f ++ parse_fields fs

-- `parse_qsl(query, keep_blank_values=True)`
unfoldable pub parse_qsl : Text → Pairs
unfolding parse_fields
parse_qsl query = parse_fields (split_on b'&' query)

unfoldable pub encode_pair : Text × Text → Text
encode_pair (k, v) = quote_plus k ++ b'=' ∷ quote_plus v

unfoldable pub encode_pairs : Pairs → List Text
encode_pairs [] = []
encode_pairs (p ∷ ps) = encode_pair p ∷ encode_pairs ps

-- `urlencode(pairs, doseq=True)` of pairs of texts.
unfoldable pub urlencode : Pairs → Text
unfolding encode_pairs
urlencode ps = join b'&' (encode_pairs ps)
