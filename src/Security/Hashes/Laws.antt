-- ===== src/Security/Hashes/Laws.antt =====
-- The hashes of api/core/security.py and their digests.
use balotly_backend.Base.{
  ℕ, ◌+◌, ◌-◌, ◌*◌, ◌/◌, ◌%◌, ◌<◌, ◌≡◌, ◌↔◌, refl, sym, ap, ◌∙◌, [], ◌∷◌, ltb, length, arith,
  if◌then◌else◌,
}
use balotly_backend.Base.Text.{Text, IsBytes}
use balotly_backend.Security.Base64.{Bytes}
use balotly_backend.Security.Hashes.{hex_char, hexdigest, hash_secret, hash_short_code}

-- The four bits of a hexadecimal digit.
hex_value : ℕ → ℕ
hex_value c = if ltb c b'a' then c - b'0' else (c - b'a') + 10

unhex : Text → Bytes
unhex (c ∷ d ∷ t) = (hex_value c * 16 + hex_value d) ∷ unhex t
unhex t = []

hex_value-hex_char : (d : ℕ) → d < 16 → hex_value (hex_char d) ≡ d
unfolding hex_value hex_char
hex_value-hex_char d h = ground arith

unhex-hexdigest : (bs : Bytes) → IsBytes bs → unhex (hexdigest bs) ≡ bs
unfolding unhex hexdigest
unhex-hexdigest [] h = refl
unhex-hexdigest (b ∷ bs) h = ground (
  arith,
  hex_value-hex_char (b / 16) (omega arith),
  hex_value-hex_char (b % 16) (omega arith),
  unhex-hexdigest bs h.1,
)

length-hexdigest : (bs : Bytes) → length (hexdigest bs) ≡ 2 * length bs
unfolding hexdigest
length-hexdigest [] = refl
length-hexdigest (b ∷ bs) = ground (arith, length-hexdigest bs)

hexdigest_iff : (a b : Bytes) → IsBytes a → IsBytes b → (hexdigest a ≡ hexdigest b) ↔ (a ≡ b)
hexdigest_iff a b ha hb =
    (λ e. sym (unhex-hexdigest a ha) ∙ ap unhex e ∙ unhex-hexdigest b hb, λ e. ap hexdigest e)

-- Under any SHA-256 and HMAC whose digests are 32 bytes: two secrets have one hash exactly if they
-- have one digest, and so have two short codes under one key; both hashes have 64 characters.
pub hash_secret_iff :
    (sha256 : Bytes → Bytes) (hmac : (key message : Bytes) → Bytes)
    → ((m : Bytes) → IsBytes (sha256 m) × (length (sha256 m) ≡ 32))
    → ((k m : Bytes) → IsBytes (hmac k m) × (length (hmac k m) ≡ 32))
    → (key a b : Text)
    → ((hash_secret sha256 a ≡ hash_secret sha256 b) ↔ (sha256 a ≡ sha256 b))
      × ((hash_short_code hmac key a ≡ hash_short_code hmac key b) ↔ (hmac key a ≡ hmac key b))
      × (length (hash_secret sha256 a) ≡ 64)
      × (length (hash_short_code hmac key a) ≡ 64)
unfolding hash_secret hash_short_code
hash_secret_iff sha256 hmac digest keyed key a b = (
  hexdigest_iff (sha256 a) (sha256 b) (digest a).0 (digest b).0,
  hexdigest_iff (hmac key a) (hmac key b) (keyed key a).0 (keyed key b).0,
  ground (arith, length-hexdigest (sha256 a), digest a),
  ground (arith, length-hexdigest (hmac key a), keyed key a),
)
