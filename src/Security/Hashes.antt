-- ===== src/Security/Hashes.antt =====
-- The hashes for looking values up (api/core/security.py): `hash_secret` and `hash_short_code`.
--
-- SHA-256 and HMAC-SHA-256 are parameters.
pub mod Laws
use balotly_backend.Base.{ℕ, ◌+◌, ◌-◌, ◌/◌, ◌%◌, [], ◌∷◌, ltb, if◌then◌else◌}
use balotly_backend.Base.Text.{Text}
use balotly_backend.Security.Base64.{Bytes}

unfoldable pub hex_char : ℕ → ℕ
hex_char d = if ltb d 10 then b'0' + d else b'a' + (d - 10)

-- `hexdigest`
unfoldable pub hexdigest : Bytes → Text
unfolding hex_char
hexdigest [] = []
hexdigest (b ∷ bs) = hex_char (b / 16) ∷ hex_char (b % 16) ∷ hexdigest bs

unfoldable pub hash_secret : (sha256 : Bytes → Bytes) → Text → Text
unfolding hexdigest
hash_secret sha256 secret = hexdigest (sha256 secret)

-- `key` is the setting SECRET_KEY.
unfoldable pub hash_short_code : (hmac : (key message : Bytes) → Bytes) → (key : Text) → Text → Text
unfolding hexdigest
hash_short_code hmac key code = hexdigest (hmac key code)
