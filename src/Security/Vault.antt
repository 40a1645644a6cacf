-- ===== src/Security/Vault.antt =====
-- The vault of api/core/security.py: `_key`, `encrypt_bytes`, `decrypt_bytes`, `encrypt_str` and
-- `decrypt_str`.
--
-- `_key` is a function of the setting ENCRYPTION_KEY, which never changes, so that its cache, which
-- keeps no errors, does not show. The nonce that `secrets` draws is an argument.
pub mod Laws
use balotly_backend.Base.{
  ℕ, ◌+◌, Option, none, some, Bool, true, false, ◌≡◌, List, [], ◌∷◌, ◌++◌, eqb, ltb, length, take,
  drop,
}
use balotly_backend.Base.Text.{Text}
use balotly_backend.Security.Base64.{Bytes, b64decode}
use balotly_backend.Security.Utf8.{is_utf8}

-- The two ValueErrors of `_key`, InvalidTag, and UnicodeDecodeError.
pub data Error : Type 0 where
  bad_base64 bad_key_length invalid_tag bad_utf8 : Error

pub data Result (A : Type 0) : Type 0 where
  ok : A → Result A
  err : Error → Result A

infixl 5 ◌>>=◌ ◌>>◌
abbrev pub ◌>>=◌ : {A B : Type 0} → Result A → (A → Result B) → Result B
ok a >>= f = f a
err e >>= f = err e

abbrev pub ◌>>◌ : {B : Type 0} → Result (Unit {0}) → Result B → Result B
m >> k = m >>= λ _. k

abbrev require : Bool → Error → Result (Unit {0})
require true e = ok tt
require false e = err e

abbrev or_raise : {A : Type 0} → Option A → Error → Result A
or_raise none e = err e
or_raise (some a) e = ok a

-- `AESGCM(key)` of the package cryptography, without associated data; none is InvalidTag.
pub record Aesgcm : Type 0 where
  pub encrypt : (key nonce plaintext : Bytes) → Bytes
  pub decrypt : (key nonce ciphertext : Bytes) → Option Bytes

-- What is relied on: AES-GCM is deterministic once the nonce is fixed, adds a tag of 16 bytes, and
-- accepts exactly what it has made under the same key and nonce.
pub record IsAesgcm (a : Aesgcm) : Type 0 where
  pub tagged : (k n p : Bytes) → length (a.encrypt k n p) ≡ length p + 16
  pub opens :
      (k n p : Bytes) → length k ≡ 32 → length n ≡ 12 → a.decrypt k n (a.encrypt k n p) ≡ some p
  pub authentic :
      (k n c p : Bytes)
      → length k ≡ 32
      → length n ≡ 12
      → a.decrypt k n c ≡ some p
      → c ≡ a.encrypt k n p

-- `_key`
unfoldable pub key : Text → Result Bytes
key encoded = do
  raw ← or_raise (b64decode encoded) bad_base64
  require (eqb (length raw) 32) bad_key_length
  ok raw

module _ (a : Aesgcm) (encoded : Text) where
  unfoldable pub encrypt_bytes : (nonce : Bytes) → Bytes → Result Bytes
  encrypt_bytes nonce plaintext = do k ← key encoded; ok (nonce ++ a.encrypt k nonce plaintext)

  unfoldable pub decrypt_bytes : Bytes → Result Bytes
  decrypt_bytes blob = do
    require (ltb 12 (length blob)) invalid_tag
    k ← key encoded
    or_raise (a.decrypt k (take 12 blob) (drop 12 blob)) invalid_tag

  unfoldable pub encrypt_str : (nonce : Bytes) → Text → Result Bytes
  encrypt_str nonce plaintext = encrypt_bytes nonce plaintext

  unfoldable pub decrypt_str : Bytes → Result Text
  decrypt_str blob = do
    plaintext ← decrypt_bytes blob
    require (is_utf8 plaintext) bad_utf8
    ok plaintext
