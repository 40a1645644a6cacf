-- ===== src/Security/Tests.antt =====
-- The vault and the password functions (api/core/security.py) with small stand-ins for the packages.
use balotly_backend.Base.{
  List, ◌+◌, none, some, true, false, ◌≡◌, ◌↔◌, refl, [], ◌∷◌, ◌++◌, arith, length, take, drop,
  if◌then◌else◌,
}
use balotly_backend.Base.Text.{Text, codes, IsBytes, same_text, same_text_iff}
use balotly_backend.Security.Base64.{Bytes, b64encode}
use balotly_backend.Security.Utf8.{is_utf8}
use balotly_backend.Security.Vault.{ok, Aesgcm, IsAesgcm, decrypt_bytes, encrypt_str, decrypt_str}
use balotly_backend.Security.Vault.Laws.{
  take-append-drop, decrypt_bytes-ok_iff, decrypt_str-encrypt_str, key-b64encode,
}
use balotly_backend.Security.Passwords.{Bcrypt, Process, prehash, hash_password, verify_password}
use balotly_backend.Security.Hashes.{hash_secret, hash_short_code}
use balotly_backend.Security.Hashes.Laws.{hash_secret_iff}
use balotly_backend.Security.Passwords.Laws.{
  IsBcrypt, verify_password-hash_password, MakesHashes, Attempt, attempts, length-attempts,
}

-- A tag that says nothing.
abbrev tag : Bytes
tag = codes "0123456789abcdef"

abbrev toy : Aesgcm
toy = record {
  encrypt = λ k n p. tag ++ p;
  decrypt = λ k n c. if same_text (take 16 c) tag then some (drop 16 c) else none;
}

toy-IsAesgcm : IsAesgcm toy
toy-IsAesgcm = record {
  tagged = λ k n p. omega arith;
  opens = λ k n p size fresh. refl;
  authentic =
      λ k n c p size fresh e. ground (arith, same_text_iff (take 16 c) tag, take-append-drop 16 c);
}

abbrev raw : Bytes
raw = codes "0123456789abcdef0123456789abcdef"

raw-IsBytes : IsBytes raw
raw-IsBytes = ground arith

abbrev nonce : Bytes
nonce = codes "twelve bytes"

abbrev account : Text
account = codes "0123456789"

account-is_utf8 : is_utf8 account ≡ true
unfolding is_utf8
account-is_utf8 = refl

-- A surrogate is no UTF-8, and two bytes of U+00E9 are.
surrogate : is_utf8 (237 ∷ 160 ∷ 128 ∷ []) ≡ false
unfolding is_utf8
surrogate = refl

e_acute : is_utf8 (195 ∷ 169 ∷ []) ≡ true
unfolding is_utf8
e_acute = refl

decrypt_str-encrypt_str_example :
    (blob : Bytes) × (encrypt_str toy (b64encode raw) nonce account ≡ ok blob)
    × (length blob ≡ length account + 28)
    × (decrypt_str toy (b64encode raw) blob ≡ ok account)
decrypt_str-encrypt_str_example =
    decrypt_str-encrypt_str toy raw nonce account toy-IsAesgcm raw-IsBytes refl refl account-is_utf8

decrypt_bytes-ok_iff_example :
    (decrypt_bytes toy (b64encode raw) (nonce ++ tag ++ account) ≡ ok account)
    ↔ ((n : Bytes) × (length n ≡ 12) × (nonce ++ tag ++ account ≡ n ++ toy.encrypt raw n account))
decrypt_bytes-ok_iff_example =
    decrypt_bytes-ok_iff toy toy-IsAesgcm (b64encode raw) raw (key-b64encode raw raw-IsBytes refl)
      (nonce ++ tag ++ account) account

-- A hash that is its salt, a separator and the password.
abbrev toy_bcrypt : Bcrypt
toy_bcrypt = record {
  hashpw = λ password salt. b'$' ∷ password;
  checkpw = λ password hash. if same_text hash (b'$' ∷ password) then some true else some false;
}

toy_bcrypt-IsBcrypt : IsBcrypt toy_bcrypt
toy_bcrypt-IsBcrypt password salt h =
    ground (arith, same_text_iff (b'$' ∷ password) (b'$' ∷ password))

-- A digest that says nothing.
abbrev toy_sha256 : Bytes → Bytes
toy_sha256 t = raw

abbrev fresh : Process
fresh = record { decoy = none; rounds = [] }

verify_password-hash_password_example :
    (verify_password toy_sha256 toy_bcrypt account
        (hash_password toy_sha256 toy_bcrypt nonce account)
      ≡ true)
    × (length (prehash toy_sha256 toy_bcrypt account) ≡ 44)
verify_password-hash_password_example =
    verify_password-hash_password toy_sha256 (λ t. refl) toy_bcrypt nonce account
      toy_bcrypt-IsBcrypt

toy_bcrypt-MakesHashes : MakesHashes toy_bcrypt
toy_bcrypt-MakesHashes made salt tested h k e = ground (arith, e)

-- Two calls without an account around one with a hash.
abbrev three_attempts : List Attempt
three_attempts = missed ∷ record missed { password_hash = some account } ∷ missed ∷ []
  where
    missed : Attempt
    missed = record { salt = nonce; token = nonce; password = account; password_hash = none }

length-attempts_example :
    length
      (attempts toy_sha256 toy_bcrypt three_attempts (record { decoy = none; rounds = [] })).rounds
    ≡ 4
length-attempts_example =
    length-attempts toy_sha256 toy_bcrypt (λ t. refl) toy_bcrypt-MakesHashes three_attempts

-- A digest and a keyed digest of 32 bytes that say nothing.
abbrev toy_hmac : (k m : Bytes) → Bytes
toy_hmac k m = toy_sha256 m

toy_sha256-IsBytes : (m : Bytes) → IsBytes (toy_sha256 m)
toy_sha256-IsBytes m = ground arith

hash_secret_iff_example :
    ((hash_secret toy_sha256 account ≡ hash_secret toy_sha256 nonce)
      ↔ (toy_sha256 account ≡ toy_sha256 nonce))
    × ((hash_short_code toy_hmac account account ≡ hash_short_code toy_hmac account nonce)
        ↔ (toy_hmac account account ≡ toy_hmac account nonce))
    × (length (hash_secret toy_sha256 account) ≡ 64)
    × (length (hash_short_code toy_hmac account account) ≡ 64)
hash_secret_iff_example =
    hash_secret_iff toy_sha256 toy_hmac (λ m. (toy_sha256-IsBytes m, refl))
      (λ k m. (toy_sha256-IsBytes m, refl)) account account nonce
