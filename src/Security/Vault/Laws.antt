-- ===== src/Security/Vault/Laws.antt =====
-- What the vault of api/core/security.py gives back.
use balotly_backend.Base.{
  ℕ, zero, suc, ◌+◌, ◌<◌, ◌≤◌, some, true, ◌≡◌, ◌↔◌, refl, ◌∙◌, ap, [], ◌∷◌, ◌++◌, arith, length,
  take, drop, length-append, sym,
}
use balotly_backend.Base.Text.{Text, IsBytes}
use balotly_backend.Security.Base64.{Bytes, b64encode}
use balotly_backend.Security.Base64.Laws.{b64decode-b64encode}
use balotly_backend.Security.Utf8.{is_utf8}
use balotly_backend.Security.Vault.{
  ok, Aesgcm, IsAesgcm, key, encrypt_bytes, decrypt_bytes, encrypt_str, decrypt_str,
}

pub take-append-drop : (n : ℕ) (t : Bytes) → take n t ++ drop n t ≡ t
take-append-drop zero t = refl
take-append-drop (suc n) [] = refl
take-append-drop (suc n) (b ∷ t) = ap (◌∷◌ b) (take-append-drop n t)

length-take : (n : ℕ) (t : Bytes) → n ≤ length t → length (take n t) ≡ n
length-take zero t h = refl
length-take (suc n) [] h = ground arith
length-take (suc n) (b ∷ t) h = ground (arith, length-take n t)

take_nonce : (n : ℕ) (s t : Bytes) → length s ≡ n → (take n (s ++ t) ≡ s) × (drop n (s ++ t) ≡ t)
take_nonce zero [] t h = (refl, refl)
take_nonce (suc n) [] t h = ground arith
take_nonce zero (b ∷ s) t h = ground arith
take_nonce (suc n) (b ∷ s) t h = ground (arith, take_nonce n s t)

-- A key made as the error message says is accepted.
pub key-b64encode : (raw : Bytes) → IsBytes raw → length raw ≡ 32 → key (b64encode raw) ≡ ok raw
unfolding key
key-b64encode raw h n = ground (arith, b64decode-b64encode raw h)

key-length : (encoded : Text) (k : Bytes) → key encoded ≡ ok k → length k ≡ 32
unfolding key
key-length encoded k e = ground arith

module _ (a : Aesgcm) (law : IsAesgcm a) (encoded : Text) (k : Bytes)
    (good : key encoded ≡ ok k) where
  decrypted :
      (blob plaintext : Bytes)
      → decrypt_bytes a encoded blob ≡ ok plaintext
      → (12 < length blob) × (a.decrypt k (take 12 blob) (drop 12 blob) ≡ some plaintext)
  unfolding decrypt_bytes
  decrypted blob plaintext e = ground (arith, good)

  made :
      (nonce plaintext : Bytes)
      → length nonce ≡ 12
      → decrypt_bytes a encoded (nonce ++ a.encrypt k nonce plaintext) ≡ ok plaintext
  unfolding decrypt_bytes
  made nonce plaintext size = ground (
    arith,
    good,
    take_nonce 12 nonce (a.encrypt k nonce plaintext) size,
    length-append nonce (a.encrypt k nonce plaintext),
    law.tagged k nonce plaintext,
    law.opens k nonce plaintext (key-length encoded k good) size,
  )

  -- Where AES-GCM is as IsAesgcm says and the vault's key is valid, a blob decrypts to a plaintext
  -- exactly if it is a nonce of 12 bytes followed by what AES-GCM makes of that plaintext under the
  -- key and that nonce.
  pub decrypt_bytes-ok_iff :
      (blob plaintext : Bytes)
      → (decrypt_bytes a encoded blob ≡ ok plaintext)
        ↔ ((nonce : Bytes) × (length nonce ≡ 12) × (blob ≡ nonce ++ a.encrypt k nonce plaintext))
  decrypt_bytes-ok_iff blob plaintext = (
    λ e.
        let (long, opened) = decrypted blob plaintext e in
        let size : length (take 12 blob) ≡ 12 = length-take 12 blob (omega arith) in
        (
          take 12 blob,
          size,
          sym (take-append-drop 12 blob)
              ∙ ap (λ c. take 12 blob ++ c)
                  (law.authentic k (take 12 blob) (drop 12 blob) plaintext
                    (key-length encoded k good) size opened),
        ),
    λ (nonce, size, e). ap (decrypt_bytes a encoded) e ∙ made nonce plaintext size,
  )

-- Where AES-GCM is as IsAesgcm says, with a key of 32 bytes that is written in base64 and a nonce
-- of 12 bytes, every UTF-8 text is encrypted, to 28 bytes more than it has, and decrypts to itself.
pub decrypt_str-encrypt_str :
    (a : Aesgcm) (raw nonce : Bytes) (plaintext : Text)
    → IsAesgcm a
    → IsBytes raw
    → length raw ≡ 32
    → length nonce ≡ 12
    → is_utf8 plaintext ≡ true
    → (blob : Bytes) × (encrypt_str a (b64encode raw) nonce plaintext ≡ ok blob)
      × (length blob ≡ length plaintext + 28)
      × (decrypt_str a (b64encode raw) blob ≡ ok plaintext)
unfolding encrypt_str decrypt_str encrypt_bytes
decrypt_str-encrypt_str a raw nonce plaintext law bytes size fresh valid =
    let good = key-b64encode raw bytes size in
    let blob = nonce ++ a.encrypt raw nonce plaintext in
    (
      blob,
      ground (arith, good),
      ground (
        arith,
        length-append nonce (a.encrypt raw nonce plaintext),
        law.tagged raw nonce plaintext,
      ),
      ground (
        arith,
        (decrypt_bytes-ok_iff a law (b64encode raw) raw good blob plaintext).1 (nonce, fresh, refl),
      ),
    )
