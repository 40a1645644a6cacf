-- ===== src/Security/Passwords.antt =====
-- Passwords (api/core/security.py): `_prehash`, `hash_password`, `verify_password`,
-- `_decoy_password_hash` and `verify_password_equal_time`.
--
-- SHA-256 and bcrypt are parameters. The random draws (the salt and the decoy's token) are arguments.
pub mod Laws
use balotly_backend.Base.{ℕ, Option, none, some, Bool, true, false, List, [], ◌∷◌, ◌++◌}
use balotly_backend.Base.Text.{Text, codes}
use balotly_backend.Security.Base64.{Bytes, b64encode}

-- `hashpw` and `checkpw` of the package bcrypt; none is its ValueError on a malformed hash.
pub record Bcrypt : Type 0 where
  pub hashpw : (password salt : Bytes) → Text
  pub checkpw : (password hash : Bytes) → Option Bool

-- One round of bcrypt, for a new hash or for a test. A test against a malformed hash raises before it
-- does a round.
pub data Round : Type 0 where
  hashing checking : Round

-- What outlives a call: the cache of `_decoy_password_hash`, and the rounds so far.
pub record Process : Type 0 where
  pub decoy : Option Text
  pub rounds : List Round

module _ (sha256 : Bytes → Bytes) (bcrypt : Bcrypt) where
  -- `_prehash`
  unfoldable pub prehash : Text → Bytes
  prehash password = b64encode (sha256 password)

  unfoldable pub hash_password : (salt : Bytes) → Text → Text
  unfolding prehash
  hash_password salt password = bcrypt.hashpw (prehash password) salt

  unfoldable pub verify_password : Text → Text → Bool
  unfolding prehash
  verify_password password password_hash = elim (bcrypt.checkpw (prehash password) password_hash) [
    | none ↦ false
    | some answer ↦ answer
  ]

  -- `generate_secret`, with the token that `secrets.token_urlsafe` draws.
  unfoldable pub generate_secret : (token prefix : Text) → Text
  generate_secret token prefix = prefix ++ b'_' ∷ token

  -- `_decoy_password_hash`, with its cache.
  unfoldable pub decoy_password_hash : (salt token : Bytes) → Process → Text × Process
  unfolding hash_password generate_secret
  decoy_password_hash salt token p = elim p.decoy [
    | some cached ↦ (cached, p)
    | none ↦
        let decoy = hash_password salt (generate_secret token (codes "decoy")) in
        (decoy, record { decoy = some decoy; rounds = p.rounds ++ hashing ∷ [] })
  ]

  -- The round, if any, of `verify_password`.
  unfoldable pub after_check : Text → Text → Process → Process
  unfolding prehash
  after_check password password_hash p = elim (bcrypt.checkpw (prehash password) password_hash) [
    | none ↦ p
    | some answer ↦ record p { rounds = p.rounds ++ checking ∷ [] }
  ]

  unfoldable pub verify_password_equal_time :
      (salt token : Bytes) → Text → Option Text → Process → Bool × Process
  unfolding decoy_password_hash verify_password after_check
  verify_password_equal_time salt token password none p =
      let (decoy, next) = decoy_password_hash salt token p in
      (false, after_check password decoy next)
  verify_password_equal_time salt token password (some password_hash) p =
      (verify_password password password_hash, after_check password password_hash p)
