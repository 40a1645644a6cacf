-- ===== src/Security/Passwords/Laws.antt =====
-- What the password functions of api/core/security.py promise.
use balotly_backend.Base.{
  length-append, ℕ, Bool, List, ◌+◌, ◌||◌, ◌&&◌, not, ◌≢◌, if◌then◌else◌, ◌≤◌, Option, none, some,
  true, false, ◌≡◌, [], ◌∷◌, ◌++◌, arith, length, inl, inr, Option-cases,
}
use balotly_backend.Base.Text.{Text, codes}
use balotly_backend.Security.Base64.{Bytes}
use balotly_backend.Security.Base64.Laws.{length-b64encode}
use balotly_backend.Security.Passwords.{
  Bcrypt, hashing, checking, Process, prehash, hash_password, verify_password, decoy_password_hash,
  after_check, verify_password_equal_time, generate_secret,
}

-- What bcrypt promises: a password of at most 72 bytes, all that it reads, passes the test against its
-- own hash.
abbrev pub IsBcrypt : Bcrypt → Type 0
IsBcrypt bcrypt =
    (password salt : Bytes)
    → length password ≤ 72
    → bcrypt.checkpw password (bcrypt.hashpw password salt) ≡ some true

module _ (sha256 : Bytes → Bytes) (digest : (t : Bytes) → length (sha256 t) ≡ 32)
    (bcrypt : Bcrypt) where
  length-prehash : (password : Text) → length (prehash sha256 bcrypt password) ≡ 44
  unfolding prehash
  length-prehash password = ground (arith, length-b64encode (sha256 password), digest password)

  -- Where a SHA-256 digest has 32 bytes and bcrypt keeps its promise, which is for passwords of at
  -- most 72 bytes, a password of any length passes against its own hash: what bcrypt is given has
  -- 44 bytes.
  pub verify_password-hash_password :
      (salt : Bytes) (password : Text)
      → IsBcrypt bcrypt
      → (verify_password sha256 bcrypt password (hash_password sha256 bcrypt salt password) ≡ true)
        × (length (prehash sha256 bcrypt password) ≡ 44)
  unfolding verify_password hash_password
  verify_password-hash_password salt password law =
      let size = length-prehash password in
      (ground (arith, law (prehash sha256 bcrypt password) salt, size), size)

-- One call and the later ones: the rounds of both, with the decoy made at most once.
total_rounds :
    (n m l t c : ℕ) (miss later had had' : Bool)
    → m ≡ l + (t + (if miss && not had then 1 else 0))
    → had' ≡ (had || miss)
    → n ≡ m + (c + (if later && not had' then 1 else 0))
    → n ≡ l + ((t + c) + (if (miss || later) && not had then 1 else 0))
total_rounds n m l t c miss later had had' e d f = ground (arith, e, d, f)

-- One call of `verify_password_equal_time`.
pub record Attempt : Type 0 where
  pub salt : Bytes
  pub token : Bytes
  pub password : Text
  pub password_hash : Option Text

-- bcrypt's tests accept as well-formed what it has made itself, for passwords of at most 72 bytes.
abbrev pub MakesHashes : Bcrypt → Type 0
MakesHashes bcrypt =
    (made salt tested : Bytes)
    → length made ≤ 72
    → length tested ≤ 72
    → bcrypt.checkpw tested (bcrypt.hashpw made salt) ≢ none

module _ (sha256 : Bytes → Bytes) (bcrypt : Bcrypt) where
  -- The process after some calls.
  pub attempts : List Attempt → Process → Process
  attempts [] p = p
  attempts (a ∷ calls) p =
      attempts calls
        (verify_password_equal_time sha256 bcrypt a.salt a.token a.password a.password_hash p).1

  abbrev pub is_miss : Attempt → Bool
  is_miss a = elim a.password_hash [ none ↦ true | some h ↦ false ]

  -- Whether a call has a hash that bcrypt can test against, which a call without an account always has.
  abbrev pub is_testable : Attempt → Bool
  is_testable a = elim a.password_hash [
    | none ↦ true
    | some h ↦ elim (bcrypt.checkpw (prehash sha256 bcrypt a.password) h) [
      | none ↦ false
      | some answer ↦ true
    ]
  ]

  abbrev pub count_testable : List Attempt → ℕ
  count_testable [] = 0
  count_testable (a ∷ calls) = (if is_testable a then 1 else 0) + count_testable calls

  abbrev pub any_miss : List Attempt → Bool
  any_miss [] = false
  any_miss (a ∷ calls) = is_miss a || any_miss calls

  abbrev has_decoy : Process → Bool
  has_decoy p = elim p.decoy [ none ↦ false | some d ↦ true ]

  module _ (digest : (t : Bytes) → length (sha256 t) ≡ 32) (law : MakesHashes bcrypt) where
    -- What is kept as the decoy can be tested against.
    abbrev Keeps : Process → Type 0
    Keeps p =
        (d password : Text)
        → p.decoy ≡ some d
        → bcrypt.checkpw (prehash sha256 bcrypt password) d ≢ none

    made_fits :
        (password salt tested : Text)
        → bcrypt.checkpw (prehash sha256 bcrypt tested) (hash_password sha256 bcrypt salt password)
          ≢ none
    unfolding hash_password
    made_fits password salt tested =
        law (prehash sha256 bcrypt password) salt (prehash sha256 bcrypt tested)
          (omega (arith, length-prehash sha256 digest bcrypt password))
          (omega (arith, length-prehash sha256 digest bcrypt tested))

    -- The rounds of one call, and the decoy after it.
    attempt_rounds :
        (a : Attempt) (p : Process)
        → Keeps p
        → let next =
            (verify_password_equal_time sha256 bcrypt a.salt a.token a.password a.password_hash
              p).1 in
          (length next.rounds
            ≡ length p.rounds
              + ((if is_testable a then 1 else 0)
                  + (if is_miss a && not (has_decoy p) then 1 else 0)))
          × (has_decoy next ≡ (has_decoy p || is_miss a))
          × Keeps next
    unfolding verify_password_equal_time decoy_password_hash after_check
    attempt_rounds a p keeps = elim (Option-cases a.password_hash) [
      | inr (h, e) ↦ (
        ground (arith, e, length-append p.rounds (checking ∷ [])),
        ground (arith, e),
        λ d q k. keeps d q (ground (arith, e, k)),
      )
      | inl miss ↦ elim (Option-cases p.decoy) [
        | inr (d, known) ↦ (
          ground (
            arith,
            miss,
            known,
            keeps d a.password known,
            length-append p.rounds (checking ∷ []),
          ),
          ground (arith, miss, known, keeps d a.password known),
          λ d' q k. keeps d' q (ground (arith, miss, known, k)),
        )
        | inl unknown ↦ (
          ground (
            arith,
            miss,
            unknown,
            made_fits (generate_secret sha256 bcrypt a.token (codes "decoy")) a.salt a.password,
            length-append p.rounds (hashing ∷ []),
            length-append (p.rounds ++ hashing ∷ []) (checking ∷ []),
          ),
          ground (
            arith,
            miss,
            unknown,
            made_fits (generate_secret sha256 bcrypt a.token (codes "decoy")) a.salt a.password,
          ),
          λ d' q k. ground (
            arith,
            miss,
            unknown,
            k,
            made_fits (generate_secret sha256 bcrypt a.token (codes "decoy")) a.salt q,
          ),
        )
      ]
    ]

    attempts_rounds :
        (calls : List Attempt) (p : Process)
        → Keeps p
        → length (attempts calls p).rounds
          ≡ length p.rounds
            + (count_testable calls + (if any_miss calls && not (has_decoy p) then 1 else 0))
    unfolding attempts
    attempts_rounds [] p keeps = ground arith
    attempts_rounds (a ∷ calls) p keeps =
        let (now, decoy, still) = attempt_rounds a p keeps in
        let next =
          (verify_password_equal_time sha256 bcrypt a.salt a.token a.password a.password_hash
            p).1 in
        total_rounds (length (attempts calls next).rounds) (length next.rounds) (length p.rounds)
          (if is_testable a then 1 else 0) (count_testable calls) (is_miss a) (any_miss calls)
          (has_decoy p) (has_decoy next) now decoy (attempts_rounds calls next still)

    -- Where SHA-256 gives 32 bytes and bcrypt can test against what it has made, calls of a new
    -- process cost one round of bcrypt each, whether there is an account or not, but for two cases:
    -- a stored hash that is malformed costs no round, and the first call without an account costs
    -- one more, in which the decoy is made.
    pub length-attempts :
        (calls : List Attempt)
        → length (attempts calls (record { decoy = none; rounds = [] })).rounds
          ≡ count_testable calls + (if any_miss calls then 1 else 0)
    length-attempts calls =
        ground (arith, attempts_rounds calls (record { decoy = none; rounds = [] }) (λ d q e. cc))
