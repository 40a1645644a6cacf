-- ===== src/Schema/Statements/Payments.antt =====
-- The guarantees of the payment tables (api/v1/models/transaction.py): references are never shared, and
-- a capped contest counts an identity once; and what protects the evidence of a payment.
use balotly_backend.Base.{
  ℕ, zero, suc, none, some, true, false, ◌||◌, ◌≡◌, ◌≢◌, ◌↔◌, ◌⊎◌, refl, List, arith, eqb,
  string_eq, get_elem?,
}
use balotly_backend.Base.Int.{ℤ, pos, negsuc, leb_ℤ}
use balotly_backend.Schema.Statuses.{pending, success, failed}
use balotly_backend.Schema.Rows.{Organization, Contest, Transaction, Vote}
use balotly_backend.Schema.Checks.{transaction_checks, transaction_types}
use balotly_backend.Schema.Table.{
  is_doomed, all-get_elem?, any-get_elem?, has-get_elem?, is_doomed-get_elem?,
}
use balotly_backend.Schema.Table.Unique.{is_alone}
use balotly_backend.Schema.Constraints.{transaction_clash, holds_identity, validate_transaction}
use balotly_backend.Schema.Database.{
  Database, unique_violation, restrict_violation, err, organization_key, contest_key,
  transaction_key, candidate_key, vote_package_key,
}
use balotly_backend.Schema.Statements.{
  Doomed, no_rows, Statement, insert_transaction, delete, insert_row, cascade, is_restricted,
  delete_rows, execute, run,
}
use balotly_backend.Schema.Statements.Soundness.{IsSound, run-IsSound}

-- What the CHECK constraints of `transactions` ask of a row.
pub record IsLegal (t : Transaction) : Type 0 where
  pub known : (t.status ≡ pending) ⊎ (t.status ≡ success) ⊎ (t.status ≡ failed)
  pub kobo : ℕ
  pub positive : t.amount_kobo ≡ pos (suc kobo)
  pub confirmed : t.status ≡ success → t.confirmed_at ≢ none
  pub identified : t.enforce_identity_cap ≡ true → t.voter_matric_number ≢ none

kobo_of : ℤ → ℕ
kobo_of (pos (suc n)) = n
kobo_of a = 0

kobo_of_positive : (a : ℤ) → leb_ℤ a (pos 0) ≡ false → a ≡ pos (suc (kobo_of a))
unfolding kobo_of
kobo_of_positive (pos zero) h = ground arith
kobo_of_positive (pos (suc n)) h = refl
kobo_of_positive (negsuc n) h = cc

-- A row passes the CHECK constraints of `transactions` exactly if its status is one of the three, its
-- amount is positive, a success has its time of confirmation, and a capped row names an identity.
pub transaction_checks_iff : (t : Transaction) → (transaction_checks t ≡ true) ↔ IsLegal t
unfolding kobo_of
transaction_checks_iff t = (
  λ h. record {
    known = ground arith;
    kobo = kobo_of t.amount_kobo;
    positive = kobo_of_positive t.amount_kobo (ground arith);
    confirmed = λ s e. ground arith;
    identified = λ s e. ground arith;
  },
  λ l. ground (arith, l.known, l.positive, l.confirmed, l.identified),
)

module _ (db : Database) (v : IsSound db) (i j : ℕ) (a b : Transaction)
    (first : get_elem? db.transactions i ≡ some a)
    (second : get_elem? db.transactions j ≡ some b) where
  apart : transaction_clash a b ≡ false
  apart = ground (
    arith,
    all-get_elem? (is_alone transaction_clash db.transactions) db.transactions i a
        v.unique_transactions first,
    any-get_elem? (transaction_clash a) db.transactions j b second,
  )

  same_reference_id : a.paystack_reference ≡ b.paystack_reference → a.id ≡ b.id
  same_reference_id e = ground (arith, apart)

  same_identity_id :
      holds_identity a ≡ true
      → holds_identity b ≡ true
      → a.contest_id ≡ b.contest_id
      → a.voter_matric_number ≡ b.voter_matric_number
      → a.id ≡ b.id
  same_identity_id live live' e f =
      ground
        (arith, apart, all-get_elem? transaction_checks db.transactions i a v.transactions first)

pub reference_once :
    (sts : List Statement) (db : Database) (i j : ℕ) {a b : Transaction}
    → IsSound db
    → get_elem? (run sts db).transactions i ≡ some a
    → get_elem? (run sts db).transactions j ≡ some b
    → a.paystack_reference ≡ b.paystack_reference
    → a.id ≡ b.id
reference_once sts db i j {a} {b} v first second e =
    same_reference_id (run sts db) (run-IsSound sts db v) i j a b first second e

-- After any statements on a database without a broken constraint, two capped transactions of one
-- contest and one matric number that are pending or successful have one key; a NULL matric number
-- is no way round, since a capped row has none.
pub identity_once :
    (sts : List Statement) (db : Database) (i j : ℕ) {a b : Transaction}
    → IsSound db
    → get_elem? (run sts db).transactions i ≡ some a
    → get_elem? (run sts db).transactions j ≡ some b
    → holds_identity a ≡ true
    → holds_identity b ≡ true
    → a.contest_id ≡ b.contest_id
    → a.voter_matric_number ≡ b.voter_matric_number
    → a.id ≡ b.id
identity_once sts db i j {a} {b} v first second live live' e f =
    same_identity_id (run sts db) (run-IsSound sts db v) i j a b first second live live' e f

-- A second row for a reference that is there already is refused, whatever its key, if its columns fit
-- their types and its CHECK constraints hold.
pub redelivery_refused :
    (db : Database) (i : ℕ) (old new : Transaction)
    → get_elem? db.transactions i ≡ some old
    → new.paystack_reference ≡ old.paystack_reference
    → transaction_types new ≡ true
    → transaction_checks new ≡ true
    → execute (insert_transaction new) db ≡ err unique_violation
unfolding execute insert_row validate_transaction
redelivery_refused db i old new there same types checks = ground (
  arith,
  has-get_elem? transaction_key db.transactions i old new.id there,
  any-get_elem? (transaction_clash new) db.transactions i old there,
)

-- A transaction that has a vote cannot be deleted.
pub delete_transaction_refused :
    (db : Database) (i j : ℕ) (t : Transaction) (v : Vote)
    → get_elem? db.transactions i ≡ some t
    → get_elem? db.votes j ≡ some v
    → v.transaction_id ≡ t.id
    → execute (delete (record no_rows { transactions = λ r. eqb r.id t.id })) db
      ≡ err restrict_violation
unfolding execute delete_rows cascade is_restricted
delete_transaction_refused db i j t v there voted e =
    let d : Doomed = cascade db (record no_rows { transactions = λ r. eqb r.id t.id }) in
    ground (
      arith,
      any-get_elem?
          (λ w.
            is_doomed transaction_key d.transactions db.transactions w.transaction_id
            || is_doomed candidate_key d.candidates db.candidates w.candidate_id)
          db.votes j v voted,
      is_doomed-get_elem? transaction_key d.transactions db.transactions i t v.transaction_id there,
    )

-- An organization cannot be deleted once there is a payment in one of its contests: the deletion would
-- reach the contest by its cascade, and the transaction holds it.
pub delete_organization_refused :
    (db : Database) (i j k : ℕ) (o : Organization) (c : Contest) (t : Transaction)
    → get_elem? db.organizations i ≡ some o
    → get_elem? db.contests j ≡ some c
    → get_elem? db.transactions k ≡ some t
    → c.organization_id ≡ o.id
    → t.contest_id ≡ c.id
    → execute (delete (record no_rows { organizations = λ r. eqb r.id o.id })) db
      ≡ err restrict_violation
unfolding execute delete_rows cascade is_restricted
delete_organization_refused db i j k o c t has_o has_c has_t e f =
    let named : Doomed = record no_rows { organizations = λ r. eqb r.id o.id } in
    let d : Doomed = cascade db named in
    let reached : is_doomed organization_key named.organizations db.organizations c.organization_id
        ≡ true =
      is_doomed-get_elem? organization_key named.organizations db.organizations i o
        c.organization_id has_o (ground arith) (ground arith) in
    let doomed : is_doomed contest_key d.contests db.contests t.contest_id ≡ true =
      is_doomed-get_elem? contest_key d.contests db.contests j c t.contest_id has_c
        (ground (arith, reached)) (ground arith) in
    ground (
      arith,
      doomed,
      any-get_elem?
          (λ s.
            is_doomed candidate_key d.candidates db.candidates s.candidate_id
            || is_doomed vote_package_key d.vote_packages db.vote_packages s.vote_package_id
            || is_doomed contest_key d.contests db.contests s.contest_id)
          db.transactions k t has_t,
    )
