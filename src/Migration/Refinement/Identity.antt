-- ===== src/Migration/Refinement/Identity.antt =====
-- When two transactions clash: by the revision (alembic/versions) and by Schema.Constraints.
use balotly_backend.Base.{
  Bool, not, ◌&&◌, Option, none, some, eqb, ◌==◌, sym, ap, ◌∙◌, ◌||◌, ◌≡◌, refl, String, arith,
  string_eq,
}
use balotly_backend.Schema.Rows.{Transaction}
use balotly_backend.Schema.Constraints.{transaction_clash, holds_identity, same_text}
use balotly_backend.Migration.Conditions.{Row, string}
use balotly_backend.Migration.Enforcement.{rows_clash, is_indexed, same_value}
use balotly_backend.Migration.Cells.{transaction_cells, maybe}
use balotly_backend.Migration.Revision.Payments.{transactions, identity_cap}
use balotly_backend.Migration.Refinement.Indexes.{transaction_indexes}

-- The six tests that two transactions are compared by.
combine : (same_id same_reference held_a held_b same_contest same_matric : Bool) → Bool
combine i r a b c m = not i && (r || (a && b && c && m))

-- Whether a row stands in the partial index.
is_capped : Row → Bool
is_capped a = is_indexed identity_cap.predicate a

rows_clash-combine :
    (a b : Row)
    → rows_clash transactions transaction_indexes a b
      ≡ combine
          (same_value (a "id") (b "id"))
          (same_value (a "paystack_reference") (b "paystack_reference"))
          (is_capped a)
          (is_capped b)
          (same_value (a "contest_id") (b "contest_id"))
          (same_value (a "voter_matric_number") (b "voter_matric_number"))
unfolding combine is_capped
rows_clash-combine a b = ground arith

transaction_clash-combine :
    (a b : Transaction)
    → transaction_clash a b
      ≡ combine
          (eqb a.id b.id)
          (a.paystack_reference == b.paystack_reference)
          (holds_identity a)
          (holds_identity b)
          (eqb a.contest_id b.contest_id)
          (same_text a.voter_matric_number b.voter_matric_number)
unfolding combine
transaction_clash-combine a b = ground arith

is_capped-cells : (t : Transaction) → is_capped (transaction_cells t) ≡ holds_identity t
unfolding is_capped transaction_cells string_eq
is_capped-cells t = ground arith

same_matric-cells :
    (a b : Option String) → same_value (maybe string a) (maybe string b) ≡ same_text a b
same_matric-cells none b = refl
same_matric-cells (some s) none = refl
same_matric-cells (some s) (some t) = refl

pub transaction_pairs :
    (a b : Transaction)
    → rows_clash transactions transaction_indexes (transaction_cells a) (transaction_cells b)
      ≡ transaction_clash a b
unfolding transaction_cells string_eq
transaction_pairs a b =
    rows_clash-combine (transaction_cells a) (transaction_cells b)
    ∙ ap
        (λ h.
          combine (eqb a.id b.id) (a.paystack_reference == b.paystack_reference) h
            (is_capped (transaction_cells b)) (eqb a.contest_id b.contest_id)
            (same_value (maybe string a.voter_matric_number) (maybe string b.voter_matric_number)))
        (is_capped-cells a)
    ∙ ap
        (λ h.
          combine (eqb a.id b.id) (a.paystack_reference == b.paystack_reference) (holds_identity a)
            h (eqb a.contest_id b.contest_id)
            (same_value (maybe string a.voter_matric_number) (maybe string b.voter_matric_number)))
        (is_capped-cells b)
    ∙ ap
        (combine (eqb a.id b.id) (a.paystack_reference == b.paystack_reference) (holds_identity a)
          (holds_identity b) (eqb a.contest_id b.contest_id))
        (same_matric-cells a.voter_matric_number b.voter_matric_number)
    ∙ sym (transaction_clash-combine a b)
