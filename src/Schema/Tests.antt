-- ===== src/Schema/Tests.antt =====
-- The theorems about the ten tables (api/v1/models) at concrete inputs.
use balotly_backend.Base.{ℕ, some, true, ◌≡◌, refl, List, [], ◌∷◌, ◌++◌, string_eq, get_elem?}
use balotly_backend.Schema.Rows.{Transaction}
use balotly_backend.Schema.Checks.{transaction_checks, transaction_types}
use balotly_backend.Schema.Database.{unique_violation, ok, err}
use balotly_backend.Schema.Constraints.{validate_vote}
use balotly_backend.Schema.References.{IsReferential}
use balotly_backend.Schema.Statements.{
  Statement, insert_vote, insert_transaction, truncate, insert_row, execute, run,
}
use balotly_backend.Schema.Statements.Ledger.{recorded, votes-run}
use balotly_backend.Schema.Statements.Integrity.{run-IsReferential}
use balotly_backend.Schema.Statements.Soundness.{IsSound}
use balotly_backend.Schema.Statements.Keys.{IsValid, run-IsValid, reference_place}
use balotly_backend.Schema.Statements.Payments.{identity_once, redelivery_refused}
use balotly_backend.Schema.Fixtures.{base, paid, first_vote, second_vote, stray_vote, db}

db-IsReferential : IsReferential db
db-IsReferential = record {
  organizations = refl;
  users = refl;
  contests = refl;
  categories = refl;
  candidates = refl;
  vote_packages = refl;
  subaccounts = refl;
  transactions = refl;
  votes = refl;
  settlements = refl;
}

db-IsSound : IsSound db
unfolding string_eq
db-IsSound = record {
  organizations = refl;
  users = refl;
  contests = refl;
  candidates = refl;
  vote_packages = refl;
  subaccounts = refl;
  transactions = refl;
  settlements = refl;
  unique_users = refl;
  unique_categories = refl;
  unique_candidates = refl;
  unique_subaccounts = refl;
  unique_transactions = refl;
}

-- One more vote, one without its transaction, and an attempt to clear the ledger.
abbrev history : List Statement
history = insert_vote second_vote ∷ insert_vote stray_vote ∷ truncate ∷ []

adds_vote :
    execute (insert_vote second_vote) db ≡ ok (record db { votes = first_vote ∷ second_vote ∷ [] })
unfolding execute insert_row validate_vote
adds_vote = refl

history_votes : (run history db).votes ≡ first_vote ∷ second_vote ∷ []
unfolding run execute insert_row validate_vote
history_votes = refl

votes-run_example : (run history db).votes ≡ db.votes ++ recorded history db
votes-run_example = votes-run history db

run-IsReferential_example : IsReferential (run history db)
run-IsReferential_example = run-IsReferential history db db-IsReferential

db-IsValid : IsValid db
db-IsValid = record {
  sound = db-IsSound;
  keyed = record {
    organizations = refl;
    users = refl;
    contests = refl;
    categories = refl;
    candidates = refl;
    vote_packages = refl;
    subaccounts = refl;
    transactions = refl;
    votes = refl;
    settlements = refl;
  };
}

run-IsValid_example : IsValid (run history db)
run-IsValid_example = run-IsValid history db db-IsValid

paid_legal : transaction_checks paid ≡ true
unfolding string_eq
paid_legal = refl

still_paid : get_elem? (run history db).transactions 0 ≡ some paid
unfolding run execute insert_row validate_vote
still_paid = refl

reference_place_example : ◌≡◌ {A = ℕ} 0 0
reference_place_example = reference_place history db 0 0 db-IsValid still_paid still_paid refl

identity_once_example : paid.id ≡ paid.id
unfolding string_eq
identity_once_example =
    identity_once history db 0 0 db-IsSound still_paid still_paid refl refl refl refl

-- A second row for the same reference, for another voter.
abbrev redelivered : Transaction
redelivered = record paid { base = base 51; voter_matric_number = some "CSC/2" }

redelivery_refused_example : execute (insert_transaction redelivered) db ≡ err unique_violation
unfolding string_eq transaction_types
redelivery_refused_example = redelivery_refused db 0 paid redelivered refl refl refl refl
