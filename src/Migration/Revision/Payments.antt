-- ===== src/Migration/Revision/Payments.antt =====
-- The tables of the initial revision (alembic/versions/07f7b6151968_initial_schema.py):
-- subaccounts, transactions, votes, settlements.
use balotly_backend.Base.{none, some, true, [], ◌∷◌}
use balotly_backend.Migration.Conditions.{
  is_null, is_not_null, is_true, equals, differs, is_in, at_least, above, at_most, or_else,
  and_also, negated, number, column,
}
use balotly_backend.Migration.Catalog.{
  uuid, varchar, numeric_5_2, bigint, boolean, timestamptz, bytea, cascade, restrict, set_null,
  Table, required, optional, defaulted, references, Index,
}
use balotly_backend.Migration.Revision.Timestamps.{timestamps}

-- `op.create_table("subaccounts", ...)`
abbrev pub subaccounts : Table
subaccounts = record {
  columns =
      ("id", required uuid)
      ∷ ("candidate_id", required uuid)
      ∷ ("bank_code", required (varchar 16))
      ∷ ("account_number_encrypted", required bytea)
      ∷ ("account_name", optional (varchar 255))
      ∷ ("subaccount_code", optional (varchar 64))
      ∷ ("percentage_charge", optional numeric_5_2)
      ∷ ("settlement_schedule", defaulted (varchar 16) "manual")
      ∷ ("status", defaulted (varchar 32) "pending")
      ∷ timestamps;
  checks =
      ("ck_subaccounts_status", is_in "status" ("pending" ∷ "verified" ∷ []))
      ∷ (
        "ck_subaccounts_verified_has_code",
        or_else (differs "status" "verified") (is_not_null "subaccount_code"),
      )
      ∷ (
        "ck_subaccounts_percentage_charge_range",
        or_else (is_null "percentage_charge") (
            and_also (at_least "percentage_charge" (number 0))
              (at_most "percentage_charge" (number 100))),
      )
      ∷ [];
  foreign_keys = ("candidate_id", references "candidates" cascade) ∷ [];
  uniques =
      record { name = none; columns = "candidate_id" ∷ [] }
      ∷ record { name = none; columns = "subaccount_code" ∷ [] }
      ∷ [];
}

-- `op.create_table("transactions", ...)`
abbrev pub transactions : Table
transactions = record {
  columns =
      ("id", required uuid)
      ∷ ("candidate_id", required uuid)
      ∷ ("vote_package_id", required uuid)
      ∷ ("contest_id", required uuid)
      ∷ ("paystack_reference", required (varchar 100))
      ∷ ("amount_kobo", required bigint)
      ∷ ("status", defaulted (varchar 32) "pending")
      ∷ ("voter_matric_number", optional (varchar 64))
      ∷ ("voter_phone", optional (varchar 20))
      ∷ ("enforce_identity_cap", defaulted boolean "false")
      ∷ ("confirmed_at", optional timestamptz)
      ∷ timestamps;
  checks =
      ("ck_transactions_status", is_in "status" ("pending" ∷ "success" ∷ "failed" ∷ []))
      ∷ ("ck_transactions_amount_positive", above "amount_kobo" (number 0))
      ∷ (
        "ck_transactions_success_is_confirmed",
        or_else (differs "status" "success") (is_not_null "confirmed_at"),
      )
      ∷ (
        "ck_transactions_cap_needs_matric_number",
        or_else (negated (is_true "enforce_identity_cap")) (is_not_null "voter_matric_number"),
      )
      ∷ [];
  foreign_keys =
      ("candidate_id", references "candidates" restrict)
      ∷ ("vote_package_id", references "vote_packages" restrict)
      ∷ ("contest_id", references "contests" restrict)
      ∷ [];
  uniques = [];
}

-- `op.create_table("votes", ...)`
abbrev pub votes : Table
votes = record {
  columns =
      ("id", required uuid)
      ∷ ("transaction_id", required uuid)
      ∷ ("candidate_id", required uuid)
      ∷ ("created_at", defaulted timestamptz "now()")
      ∷ [];
  checks = [];
  foreign_keys =
      ("transaction_id", references "transactions" restrict)
      ∷ ("candidate_id", references "candidates" restrict)
      ∷ [];
  uniques = [];
}

-- `op.create_table("settlements", ...)`
abbrev pub settlements : Table
settlements = record {
  columns =
      ("id", required uuid)
      ∷ ("candidate_id", required uuid)
      ∷ ("period_start", required timestamptz)
      ∷ ("period_end", required timestamptz)
      ∷ ("amount_kobo", required bigint)
      ∷ ("status", defaulted (varchar 32) "held")
      ∷ ("actioned_by_user_id", optional uuid)
      ∷ ("actioned_at", optional timestamptz)
      ∷ timestamps;
  checks =
      ("ck_settlements_status", is_in "status" ("held" ∷ "released" ∷ "reversed" ∷ []))
      ∷ ("ck_settlements_amount_non_negative", at_least "amount_kobo" (number 0))
      ∷ ("ck_settlements_period", at_least "period_end" (column "period_start"))
      ∷ (
        "ck_settlements_action_is_timestamped",
        or_else (equals "status" "held") (is_not_null "actioned_at"),
      )
      ∷ [];
  foreign_keys =
      ("candidate_id", references "candidates" restrict)
      ∷ ("actioned_by_user_id", references "users" set_null)
      ∷ [];
  uniques = [];
}

-- `uq_transactions_identity_cap`, a partial unique index.
abbrev pub identity_cap : Index
identity_cap = record {
  table = "transactions";
  columns = "contest_id" ∷ "voter_matric_number" ∷ [];
  unique = true;
  predicate =
      some
        (and_also (is_true "enforce_identity_cap") (is_in "status" ("pending" ∷ "success" ∷ [])));
}
