-- ===== src/Migration/Metadata/Payments.antt =====
-- The models of api/v1/models: subaccount, transaction, vote, settlement.
use balotly_backend.Base.{some, true, false, [], ◌∷◌, ◌++◌}
use balotly_backend.Migration.Conditions.{
  is_null, is_not_null, is_true, equals, differs, is_in, at_least, above, at_most, or_else,
  and_also, negated, number, column,
}
use balotly_backend.Migration.Catalog.{
  uuid, varchar, numeric_5_2, bigint, boolean, timestamptz, bytea, cascade, restrict, set_null,
  references, plain_index, unique_index,
}
use balotly_backend.Migration.Metadata.{
  Model, mapped, with_default, linked, indexed, unique_column, base_columns,
}

-- `Subaccount`
abbrev pub subaccount_model : Model
subaccount_model = record {
  tablename = "subaccounts";
  columns =
      base_columns
      ++ (("candidate_id", unique_column (linked (references "candidates" cascade) false))
          ∷ ("bank_code", mapped (varchar 16) false)
          ∷ ("account_number_encrypted", mapped bytea false)
          ∷ ("account_name", mapped (varchar 255) true)
          ∷ ("subaccount_code", unique_column (mapped (varchar 64) true))
          ∷ ("percentage_charge", mapped numeric_5_2 true)
          ∷ ("settlement_schedule", with_default "manual" (mapped (varchar 16) false))
          ∷ ("status", with_default "pending" (mapped (varchar 32) false))
          ∷ []);
  checks =
      ("ck_subaccounts_status", is_in "status" ("pending" ∷ "verified" ∷ []))
      ∷ (
        "ck_subaccounts_verified_has_code",
        or_else (differs "status" "verified") (is_not_null "subaccount_code"),
      )
      ∷ (
        "ck_subaccounts_percentage_charge_range",
        or_else (is_null "percentage_charge") (
            and_also (at_least "percentage_charge" (number 0))
              (at_most "percentage_charge" (number 100))),
      )
      ∷ [];
  uniques = [];
  indexes = [];
}

-- `Transaction`
abbrev pub transaction_model : Model
transaction_model = record {
  tablename = "transactions";
  columns =
      base_columns
      ++ (("candidate_id", indexed (linked (references "candidates" restrict) false))
          ∷ ("vote_package_id", indexed (linked (references "vote_packages" restrict) false))
          ∷ ("contest_id", indexed (linked (references "contests" restrict) false))
          ∷ ("paystack_reference", indexed (unique_column (mapped (varchar 100) false)))
          ∷ ("amount_kobo", mapped bigint false)
          ∷ ("status", with_default "pending" (mapped (varchar 32) false))
          ∷ ("voter_matric_number", mapped (varchar 64) true)
          ∷ ("voter_phone", mapped (varchar 20) true)
          ∷ ("enforce_identity_cap", with_default "false" (mapped boolean false))
          ∷ ("confirmed_at", mapped timestamptz true)
          ∷ []);
  checks =
      ("ck_transactions_status", is_in "status" ("pending" ∷ "success" ∷ "failed" ∷ []))
      ∷ ("ck_transactions_amount_positive", above "amount_kobo" (number 0))
      ∷ (
        "ck_transactions_success_is_confirmed",
        or_else (differs "status" "success") (is_not_null "confirmed_at"),
      )
      ∷ (
        "ck_transactions_cap_needs_matric_number",
        or_else (negated (is_true "enforce_identity_cap")) (is_not_null "voter_matric_number"),
      )
      ∷ [];
  uniques = [];
  indexes =
      (
        "uq_transactions_identity_cap",
        record (unique_index "transactions" ("contest_id" ∷ "voter_matric_number" ∷ [])) {
          predicate = some (
              and_also (is_true "enforce_identity_cap")
                (is_in "status" ("pending" ∷ "success" ∷ [])));
        },
      )
      ∷ (
        "ix_transactions_candidate_status",
        plain_index "transactions" ("candidate_id" ∷ "status" ∷ []),
      )
      ∷ (
        "ix_transactions_contest_status",
        plain_index "transactions" ("contest_id" ∷ "status" ∷ []),
      )
      ∷ [];
}

-- `Vote`
abbrev pub vote_model : Model
vote_model = record {
  tablename = "votes";
  columns =
      (("id", mapped uuid false)
        ∷ ("transaction_id", indexed (linked (references "transactions" restrict) false))
        ∷ ("candidate_id", linked (references "candidates" restrict) false)
        ∷ ("created_at", with_default "now()" (mapped timestamptz false))
        ∷ []);
  checks = [];
  uniques = [];
  indexes =
      ("ix_votes_candidate_created", plain_index "votes" ("candidate_id" ∷ "created_at" ∷ [])) ∷ [];
}

-- `Settlement`
abbrev pub settlement_model : Model
settlement_model = record {
  tablename = "settlements";
  columns =
      base_columns
      ++ (("candidate_id", indexed (linked (references "candidates" restrict) false))
          ∷ ("period_start", mapped timestamptz false)
          ∷ ("period_end", mapped timestamptz false)
          ∷ ("amount_kobo", mapped bigint false)
          ∷ ("status", with_default "held" (mapped (varchar 32) false))
          ∷ ("actioned_by_user_id", linked (references "users" set_null) true)
          ∷ ("actioned_at", mapped timestamptz true)
          ∷ []);
  checks =
      ("ck_settlements_status", is_in "status" ("held" ∷ "released" ∷ "reversed" ∷ []))
      ∷ ("ck_settlements_amount_non_negative", at_least "amount_kobo" (number 0))
      ∷ ("ck_settlements_period", at_least "period_end" (column "period_start"))
      ∷ (
        "ck_settlements_action_is_timestamped",
        or_else (equals "status" "held") (is_not_null "actioned_at"),
      )
      ∷ [];
  uniques = [];
  indexes =
      (
        "ix_settlements_candidate_status",
        plain_index "settlements" ("candidate_id" ∷ "status" ∷ []),
      )
      ∷ [];
}
