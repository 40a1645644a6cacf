-- ===== src/Migration/Revision/Contests.antt =====
-- The tables of the initial revision (alembic/versions/07f7b6151968_initial_schema.py): contests,
-- categories, candidates, vote_packages.
use balotly_backend.Base.{some, [], ◌∷◌}
use balotly_backend.Migration.Conditions.{
  is_null, is_not_null, differs, is_in, at_least, above, at_most, or_else, and_also, number, column,
}
use balotly_backend.Migration.Catalog.{
  ColumnType, uuid, varchar, numeric_5_2, integer, bigint, boolean, timestamptz, cascade, set_null,
  Table, required, optional, defaulted, references,
}
use balotly_backend.Migration.Revision.Timestamps.{timestamps}

-- `op.create_table("contests", ...)`
abbrev pub contests : Table
contests = record {
  columns =
      ("id", required uuid)
      ∷ ("organization_id", required uuid)
      ∷ ("name", required (varchar 255))
      ∷ ("status", defaulted (varchar 32) "draft")
      ∷ ("requires_matric_number", defaulted boolean "false")
      ∷ ("caps_votes_per_identity", defaulted boolean "false")
      ∷ ("platform_fee_percent", optional numeric_5_2)
      ∷ ("starts_at", required timestamptz)
      ∷ ("ends_at", required timestamptz)
      ∷ timestamps;
  checks =
      ("ck_contests_status", is_in "status" ("draft" ∷ "active" ∷ "closed" ∷ []))
      ∷ ("ck_contests_window", above "ends_at" (column "starts_at"))
      ∷ (
        "ck_contests_platform_fee_percent_range",
        or_else (is_null "platform_fee_percent") (
            and_also (at_least "platform_fee_percent" (number 0))
              (at_most "platform_fee_percent" (number 100))),
      )
      ∷ [];
  foreign_keys = ("organization_id", references "organizations" cascade) ∷ [];
  uniques = [];
}

-- `op.create_table("categories", ...)`
abbrev pub categories : Table
categories = record {
  columns =
      ("id", required uuid)
      ∷ ("contest_id", required uuid)
      ∷ ("name", required (varchar 255))
      ∷ timestamps;
  checks = [];
  foreign_keys = ("contest_id", references "contests" cascade) ∷ [];
  uniques =
      record { name = some "uq_categories_contest_name"; columns = "contest_id" ∷ "name" ∷ [] }
      ∷ [];
}

-- `op.create_table("candidates", ...)`
abbrev pub candidates : Table
candidates = record {
  columns =
      ("id", required uuid)
      ∷ ("category_id", required uuid)
      ∷ ("user_id", optional uuid)
      ∷ ("name", required (varchar 255))
      ∷ ("slug", required (varchar 255))
      ∷ ("photo_url", optional ColumnType.text)
      ∷ ("bio", optional ColumnType.text)
      ∷ ("matric_number", optional (varchar 64))
      ∷ ("poster_url", optional ColumnType.text)
      ∷ ("status", defaulted (varchar 32) "pending_approval")
      ∷ ("disqualification_reason", optional ColumnType.text)
      ∷ timestamps;
  checks =
      (
        "ck_candidates_status",
        is_in "status" ("pending_approval" ∷ "approved" ∷ "disqualified" ∷ []),
      )
      ∷ (
        "ck_candidates_disqualified_has_reason",
        or_else (differs "status" "disqualified") (is_not_null "disqualification_reason"),
      )
      ∷ [];
  foreign_keys =
      ("category_id", references "categories" cascade)
      ∷ ("user_id", references "users" set_null)
      ∷ [];
  uniques = [];
}

-- `op.create_table("vote_packages", ...)`
abbrev pub vote_packages : Table
vote_packages = record {
  columns =
      ("id", required uuid)
      ∷ ("contest_id", required uuid)
      ∷ ("amount_kobo", required bigint)
      ∷ ("vote_count", required integer)
      ∷ ("label", required (varchar 64))
      ∷ timestamps;
  checks =
      ("ck_vote_packages_amount_positive", above "amount_kobo" (number 0))
      ∷ ("ck_vote_packages_votes_positive", above "vote_count" (number 0))
      ∷ [];
  foreign_keys = ("contest_id", references "contests" cascade) ∷ [];
  uniques = [];
}
