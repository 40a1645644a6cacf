-- ===== src/Migration/Metadata/Contests.antt =====
-- The models of api/v1/models: contest, category, candidate, vote_package.
use balotly_backend.Base.{some, true, false, [], ◌∷◌, ◌++◌}
use balotly_backend.Migration.Conditions.{
  is_null, is_not_null, differs, is_in, at_least, above, at_most, or_else, and_also, number, column,
}
use balotly_backend.Migration.Catalog.{
  ColumnType, varchar, numeric_5_2, integer, bigint, boolean, timestamptz, cascade, set_null,
  references, plain_index,
}
use balotly_backend.Migration.Metadata.{
  Model, mapped, with_default, linked, indexed, unique_column, base_columns,
}

-- `Contest`
abbrev pub contest_model : Model
contest_model = record {
  tablename = "contests";
  columns =
      base_columns
      ++ (("organization_id", indexed (linked (references "organizations" cascade) false))
          ∷ ("name", mapped (varchar 255) false)
          ∷ ("status", with_default "draft" (mapped (varchar 32) false))
          ∷ ("requires_matric_number", with_default "false" (mapped boolean false))
          ∷ ("caps_votes_per_identity", with_default "false" (mapped boolean false))
          ∷ ("platform_fee_percent", mapped numeric_5_2 true)
          ∷ ("starts_at", mapped timestamptz false)
          ∷ ("ends_at", mapped timestamptz false)
          ∷ []);
  checks =
      ("ck_contests_status", is_in "status" ("draft" ∷ "active" ∷ "closed" ∷ []))
      ∷ ("ck_contests_window", above "ends_at" (column "starts_at"))
      ∷ (
        "ck_contests_platform_fee_percent_range",
        or_else (is_null "platform_fee_percent") (
            and_also (at_least "platform_fee_percent" (number 0))
              (at_most "platform_fee_percent" (number 100))),
      )
      ∷ [];
  uniques = [];
  indexes =
      (
        "ix_contests_organization_status",
        plain_index "contests" ("organization_id" ∷ "status" ∷ []),
      )
      ∷ [];
}

-- `Category`
abbrev pub category_model : Model
category_model = record {
  tablename = "categories";
  columns =
      base_columns
      ++ (("contest_id", indexed (linked (references "contests" cascade) false))
          ∷ ("name", mapped (varchar 255) false)
          ∷ []);
  checks = [];
  uniques =
      record { name = some "uq_categories_contest_name"; columns = "contest_id" ∷ "name" ∷ [] }
      ∷ [];
  indexes = [];
}

-- `Candidate`
abbrev pub candidate_model : Model
candidate_model = record {
  tablename = "candidates";
  columns =
      base_columns
      ++ (("category_id", indexed (linked (references "categories" cascade) false))
          ∷ ("user_id", indexed (linked (references "users" set_null) true))
          ∷ ("name", mapped (varchar 255) false)
          ∷ ("slug", indexed (unique_column (mapped (varchar 255) false)))
          ∷ ("photo_url", mapped ColumnType.text true)
          ∷ ("bio", mapped ColumnType.text true)
          ∷ ("matric_number", mapped (varchar 64) true)
          ∷ ("poster_url", mapped ColumnType.text true)
          ∷ ("status", with_default "pending_approval" (mapped (varchar 32) false))
          ∷ ("disqualification_reason", mapped ColumnType.text true)
          ∷ []);
  checks =
      (
        "ck_candidates_status",
        is_in "status" ("pending_approval" ∷ "approved" ∷ "disqualified" ∷ []),
      )
      ∷ (
        "ck_candidates_disqualified_has_reason",
        or_else (differs "status" "disqualified") (is_not_null "disqualification_reason"),
      )
      ∷ [];
  uniques = [];
  indexes =
      ("ix_candidates_category_status", plain_index "candidates" ("category_id" ∷ "status" ∷ []))
      ∷ [];
}

-- `VotePackage`
abbrev pub vote_package_model : Model
vote_package_model = record {
  tablename = "vote_packages";
  columns =
      base_columns
      ++ (("contest_id", indexed (linked (references "contests" cascade) false))
          ∷ ("amount_kobo", mapped bigint false)
          ∷ ("vote_count", mapped integer false)
          ∷ ("label", mapped (varchar 64) false)
          ∷ []);
  checks =
      ("ck_vote_packages_amount_positive", above "amount_kobo" (number 0))
      ∷ ("ck_vote_packages_votes_positive", above "vote_count" (number 0))
      ∷ [];
  uniques = [];
  indexes = [];
}
