-- ===== src/Migration/Revision/Accounts.antt =====
-- The tables of the initial revision (alembic/versions/07f7b6151968_initial_schema.py): organizations, users.
use balotly_backend.Base.{[], ◌∷◌}
use balotly_backend.Migration.Conditions.{
  is_null, is_in, at_least, at_most, or_else, and_also, number,
}
use balotly_backend.Migration.Catalog.{
  uuid, varchar, numeric_5_2, set_null, Table, required, optional, references,
}
use balotly_backend.Migration.Revision.Timestamps.{timestamps}

-- `op.create_table("organizations", ...)`
abbrev pub organizations : Table
organizations = record {
  columns =
      ("id", required uuid)
      ∷ ("name", required (varchar 255))
      ∷ ("contact_email", optional (varchar 320))
      ∷ ("contact_phone", optional (varchar 20))
      ∷ ("platform_fee_percent", optional numeric_5_2)
      ∷ ("created_by_user_id", optional uuid)
      ∷ timestamps;
  checks =
      (
        "ck_organizations_platform_fee_percent_range",
        or_else (is_null "platform_fee_percent") (
            and_also (at_least "platform_fee_percent" (number 0))
              (at_most "platform_fee_percent" (number 100))),
      )
      ∷ [];
  foreign_keys = [];
  uniques = [];
}

-- `op.create_table("users", ...)`
abbrev pub users : Table
users = record {
  columns =
      ("id", required uuid)
      ∷ ("email", required (varchar 320))
      ∷ ("password_hash", required (varchar 255))
      ∷ ("role", required (varchar 32))
      ∷ ("organization_id", optional uuid)
      ∷ timestamps;
  checks = ("ck_users_role", is_in "role" ("admin" ∷ "organizer" ∷ "candidate" ∷ [])) ∷ [];
  foreign_keys = ("organization_id", references "organizations" set_null) ∷ [];
  uniques = [];
}
