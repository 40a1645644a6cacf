-- ===== src/Migration/Metadata/Accounts.antt =====
-- The models of api/v1/models: organization, user.
use balotly_backend.Base.{some, true, false, [], ◌∷◌, ◌++◌}
use balotly_backend.Migration.Conditions.{
  is_null, is_in, at_least, at_most, or_else, and_also, number,
}
use balotly_backend.Migration.Catalog.{varchar, numeric_5_2, set_null, references}
use balotly_backend.Migration.Metadata.{Model, mapped, linked, indexed, unique_column, base_columns}

-- `Organization`
abbrev pub organization_model : Model
organization_model = record {
  tablename = "organizations";
  columns =
      base_columns
      ++ (("name", mapped (varchar 255) false)
          ∷ ("contact_email", mapped (varchar 320) true)
          ∷ ("contact_phone", mapped (varchar 20) true)
          ∷ ("platform_fee_percent", mapped numeric_5_2 true)
          ∷ (
            "created_by_user_id",
            linked
                (record (references "users" set_null) {
                  name = some "fk_organizations_created_by_user_id_users";
                })
                true,
          )
          ∷ []);
  checks =
      (
        "ck_organizations_platform_fee_percent_range",
        or_else (is_null "platform_fee_percent") (
            and_also (at_least "platform_fee_percent" (number 0))
              (at_most "platform_fee_percent" (number 100))),
      )
      ∷ [];
  uniques = [];
  indexes = [];
}

-- `User`
abbrev pub user_model : Model
user_model = record {
  tablename = "users";
  columns =
      base_columns
      ++ (("email", indexed (unique_column (mapped (varchar 320) false)))
          ∷ ("password_hash", mapped (varchar 255) false)
          ∷ ("role", mapped (varchar 32) false)
          ∷ ("organization_id", indexed (linked (references "organizations" set_null) true))
          ∷ []);
  checks = ("ck_users_role", is_in "role" ("admin" ∷ "organizer" ∷ "candidate" ∷ [])) ∷ [];
  uniques = [];
  indexes = [];
}
