-- ===== src/Migration/Revision.antt =====
-- The initial revision (alembic/versions/07f7b6151968_initial_schema.py): `upgrade` and `downgrade` as
-- the operations that they call, in their order.
pub mod Timestamps
pub mod Accounts
pub mod Contests
pub mod Payments
pub mod Roundtrip
use balotly_backend.Base.{String, List, [], ◌∷◌}
use balotly_backend.Migration.Catalog.{set_null, row_change, truncation, plain_index, unique_index}
use balotly_backend.Migration.Operations.{
  Operation, create_table, create_index, create_foreign_key, create_function, create_trigger,
  drop_table, drop_constraint, drop_trigger_if_exists, drop_function_if_exists,
}
use balotly_backend.Migration.Revision.Accounts.{organizations, users}
use balotly_backend.Migration.Revision.Contests.{contests, categories, candidates, vote_packages}
use balotly_backend.Migration.Revision.Payments.{
  subaccounts, transactions, votes, settlements, identity_cap,
}

-- `upgrade`
unfoldable pub upgrade : List Operation
upgrade =
    create_table "organizations" organizations
    ∷ create_table "users" users
    ∷ create_index "ix_users_email" (unique_index "users" ("email" ∷ []))
    ∷ create_index "ix_users_organization_id" (plain_index "users" ("organization_id" ∷ []))
    ∷ create_foreign_key "fk_organizations_created_by_user_id_users" "organizations" "users"
        "created_by_user_id" set_null
    ∷ create_table "contests" contests
    ∷ create_index "ix_contests_organization_id" (plain_index "contests" ("organization_id" ∷ []))
    ∷ create_index "ix_contests_organization_status"
        (plain_index "contests" ("organization_id" ∷ "status" ∷ []))
    ∷ create_table "categories" categories
    ∷ create_index "ix_categories_contest_id" (plain_index "categories" ("contest_id" ∷ []))
    ∷ create_table "candidates" candidates
    ∷ create_index "ix_candidates_category_id" (plain_index "candidates" ("category_id" ∷ []))
    ∷ create_index "ix_candidates_user_id" (plain_index "candidates" ("user_id" ∷ []))
    ∷ create_index "ix_candidates_slug" (unique_index "candidates" ("slug" ∷ []))
    ∷ create_index "ix_candidates_category_status"
        (plain_index "candidates" ("category_id" ∷ "status" ∷ []))
    ∷ create_table "vote_packages" vote_packages
    ∷ create_index "ix_vote_packages_contest_id" (plain_index "vote_packages" ("contest_id" ∷ []))
    ∷ create_table "subaccounts" subaccounts
    ∷ create_table "transactions" transactions
    ∷ create_index "ix_transactions_candidate_id" (plain_index "transactions" ("candidate_id" ∷ []))
    ∷ create_index "ix_transactions_vote_package_id"
        (plain_index "transactions" ("vote_package_id" ∷ []))
    ∷ create_index "ix_transactions_contest_id" (plain_index "transactions" ("contest_id" ∷ []))
    ∷ create_index "ix_transactions_paystack_reference"
        (unique_index "transactions" ("paystack_reference" ∷ []))
    ∷ create_index "ix_transactions_candidate_status"
        (plain_index "transactions" ("candidate_id" ∷ "status" ∷ []))
    ∷ create_index "ix_transactions_contest_status"
        (plain_index "transactions" ("contest_id" ∷ "status" ∷ []))
    ∷ create_index "uq_transactions_identity_cap" identity_cap
    ∷ create_table "votes" votes
    ∷ create_index "ix_votes_transaction_id" (plain_index "votes" ("transaction_id" ∷ []))
    ∷ create_index "ix_votes_candidate_created"
        (plain_index "votes" ("candidate_id" ∷ "created_at" ∷ []))
    ∷ create_function "votes_forbid_mutation"
    ∷ create_trigger "votes_append_only"
        (record { table = "votes"; event = row_change; function = "votes_forbid_mutation" })
    ∷ create_trigger "votes_no_truncate"
        (record { table = "votes"; event = truncation; function = "votes_forbid_mutation" })
    ∷ create_table "settlements" settlements
    ∷ create_index "ix_settlements_candidate_id" (plain_index "settlements" ("candidate_id" ∷ []))
    ∷ create_index "ix_settlements_candidate_status"
        (plain_index "settlements" ("candidate_id" ∷ "status" ∷ []))
    ∷ []

-- `downgrade`
unfoldable pub downgrade : List Operation
downgrade =
    drop_table "settlements"
    ∷ drop_trigger_if_exists "votes_no_truncate" "votes"
    ∷ drop_trigger_if_exists "votes_append_only" "votes"
    ∷ drop_function_if_exists "votes_forbid_mutation"
    ∷ drop_table "votes"
    ∷ drop_table "transactions"
    ∷ drop_table "subaccounts"
    ∷ drop_table "vote_packages"
    ∷ drop_table "candidates"
    ∷ drop_table "categories"
    ∷ drop_table "contests"
    ∷ drop_constraint "fk_organizations_created_by_user_id_users" "organizations"
    ∷ drop_table "users"
    ∷ drop_table "organizations"
    ∷ []
