-- ===== src/Migration/Refinement/Indexes.antt =====
-- The indexes that the revision makes (alembic/versions), table by table.
use balotly_backend.Base.{String, [], ◌∷◌, string_eq}
use balotly_backend.Base.Dict.{Dict}
use balotly_backend.Migration.Catalog.{Index, plain_index, unique_index}
use balotly_backend.Migration.Revision.Payments.{identity_cap}

-- The indexes of each table, in the order in which the revision makes them.
abbrev pub organization_indexes : Dict String Index
organization_indexes = []

abbrev pub user_indexes : Dict String Index
user_indexes =
    ("ix_users_email", unique_index "users" ("email" ∷ []))
    ∷ ("ix_users_organization_id", plain_index "users" ("organization_id" ∷ []))
    ∷ []

abbrev pub contest_indexes : Dict String Index
contest_indexes =
    ("ix_contests_organization_id", plain_index "contests" ("organization_id" ∷ []))
    ∷ (
      "ix_contests_organization_status",
      plain_index "contests" ("organization_id" ∷ "status" ∷ []),
    )
    ∷ []

abbrev pub category_indexes : Dict String Index
category_indexes = ("ix_categories_contest_id", plain_index "categories" ("contest_id" ∷ [])) ∷ []

abbrev pub candidate_indexes : Dict String Index
candidate_indexes =
    ("ix_candidates_category_id", plain_index "candidates" ("category_id" ∷ []))
    ∷ ("ix_candidates_user_id", plain_index "candidates" ("user_id" ∷ []))
    ∷ ("ix_candidates_slug", unique_index "candidates" ("slug" ∷ []))
    ∷ ("ix_candidates_category_status", plain_index "candidates" ("category_id" ∷ "status" ∷ []))
    ∷ []

abbrev pub vote_package_indexes : Dict String Index
vote_package_indexes =
    ("ix_vote_packages_contest_id", plain_index "vote_packages" ("contest_id" ∷ [])) ∷ []

abbrev pub subaccount_indexes : Dict String Index
subaccount_indexes = []

abbrev pub transaction_indexes : Dict String Index
transaction_indexes =
    ("ix_transactions_candidate_id", plain_index "transactions" ("candidate_id" ∷ []))
    ∷ ("ix_transactions_vote_package_id", plain_index "transactions" ("vote_package_id" ∷ []))
    ∷ ("ix_transactions_contest_id", plain_index "transactions" ("contest_id" ∷ []))
    ∷ (
      "ix_transactions_paystack_reference",
      unique_index "transactions" ("paystack_reference" ∷ []),
    )
    ∷ (
      "ix_transactions_candidate_status",
      plain_index "transactions" ("candidate_id" ∷ "status" ∷ []),
    )
    ∷ ("ix_transactions_contest_status", plain_index "transactions" ("contest_id" ∷ "status" ∷ []))
    ∷ ("uq_transactions_identity_cap", identity_cap)
    ∷ []

abbrev pub vote_indexes : Dict String Index
vote_indexes =
    ("ix_votes_transaction_id", plain_index "votes" ("transaction_id" ∷ []))
    ∷ ("ix_votes_candidate_created", plain_index "votes" ("candidate_id" ∷ "created_at" ∷ []))
    ∷ []

abbrev pub settlement_indexes : Dict String Index
settlement_indexes =
    ("ix_settlements_candidate_id", plain_index "settlements" ("candidate_id" ∷ []))
    ∷ (
      "ix_settlements_candidate_status",
      plain_index "settlements" ("candidate_id" ∷ "status" ∷ []),
    )
    ∷ []
