-- ===== src/Migration/Metadata/Agreement.antt =====
-- The schema of the initial revision (alembic/versions) beside that of the models (api/v1/models).
use balotly_backend.Base.{subst, ◌≡◌, refl, String, List, [], ◌∷◌, string_eq}
use balotly_backend.Base.Dict.{Dict, lookup}
use balotly_backend.Migration.Catalog.{Table}
use balotly_backend.Migration.Operations.{migrate, apply}
use balotly_backend.Migration.Revision.{upgrade}
use balotly_backend.Migration.Revision.Roundtrip.{upgraded, catalog_of}
use balotly_backend.Migration.Metadata.{Model, declare, table_of_model}
use balotly_backend.Migration.Metadata.Same.{
  Agree, agree, same_entries, AllAgree, SameAt, AllAgree-lookup, column_at, check_at,
  foreign_key_at, uniques_at,
}
use balotly_backend.Migration.Metadata.Accounts.{organization_model, user_model}
use balotly_backend.Migration.Metadata.Contests.{
  contest_model, category_model, candidate_model, vote_package_model,
}
use balotly_backend.Migration.Metadata.Payments.{
  subaccount_model, transaction_model, vote_model, settlement_model,
}
use balotly_backend.Migration.Revision.Accounts.{users}
use balotly_backend.Migration.Revision.Contests.{contests, categories, candidates, vote_packages}
use balotly_backend.Migration.Revision.Payments.{subaccounts, transactions, votes, settlements}
use balotly_backend.Migration.Refinement.Targets.{linked_organizations}

-- The models that `api.v1.models` imports, in its order.
abbrev pub models : List Model
models =
    candidate_model ∷ category_model ∷ contest_model ∷ organization_model ∷ settlement_model
    ∷ subaccount_model ∷ transaction_model ∷ user_model ∷ vote_model ∷ vote_package_model ∷ []

organization-Agree : Agree linked_organizations (table_of_model organization_model)
unfolding string_eq
organization-Agree =
    agree linked_organizations (table_of_model organization_model) refl refl refl refl refl refl
      refl

user-Agree : Agree users (table_of_model user_model)
unfolding string_eq
user-Agree = agree users (table_of_model user_model) refl refl refl refl refl refl refl

contest-Agree : Agree contests (table_of_model contest_model)
unfolding string_eq
contest-Agree = agree contests (table_of_model contest_model) refl refl refl refl refl refl refl

category-Agree : Agree categories (table_of_model category_model)
unfolding string_eq
category-Agree = agree categories (table_of_model category_model) refl refl refl refl refl refl refl

candidate-Agree : Agree candidates (table_of_model candidate_model)
unfolding string_eq
candidate-Agree =
    agree candidates (table_of_model candidate_model) refl refl refl refl refl refl refl

vote_package-Agree : Agree vote_packages (table_of_model vote_package_model)
unfolding string_eq
vote_package-Agree =
    agree vote_packages (table_of_model vote_package_model) refl refl refl refl refl refl refl

subaccount-Agree : Agree subaccounts (table_of_model subaccount_model)
unfolding string_eq
subaccount-Agree =
    agree subaccounts (table_of_model subaccount_model) refl refl refl refl refl refl refl

transaction-Agree : Agree transactions (table_of_model transaction_model)
unfolding string_eq
transaction-Agree =
    agree transactions (table_of_model transaction_model) refl refl refl refl refl refl refl

vote-Agree : Agree votes (table_of_model vote_model)
unfolding string_eq
vote-Agree = agree votes (table_of_model vote_model) refl refl refl refl refl refl refl

settlement-Agree : Agree settlements (table_of_model settlement_model)
unfolding string_eq
settlement-Agree =
    agree settlements (table_of_model settlement_model) refl refl refl refl refl refl refl

-- The tables of the models, in the order of the revision.
abbrev declared_tables : Dict String Table
declared_tables =
    ("organizations", table_of_model organization_model)
    ∷ ("users", table_of_model user_model)
    ∷ ("contests", table_of_model contest_model)
    ∷ ("categories", table_of_model category_model)
    ∷ ("candidates", table_of_model candidate_model)
    ∷ ("vote_packages", table_of_model vote_package_model)
    ∷ ("subaccounts", table_of_model subaccount_model)
    ∷ ("transactions", table_of_model transaction_model)
    ∷ ("votes", table_of_model vote_model)
    ∷ ("settlements", table_of_model settlement_model)
    ∷ []

tables-AllAgree : AllAgree upgraded.tables declared_tables
unfolding upgraded catalog_of upgrade migrate apply string_eq
tables-AllAgree = (
  refl,
  (
    organization-Agree,
    (
      refl,
      (
        user-Agree,
        (
          refl,
          (
            contest-Agree,
            (
              refl,
              (
                category-Agree,
                (
                  refl,
                  (
                    candidate-Agree,
                    (
                      refl,
                      (
                        vote_package-Agree,
                        (
                          refl,
                          (
                            subaccount-Agree,
                            (
                              refl,
                              (
                                transaction-Agree,
                                (refl, (vote-Agree, (refl, (settlement-Agree, tt)))),
                              ),
                            ),
                          ),
                        ),
                      ),
                    ),
                  ),
                ),
              ),
            ),
          ),
        ),
      ),
    ),
  ),
)

declared_tables-lookup : (t : String) → lookup t declared_tables ≡ lookup t (declare models).tables
unfolding string_eq
declared_tables-lookup = same_entries declared_tables (declare models).tables refl refl

indexes_agree : (n : String) → lookup n upgraded.indexes ≡ lookup n (declare models).indexes
unfolding upgraded catalog_of upgrade migrate apply string_eq
indexes_agree = same_entries upgraded.indexes (declare models).indexes refl refl

-- `upgrade` on an empty database makes what the models declare: the same tables, each with the same
-- columns (type, nullability, server default), CHECK constraints and foreign keys under each name, and
-- the same UNIQUE constraints; and under each name the same index.
pub upgraded-models :
    (t n : String)
    → (column_at upgraded t n ≡ column_at (declare models) t n)
      × (check_at upgraded t n ≡ check_at (declare models) t n)
      × (foreign_key_at upgraded t n ≡ foreign_key_at (declare models) t n)
      × (uniques_at upgraded t ≡ uniques_at (declare models) t)
      × (lookup n upgraded.indexes ≡ lookup n (declare models).indexes)
upgraded-models t n =
    let (a, b, c, d) =
      subst (SameAt (lookup t upgraded.tables)) (declared_tables-lookup t)
        (AllAgree-lookup upgraded.tables declared_tables tables-AllAgree t) n in
    (a, b, c, d, indexes_agree n)
