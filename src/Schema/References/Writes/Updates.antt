-- ===== src/Schema/References/Writes/Updates.antt =====
-- Referential integrity under UPDATE (the foreign keys of api/v1/models).
use balotly_backend.Base.{◌≡◌, ◌∙◌, arith}
use balotly_backend.Schema.Rows.{
  Organization, User, Contest, Category, Candidate, VotePackage, Subaccount, Transaction,
  Settlement,
}
use balotly_backend.Schema.Table.{replace, all-replace, has-replace}
use balotly_backend.Schema.Constraints.{
  organization_refs, user_refs, contest_refs, category_refs, candidate_refs, vote_package_refs,
  subaccount_refs, transaction_refs, settlement_refs, validate_organization, validate_user,
  validate_contest, validate_category, validate_candidate, validate_vote_package,
  validate_subaccount, validate_transaction, validate_settlement,
}
use balotly_backend.Schema.Database.{
  Database, ok, organization_key, user_key, contest_key, category_key, candidate_key,
  vote_package_key, subaccount_key, transaction_key, settlement_key,
}
use balotly_backend.Schema.References.{IsReferential, Refs-grow}

module _ (db : Database) (v : IsReferential db) where
  pub update_organization-IsReferential :
      (r : Organization)
      → validate_organization db r ≡ ok tt
      → IsReferential (record db { organizations = replace organization_key r db.organizations })
  unfolding validate_organization
  update_organization-IsReferential r h =
      Refs-grow {db = db}
        (record {
          organizations = λ k h. has-replace organization_key db.organizations r k ∙ h;
          users = λ k h. h;
          contests = λ k h. h;
          categories = λ k h. h;
          candidates = λ k h. h;
          vote_packages = λ k h. h;
          transactions = λ k h. h;
        })
        (ground (
          arith,
          all-replace organization_key (organization_refs db) db.organizations r v.organizations,
        ))

  pub update_user-IsReferential :
      (r : User)
      → validate_user db r ≡ ok tt
      → IsReferential (record db { users = replace user_key r db.users })
  unfolding validate_user
  update_user-IsReferential r h =
      Refs-grow {db = db}
        (record {
          organizations = λ k h. h;
          users = λ k h. has-replace user_key db.users r k ∙ h;
          contests = λ k h. h;
          categories = λ k h. h;
          candidates = λ k h. h;
          vote_packages = λ k h. h;
          transactions = λ k h. h;
        })
        (ground (arith, all-replace user_key (user_refs db) db.users r v.users))

  pub update_contest-IsReferential :
      (r : Contest)
      → validate_contest db r ≡ ok tt
      → IsReferential (record db { contests = replace contest_key r db.contests })
  unfolding validate_contest
  update_contest-IsReferential r h =
      Refs-grow {db = db}
        (record {
          organizations = λ k h. h;
          users = λ k h. h;
          contests = λ k h. has-replace contest_key db.contests r k ∙ h;
          categories = λ k h. h;
          candidates = λ k h. h;
          vote_packages = λ k h. h;
          transactions = λ k h. h;
        })
        (ground (arith, all-replace contest_key (contest_refs db) db.contests r v.contests))

  pub update_category-IsReferential :
      (r : Category)
      → validate_category db r ≡ ok tt
      → IsReferential (record db { categories = replace category_key r db.categories })
  unfolding validate_category
  update_category-IsReferential r h =
      Refs-grow {db = db}
        (record {
          organizations = λ k h. h;
          users = λ k h. h;
          contests = λ k h. h;
          categories = λ k h. has-replace category_key db.categories r k ∙ h;
          candidates = λ k h. h;
          vote_packages = λ k h. h;
          transactions = λ k h. h;
        })
        (ground (arith, all-replace category_key (category_refs db) db.categories r v.categories))

  pub update_candidate-IsReferential :
      (r : Candidate)
      → validate_candidate db r ≡ ok tt
      → IsReferential (record db { candidates = replace candidate_key r db.candidates })
  unfolding validate_candidate
  update_candidate-IsReferential r h =
      Refs-grow {db = db}
        (record {
          organizations = λ k h. h;
          users = λ k h. h;
          contests = λ k h. h;
          categories = λ k h. h;
          candidates = λ k h. has-replace candidate_key db.candidates r k ∙ h;
          vote_packages = λ k h. h;
          transactions = λ k h. h;
        })
        (ground (arith, all-replace candidate_key (candidate_refs db) db.candidates r v.candidates))

  pub update_vote_package-IsReferential :
      (r : VotePackage)
      → validate_vote_package db r ≡ ok tt
      → IsReferential (record db { vote_packages = replace vote_package_key r db.vote_packages })
  unfolding validate_vote_package
  update_vote_package-IsReferential r h =
      Refs-grow {db = db}
        (record {
          organizations = λ k h. h;
          users = λ k h. h;
          contests = λ k h. h;
          categories = λ k h. h;
          candidates = λ k h. h;
          vote_packages = λ k h. has-replace vote_package_key db.vote_packages r k ∙ h;
          transactions = λ k h. h;
        })
        (ground (
          arith,
          all-replace vote_package_key (vote_package_refs db) db.vote_packages r v.vote_packages,
        ))

  pub update_subaccount-IsReferential :
      (r : Subaccount)
      → validate_subaccount db r ≡ ok tt
      → IsReferential (record db { subaccounts = replace subaccount_key r db.subaccounts })
  unfolding validate_subaccount
  update_subaccount-IsReferential r h =
      Refs-grow {db = db}
        (record {
          organizations = λ k h. h;
          users = λ k h. h;
          contests = λ k h. h;
          categories = λ k h. h;
          candidates = λ k h. h;
          vote_packages = λ k h. h;
          transactions = λ k h. h;
        })
        (ground
          (arith, all-replace subaccount_key (subaccount_refs db) db.subaccounts r v.subaccounts))

  pub update_transaction-IsReferential :
      (r : Transaction)
      → validate_transaction db r ≡ ok tt
      → IsReferential (record db { transactions = replace transaction_key r db.transactions })
  unfolding validate_transaction
  update_transaction-IsReferential r h =
      Refs-grow {db = db}
        (record {
          organizations = λ k h. h;
          users = λ k h. h;
          contests = λ k h. h;
          categories = λ k h. h;
          candidates = λ k h. h;
          vote_packages = λ k h. h;
          transactions = λ k h. has-replace transaction_key db.transactions r k ∙ h;
        })
        (ground (
          arith,
          all-replace transaction_key (transaction_refs db) db.transactions r v.transactions,
        ))

  pub update_settlement-IsReferential :
      (r : Settlement)
      → validate_settlement db r ≡ ok tt
      → IsReferential (record db { settlements = replace settlement_key r db.settlements })
  unfolding validate_settlement
  update_settlement-IsReferential r h =
      Refs-grow {db = db}
        (record {
          organizations = λ k h. h;
          users = λ k h. h;
          contests = λ k h. h;
          categories = λ k h. h;
          candidates = λ k h. h;
          vote_packages = λ k h. h;
          transactions = λ k h. h;
        })
        (ground
          (arith, all-replace settlement_key (settlement_refs db) db.settlements r v.settlements))
