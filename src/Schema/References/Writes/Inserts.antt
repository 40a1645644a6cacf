-- ===== src/Schema/References/Writes/Inserts.antt =====
-- Referential integrity under INSERT (the foreign keys of api/v1/models).
use balotly_backend.Base.{◌≡◌, [], ◌∷◌, ◌++◌, arith}
use balotly_backend.Schema.Rows.{
  Organization, User, Contest, Category, Candidate, VotePackage, Subaccount, Transaction, Vote,
  Settlement,
}
use balotly_backend.Schema.Table.{all-append, has-append}
use balotly_backend.Schema.Constraints.{
  organization_refs, user_refs, contest_refs, category_refs, candidate_refs, vote_package_refs,
  subaccount_refs, transaction_refs, vote_refs, settlement_refs, validate_organization,
  validate_user, validate_contest, validate_category, validate_candidate, validate_vote_package,
  validate_subaccount, validate_transaction, validate_vote, validate_settlement,
}
use balotly_backend.Schema.Database.{
  Database, ok, organization_key, user_key, contest_key, category_key, candidate_key,
  vote_package_key, transaction_key,
}
use balotly_backend.Schema.References.{IsReferential, Refs-grow}

module _ (db : Database) (v : IsReferential db) where
  pub insert_organization-IsReferential :
      (r : Organization)
      → validate_organization db r ≡ ok tt
      → IsReferential (record db { organizations = db.organizations ++ r ∷ [] })
  unfolding validate_organization
  insert_organization-IsReferential r h =
      Refs-grow {db = db}
        (record {
          organizations = has-append organization_key db.organizations r;
          users = λ k h. h;
          contests = λ k h. h;
          categories = λ k h. h;
          candidates = λ k h. h;
          vote_packages = λ k h. h;
          transactions = λ k h. h;
        })
        (ground (arith, all-append (organization_refs db) db.organizations r v.organizations))

  pub insert_user-IsReferential :
      (r : User)
      → validate_user db r ≡ ok tt
      → IsReferential (record db { users = db.users ++ r ∷ [] })
  unfolding validate_user
  insert_user-IsReferential r h =
      Refs-grow {db = db}
        (record {
          organizations = λ k h. h;
          users = has-append user_key db.users r;
          contests = λ k h. h;
          categories = λ k h. h;
          candidates = λ k h. h;
          vote_packages = λ k h. h;
          transactions = λ k h. h;
        })
        (ground (arith, all-append (user_refs db) db.users r v.users))

  pub insert_contest-IsReferential :
      (r : Contest)
      → validate_contest db r ≡ ok tt
      → IsReferential (record db { contests = db.contests ++ r ∷ [] })
  unfolding validate_contest
  insert_contest-IsReferential r h =
      Refs-grow {db = db}
        (record {
          organizations = λ k h. h;
          users = λ k h. h;
          contests = has-append contest_key db.contests r;
          categories = λ k h. h;
          candidates = λ k h. h;
          vote_packages = λ k h. h;
          transactions = λ k h. h;
        })
        (ground (arith, all-append (contest_refs db) db.contests r v.contests))

  pub insert_category-IsReferential :
      (r : Category)
      → validate_category db r ≡ ok tt
      → IsReferential (record db { categories = db.categories ++ r ∷ [] })
  unfolding validate_category
  insert_category-IsReferential r h =
      Refs-grow {db = db}
        (record {
          organizations = λ k h. h;
          users = λ k h. h;
          contests = λ k h. h;
          categories = has-append category_key db.categories r;
          candidates = λ k h. h;
          vote_packages = λ k h. h;
          transactions = λ k h. h;
        })
        (ground (arith, all-append (category_refs db) db.categories r v.categories))

  pub insert_candidate-IsReferential :
      (r : Candidate)
      → validate_candidate db r ≡ ok tt
      → IsReferential (record db { candidates = db.candidates ++ r ∷ [] })
  unfolding validate_candidate
  insert_candidate-IsReferential r h =
      Refs-grow {db = db}
        (record {
          organizations = λ k h. h;
          users = λ k h. h;
          contests = λ k h. h;
          categories = λ k h. h;
          candidates = has-append candidate_key db.candidates r;
          vote_packages = λ k h. h;
          transactions = λ k h. h;
        })
        (ground (arith, all-append (candidate_refs db) db.candidates r v.candidates))

  pub insert_vote_package-IsReferential :
      (r : VotePackage)
      → validate_vote_package db r ≡ ok tt
      → IsReferential (record db { vote_packages = db.vote_packages ++ r ∷ [] })
  unfolding validate_vote_package
  insert_vote_package-IsReferential r h =
      Refs-grow {db = db}
        (record {
          organizations = λ k h. h;
          users = λ k h. h;
          contests = λ k h. h;
          categories = λ k h. h;
          candidates = λ k h. h;
          vote_packages = has-append vote_package_key db.vote_packages r;
          transactions = λ k h. h;
        })
        (ground (arith, all-append (vote_package_refs db) db.vote_packages r v.vote_packages))

  pub insert_subaccount-IsReferential :
      (r : Subaccount)
      → validate_subaccount db r ≡ ok tt
      → IsReferential (record db { subaccounts = db.subaccounts ++ r ∷ [] })
  unfolding validate_subaccount
  insert_subaccount-IsReferential r h =
      Refs-grow {db = db}
        (record {
          organizations = λ k h. h;
          users = λ k h. h;
          contests = λ k h. h;
          categories = λ k h. h;
          candidates = λ k h. h;
          vote_packages = λ k h. h;
          transactions = λ k h. h;
        })
        (ground (arith, all-append (subaccount_refs db) db.subaccounts r v.subaccounts))

  pub insert_transaction-IsReferential :
      (r : Transaction)
      → validate_transaction db r ≡ ok tt
      → IsReferential (record db { transactions = db.transactions ++ r ∷ [] })
  unfolding validate_transaction
  insert_transaction-IsReferential r h =
      Refs-grow {db = db}
        (record {
          organizations = λ k h. h;
          users = λ k h. h;
          contests = λ k h. h;
          categories = λ k h. h;
          candidates = λ k h. h;
          vote_packages = λ k h. h;
          transactions = has-append transaction_key db.transactions r;
        })
        (ground (arith, all-append (transaction_refs db) db.transactions r v.transactions))

  pub insert_vote-IsReferential :
      (r : Vote)
      → validate_vote db r ≡ ok tt
      → IsReferential (record db { votes = db.votes ++ r ∷ [] })
  unfolding validate_vote
  insert_vote-IsReferential r h =
      Refs-grow {db = db}
        (record {
          organizations = λ k h. h;
          users = λ k h. h;
          contests = λ k h. h;
          categories = λ k h. h;
          candidates = λ k h. h;
          vote_packages = λ k h. h;
          transactions = λ k h. h;
        })
        (ground (arith, all-append (vote_refs db) db.votes r v.votes))

  pub insert_settlement-IsReferential :
      (r : Settlement)
      → validate_settlement db r ≡ ok tt
      → IsReferential (record db { settlements = db.settlements ++ r ∷ [] })
  unfolding validate_settlement
  insert_settlement-IsReferential r h =
      Refs-grow {db = db}
        (record {
          organizations = λ k h. h;
          users = λ k h. h;
          contests = λ k h. h;
          categories = λ k h. h;
          candidates = λ k h. h;
          vote_packages = λ k h. h;
          transactions = λ k h. h;
        })
        (ground (arith, all-append (settlement_refs db) db.settlements r v.settlements))
