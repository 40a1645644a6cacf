-- ===== src/Schema/Statements/Soundness/Inserts.antt =====
-- CHECK constraints and unique indexes under INSERT (api/v1/models).
use balotly_backend.Base.{◌≡◌, [], ◌∷◌, ◌++◌, arith, string_eq}
use balotly_backend.Schema.Rows.{
  Organization, User, Contest, Category, Candidate, VotePackage, Subaccount, Transaction, Vote,
  Settlement,
}
use balotly_backend.Schema.Checks.{
  organization_checks, user_checks, contest_checks, candidate_checks, vote_package_checks,
  subaccount_checks, transaction_checks, settlement_checks,
}
use balotly_backend.Schema.Table.{all-append}
use balotly_backend.Schema.Table.Unique.{is_unique-append}
use balotly_backend.Schema.Constraints.{
  user_clash, category_clash, candidate_clash, subaccount_clash, transaction_clash,
  validate_organization, validate_user, validate_contest, validate_category, validate_candidate,
  validate_vote_package, validate_subaccount, validate_transaction, validate_vote,
  validate_settlement,
}
use balotly_backend.Schema.Database.{Database, ok}
use balotly_backend.Schema.Statements.Soundness.Rules.{
  IsSound, user_clash-flip, user_clash-never, category_clash-flip, category_clash-never,
  candidate_clash-flip, candidate_clash-never, subaccount_clash-flip, subaccount_clash-never,
  transaction_clash-flip, transaction_clash-never,
}

module _ (db : Database) (v : IsSound db) where
  pub insert_organization-IsSound :
      (r : Organization)
      → validate_organization db r ≡ ok tt
      → IsSound (record db { organizations = db.organizations ++ r ∷ [] })
  unfolding validate_organization
  insert_organization-IsSound r h =
      ground (arith, all-append organization_checks db.organizations r v.organizations)

  pub insert_user-IsSound :
      (r : User) → validate_user db r ≡ ok tt → IsSound (record db { users = db.users ++ r ∷ [] })
  unfolding validate_user
  insert_user-IsSound r h = ground (
    arith,
    all-append user_checks db.users r v.users,
    is_unique-append user_clash user_clash-flip user_clash-never db.users r,
  )

  pub insert_contest-IsSound :
      (r : Contest)
      → validate_contest db r ≡ ok tt
      → IsSound (record db { contests = db.contests ++ r ∷ [] })
  unfolding validate_contest
  insert_contest-IsSound r h = ground (arith, all-append contest_checks db.contests r v.contests)

  pub insert_category-IsSound :
      (r : Category)
      → validate_category db r ≡ ok tt
      → IsSound (record db { categories = db.categories ++ r ∷ [] })
  unfolding validate_category
  insert_category-IsSound r h = ground (
    arith,
    is_unique-append category_clash category_clash-flip category_clash-never db.categories r,
  )

  pub insert_candidate-IsSound :
      (r : Candidate)
      → validate_candidate db r ≡ ok tt
      → IsSound (record db { candidates = db.candidates ++ r ∷ [] })
  unfolding validate_candidate
  insert_candidate-IsSound r h = ground (
    arith,
    all-append candidate_checks db.candidates r v.candidates,
    is_unique-append candidate_clash candidate_clash-flip candidate_clash-never db.candidates r,
  )

  pub insert_vote_package-IsSound :
      (r : VotePackage)
      → validate_vote_package db r ≡ ok tt
      → IsSound (record db { vote_packages = db.vote_packages ++ r ∷ [] })
  unfolding validate_vote_package
  insert_vote_package-IsSound r h =
      ground (arith, all-append vote_package_checks db.vote_packages r v.vote_packages)

  pub insert_subaccount-IsSound :
      (r : Subaccount)
      → validate_subaccount db r ≡ ok tt
      → IsSound (record db { subaccounts = db.subaccounts ++ r ∷ [] })
  unfolding validate_subaccount
  insert_subaccount-IsSound r h = ground (
    arith,
    all-append subaccount_checks db.subaccounts r v.subaccounts,
    is_unique-append subaccount_clash subaccount_clash-flip subaccount_clash-never db.subaccounts r,
  )

  pub insert_transaction-IsSound :
      (r : Transaction)
      → validate_transaction db r ≡ ok tt
      → IsSound (record db { transactions = db.transactions ++ r ∷ [] })
  unfolding validate_transaction
  insert_transaction-IsSound r h = ground (
    arith,
    all-append transaction_checks db.transactions r v.transactions,
    is_unique-append transaction_clash transaction_clash-flip transaction_clash-never
        db.transactions r,
  )

  pub insert_vote-IsSound :
      (r : Vote) → validate_vote db r ≡ ok tt → IsSound (record db { votes = db.votes ++ r ∷ [] })
  unfolding validate_vote
  insert_vote-IsSound r h = ground arith

  pub insert_settlement-IsSound :
      (r : Settlement)
      → validate_settlement db r ≡ ok tt
      → IsSound (record db { settlements = db.settlements ++ r ∷ [] })
  unfolding validate_settlement
  insert_settlement-IsSound r h =
      ground (arith, all-append settlement_checks db.settlements r v.settlements)
