-- ===== src/Schema/Statements/Soundness/Updates.antt =====
-- CHECK constraints and unique indexes under UPDATE (api/v1/models).
use balotly_backend.Base.{◌≡◌, arith, string_eq}
use balotly_backend.Schema.Rows.{
  Organization, User, Contest, Category, Candidate, VotePackage, Subaccount, Transaction,
  Settlement,
}
use balotly_backend.Schema.Checks.{
  organization_checks, user_checks, contest_checks, candidate_checks, vote_package_checks,
  subaccount_checks, transaction_checks, settlement_checks,
}
use balotly_backend.Schema.Table.{replace, all-replace}
use balotly_backend.Schema.Table.Unique.{is_unique-replace}
use balotly_backend.Schema.Constraints.{
  user_clash, category_clash, candidate_clash, subaccount_clash, transaction_clash,
  validate_organization, validate_user, validate_contest, validate_category, validate_candidate,
  validate_vote_package, validate_subaccount, validate_transaction, validate_settlement,
}
use balotly_backend.Schema.Database.{
  Database, ok, organization_key, user_key, contest_key, category_key, candidate_key,
  vote_package_key, subaccount_key, transaction_key, settlement_key,
}
use balotly_backend.Schema.Statements.Soundness.Rules.{
  IsSound, user_clash-flip, user_clash-never, category_clash-flip, category_clash-never,
  candidate_clash-flip, candidate_clash-never, subaccount_clash-flip, subaccount_clash-never,
  transaction_clash-flip, transaction_clash-never,
}

module _ (db : Database) (v : IsSound db) where
  pub update_organization-IsSound :
      (r : Organization)
      → validate_organization db r ≡ ok tt
      → IsSound (record db { organizations = replace organization_key r db.organizations })
  unfolding validate_organization
  update_organization-IsSound r h =
      ground
        (arith, all-replace organization_key organization_checks db.organizations r v.organizations)

  pub update_user-IsSound :
      (r : User)
      → validate_user db r ≡ ok tt
      → IsSound (record db { users = replace user_key r db.users })
  unfolding validate_user
  update_user-IsSound r h = ground (
    arith,
    all-replace user_key user_checks db.users r v.users,
    is_unique-replace user_clash user_clash-flip user_clash-never user_key db.users r,
  )

  pub update_contest-IsSound :
      (r : Contest)
      → validate_contest db r ≡ ok tt
      → IsSound (record db { contests = replace contest_key r db.contests })
  unfolding validate_contest
  update_contest-IsSound r h =
      ground (arith, all-replace contest_key contest_checks db.contests r v.contests)

  pub update_category-IsSound :
      (r : Category)
      → validate_category db r ≡ ok tt
      → IsSound (record db { categories = replace category_key r db.categories })
  unfolding validate_category
  update_category-IsSound r h = ground (
    arith,
    is_unique-replace category_clash category_clash-flip category_clash-never category_key
        db.categories r,
  )

  pub update_candidate-IsSound :
      (r : Candidate)
      → validate_candidate db r ≡ ok tt
      → IsSound (record db { candidates = replace candidate_key r db.candidates })
  unfolding validate_candidate
  update_candidate-IsSound r h = ground (
    arith,
    all-replace candidate_key candidate_checks db.candidates r v.candidates,
    is_unique-replace candidate_clash candidate_clash-flip candidate_clash-never candidate_key
        db.candidates r,
  )

  pub update_vote_package-IsSound :
      (r : VotePackage)
      → validate_vote_package db r ≡ ok tt
      → IsSound (record db { vote_packages = replace vote_package_key r db.vote_packages })
  unfolding validate_vote_package
  update_vote_package-IsSound r h =
      ground
        (arith, all-replace vote_package_key vote_package_checks db.vote_packages r v.vote_packages)

  pub update_subaccount-IsSound :
      (r : Subaccount)
      → validate_subaccount db r ≡ ok tt
      → IsSound (record db { subaccounts = replace subaccount_key r db.subaccounts })
  unfolding validate_subaccount
  update_subaccount-IsSound r h = ground (
    arith,
    all-replace subaccount_key subaccount_checks db.subaccounts r v.subaccounts,
    is_unique-replace subaccount_clash subaccount_clash-flip subaccount_clash-never subaccount_key
        db.subaccounts r,
  )

  pub update_transaction-IsSound :
      (r : Transaction)
      → validate_transaction db r ≡ ok tt
      → IsSound (record db { transactions = replace transaction_key r db.transactions })
  unfolding validate_transaction
  update_transaction-IsSound r h = ground (
    arith,
    all-replace transaction_key transaction_checks db.transactions r v.transactions,
    is_unique-replace transaction_clash transaction_clash-flip transaction_clash-never
        transaction_key db.transactions r,
  )

  pub update_settlement-IsSound :
      (r : Settlement)
      → validate_settlement db r ≡ ok tt
      → IsSound (record db { settlements = replace settlement_key r db.settlements })
  unfolding validate_settlement
  update_settlement-IsSound r h =
      ground (arith, all-replace settlement_key settlement_checks db.settlements r v.settlements)
