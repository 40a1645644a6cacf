-- ===== src/Schema/Statements/Soundness/Erasure.antt =====
-- CHECK constraints and unique indexes under DELETE (api/v1/models).
use balotly_backend.Base.{subst, ◌≡◌, refl, ◌∙◌, arith, string_eq}
use balotly_backend.Schema.Checks.{
  organization_checks, user_checks, contest_checks, candidate_checks, vote_package_checks,
  subaccount_checks, transaction_checks, settlement_checks,
}
use balotly_backend.Schema.Table.{remove, all-remove, all-map}
use balotly_backend.Schema.Table.Unique.{is_unique-remove, is_unique-map}
use balotly_backend.Schema.Constraints.{
  user_clash, category_clash, candidate_clash, subaccount_clash, transaction_clash,
}
use balotly_backend.Schema.Database.{Database, ok}
use balotly_backend.Schema.Statements.{
  Doomed, cascade, erase, unlink_organization, unlink_user, unlink_candidate, unlink_settlement,
  delete_rows,
}
use balotly_backend.Schema.Statements.Soundness.Rules.{IsSound}

module _ (db : Database) (v : IsSound db) where
  pub erase-IsSound : (d : Doomed) → IsSound (erase db d)
  unfolding erase
  erase-IsSound d = record {
    organizations =
        all-map organization_checks (unlink_organization db d)
          (remove d.organizations db.organizations)
        ∙ all-remove organization_checks d.organizations db.organizations v.organizations;
    users =
        all-map user_checks (unlink_user db d) (remove d.users db.users)
        ∙ all-remove user_checks d.users db.users v.users;
    contests = all-remove contest_checks d.contests db.contests v.contests;
    candidates =
        all-map candidate_checks (unlink_candidate db d) (remove d.candidates db.candidates)
        ∙ all-remove candidate_checks d.candidates db.candidates v.candidates;
    vote_packages = all-remove vote_package_checks d.vote_packages db.vote_packages v.vote_packages;
    subaccounts = all-remove subaccount_checks d.subaccounts db.subaccounts v.subaccounts;
    transactions = all-remove transaction_checks d.transactions db.transactions v.transactions;
    settlements =
        all-map settlement_checks (unlink_settlement db d) (remove d.settlements db.settlements)
        ∙ all-remove settlement_checks d.settlements db.settlements v.settlements;
    unique_users =
        is_unique-map user_clash (unlink_user db d) (λ a b. refl) (remove d.users db.users)
          (is_unique-remove user_clash d.users db.users v.unique_users);
    unique_categories =
        is_unique-remove category_clash d.categories db.categories v.unique_categories;
    unique_candidates =
        is_unique-map candidate_clash (unlink_candidate db d) (λ a b. refl)
          (remove d.candidates db.candidates)
          (is_unique-remove candidate_clash d.candidates db.candidates v.unique_candidates);
    unique_subaccounts =
        is_unique-remove subaccount_clash d.subaccounts db.subaccounts v.unique_subaccounts;
    unique_transactions =
        is_unique-remove transaction_clash d.transactions db.transactions v.unique_transactions;
  }

  pub delete_rows-IsSound :
      (named : Doomed) {next : Database} → delete_rows named db ≡ ok next → IsSound next
  unfolding delete_rows
  delete_rows-IsSound named e = subst IsSound (ground arith) (erase-IsSound (cascade db named))
