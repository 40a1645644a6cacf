-- ===== src/Migration/Simulation/Nothing.antt =====
-- A DELETE that names no row (alembic/versions).
use balotly_backend.Base.{
  ℕ, Option, none, some, Bool, false, ◌||◌, ◌≡◌, refl, ap, ◌∙◌, List, [], ◌∷◌, map, arith,
  string_eq,
}
use balotly_backend.Schema.Rows.{Contest, Category, Candidate, VotePackage, Subaccount}
use balotly_backend.Schema.Table.{any, remove, is_doomed}
use balotly_backend.Schema.Database.{
  Database, ok, organization_key, user_key, contest_key, category_key, candidate_key,
  vote_package_key, transaction_key,
}
use balotly_backend.Schema.Statements.{
  cascade, is_restricted, erase, unlink_organization, unlink_user, unlink_candidate,
  unlink_settlement, delete_rows, set_null, no_rows,
}

pub any_none :
    {R : Type 0} (f : R → Bool) (rs : List R) → ((r : R) → f r ≡ false) → any f rs ≡ false
any_none f [] h = refl
any_none f (r ∷ rs) h = ground (arith, h r, any_none f rs h)

remove_nothing :
    {R : Type 0} (f : R → Bool) (rs : List R) → ((r : R) → f r ≡ false) → remove f rs ≡ rs
remove_nothing f [] h = refl
remove_nothing f (r ∷ rs) h = ground (arith, h r, remove_nothing f rs h)

map_same : {R : Type 0} (f : R → R) (rs : List R) → ((r : R) → f r ≡ r) → map f rs ≡ rs
map_same f [] h = refl
map_same f (r ∷ rs) h = ground (arith, h r, map_same f rs h)

is_doomed_none :
    {R : Type 0} (key_of : R → ℕ) (f : R → Bool) (rs : List R) (k : ℕ)
    → ((r : R) → f r ≡ false)
    → is_doomed key_of f rs k ≡ false
is_doomed_none key_of f [] k h = refl
is_doomed_none key_of f (r ∷ rs) k h = ground (arith, h r, is_doomed_none key_of f rs k h)

set_null_none :
    {R : Type 0} (key_of : R → ℕ) (f : R → Bool) (rs : List R) (o : Option ℕ)
    → ((r : R) → f r ≡ false)
    → set_null key_of f rs o ≡ o
set_null_none key_of f rs none h = refl
set_null_none key_of f rs (some k) h = ground (arith, is_doomed_none key_of f rs k h)

-- A DELETE that names no row.
module _ (db : Database) where
  no_contests : (r : Contest) → (cascade db no_rows).contests r ≡ false
  unfolding cascade
  no_contests r =
      is_doomed_none organization_key (cascade db no_rows).organizations db.organizations
        r.organization_id (λ s. refl)

  no_categories : (r : Category) → (cascade db no_rows).categories r ≡ false
  unfolding cascade
  no_categories r =
      is_doomed_none contest_key (cascade db no_rows).contests db.contests r.contest_id no_contests

  no_candidates : (r : Candidate) → (cascade db no_rows).candidates r ≡ false
  unfolding cascade
  no_candidates r =
      is_doomed_none category_key (cascade db no_rows).categories db.categories r.category_id
        no_categories

  no_vote_packages : (r : VotePackage) → (cascade db no_rows).vote_packages r ≡ false
  unfolding cascade
  no_vote_packages r =
      is_doomed_none contest_key (cascade db no_rows).contests db.contests r.contest_id no_contests

  no_subaccounts : (r : Subaccount) → (cascade db no_rows).subaccounts r ≡ false
  unfolding cascade
  no_subaccounts r =
      is_doomed_none candidate_key (cascade db no_rows).candidates db.candidates r.candidate_id
        no_candidates

  free_transactions :
      any
        (λ r.
          is_doomed candidate_key (cascade db no_rows).candidates db.candidates r.candidate_id
          || is_doomed vote_package_key
              (cascade db no_rows).vote_packages
              db.vote_packages
              r.vote_package_id
          || is_doomed contest_key (cascade db no_rows).contests db.contests r.contest_id)
        db.transactions
      ≡ false
  unfolding cascade
  free_transactions =
      any_none
        (λ r.
          is_doomed candidate_key (cascade db no_rows).candidates db.candidates r.candidate_id
          || is_doomed vote_package_key (cascade db no_rows).vote_packages db.vote_packages
              r.vote_package_id
          || is_doomed contest_key (cascade db no_rows).contests db.contests r.contest_id)
        db.transactions
        (λ r. ground (
          arith,
          is_doomed_none candidate_key (cascade db no_rows).candidates db.candidates r.candidate_id
              no_candidates,
          is_doomed_none vote_package_key (cascade db no_rows).vote_packages db.vote_packages
              r.vote_package_id no_vote_packages,
          is_doomed_none contest_key (cascade db no_rows).contests db.contests r.contest_id
              no_contests,
        ))

  free_votes :
      any
        (λ r.
          is_doomed transaction_key
            (cascade db no_rows).transactions
            db.transactions
            r.transaction_id
          || is_doomed candidate_key (cascade db no_rows).candidates db.candidates r.candidate_id)
        db.votes
      ≡ false
  unfolding cascade
  free_votes =
      any_none
        (λ r.
          is_doomed transaction_key (cascade db no_rows).transactions db.transactions
            r.transaction_id
          || is_doomed candidate_key (cascade db no_rows).candidates db.candidates r.candidate_id)
        db.votes
        (λ r. ground (
          arith,
          is_doomed_none transaction_key (cascade db no_rows).transactions db.transactions
              r.transaction_id (λ s. refl),
          is_doomed_none candidate_key (cascade db no_rows).candidates db.candidates r.candidate_id
              no_candidates,
        ))

  free_settlements :
      any
        (λ r. is_doomed candidate_key (cascade db no_rows).candidates db.candidates r.candidate_id)
        db.settlements
      ≡ false
  unfolding cascade
  free_settlements =
      any_none
        (λ r. is_doomed candidate_key (cascade db no_rows).candidates db.candidates r.candidate_id)
        db.settlements
        (λ r. ground (
          arith,
          is_doomed_none candidate_key (cascade db no_rows).candidates db.candidates r.candidate_id
              no_candidates,
        ))

  not_restricted : is_restricted db (cascade db no_rows) ≡ false
  unfolding is_restricted
  not_restricted = ground (arith, free_transactions, free_votes, free_settlements)

  kept_organizations :
      map
        (unlink_organization db (cascade db no_rows))
        (remove (cascade db no_rows).organizations db.organizations)
      ≡ db.organizations
  unfolding cascade
  kept_organizations =
      ap (map (unlink_organization db (cascade db no_rows)))
        (remove_nothing (cascade db no_rows).organizations db.organizations (λ s. refl))
      ∙ map_same (unlink_organization db (cascade db no_rows)) db.organizations (λ r.
        ap (λ o. record r { created_by_user_id = o })
          (set_null_none user_key (cascade db no_rows).users db.users r.created_by_user_id
            (λ s. refl)))

  kept_users :
      map (unlink_user db (cascade db no_rows)) (remove (cascade db no_rows).users db.users)
      ≡ db.users
  unfolding cascade
  kept_users =
      ap (map (unlink_user db (cascade db no_rows)))
        (remove_nothing (cascade db no_rows).users db.users (λ s. refl))
      ∙ map_same (unlink_user db (cascade db no_rows)) db.users (λ r.
        ap (λ o. record r { organization_id = o })
          (set_null_none organization_key (cascade db no_rows).organizations db.organizations
            r.organization_id (λ s. refl)))

  kept_contests : remove (cascade db no_rows).contests db.contests ≡ db.contests
  unfolding cascade
  kept_contests = remove_nothing (cascade db no_rows).contests db.contests no_contests

  kept_categories : remove (cascade db no_rows).categories db.categories ≡ db.categories
  unfolding cascade
  kept_categories = remove_nothing (cascade db no_rows).categories db.categories no_categories

  kept_candidates :
      map
        (unlink_candidate db (cascade db no_rows))
        (remove (cascade db no_rows).candidates db.candidates)
      ≡ db.candidates
  unfolding cascade
  kept_candidates =
      ap (map (unlink_candidate db (cascade db no_rows)))
        (remove_nothing (cascade db no_rows).candidates db.candidates no_candidates)
      ∙ map_same (unlink_candidate db (cascade db no_rows)) db.candidates (λ r.
        ap (λ o. record r { user_id = o })
          (set_null_none user_key (cascade db no_rows).users db.users r.user_id (λ s. refl)))

  kept_vote_packages : remove (cascade db no_rows).vote_packages db.vote_packages ≡ db.vote_packages
  unfolding cascade
  kept_vote_packages =
      remove_nothing (cascade db no_rows).vote_packages db.vote_packages no_vote_packages

  kept_subaccounts : remove (cascade db no_rows).subaccounts db.subaccounts ≡ db.subaccounts
  unfolding cascade
  kept_subaccounts = remove_nothing (cascade db no_rows).subaccounts db.subaccounts no_subaccounts

  kept_transactions : remove (cascade db no_rows).transactions db.transactions ≡ db.transactions
  unfolding cascade
  kept_transactions = remove_nothing (cascade db no_rows).transactions db.transactions (λ s. refl)

  kept_settlements :
      map
        (unlink_settlement db (cascade db no_rows))
        (remove (cascade db no_rows).settlements db.settlements)
      ≡ db.settlements
  unfolding cascade
  kept_settlements =
      ap (map (unlink_settlement db (cascade db no_rows)))
        (remove_nothing (cascade db no_rows).settlements db.settlements (λ s. refl))
      ∙ map_same (unlink_settlement db (cascade db no_rows)) db.settlements (λ r.
        ap (λ o. record r { actioned_by_user_id = o })
          (set_null_none user_key (cascade db no_rows).users db.users r.actioned_by_user_id
            (λ s. refl)))

  pub delete_nothing : delete_rows no_rows db ≡ ok db
  unfolding delete_rows erase
  delete_nothing = ground (
    arith, not_restricted, kept_organizations, kept_users, kept_contests, kept_categories,
    kept_candidates, kept_vote_packages, kept_subaccounts, kept_transactions, kept_settlements,
  )
