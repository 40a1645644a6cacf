-- ===== src/Migration/Simulation/Cascades/Closure.antt =====
-- The tables that ON DELETE CASCADE reaches (alembic/versions), each after the table that it refers to.
use balotly_backend.Base.{
  ℕ, zero, suc, Bool, true, ◌||◌, ◌≡◌, refl, ◌∙◌, String, List, map, arith, string_eq,
}
use balotly_backend.Schema.Rows.{Contest, Category, Candidate, VotePackage, Subaccount}
use balotly_backend.Schema.Table.{is_doomed}
use balotly_backend.Schema.Database.{
  Database, organization_key, contest_key, category_key, candidate_key,
}
use balotly_backend.Schema.Statements.{cascade}
use balotly_backend.Migration.Conditions.{Row, key}
use balotly_backend.Migration.Cells.{
  organization_cells, contest_cells, category_cells, candidate_cells, vote_package_cells,
  subaccount_cells, tables_of,
}
use balotly_backend.Migration.Execution.{refers, rows_where}
use balotly_backend.Migration.Refinement.Targets.{
  organization_id, contest_id, category_id, candidate_id,
}
use balotly_backend.Migration.Simulation.Referrers.{
  refers_sound, refers_complete, contest_keys, category_keys, candidate_keys, vote_package_keys,
  subaccount_keys,
}
use balotly_backend.Migration.Simulation.Cascades.{
  chosen, closed, named_chosen, chosen_step, organization_chosen,
}

module _ (db : Database) (t : String) (p : Row → Bool) where
  -- A child table, whose rows refer to those of a parent by a cascading foreign key.
  module _ {P R : Type 0} (parent child : String) (cells_of_parent : P → Row) (key_of : P → ℕ)
      (keyed : (s : P) → cells_of_parent s "id" ≡ key (key_of s)) (rows : List P)
      (goes_of_parent : P → Bool) (cells : R → Row) (target : R → ℕ) (goes : R → Bool)
      (step : (n : ℕ) (r : R)
        → chosen db t p (suc n) child (cells r) ≡ (
            chosen db t p n child (cells r)
            || refers (chosen db t p n parent) (map cells_of_parent rows) (key (target r))))
      (closing : (r : R)
        → goes r ≡ (
            rows_where t p child (cells r)
            || is_doomed key_of goes_of_parent rows (target r))) where
    chosen_sound :
        ((n : ℕ) (s : P)
          → chosen db t p n parent (cells_of_parent s) ≡ true
          → goes_of_parent s ≡ true)
        → (n : ℕ) (r : R) → chosen db t p n child (cells r) ≡ true
        → goes r ≡ true
    chosen_sound above zero r h = ground (arith, h, closing r)
    chosen_sound above (suc n) r h = ground (
      arith,
      step n r,
      closing r,
      chosen_sound above n r,
      refers_sound cells_of_parent key_of keyed (chosen db t p n parent) goes_of_parent rows
          (target r) (above n),
    )

    chosen_complete :
        (n : ℕ)
        → ((s : P) → goes_of_parent s ≡ true → chosen db t p n parent (cells_of_parent s) ≡ true)
        → (r : R) → goes r ≡ true
        → chosen db t p (suc n) child (cells r) ≡ true
    chosen_complete n above r h = ground (
      arith,
      step n r,
      closing r,
      named_chosen db t p n child (cells r),
      refers_complete cells_of_parent key_of keyed (chosen db t p n parent) goes_of_parent rows
          (target r) above,
    )

  contest_step :
      (n : ℕ) (r : Contest)
      → chosen db t p (suc n) "contests" (contest_cells r) ≡ (
          chosen db t p n "contests" (contest_cells r)
          || refers
              (chosen db t p n "organizations")
              (map organization_cells db.organizations)
              (key r.organization_id))
  unfolding tables_of contest_cells string_eq
  contest_step n r = chosen_step db t p "contests" contest_keys n (contest_cells r) ∙ ground arith

  contest_sound :
      (n : ℕ) (r : Contest)
      → chosen db t p n "contests" (contest_cells r) ≡ true
      → (closed db t p).contests r ≡ true
  unfolding cascade
  contest_sound =
      chosen_sound "organizations" "contests" organization_cells organization_key organization_id
        db.organizations (closed db t p).organizations contest_cells (λ r. r.organization_id)
        (closed db t p).contests contest_step (λ r. refl)
        (λ n s h. ground (arith, h, organization_chosen db t p n s))

  contest_complete :
      (n : ℕ) (r : Contest)
      → (closed db t p).contests r ≡ true
      → chosen db t p (suc n) "contests" (contest_cells r) ≡ true
  unfolding cascade
  contest_complete n =
      chosen_complete "organizations" "contests" organization_cells organization_key organization_id
        db.organizations (closed db t p).organizations contest_cells (λ r. r.organization_id)
        (closed db t p).contests contest_step (λ r. refl) n
        (λ s h. ground (arith, h, organization_chosen db t p n s))

  pub contest_chosen :
      (n : ℕ) (r : Contest)
      → chosen db t p (suc n) "contests" (contest_cells r) ≡ (closed db t p).contests r
  contest_chosen n r = ground (arith, contest_sound (suc n) r, contest_complete n r)

  category_step :
      (n : ℕ) (r : Category)
      → chosen db t p (suc n) "categories" (category_cells r) ≡ (
          chosen db t p n "categories" (category_cells r)
          || refers (chosen db t p n "contests") (map contest_cells db.contests) (key r.contest_id))
  unfolding tables_of category_cells string_eq
  category_step n r =
      chosen_step db t p "categories" category_keys n (category_cells r) ∙ ground arith

  category_sound :
      (n : ℕ) (r : Category)
      → chosen db t p n "categories" (category_cells r) ≡ true
      → (closed db t p).categories r ≡ true
  unfolding cascade
  category_sound =
      chosen_sound "contests" "categories" contest_cells contest_key contest_id db.contests
        (closed db t p).contests category_cells (λ r. r.contest_id) (closed db t p).categories
        category_step (λ r. refl) contest_sound

  category_complete :
      (n : ℕ) (r : Category)
      → (closed db t p).categories r ≡ true
      → chosen db t p (suc (suc n)) "categories" (category_cells r) ≡ true
  unfolding cascade
  category_complete n =
      chosen_complete "contests" "categories" contest_cells contest_key contest_id db.contests
        (closed db t p).contests category_cells (λ r. r.contest_id) (closed db t p).categories
        category_step (λ r. refl) (suc n) (contest_complete n)

  pub category_chosen :
      (n : ℕ) (r : Category)
      → chosen db t p (suc (suc n)) "categories" (category_cells r) ≡ (closed db t p).categories r
  category_chosen n r = ground (arith, category_sound (suc (suc n)) r, category_complete n r)

  candidate_step :
      (n : ℕ) (r : Candidate)
      → chosen db t p (suc n) "candidates" (candidate_cells r) ≡ (
          chosen db t p n "candidates" (candidate_cells r)
          || refers
              (chosen db t p n "categories")
              (map category_cells db.categories)
              (key r.category_id))
  unfolding tables_of candidate_cells string_eq
  candidate_step n r =
      chosen_step db t p "candidates" candidate_keys n (candidate_cells r) ∙ ground arith

  candidate_sound :
      (n : ℕ) (r : Candidate)
      → chosen db t p n "candidates" (candidate_cells r) ≡ true
      → (closed db t p).candidates r ≡ true
  unfolding cascade
  candidate_sound =
      chosen_sound "categories" "candidates" category_cells category_key category_id db.categories
        (closed db t p).categories candidate_cells (λ r. r.category_id) (closed db t p).candidates
        candidate_step (λ r. refl) category_sound

  candidate_complete :
      (n : ℕ) (r : Candidate)
      → (closed db t p).candidates r ≡ true
      → chosen db t p (suc (suc (suc n))) "candidates" (candidate_cells r) ≡ true
  unfolding cascade
  candidate_complete n =
      chosen_complete "categories" "candidates" category_cells category_key category_id
        db.categories (closed db t p).categories candidate_cells (λ r. r.category_id)
        (closed db t p).candidates candidate_step (λ r. refl) (suc (suc n)) (category_complete n)

  pub candidate_chosen :
      (n : ℕ) (r : Candidate)
      → chosen db t p (suc (suc (suc n))) "candidates" (candidate_cells r)
        ≡ (closed db t p).candidates r
  candidate_chosen n r =
      ground (arith, candidate_sound (suc (suc (suc n))) r, candidate_complete n r)

  vote_package_step :
      (n : ℕ) (r : VotePackage)
      → chosen db t p (suc n) "vote_packages" (vote_package_cells r) ≡ (
          chosen db t p n "vote_packages" (vote_package_cells r)
          || refers (chosen db t p n "contests") (map contest_cells db.contests) (key r.contest_id))
  unfolding tables_of vote_package_cells string_eq
  vote_package_step n r =
      chosen_step db t p "vote_packages" vote_package_keys n (vote_package_cells r) ∙ ground arith

  vote_package_sound :
      (n : ℕ) (r : VotePackage)
      → chosen db t p n "vote_packages" (vote_package_cells r) ≡ true
      → (closed db t p).vote_packages r ≡ true
  unfolding cascade
  vote_package_sound =
      chosen_sound "contests" "vote_packages" contest_cells contest_key contest_id db.contests
        (closed db t p).contests vote_package_cells (λ r. r.contest_id)
        (closed db t p).vote_packages vote_package_step (λ r. refl) contest_sound

  vote_package_complete :
      (n : ℕ) (r : VotePackage)
      → (closed db t p).vote_packages r ≡ true
      → chosen db t p (suc (suc n)) "vote_packages" (vote_package_cells r) ≡ true
  unfolding cascade
  vote_package_complete n =
      chosen_complete "contests" "vote_packages" contest_cells contest_key contest_id db.contests
        (closed db t p).contests vote_package_cells (λ r. r.contest_id)
        (closed db t p).vote_packages vote_package_step (λ r. refl) (suc n) (contest_complete n)

  pub vote_package_chosen :
      (n : ℕ) (r : VotePackage)
      → chosen db t p (suc (suc n)) "vote_packages" (vote_package_cells r)
        ≡ (closed db t p).vote_packages r
  vote_package_chosen n r =
      ground (arith, vote_package_sound (suc (suc n)) r, vote_package_complete n r)

  subaccount_step :
      (n : ℕ) (r : Subaccount)
      → chosen db t p (suc n) "subaccounts" (subaccount_cells r) ≡ (
          chosen db t p n "subaccounts" (subaccount_cells r)
          || refers
              (chosen db t p n "candidates")
              (map candidate_cells db.candidates)
              (key r.candidate_id))
  unfolding tables_of subaccount_cells string_eq
  subaccount_step n r =
      chosen_step db t p "subaccounts" subaccount_keys n (subaccount_cells r) ∙ ground arith

  subaccount_sound :
      (n : ℕ) (r : Subaccount)
      → chosen db t p n "subaccounts" (subaccount_cells r) ≡ true
      → (closed db t p).subaccounts r ≡ true
  unfolding cascade
  subaccount_sound =
      chosen_sound "candidates" "subaccounts" candidate_cells candidate_key candidate_id
        db.candidates (closed db t p).candidates subaccount_cells (λ r. r.candidate_id)
        (closed db t p).subaccounts subaccount_step (λ r. refl) candidate_sound

  subaccount_complete :
      (n : ℕ) (r : Subaccount)
      → (closed db t p).subaccounts r ≡ true
      → chosen db t p (suc (suc (suc (suc n)))) "subaccounts" (subaccount_cells r) ≡ true
  unfolding cascade
  subaccount_complete n =
      chosen_complete "candidates" "subaccounts" candidate_cells candidate_key candidate_id
        db.candidates (closed db t p).candidates subaccount_cells (λ r. r.candidate_id)
        (closed db t p).subaccounts subaccount_step (λ r. refl) (suc (suc (suc n)))
        (candidate_complete n)

  pub subaccount_chosen :
      (n : ℕ) (r : Subaccount)
      → chosen db t p (suc (suc (suc (suc n)))) "subaccounts" (subaccount_cells r)
        ≡ (closed db t p).subaccounts r
  subaccount_chosen n r =
      ground (arith, subaccount_sound (suc (suc (suc (suc n)))) r, subaccount_complete n r)
