-- ===== src/Schema/Statements/Deletes.antt =====
-- Referential integrity under DELETE: CASCADE, RESTRICT and SET NULL together (the ON DELETE actions
-- of api/v1/models).
use balotly_backend.Base.{
  ℕ, Option, none, some, Bool, true, false, ◌||◌, ◌≡◌, refl, List, ◌∙◌, arith, Bool-cases, inl, inr,
}
use balotly_backend.Schema.Table.{
  has, has_null, all, remove, is_doomed, has-remove, has-map, all-map, all-remove, all-remove_impl,
  all_unless,
}
use balotly_backend.Schema.Constraints.{
  organization_refs, user_refs, contest_refs, category_refs, candidate_refs, vote_package_refs,
  subaccount_refs, transaction_refs, vote_refs, settlement_refs,
}
use balotly_backend.Schema.Database.{
  Database, ok, organization_key, user_key, contest_key, category_key, candidate_key,
  vote_package_key, transaction_key,
}
use balotly_backend.Schema.References.{IsReferential}
use balotly_backend.Schema.Statements.{
  Doomed, cascade, is_restricted, set_null, unlink_organization, unlink_user, unlink_candidate,
  unlink_settlement, erase, delete_rows,
}

-- What stays referred to, once the doomed rows are gone.
abbrev Stays : {R : Type 0} → (R → ℕ) → (R → Bool) → List R → List R → Type 0
Stays key doomed rows left =
    (k : ℕ) → has key rows k ≡ true → is_doomed key doomed rows k ≡ false → has key left k ≡ true

has_null-set_null :
    {R : Type 0} (key : R → ℕ) (doomed : R → Bool) (rows left : List R) (o : Option ℕ)
    → Stays key doomed rows left
    → has_null key rows o ≡ true
    → has_null key left (set_null key doomed rows o) ≡ true
has_null-set_null key doomed rows left none stays h = refl
has_null-set_null key doomed rows left (some k) stays h = ground (arith, stays k)

module _ (db : Database) (d : Doomed) where
  organizations_stay :
      Stays organization_key d.organizations db.organizations (erase db d).organizations
  unfolding erase
  organizations_stay k h safe =
      has-map organization_key (unlink_organization db d) (remove d.organizations db.organizations)
        k (λ r. refl)
      ∙ has-remove organization_key d.organizations db.organizations k h safe

  users_stay : Stays user_key d.users db.users (erase db d).users
  unfolding erase
  users_stay k h safe =
      has-map user_key (unlink_user db d) (remove d.users db.users) k (λ r. refl)
      ∙ has-remove user_key d.users db.users k h safe

  contests_stay : Stays contest_key d.contests db.contests (erase db d).contests
  unfolding erase
  contests_stay k h safe = has-remove contest_key d.contests db.contests k h safe

  categories_stay : Stays category_key d.categories db.categories (erase db d).categories
  unfolding erase
  categories_stay k h safe = has-remove category_key d.categories db.categories k h safe

  candidates_stay : Stays candidate_key d.candidates db.candidates (erase db d).candidates
  unfolding erase
  candidates_stay k h safe =
      has-map candidate_key (unlink_candidate db d) (remove d.candidates db.candidates) k
        (λ r. refl)
      ∙ has-remove candidate_key d.candidates db.candidates k h safe

  vote_packages_stay :
      Stays vote_package_key d.vote_packages db.vote_packages (erase db d).vote_packages
  unfolding erase
  vote_packages_stay k h safe =
      has-remove vote_package_key d.vote_packages db.vote_packages k h safe

  transactions_stay : Stays transaction_key d.transactions db.transactions (erase db d).transactions
  unfolding erase
  transactions_stay k h safe = has-remove transaction_key d.transactions db.transactions k h safe

-- The rows that are left, once the cascades have been closed and nothing is restricted.
module _ (db : Database) (named : Doomed) (v : IsReferential db) where
  abbrev closed : Doomed
  closed = cascade db named

  abbrev left : Database
  left = erase db closed

  organizations_left : all (organization_refs left) left.organizations ≡ true
  unfolding erase
  organizations_left =
      all-map (organization_refs left) (unlink_organization db closed)
        (remove closed.organizations db.organizations)
      ∙ all-remove_impl (organization_refs db)
          (λ r. organization_refs left (unlink_organization db closed r)) closed.organizations
          db.organizations
          (λ r safe h. ground (
            arith,
            has_null-set_null user_key closed.users db.users left.users r.created_by_user_id
                (users_stay db closed),
          ))
          v.organizations

  users_left : all (user_refs left) left.users ≡ true
  unfolding erase
  users_left =
      all-map (user_refs left) (unlink_user db closed) (remove closed.users db.users)
      ∙ all-remove_impl (user_refs db) (λ r. user_refs left (unlink_user db closed r)) closed.users
          db.users
          (λ r safe h. ground (
            arith,
            has_null-set_null organization_key closed.organizations db.organizations
                left.organizations r.organization_id (organizations_stay db closed),
          ))
          v.users

  contests_left : all (contest_refs left) left.contests ≡ true
  unfolding erase cascade
  contests_left =
      all-remove_impl (contest_refs db) (contest_refs left) closed.contests db.contests
        (λ r safe h. ground (arith, organizations_stay db closed r.organization_id)) v.contests

  categories_left : all (category_refs left) left.categories ≡ true
  unfolding erase cascade
  categories_left =
      all-remove_impl (category_refs db) (category_refs left) closed.categories db.categories
        (λ r safe h. ground (arith, contests_stay db closed r.contest_id)) v.categories

  candidates_left : all (candidate_refs left) left.candidates ≡ true
  unfolding erase cascade
  candidates_left =
      all-map (candidate_refs left) (unlink_candidate db closed)
        (remove closed.candidates db.candidates)
      ∙ all-remove_impl (candidate_refs db)
          (λ r. candidate_refs left (unlink_candidate db closed r)) closed.candidates db.candidates
          (λ r safe h. ground (
            arith,
            categories_stay db closed r.category_id,
            has_null-set_null user_key closed.users db.users left.users r.user_id
                (users_stay db closed),
          ))
          v.candidates

  vote_packages_left : all (vote_package_refs left) left.vote_packages ≡ true
  unfolding erase cascade
  vote_packages_left =
      all-remove_impl (vote_package_refs db) (vote_package_refs left) closed.vote_packages
        db.vote_packages (λ r safe h. ground (arith, contests_stay db closed r.contest_id))
        v.vote_packages

  subaccounts_left : all (subaccount_refs left) left.subaccounts ≡ true
  unfolding erase cascade
  subaccounts_left =
      all-remove_impl (subaccount_refs db) (subaccount_refs left) closed.subaccounts db.subaccounts
        (λ r safe h. ground (arith, candidates_stay db closed r.candidate_id)) v.subaccounts

  transactions_left :
      is_restricted db closed ≡ false → all (transaction_refs left) left.transactions ≡ true
  unfolding erase is_restricted
  transactions_left free = all-remove (transaction_refs left) closed.transactions db.transactions (
      all_unless (transaction_refs db) (transaction_refs left)
        (λ t.
          is_doomed candidate_key closed.candidates db.candidates t.candidate_id
          || is_doomed vote_package_key closed.vote_packages db.vote_packages t.vote_package_id
          || is_doomed contest_key closed.contests db.contests t.contest_id)
        db.transactions (ground arith)
        (λ r safe h. ground (
          arith,
          candidates_stay db closed r.candidate_id,
          vote_packages_stay db closed r.vote_package_id,
          contests_stay db closed r.contest_id,
        ))
        v.transactions)

  votes_left : is_restricted db closed ≡ false → all (vote_refs left) left.votes ≡ true
  unfolding erase is_restricted
  votes_left free =
      all_unless (vote_refs db) (vote_refs left)
        (λ v.
          is_doomed transaction_key closed.transactions db.transactions v.transaction_id
          || is_doomed candidate_key closed.candidates db.candidates v.candidate_id)
        db.votes (ground arith)
        (λ r safe h. ground (
          arith,
          transactions_stay db closed r.transaction_id,
          candidates_stay db closed r.candidate_id,
        ))
        v.votes

  settlements_left :
      is_restricted db closed ≡ false → all (settlement_refs left) left.settlements ≡ true
  unfolding erase is_restricted
  settlements_left free =
      all-map (settlement_refs left) (unlink_settlement db closed)
        (remove closed.settlements db.settlements)
      ∙ all-remove (λ r. settlement_refs left (unlink_settlement db closed r)) closed.settlements
          db.settlements
          (all_unless (settlement_refs db)
            (λ r. settlement_refs left (unlink_settlement db closed r))
            (λ s. is_doomed candidate_key closed.candidates db.candidates s.candidate_id)
            db.settlements (ground arith)
            (λ r safe h. ground (
              arith,
              candidates_stay db closed r.candidate_id,
              has_null-set_null user_key closed.users db.users left.users r.actioned_by_user_id
                  (users_stay db closed),
            ))
            v.settlements)

  -- A DELETE that succeeds leaves no foreign key that names a missing row.
  pub delete_rows-IsReferential :
      {next : Database} → delete_rows named db ≡ ok next → IsReferential next
  unfolding delete_rows
  delete_rows-IsReferential {next} e = elim (Bool-cases (is_restricted db closed)) [
    | inl held ↦ absurd (ground arith)
    | inr free ↦
        let same : next ≡ left = ground arith in
        rw same (record {
          organizations = organizations_left;
          users = users_left;
          contests = contests_left;
          categories = categories_left;
          candidates = candidates_left;
          vote_packages = vote_packages_left;
          subaccounts = subaccounts_left;
          transactions = transactions_left free;
          votes = votes_left free;
          settlements = settlements_left free;
        })
  ]
