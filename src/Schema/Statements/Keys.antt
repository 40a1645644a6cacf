-- ===== src/Schema/Statements/Keys.antt =====
-- Primary keys in every state that statements can lead to (api/v1/models, alembic/versions).
use balotly_backend.Base.{ℕ, some, get_elem?, true, ◌≡◌, refl, List, arith, string_eq, subst}
use balotly_backend.Schema.Rows.{Transaction}
use balotly_backend.Schema.Table.{remove}
use balotly_backend.Schema.Table.Keys.{
  distinct_keys, distinct_keys-append, distinct_keys-replace, distinct_keys-remove,
  distinct_keys-map, distinct_keys-get_elem?,
}
use balotly_backend.Schema.Database.{
  Database, ok, organization_key, user_key, contest_key, category_key, candidate_key,
  vote_package_key, subaccount_key, transaction_key, vote_key, settlement_key,
}
use balotly_backend.Schema.Statements.{
  Doomed, Statement, run, cascade, erase, unlink_organization, unlink_user, unlink_candidate,
  unlink_settlement, delete_rows,
}
use balotly_backend.Schema.Statements.Invariants.{IsKept, run-kept}
use balotly_backend.Schema.Statements.Soundness.{IsSound, run-IsSound}
use balotly_backend.Schema.Statements.Payments.{reference_once}

-- No two rows of one table have the same primary key.
pub record IsKeyed (db : Database) : Type 0 where
  pub organizations : distinct_keys organization_key db.organizations ≡ true
  pub users : distinct_keys user_key db.users ≡ true
  pub contests : distinct_keys contest_key db.contests ≡ true
  pub categories : distinct_keys category_key db.categories ≡ true
  pub candidates : distinct_keys candidate_key db.candidates ≡ true
  pub vote_packages : distinct_keys vote_package_key db.vote_packages ≡ true
  pub subaccounts : distinct_keys subaccount_key db.subaccounts ≡ true
  pub transactions : distinct_keys transaction_key db.transactions ≡ true
  pub votes : distinct_keys vote_key db.votes ≡ true
  pub settlements : distinct_keys settlement_key db.settlements ≡ true

erase-IsKeyed : (db : Database) (d : Doomed) → IsKeyed db → IsKeyed (erase db d)
unfolding erase
erase-IsKeyed db d v = record {
  organizations =
      distinct_keys-map organization_key (unlink_organization db d) (λ r. refl)
        (remove d.organizations db.organizations)
        (distinct_keys-remove organization_key d.organizations db.organizations v.organizations);
  users =
      distinct_keys-map user_key (unlink_user db d) (λ r. refl) (remove d.users db.users)
        (distinct_keys-remove user_key d.users db.users v.users);
  contests = distinct_keys-remove contest_key d.contests db.contests v.contests;
  categories = distinct_keys-remove category_key d.categories db.categories v.categories;
  candidates =
      distinct_keys-map candidate_key (unlink_candidate db d) (λ r. refl)
        (remove d.candidates db.candidates)
        (distinct_keys-remove candidate_key d.candidates db.candidates v.candidates);
  vote_packages =
      distinct_keys-remove vote_package_key d.vote_packages db.vote_packages v.vote_packages;
  subaccounts = distinct_keys-remove subaccount_key d.subaccounts db.subaccounts v.subaccounts;
  transactions = distinct_keys-remove transaction_key d.transactions db.transactions v.transactions;
  votes = v.votes;
  settlements =
      distinct_keys-map settlement_key (unlink_settlement db d) (λ r. refl)
        (remove d.settlements db.settlements)
        (distinct_keys-remove settlement_key d.settlements db.settlements v.settlements);
}

delete_rows-IsKeyed :
    (db : Database) (named : Doomed) {next : Database}
    → IsKeyed db
    → delete_rows named db ≡ ok next
    → IsKeyed next
unfolding delete_rows
delete_rows-IsKeyed db named v e =
    subst IsKeyed (ground arith) (erase-IsKeyed db (cascade db named) v)

keys_kept : IsKept IsKeyed
keys_kept = record {
  add_organization = λ db v r free h.
      ground (arith, distinct_keys-append organization_key db.organizations r free v.organizations);
  add_user = λ db v r free h. ground (arith, distinct_keys-append user_key db.users r free v.users);
  add_contest = λ db v r free h.
      ground (arith, distinct_keys-append contest_key db.contests r free v.contests);
  add_category = λ db v r free h.
      ground (arith, distinct_keys-append category_key db.categories r free v.categories);
  add_candidate = λ db v r free h.
      ground (arith, distinct_keys-append candidate_key db.candidates r free v.candidates);
  add_vote_package = λ db v r free h.
      ground (arith, distinct_keys-append vote_package_key db.vote_packages r free v.vote_packages);
  add_subaccount = λ db v r free h.
      ground (arith, distinct_keys-append subaccount_key db.subaccounts r free v.subaccounts);
  add_transaction = λ db v r free h.
      ground (arith, distinct_keys-append transaction_key db.transactions r free v.transactions);
  add_vote = λ db v r free h. ground (arith, distinct_keys-append vote_key db.votes r free v.votes);
  add_settlement = λ db v r free h.
      ground (arith, distinct_keys-append settlement_key db.settlements r free v.settlements);
  change_organization = λ db v r h.
      ground (arith, distinct_keys-replace organization_key db.organizations r v.organizations);
  change_user = λ db v r h. ground (arith, distinct_keys-replace user_key db.users r v.users);
  change_contest =
      λ db v r h. ground (arith, distinct_keys-replace contest_key db.contests r v.contests);
  change_category =
      λ db v r h. ground (arith, distinct_keys-replace category_key db.categories r v.categories);
  change_candidate =
      λ db v r h. ground (arith, distinct_keys-replace candidate_key db.candidates r v.candidates);
  change_vote_package = λ db v r h.
      ground (arith, distinct_keys-replace vote_package_key db.vote_packages r v.vote_packages);
  change_subaccount = λ db v r h.
      ground (arith, distinct_keys-replace subaccount_key db.subaccounts r v.subaccounts);
  change_transaction = λ db v r h.
      ground (arith, distinct_keys-replace transaction_key db.transactions r v.transactions);
  change_settlement = λ db v r h.
      ground (arith, distinct_keys-replace settlement_key db.settlements r v.settlements);
  erase_rows = delete_rows-IsKeyed;
}

-- Every row meets its CHECK constraints, no two rows of one table have the same primary key, and no two
-- rows with different ones stand against a unique index.
pub record IsValid (db : Database) : Type 0 where
  pub sound : IsSound db
  pub keyed : IsKeyed db

-- No sequence of statements leaves a row that breaks a CHECK constraint, two rows of one table with the
-- same primary key, or two rows that break a unique index, if there were none before.
pub run-IsValid : (sts : List Statement) (db : Database) → IsValid db → IsValid (run sts db)
run-IsValid sts db v = record {
  sound = run-IsSound sts db v.sound;
  keyed = run-kept keys_kept sts db v.keyed;
}

-- After any statements on a database without a broken constraint, no two rows of `transactions` have
-- one Paystack reference: two places with the same reference are the same place.
pub reference_place :
    (sts : List Statement) (db : Database) (i j : ℕ) {a b : Transaction}
    → IsValid db
    → get_elem? (run sts db).transactions i ≡ some a
    → get_elem? (run sts db).transactions j ≡ some b
    → a.paystack_reference ≡ b.paystack_reference
    → i ≡ j
reference_place sts db i j {a} {b} v first second e =
    distinct_keys-get_elem? transaction_key (run sts db).transactions i j a b
      (run-IsValid sts db v).keyed.transactions first second
      (reference_once sts db i j v.sound first second e)
