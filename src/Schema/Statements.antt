-- ===== src/Schema/Statements.antt =====
-- The statements that PostgreSQL runs on the ten tables: INSERT and UPDATE under the constraints,
-- DELETE with the foreign keys' ON DELETE actions, and the triggers of `votes`
-- (alembic/versions/07f7b6151968_initial_schema.py).
pub mod Outcomes
pub mod Deletes
pub mod Invariants
pub mod Integrity
pub mod Soundness
pub mod Keys
pub mod Payments
pub mod Ledger
use balotly_backend.Base.{
  ℕ, Option, none, some, Bool, true, false, not, ◌&&◌, ◌||◌, List, [], ◌∷◌, ◌++◌, eqb,
  if◌then◌else◌, map,
}
use balotly_backend.Schema.Rows.{
  Organization, User, Contest, Category, Candidate, VotePackage, Subaccount, Transaction, Vote,
  Settlement,
}
use balotly_backend.Schema.Table.{has, any, remove, replace, is_doomed}
use balotly_backend.Schema.Constraints.{
  validate_organization, validate_user, validate_contest, validate_category, validate_candidate,
  validate_vote_package, validate_subaccount, validate_transaction, validate_vote,
  validate_settlement,
}
use balotly_backend.Schema.Database.{
  Database, Error, out_of_range, check_violation, unique_violation, restrict_violation, Result, ok,
  err, ◌>>=◌, ◌>>◌, require, organization_key, user_key, contest_key, category_key, candidate_key,
  vote_package_key, subaccount_key, transaction_key, vote_key, settlement_key,
}

-- The primary key is tested after the column types and the CHECK constraints.
abbrev pub refuse_duplicate : Bool → Result (Unit {0}) → Result (Unit {0})
refuse_duplicate false verdict = ok tt
refuse_duplicate true (err out_of_range) = err out_of_range
refuse_duplicate true (err check_violation) = err check_violation
refuse_duplicate true verdict = err unique_violation

module _ {R : Type 0} (key : R → ℕ) where
  -- INSERT of a row that passes the tests of its table.
  unfoldable pub insert_row : Result (Unit {0}) → List R → R → Result (List R)
  insert_row verdict rows r = do
    refuse_duplicate (has key rows (key r)) verdict
    verdict
    ok (rows ++ r ∷ [])

  -- UPDATE of the row with the same key; where there is none, no row is written.
  unfoldable pub update_row : Result (Unit {0}) → List R → R → Result (List R)
  update_row verdict rows r =
      if has key rows (key r) then verdict >> ok (replace key r rows) else ok rows

-- The rows that a DELETE names, and then those that its cascades take along, table by table.
pub record Doomed : Type 0 where
  pub organizations : Organization → Bool
  pub users : User → Bool
  pub contests : Contest → Bool
  pub categories : Category → Bool
  pub candidates : Candidate → Bool
  pub vote_packages : VotePackage → Bool
  pub subaccounts : Subaccount → Bool
  pub transactions : Transaction → Bool
  pub settlements : Settlement → Bool

abbrev pub no_rows : Doomed
no_rows = record {
  organizations = λ r. false;
  users = λ r. false;
  contests = λ r. false;
  categories = λ r. false;
  candidates = λ r. false;
  vote_packages = λ r. false;
  subaccounts = λ r. false;
  transactions = λ r. false;
  settlements = λ r. false;
}

-- ON DELETE CASCADE.
unfoldable pub cascade : Database → Doomed → Doomed
cascade db d =
    let contests : Contest → Bool = λ r.
      d.contests r
      || is_doomed organization_key d.organizations db.organizations r.organization_id in
    let categories : Category → Bool =
      λ r. d.categories r || is_doomed contest_key contests db.contests r.contest_id in
    let candidates : Candidate → Bool =
      λ r. d.candidates r || is_doomed category_key categories db.categories r.category_id in
    record d {
      contests = contests;
      categories = categories;
      candidates = candidates;
      vote_packages =
          λ r. d.vote_packages r || is_doomed contest_key contests db.contests r.contest_id;
      subaccounts =
          λ r. d.subaccounts r || is_doomed candidate_key candidates db.candidates r.candidate_id;
    }

-- ON DELETE RESTRICT: a row that is to go is still referred to.
unfoldable pub is_restricted : Database → Doomed → Bool
is_restricted db d =
    any
      (λ t.
        is_doomed candidate_key d.candidates db.candidates t.candidate_id
        || is_doomed vote_package_key d.vote_packages db.vote_packages t.vote_package_id
        || is_doomed contest_key d.contests db.contests t.contest_id)
      db.transactions
    || any
        (λ v.
          is_doomed transaction_key d.transactions db.transactions v.transaction_id
          || is_doomed candidate_key d.candidates db.candidates v.candidate_id)
        db.votes
    || any (λ s. is_doomed candidate_key d.candidates db.candidates s.candidate_id) db.settlements

-- ON DELETE SET NULL.
abbrev pub set_null : {R : Type 0} → (R → ℕ) → (R → Bool) → List R → Option ℕ → Option ℕ
set_null key doomed rows none = none
set_null key doomed rows (some k) = if is_doomed key doomed rows k then none else some k

abbrev pub unlink_organization : Database → Doomed → Organization → Organization
unlink_organization db d r = record r {
  created_by_user_id = set_null user_key d.users db.users r.created_by_user_id;
}

abbrev pub unlink_user : Database → Doomed → User → User
unlink_user db d r = record r {
  organization_id = set_null organization_key d.organizations db.organizations r.organization_id;
}

abbrev pub unlink_candidate : Database → Doomed → Candidate → Candidate
unlink_candidate db d r = record r { user_id = set_null user_key d.users db.users r.user_id }

abbrev pub unlink_settlement : Database → Doomed → Settlement → Settlement
unlink_settlement db d r = record r {
  actioned_by_user_id = set_null user_key d.users db.users r.actioned_by_user_id;
}

-- What is left once the doomed rows are gone.
unfoldable pub erase : Database → Doomed → Database
erase db d = record {
  organizations = map (unlink_organization db d) (remove d.organizations db.organizations);
  users = map (unlink_user db d) (remove d.users db.users);
  contests = remove d.contests db.contests;
  categories = remove d.categories db.categories;
  candidates = map (unlink_candidate db d) (remove d.candidates db.candidates);
  vote_packages = remove d.vote_packages db.vote_packages;
  subaccounts = remove d.subaccounts db.subaccounts;
  transactions = remove d.transactions db.transactions;
  votes = db.votes;
  settlements = map (unlink_settlement db d) (remove d.settlements db.settlements);
}

-- DELETE from any table but `votes`.
unfoldable pub delete_rows : Doomed → Database → Result Database
unfolding cascade is_restricted erase
delete_rows named db =
    let d = cascade db named in
    if is_restricted db d then err restrict_violation else ok (erase db d)

-- The trigger votes_append_only refuses an UPDATE or DELETE of any row; a statement that meets no row
-- does not fire it.
unfoldable pub mutate_votes : (Vote → Bool) → Database → Result Database
mutate_votes matches db = if any matches db.votes then err restrict_violation else ok db

-- The trigger votes_no_truncate fires whether there are rows or not.
unfoldable pub truncate_votes : Database → Result Database
truncate_votes db = err restrict_violation

pub data Statement : Type 0 where
  insert_organization : Organization → Statement
  insert_user : User → Statement
  insert_contest : Contest → Statement
  insert_category : Category → Statement
  insert_candidate : Candidate → Statement
  insert_vote_package : VotePackage → Statement
  insert_subaccount : Subaccount → Statement
  insert_transaction : Transaction → Statement
  insert_vote : Vote → Statement
  insert_settlement : Settlement → Statement
  update_organization : Organization → Statement
  update_user : User → Statement
  update_contest : Contest → Statement
  update_category : Category → Statement
  update_candidate : Candidate → Statement
  update_vote_package : VotePackage → Statement
  update_subaccount : Subaccount → Statement
  update_transaction : Transaction → Statement
  update_settlement : Settlement → Statement
  delete : Doomed → Statement
  update_votes delete_votes : (Vote → Bool) → Statement
  truncate : Statement

-- A statement that fails changes nothing.
unfoldable pub execute : Statement → Database → Result Database
unfolding insert_row update_row delete_rows mutate_votes truncate_votes
execute (insert_organization r) db = do
  rows ← insert_row organization_key (validate_organization db r) db.organizations r
  ok (record db { organizations = rows })
execute (insert_user r) db = do
  rows ← insert_row user_key (validate_user db r) db.users r
  ok (record db { users = rows })
execute (insert_contest r) db = do
  rows ← insert_row contest_key (validate_contest db r) db.contests r
  ok (record db { contests = rows })
execute (insert_category r) db = do
  rows ← insert_row category_key (validate_category db r) db.categories r
  ok (record db { categories = rows })
execute (insert_candidate r) db = do
  rows ← insert_row candidate_key (validate_candidate db r) db.candidates r
  ok (record db { candidates = rows })
execute (insert_vote_package r) db = do
  rows ← insert_row vote_package_key (validate_vote_package db r) db.vote_packages r
  ok (record db { vote_packages = rows })
execute (insert_subaccount r) db = do
  rows ← insert_row subaccount_key (validate_subaccount db r) db.subaccounts r
  ok (record db { subaccounts = rows })
execute (insert_transaction r) db = do
  rows ← insert_row transaction_key (validate_transaction db r) db.transactions r
  ok (record db { transactions = rows })
execute (insert_vote r) db = do
  rows ← insert_row vote_key (validate_vote db r) db.votes r
  ok (record db { votes = rows })
execute (insert_settlement r) db = do
  rows ← insert_row settlement_key (validate_settlement db r) db.settlements r
  ok (record db { settlements = rows })
execute (update_organization r) db = do
  rows ← update_row organization_key (validate_organization db r) db.organizations r
  ok (record db { organizations = rows })
execute (update_user r) db = do
  rows ← update_row user_key (validate_user db r) db.users r
  ok (record db { users = rows })
execute (update_contest r) db = do
  rows ← update_row contest_key (validate_contest db r) db.contests r
  ok (record db { contests = rows })
execute (update_category r) db = do
  rows ← update_row category_key (validate_category db r) db.categories r
  ok (record db { categories = rows })
execute (update_candidate r) db = do
  rows ← update_row candidate_key (validate_candidate db r) db.candidates r
  ok (record db { candidates = rows })
execute (update_vote_package r) db = do
  rows ← update_row vote_package_key (validate_vote_package db r) db.vote_packages r
  ok (record db { vote_packages = rows })
execute (update_subaccount r) db = do
  rows ← update_row subaccount_key (validate_subaccount db r) db.subaccounts r
  ok (record db { subaccounts = rows })
execute (update_transaction r) db = do
  rows ← update_row transaction_key (validate_transaction db r) db.transactions r
  ok (record db { transactions = rows })
execute (update_settlement r) db = do
  rows ← update_row settlement_key (validate_settlement db r) db.settlements r
  ok (record db { settlements = rows })
execute (delete named) db = delete_rows named db
execute (update_votes matches) db = mutate_votes matches db
execute (delete_votes matches) db = mutate_votes matches db
execute truncate db = truncate_votes db

-- A statement on its own: what it leaves behind, whether it succeeds or fails.
abbrev pub after : Database → Result Database → Database
after db (ok next) = next
after db (err e) = db

unfoldable pub run : List Statement → Database → Database
run [] db = db
run (st ∷ sts) db = run sts (after db (execute st db))
