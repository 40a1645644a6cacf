-- ===== src/Schema/Constraints.antt =====
-- The foreign keys and the unique indexes of each table (api/v1/models, alembic/versions), and the
-- whole of what PostgreSQL tests before it writes a row.
use balotly_backend.Base.{
  Option, some, Bool, false, not, ◌&&◌, ◌||◌, String, [], ◌∷◌, eqb, ◌==◌, string_eq, contains,
}
use balotly_backend.Schema.Statuses.{pending, success}
use balotly_backend.Schema.Rows.{
  Organization, User, Contest, Category, Candidate, VotePackage, Subaccount, Transaction, Vote,
  Settlement,
}
use balotly_backend.Schema.Checks.{
  organization_checks, organization_types, user_checks, user_types, contest_checks, contest_types,
  category_types, candidate_checks, candidate_types, vote_package_checks, vote_package_types,
  subaccount_checks, subaccount_types, transaction_checks, transaction_types, settlement_checks,
  settlement_types,
}
use balotly_backend.Schema.Table.{has, has_null, any}
use balotly_backend.Schema.Database.{
  Database, out_of_range, check_violation, unique_violation, foreign_key_violation, Result, ◌>>◌,
  require, organization_key, user_key, contest_key, category_key, candidate_key, vote_package_key,
  transaction_key,
}

-- The foreign keys of each table: the row that a key names exists.
abbrev pub organization_refs : Database → Organization → Bool
organization_refs db r = has_null user_key db.users r.created_by_user_id

abbrev pub user_refs : Database → User → Bool
user_refs db r = has_null organization_key db.organizations r.organization_id

abbrev pub contest_refs : Database → Contest → Bool
contest_refs db r = has organization_key db.organizations r.organization_id

abbrev pub category_refs : Database → Category → Bool
category_refs db r = has contest_key db.contests r.contest_id

abbrev pub candidate_refs : Database → Candidate → Bool
candidate_refs db r =
    has category_key db.categories r.category_id && has_null user_key db.users r.user_id

abbrev pub vote_package_refs : Database → VotePackage → Bool
vote_package_refs db r = has contest_key db.contests r.contest_id

abbrev pub subaccount_refs : Database → Subaccount → Bool
subaccount_refs db r = has candidate_key db.candidates r.candidate_id

abbrev pub transaction_refs : Database → Transaction → Bool
transaction_refs db r =
    has candidate_key db.candidates r.candidate_id
    && has vote_package_key db.vote_packages r.vote_package_id
    && has contest_key db.contests r.contest_id

abbrev pub vote_refs : Database → Vote → Bool
vote_refs db r =
    has transaction_key db.transactions r.transaction_id
    && has candidate_key db.candidates r.candidate_id

abbrev pub settlement_refs : Database → Settlement → Bool
settlement_refs db r =
    has candidate_key db.candidates r.candidate_id
    && has_null user_key db.users r.actioned_by_user_id

-- Equality of nullable columns in a unique index: NULLs are distinct.
abbrev pub same_text : Option String → Option String → Bool
same_text (some a) (some b) = a == b
same_text a b = false

-- Two rows that a unique index keeps from standing together.
abbrev pub user_clash : User → User → Bool
user_clash a b = not (eqb a.id b.id) && (a.email == b.email)

-- uq_categories_contest_name
abbrev pub category_clash : Category → Category → Bool
category_clash a b = not (eqb a.id b.id) && eqb a.contest_id b.contest_id && (a.name == b.name)

abbrev pub candidate_clash : Candidate → Candidate → Bool
candidate_clash a b = not (eqb a.id b.id) && (a.slug == b.slug)

abbrev pub subaccount_clash : Subaccount → Subaccount → Bool
subaccount_clash a b =
    not (eqb a.id b.id)
    && (eqb a.candidate_id b.candidate_id || same_text a.subaccount_code b.subaccount_code)

-- The predicate of uq_transactions_identity_cap.
abbrev pub holds_identity : Transaction → Bool
holds_identity t = t.enforce_identity_cap && contains (pending ∷ success ∷ []) t.status

-- uq_transactions_identity_cap
abbrev pub same_identity : Transaction → Transaction → Bool
same_identity a b =
    holds_identity a
    && holds_identity b
    && eqb a.contest_id b.contest_id
    && same_text a.voter_matric_number b.voter_matric_number

-- ix_transactions_paystack_reference, which is unique, and uq_transactions_identity_cap
abbrev pub transaction_clash : Transaction → Transaction → Bool
transaction_clash a b =
    not (eqb a.id b.id) && (a.paystack_reference == b.paystack_reference || same_identity a b)

-- The tests of an INSERT or UPDATE of a row, but for the primary key.
unfoldable pub validate_organization : Database → Organization → Result (Unit {0})
validate_organization db r = do
  require (organization_types r) out_of_range
  require (organization_checks r) check_violation
  require (organization_refs db r) foreign_key_violation

unfoldable pub validate_user : Database → User → Result (Unit {0})
validate_user db r = do
  require (user_types r) out_of_range
  require (user_checks r) check_violation
  require (not (any (user_clash r) db.users)) unique_violation
  require (user_refs db r) foreign_key_violation

unfoldable pub validate_contest : Database → Contest → Result (Unit {0})
validate_contest db r = do
  require (contest_types r) out_of_range
  require (contest_checks r) check_violation
  require (contest_refs db r) foreign_key_violation

unfoldable pub validate_category : Database → Category → Result (Unit {0})
validate_category db r = do
  require (category_types r) out_of_range
  require (not (any (category_clash r) db.categories)) unique_violation
  require (category_refs db r) foreign_key_violation

unfoldable pub validate_candidate : Database → Candidate → Result (Unit {0})
validate_candidate db r = do
  require (candidate_types r) out_of_range
  require (candidate_checks r) check_violation
  require (not (any (candidate_clash r) db.candidates)) unique_violation
  require (candidate_refs db r) foreign_key_violation

unfoldable pub validate_vote_package : Database → VotePackage → Result (Unit {0})
validate_vote_package db r = do
  require (vote_package_types r) out_of_range
  require (vote_package_checks r) check_violation
  require (vote_package_refs db r) foreign_key_violation

unfoldable pub validate_subaccount : Database → Subaccount → Result (Unit {0})
validate_subaccount db r = do
  require (subaccount_types r) out_of_range
  require (subaccount_checks r) check_violation
  require (not (any (subaccount_clash r) db.subaccounts)) unique_violation
  require (subaccount_refs db r) foreign_key_violation

unfoldable pub validate_transaction : Database → Transaction → Result (Unit {0})
validate_transaction db r = do
  require (transaction_types r) out_of_range
  require (transaction_checks r) check_violation
  require (not (any (transaction_clash r) db.transactions)) unique_violation
  require (transaction_refs db r) foreign_key_violation

unfoldable pub validate_vote : Database → Vote → Result (Unit {0})
validate_vote db r = require (vote_refs db r) foreign_key_violation

unfoldable pub validate_settlement : Database → Settlement → Result (Unit {0})
validate_settlement db r = do
  require (settlement_types r) out_of_range
  require (settlement_checks r) check_violation
  require (settlement_refs db r) foreign_key_violation
