-- ===== src/Migration/Simulation/Writes.antt =====
-- INSERT and UPDATE by the revision's catalog (alembic/versions) beside the statements of
-- Schema.Statements.
use balotly_backend.Base.{
  ℕ, some, Bool, true, false, ◌≡◌, refl, ap, ◌∙◌, List, [], ◌∷◌, arith, eqb, string_eq, map,
}
use balotly_backend.Schema.Rows.{Vote}
use balotly_backend.Schema.Table.{any, has}
use balotly_backend.Schema.Database.{
  Database, organization_key, user_key, contest_key, category_key, candidate_key, vote_package_key,
  subaccount_key, transaction_key, vote_key, settlement_key,
}
use balotly_backend.Schema.Constraints.{
  validate_organization, validate_user, validate_contest, validate_category, validate_candidate,
  validate_vote_package, validate_subaccount, validate_transaction, validate_vote,
  validate_settlement,
}
use balotly_backend.Schema.Statements.{execute, mutate_votes}
use balotly_backend.Migration.Operations.{migrate, apply}
use balotly_backend.Migration.Revision.{upgrade}
use balotly_backend.Migration.Revision.Roundtrip.{upgraded, catalog_of}
use balotly_backend.Migration.Cells.{
  organization_cells, user_cells, contest_cells, category_cells, candidate_cells,
  vote_package_cells, subaccount_cells, transaction_cells, vote_cells, settlement_cells, tables_of,
}
use balotly_backend.Migration.Enforcement.{is_there, validate}
use balotly_backend.Migration.Writes.{
  Write, of_organization, of_user, of_contest, of_category, of_candidate, of_vote_package,
  of_subaccount, of_transaction, of_vote, of_settlement, table_of,
}
use balotly_backend.Migration.Execution.{is_guarded, place, write_over, insert_into, update_in}
use balotly_backend.Migration.Commands.{perform, insert, update, statement_of, map_result}
use balotly_backend.Migration.Refinement.{validate-write}
use balotly_backend.Migration.Refinement.Targets.{
  organization_id, user_id, contest_id, category_id, candidate_id, vote_package_id, subaccount_id,
  transaction_id, vote_id, settlement_id, is_there-map,
}
use balotly_backend.Migration.Simulation.Stores.{
  organization_rows, user_rows, contest_rows, category_rows, candidate_rows, vote_package_rows,
  subaccount_rows, transaction_rows, vote_rows, settlement_rows, put_organization, put_user,
  put_contest, put_category, put_candidate, put_vote_package, put_subaccount, put_transaction,
  put_vote, put_settlement,
}
use balotly_backend.Migration.Simulation.Writing.{placed, written_over}

pub perform-insert :
    (w : Write) (db : Database)
    → perform upgraded (insert w) (tables_of db)
      ≡ some (map_result tables_of (execute (statement_of (insert w)) db))
unfolding perform insert_into execute
perform-insert (of_organization r) db =
    ap (place "organizations" (organization_cells r) (tables_of db))
      (validate-write (of_organization r) db)
    ∙ placed organization_cells organization_key organization_id "organizations" (tables_of db)
        db.organizations (λ xs. record db { organizations = xs }) r (validate_organization db r)
        (organization_rows db) (put_organization db)
perform-insert (of_user r) db =
    ap (place "users" (user_cells r) (tables_of db)) (validate-write (of_user r) db)
    ∙ placed user_cells user_key user_id "users" (tables_of db) db.users
        (λ xs. record db { users = xs }) r (validate_user db r) (user_rows db) (put_user db)
perform-insert (of_contest r) db =
    ap (place "contests" (contest_cells r) (tables_of db)) (validate-write (of_contest r) db)
    ∙ placed contest_cells contest_key contest_id "contests" (tables_of db) db.contests
        (λ xs. record db { contests = xs }) r (validate_contest db r) (contest_rows db)
        (put_contest db)
perform-insert (of_category r) db =
    ap (place "categories" (category_cells r) (tables_of db)) (validate-write (of_category r) db)
    ∙ placed category_cells category_key category_id "categories" (tables_of db) db.categories
        (λ xs. record db { categories = xs }) r (validate_category db r) (category_rows db)
        (put_category db)
perform-insert (of_candidate r) db =
    ap (place "candidates" (candidate_cells r) (tables_of db)) (validate-write (of_candidate r) db)
    ∙ placed candidate_cells candidate_key candidate_id "candidates" (tables_of db) db.candidates
        (λ xs. record db { candidates = xs }) r (validate_candidate db r) (candidate_rows db)
        (put_candidate db)
perform-insert (of_vote_package r) db =
    ap (place "vote_packages" (vote_package_cells r) (tables_of db))
      (validate-write (of_vote_package r) db)
    ∙ placed vote_package_cells vote_package_key vote_package_id "vote_packages" (tables_of db)
        db.vote_packages (λ xs. record db { vote_packages = xs }) r (validate_vote_package db r)
        (vote_package_rows db) (put_vote_package db)
perform-insert (of_subaccount r) db =
    ap (place "subaccounts" (subaccount_cells r) (tables_of db))
      (validate-write (of_subaccount r) db)
    ∙ placed subaccount_cells subaccount_key subaccount_id "subaccounts" (tables_of db)
        db.subaccounts (λ xs. record db { subaccounts = xs }) r (validate_subaccount db r)
        (subaccount_rows db) (put_subaccount db)
perform-insert (of_transaction r) db =
    ap (place "transactions" (transaction_cells r) (tables_of db))
      (validate-write (of_transaction r) db)
    ∙ placed transaction_cells transaction_key transaction_id "transactions" (tables_of db)
        db.transactions (λ xs. record db { transactions = xs }) r (validate_transaction db r)
        (transaction_rows db) (put_transaction db)
perform-insert (of_vote r) db =
    ap (place "votes" (vote_cells r) (tables_of db)) (validate-write (of_vote r) db)
    ∙ placed vote_cells vote_key vote_id "votes" (tables_of db) db.votes
        (λ xs. record db { votes = xs }) r (validate_vote db r) (vote_rows db) (put_vote db)
perform-insert (of_settlement r) db =
    ap (place "settlements" (settlement_cells r) (tables_of db))
      (validate-write (of_settlement r) db)
    ∙ placed settlement_cells settlement_key settlement_id "settlements" (tables_of db)
        db.settlements (λ xs. record db { settlements = xs }) r (validate_settlement db r)
        (settlement_rows db) (put_settlement db)

-- The tables whose rows a trigger refuses to change.
guards : (w : Write) → Bool
guards (of_vote r) = true
guards w = false

is_guarded-upgraded : (w : Write) → is_guarded upgraded (table_of w) ≡ guards w
unfolding guards upgraded catalog_of upgrade migrate apply string_eq
is_guarded-upgraded (of_organization r) = refl
is_guarded-upgraded (of_user r) = refl
is_guarded-upgraded (of_contest r) = refl
is_guarded-upgraded (of_category r) = refl
is_guarded-upgraded (of_candidate r) = refl
is_guarded-upgraded (of_vote_package r) = refl
is_guarded-upgraded (of_subaccount r) = refl
is_guarded-upgraded (of_transaction r) = refl
is_guarded-upgraded (of_vote r) = refl
is_guarded-upgraded (of_settlement r) = refl

has-any : (rs : List Vote) (k : ℕ) → has vote_key rs k ≡ any (λ v. eqb v.id k) rs
has-any [] k = refl
has-any (r ∷ rs) k = ground (arith, has-any rs k)

vote_present :
    (db : Database) (r : Vote)
    → is_there (tables_of db "votes") (vote_cells r "id") ≡ any (λ v. eqb v.id r.id) db.votes
vote_present db r =
    ap (λ rows. is_there rows (vote_cells r "id")) (vote_rows db)
    ∙ ap (is_there (map vote_cells db.votes)) (vote_id r)
    ∙ is_there-map vote_cells vote_key vote_id db.votes r.id
    ∙ has-any db.votes r.id

vote_kept :
    (db : Database) (r : Vote)
    → write_over true "votes" (vote_cells r) (tables_of db) (some (validate_vote db r))
      ≡ some (map_result tables_of (mutate_votes (λ v. eqb v.id r.id) db))
unfolding mutate_votes
vote_kept db r = ground (arith, vote_present db r)

pub perform-update :
    (w : Write) (db : Database)
    → perform upgraded (update w) (tables_of db)
      ≡ some (map_result tables_of (execute (statement_of (update w)) db))
unfolding perform update_in execute guards
perform-update (of_organization r) db =
    ap
      (λ g.
        write_over g "organizations" (organization_cells r) (tables_of db)
          (validate upgraded "organizations" (tables_of db) (organization_cells r)))
      (is_guarded-upgraded (of_organization r))
    ∙ ap (write_over false "organizations" (organization_cells r) (tables_of db))
        (validate-write (of_organization r) db)
    ∙ written_over organization_cells organization_key organization_id "organizations"
        (tables_of db) db.organizations (λ xs. record db { organizations = xs }) r
        (validate_organization db r) (organization_rows db) (put_organization db) refl
perform-update (of_user r) db =
    ap
      (λ g.
        write_over g "users" (user_cells r) (tables_of db)
          (validate upgraded "users" (tables_of db) (user_cells r)))
      (is_guarded-upgraded (of_user r))
    ∙ ap (write_over false "users" (user_cells r) (tables_of db)) (validate-write (of_user r) db)
    ∙ written_over user_cells user_key user_id "users" (tables_of db) db.users
        (λ xs. record db { users = xs }) r (validate_user db r) (user_rows db) (put_user db) refl
perform-update (of_contest r) db =
    ap
      (λ g.
        write_over g "contests" (contest_cells r) (tables_of db)
          (validate upgraded "contests" (tables_of db) (contest_cells r)))
      (is_guarded-upgraded (of_contest r))
    ∙ ap (write_over false "contests" (contest_cells r) (tables_of db))
        (validate-write (of_contest r) db)
    ∙ written_over contest_cells contest_key contest_id "contests" (tables_of db) db.contests
        (λ xs. record db { contests = xs }) r (validate_contest db r) (contest_rows db)
        (put_contest db) refl
perform-update (of_category r) db =
    ap
      (λ g.
        write_over g "categories" (category_cells r) (tables_of db)
          (validate upgraded "categories" (tables_of db) (category_cells r)))
      (is_guarded-upgraded (of_category r))
    ∙ ap (write_over false "categories" (category_cells r) (tables_of db))
        (validate-write (of_category r) db)
    ∙ written_over category_cells category_key category_id "categories" (tables_of db) db.categories
        (λ xs. record db { categories = xs }) r (validate_category db r) (category_rows db)
        (put_category db) refl
perform-update (of_candidate r) db =
    ap
      (λ g.
        write_over g "candidates" (candidate_cells r) (tables_of db)
          (validate upgraded "candidates" (tables_of db) (candidate_cells r)))
      (is_guarded-upgraded (of_candidate r))
    ∙ ap (write_over false "candidates" (candidate_cells r) (tables_of db))
        (validate-write (of_candidate r) db)
    ∙ written_over candidate_cells candidate_key candidate_id "candidates" (tables_of db)
        db.candidates (λ xs. record db { candidates = xs }) r (validate_candidate db r)
        (candidate_rows db) (put_candidate db) refl
perform-update (of_vote_package r) db =
    ap
      (λ g.
        write_over g "vote_packages" (vote_package_cells r) (tables_of db)
          (validate upgraded "vote_packages" (tables_of db) (vote_package_cells r)))
      (is_guarded-upgraded (of_vote_package r))
    ∙ ap (write_over false "vote_packages" (vote_package_cells r) (tables_of db))
        (validate-write (of_vote_package r) db)
    ∙ written_over vote_package_cells vote_package_key vote_package_id "vote_packages"
        (tables_of db) db.vote_packages (λ xs. record db { vote_packages = xs }) r
        (validate_vote_package db r) (vote_package_rows db) (put_vote_package db) refl
perform-update (of_subaccount r) db =
    ap
      (λ g.
        write_over g "subaccounts" (subaccount_cells r) (tables_of db)
          (validate upgraded "subaccounts" (tables_of db) (subaccount_cells r)))
      (is_guarded-upgraded (of_subaccount r))
    ∙ ap (write_over false "subaccounts" (subaccount_cells r) (tables_of db))
        (validate-write (of_subaccount r) db)
    ∙ written_over subaccount_cells subaccount_key subaccount_id "subaccounts" (tables_of db)
        db.subaccounts (λ xs. record db { subaccounts = xs }) r (validate_subaccount db r)
        (subaccount_rows db) (put_subaccount db) refl
perform-update (of_transaction r) db =
    ap
      (λ g.
        write_over g "transactions" (transaction_cells r) (tables_of db)
          (validate upgraded "transactions" (tables_of db) (transaction_cells r)))
      (is_guarded-upgraded (of_transaction r))
    ∙ ap (write_over false "transactions" (transaction_cells r) (tables_of db))
        (validate-write (of_transaction r) db)
    ∙ written_over transaction_cells transaction_key transaction_id "transactions" (tables_of db)
        db.transactions (λ xs. record db { transactions = xs }) r (validate_transaction db r)
        (transaction_rows db) (put_transaction db) refl
perform-update (of_vote r) db =
    ap
      (λ g.
        write_over g "votes" (vote_cells r) (tables_of db)
          (validate upgraded "votes" (tables_of db) (vote_cells r)))
      (is_guarded-upgraded (of_vote r))
    ∙ ap (write_over true "votes" (vote_cells r) (tables_of db)) (validate-write (of_vote r) db)
    ∙ vote_kept db r
perform-update (of_settlement r) db =
    ap
      (λ g.
        write_over g "settlements" (settlement_cells r) (tables_of db)
          (validate upgraded "settlements" (tables_of db) (settlement_cells r)))
      (is_guarded-upgraded (of_settlement r))
    ∙ ap (write_over false "settlements" (settlement_cells r) (tables_of db))
        (validate-write (of_settlement r) db)
    ∙ written_over settlement_cells settlement_key settlement_id "settlements" (tables_of db)
        db.settlements (λ xs. record db { settlements = xs }) r (validate_settlement db r)
        (settlement_rows db) (put_settlement db) refl
