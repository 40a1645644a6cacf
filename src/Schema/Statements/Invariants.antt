-- ===== src/Schema/Statements/Invariants.antt =====
-- Invariants of the database: what every single write and every DELETE keeps, every sequence of
-- statements keeps.
use balotly_backend.Base.{ℕ, Bool, false, ◌≡◌, refl, subst, inl, inr, List, [], ◌∷◌, ◌++◌, arith}
use balotly_backend.Schema.Rows.{
  Organization, User, Contest, Category, Candidate, VotePackage, Subaccount, Transaction, Vote,
  Settlement,
}
use balotly_backend.Schema.Table.{has, replace}
use balotly_backend.Schema.Constraints.{
  validate_organization, validate_user, validate_contest, validate_category, validate_candidate,
  validate_vote_package, validate_subaccount, validate_transaction, validate_vote,
  validate_settlement,
}
use balotly_backend.Schema.Database.{
  Database, Result, ok, err, ◌>>=◌, organization_key, user_key, contest_key, category_key,
  candidate_key, vote_package_key, subaccount_key, transaction_key, vote_key, settlement_key,
}
use balotly_backend.Schema.Statements.{
  Doomed, Statement, execute, after, run, insert_row, update_row, delete_rows, mutate_votes,
  truncate_votes, delete, update_votes, delete_votes, truncate, insert_organization, insert_user,
  insert_contest, insert_category, insert_candidate, insert_vote_package, insert_subaccount,
  insert_transaction, insert_vote, insert_settlement, update_organization, update_user,
  update_contest, update_category, update_candidate, update_vote_package, update_subaccount,
  update_transaction, update_settlement,
}
use balotly_backend.Schema.Statements.Outcomes.{written, insert_row-ok, update_row-ok}

-- A property that each write keeps, where the row has passed the tests of its table.
pub record IsKept (P : Database → Type 0) : Type 0 where
  pub add_organization :
      (db : Database)
      → P db
      → (r : Organization) → has organization_key db.organizations (organization_key r) ≡ false
      → validate_organization db r ≡ ok tt
      → P (record db { organizations = db.organizations ++ r ∷ [] })
  pub add_user :
      (db : Database)
      → P db
      → (r : User) → has user_key db.users (user_key r) ≡ false
      → validate_user db r ≡ ok tt
      → P (record db { users = db.users ++ r ∷ [] })
  pub add_contest :
      (db : Database)
      → P db
      → (r : Contest) → has contest_key db.contests (contest_key r) ≡ false
      → validate_contest db r ≡ ok tt
      → P (record db { contests = db.contests ++ r ∷ [] })
  pub add_category :
      (db : Database)
      → P db
      → (r : Category) → has category_key db.categories (category_key r) ≡ false
      → validate_category db r ≡ ok tt
      → P (record db { categories = db.categories ++ r ∷ [] })
  pub add_candidate :
      (db : Database)
      → P db
      → (r : Candidate) → has candidate_key db.candidates (candidate_key r) ≡ false
      → validate_candidate db r ≡ ok tt
      → P (record db { candidates = db.candidates ++ r ∷ [] })
  pub add_vote_package :
      (db : Database)
      → P db
      → (r : VotePackage) → has vote_package_key db.vote_packages (vote_package_key r) ≡ false
      → validate_vote_package db r ≡ ok tt
      → P (record db { vote_packages = db.vote_packages ++ r ∷ [] })
  pub add_subaccount :
      (db : Database)
      → P db
      → (r : Subaccount) → has subaccount_key db.subaccounts (subaccount_key r) ≡ false
      → validate_subaccount db r ≡ ok tt
      → P (record db { subaccounts = db.subaccounts ++ r ∷ [] })
  pub add_transaction :
      (db : Database)
      → P db
      → (r : Transaction) → has transaction_key db.transactions (transaction_key r) ≡ false
      → validate_transaction db r ≡ ok tt
      → P (record db { transactions = db.transactions ++ r ∷ [] })
  pub add_vote :
      (db : Database)
      → P db
      → (r : Vote) → has vote_key db.votes (vote_key r) ≡ false
      → validate_vote db r ≡ ok tt
      → P (record db { votes = db.votes ++ r ∷ [] })
  pub add_settlement :
      (db : Database)
      → P db
      → (r : Settlement) → has settlement_key db.settlements (settlement_key r) ≡ false
      → validate_settlement db r ≡ ok tt
      → P (record db { settlements = db.settlements ++ r ∷ [] })
  pub change_organization :
      (db : Database)
      → P db
      → (r : Organization) → validate_organization db r ≡ ok tt
      → P (record db { organizations = replace organization_key r db.organizations })
  pub change_user :
      (db : Database)
      → P db
      → (r : User) → validate_user db r ≡ ok tt
      → P (record db { users = replace user_key r db.users })
  pub change_contest :
      (db : Database)
      → P db
      → (r : Contest) → validate_contest db r ≡ ok tt
      → P (record db { contests = replace contest_key r db.contests })
  pub change_category :
      (db : Database)
      → P db
      → (r : Category) → validate_category db r ≡ ok tt
      → P (record db { categories = replace category_key r db.categories })
  pub change_candidate :
      (db : Database)
      → P db
      → (r : Candidate) → validate_candidate db r ≡ ok tt
      → P (record db { candidates = replace candidate_key r db.candidates })
  pub change_vote_package :
      (db : Database)
      → P db
      → (r : VotePackage) → validate_vote_package db r ≡ ok tt
      → P (record db { vote_packages = replace vote_package_key r db.vote_packages })
  pub change_subaccount :
      (db : Database)
      → P db
      → (r : Subaccount) → validate_subaccount db r ≡ ok tt
      → P (record db { subaccounts = replace subaccount_key r db.subaccounts })
  pub change_transaction :
      (db : Database)
      → P db
      → (r : Transaction) → validate_transaction db r ≡ ok tt
      → P (record db { transactions = replace transaction_key r db.transactions })
  pub change_settlement :
      (db : Database)
      → P db
      → (r : Settlement) → validate_settlement db r ≡ ok tt
      → P (record db { settlements = replace settlement_key r db.settlements })
  pub erase_rows :
      (db : Database) (named : Doomed) {next : Database}
      → P db
      → delete_rows named db ≡ ok next
      → P next

module _ (P : Database → Type 0) where
  inserts :
      {R : Type 0} (key : R → ℕ) (verdict : Result (Unit {0})) (rows : List R) (r : R)
      (put : List R → Database) {next : Database}
      → (insert_row key verdict rows r >>= λ new. ok (put new)) ≡ ok next
      → (has key rows (key r) ≡ false → verdict ≡ ok tt → P (put (rows ++ r ∷ [])))
      → P next
  inserts key verdict rows r put e keep =
      let (new, wrote, same) = written (insert_row key verdict rows r) put e in
      let (fine, fresh, added) = insert_row-ok key verdict rows r wrote in
      rw (same, added) (keep fresh fine)

  updates :
      {R : Type 0} (key : R → ℕ) (verdict : Result (Unit {0})) (rows : List R) (r : R)
      (put : List R → Database) {next : Database}
      → (update_row key verdict rows r >>= λ new. ok (put new)) ≡ ok next
      → P (put rows)
      → (verdict ≡ ok tt → P (put (replace key r rows)))
      → P next
  updates key verdict rows r put e idle keep =
      let (new, wrote, same) = written (update_row key verdict rows r) put e in
      elim (update_row-ok key verdict rows r wrote) [
        | inl (fine, changed) ↦ rw (same, changed) (keep fine)
        | inr kept ↦ rw (same, kept) idle
      ]

  mutates :
      (matches : Vote → Bool) (db : Database) {next : Database}
      → mutate_votes matches db ≡ ok next
      → P db
      → P next
  unfolding mutate_votes
  mutates matches db e p = subst P (ground arith) p

module _ {P : Database → Type 0} (k : IsKept P) where
  pub execute-kept :
      (st : Statement) (db : Database) {next : Database} → execute st db ≡ ok next → P db → P next
  unfolding execute truncate_votes
  execute-kept (insert_organization r) db e p =
      inserts P organization_key (validate_organization db r) db.organizations r
        (λ rows. record db { organizations = rows }) e (k.add_organization db p r)
  execute-kept (insert_user r) db e p =
      inserts P user_key (validate_user db r) db.users r (λ rows. record db { users = rows }) e
        (k.add_user db p r)
  execute-kept (insert_contest r) db e p =
      inserts P contest_key (validate_contest db r) db.contests r
        (λ rows. record db { contests = rows }) e (k.add_contest db p r)
  execute-kept (insert_category r) db e p =
      inserts P category_key (validate_category db r) db.categories r
        (λ rows. record db { categories = rows }) e (k.add_category db p r)
  execute-kept (insert_candidate r) db e p =
      inserts P candidate_key (validate_candidate db r) db.candidates r
        (λ rows. record db { candidates = rows }) e (k.add_candidate db p r)
  execute-kept (insert_vote_package r) db e p =
      inserts P vote_package_key (validate_vote_package db r) db.vote_packages r
        (λ rows. record db { vote_packages = rows }) e (k.add_vote_package db p r)
  execute-kept (insert_subaccount r) db e p =
      inserts P subaccount_key (validate_subaccount db r) db.subaccounts r
        (λ rows. record db { subaccounts = rows }) e (k.add_subaccount db p r)
  execute-kept (insert_transaction r) db e p =
      inserts P transaction_key (validate_transaction db r) db.transactions r
        (λ rows. record db { transactions = rows }) e (k.add_transaction db p r)
  execute-kept (insert_vote r) db e p =
      inserts P vote_key (validate_vote db r) db.votes r (λ rows. record db { votes = rows }) e
        (k.add_vote db p r)
  execute-kept (insert_settlement r) db e p =
      inserts P settlement_key (validate_settlement db r) db.settlements r
        (λ rows. record db { settlements = rows }) e (k.add_settlement db p r)
  execute-kept (update_organization r) db e p =
      updates P organization_key (validate_organization db r) db.organizations r
        (λ rows. record db { organizations = rows }) e p (k.change_organization db p r)
  execute-kept (update_user r) db e p =
      updates P user_key (validate_user db r) db.users r (λ rows. record db { users = rows }) e p
        (k.change_user db p r)
  execute-kept (update_contest r) db e p =
      updates P contest_key (validate_contest db r) db.contests r
        (λ rows. record db { contests = rows }) e p (k.change_contest db p r)
  execute-kept (update_category r) db e p =
      updates P category_key (validate_category db r) db.categories r
        (λ rows. record db { categories = rows }) e p (k.change_category db p r)
  execute-kept (update_candidate r) db e p =
      updates P candidate_key (validate_candidate db r) db.candidates r
        (λ rows. record db { candidates = rows }) e p (k.change_candidate db p r)
  execute-kept (update_vote_package r) db e p =
      updates P vote_package_key (validate_vote_package db r) db.vote_packages r
        (λ rows. record db { vote_packages = rows }) e p (k.change_vote_package db p r)
  execute-kept (update_subaccount r) db e p =
      updates P subaccount_key (validate_subaccount db r) db.subaccounts r
        (λ rows. record db { subaccounts = rows }) e p (k.change_subaccount db p r)
  execute-kept (update_transaction r) db e p =
      updates P transaction_key (validate_transaction db r) db.transactions r
        (λ rows. record db { transactions = rows }) e p (k.change_transaction db p r)
  execute-kept (update_settlement r) db e p =
      updates P settlement_key (validate_settlement db r) db.settlements r
        (λ rows. record db { settlements = rows }) e p (k.change_settlement db p r)
  execute-kept (delete named) db e p = k.erase_rows db named p e
  execute-kept (update_votes matches) db e p = mutates P matches db e p
  execute-kept (delete_votes matches) db e p = mutates P matches db e p
  execute-kept truncate db e p = cc

  after-kept :
      (st : Statement) (db : Database) (r : Result Database)
      → execute st db ≡ r
      → P db
      → P (after db r)
  after-kept st db (ok next) e p = execute-kept st db e p
  after-kept st db (err x) e p = p

  pub run-kept : (sts : List Statement) (db : Database) → P db → P (run sts db)
  unfolding run
  run-kept [] db p = p
  run-kept (st ∷ sts) db p =
      run-kept sts (after db (execute st db)) (after-kept st db (execute st db) refl p)
