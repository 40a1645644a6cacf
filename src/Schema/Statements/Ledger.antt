-- ===== src/Schema/Statements/Ledger.antt =====
-- The append-only ledger: what any statement, and any sequence of statements, can do to `votes`
-- (api/v1/models/vote.py and the triggers of alembic/versions).
use mathlib.Core.List.{append-nil, append_assoc}
use balotly_backend.Base.{
  ℕ, ◌+◌, ◌≤◌, Bool, true, ◌≡◌, refl, List, [], ◌∷◌, ◌++◌, arith, eqb, if◌then◌else◌, ◌∙◌, ap,
}
use balotly_backend.Schema.Rows.{Vote}
use balotly_backend.Schema.Table.{any}
use balotly_backend.Schema.Database.{Database, restrict_violation, Result, ok, err, vote_key}
use balotly_backend.Schema.Constraints.{validate_vote}
use balotly_backend.Schema.Statements.{
  Statement, insert_vote, insert_row, delete_rows, erase, mutate_votes, truncate_votes, execute,
  after, run, update_votes, delete_votes, truncate,
}
use balotly_backend.Schema.Statements.Outcomes.{written, insert_row-ok}

-- The vote that a statement adds if it succeeds.
abbrev pub inserted : Statement → List Vote
inserted (insert_vote v) = v ∷ []
inserted st = []

-- A statement that succeeds leaves every vote as it was and in its place, and adds at the end the
-- vote that it inserts, if any.
pub votes-execute :
    (st : Statement) (db : Database) {next : Database}
    → execute st db ≡ ok next
    → next.votes ≡ db.votes ++ inserted st
unfolding execute delete_rows erase mutate_votes truncate_votes
votes-execute (insert_vote v) db e =
    let (rows, wrote, same) = written (insert_row vote_key (validate_vote db v) db.votes v) _ e in
    ground (arith, insert_row-ok vote_key (validate_vote db v) db.votes v wrote)
votes-execute st db e = ground (arith, append-nil db.votes)

-- What a sequence of statements adds: the votes of the INSERTs that succeed.
abbrev pub gained : Statement → Result Database → List Vote
gained st (ok next) = inserted st
gained st (err x) = []

unfoldable pub recorded : List Statement → Database → List Vote
recorded [] db = []
recorded (st ∷ sts) db = gained st (execute st db) ++ recorded sts (after db (execute st db))

votes-after :
    (st : Statement) (db : Database) (r : Result Database)
    → execute st db ≡ r
    → (after db r).votes ≡ db.votes ++ gained st r
votes-after st db (ok next) e = votes-execute st db e
votes-after st db (err x) e = ground (arith, append-nil db.votes)

-- No sequence of statements changes, removes or reorders a vote: afterwards the ledger is the old one
-- with the votes of the successful INSERTs added, in their order.
pub votes-run :
    (sts : List Statement) (db : Database) → (run sts db).votes ≡ db.votes ++ recorded sts db
unfolding run recorded
votes-run [] db = ground (arith, append-nil db.votes)
votes-run (st ∷ sts) db =
    votes-run sts (after db (execute st db))
    ∙ (ap (λ vs. vs ++ recorded sts (after db (execute st db)))
          (votes-after st db (execute st db) refl)
        ∙ append_assoc db.votes (gained st (execute st db))
            (recorded sts (after db (execute st db))))

-- `SELECT COUNT(*) FROM votes WHERE candidate_id = k`
abbrev pub tally : ℕ → List Vote → ℕ
tally k [] = 0
tally k (v ∷ vs) = (if eqb v.candidate_id k then 1 else 0) + tally k vs

tally-append : (k : ℕ) (xs ys : List Vote) → tally k (xs ++ ys) ≡ tally k xs + tally k ys
tally-append k [] ys = omega arith
tally-append k (x ∷ xs) ys = omega (arith, tally-append k xs ys)

-- A candidate's count never falls.
pub tally-run :
    (k : ℕ) (sts : List Statement) (db : Database) → tally k db.votes ≤ tally k (run sts db).votes
tally-run k sts db =
    rw (votes-run sts db) (omega (arith, tally-append k db.votes (recorded sts db)))

-- The triggers refuse every UPDATE or DELETE that meets a vote, and every TRUNCATE.
pub mutation_refused :
    (matches : Vote → Bool) (db : Database)
    → any matches db.votes ≡ true
    → (execute (update_votes matches) db ≡ err restrict_violation)
      × (execute (delete_votes matches) db ≡ err restrict_violation)
      × (execute truncate db ≡ err restrict_violation)
unfolding execute mutate_votes truncate_votes
mutation_refused matches db h = ground arith
