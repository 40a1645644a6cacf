-- ===== src/Runtime/Lifecycle/Loops.antt =====
-- The loops of `__init__`, `start` and `stop` (workers/runtime.py), and one resumption, each as a
-- law about every worker.
use mathlib.Core.Option
use balotly_backend.Base.{
  none, some, true, false, ◌≡◌, ◌≢◌, refl, String, List, [], ◌∷◌, arith, string_eq, contains,
  if◌then◌else◌, inl, inr, Option-cases, ◌∙◌, ==-refl, ap,
}
use balotly_backend.Base.Dict.{
  Dict, keys, lookup, insert, lookup-insert, keys-insert, is_some, NodupKeys, insert-NodupKeys,
}
use balotly_backend.Runtime.Status.{WorkerState, WorkerStatus, fresh_status, Point, Task}
use balotly_backend.Runtime.Supervisor.{Wake, supervise, can_wake}
use balotly_backend.Runtime.Lifecycle.{
  ok, Runtime, start_workers, mark_stopping, with_fresh_status, started_status, new_task, wake_task,
}

abbrev pub Statuses : Type 0
Statuses = Dict String WorkerStatus

abbrev pub Tasks : Type 0
Tasks = Dict String Task

pub lookup-with_fresh_status :
    (n : String) (names : List String)
    → lookup n (with_fresh_status names) ≡ (if contains names n then some fresh_status else none)
unfolding with_fresh_status
lookup-with_fresh_status n [] = refl
lookup-with_fresh_status n (m ∷ names) = ground (arith, lookup-with_fresh_status n names)

pub keys-with_fresh_status : (names : List String) → keys (with_fresh_status names) ≡ names
unfolding with_fresh_status
keys-with_fresh_status [] = refl
keys-with_fresh_status (m ∷ names) = ap (◌∷◌ m) (keys-with_fresh_status names)

-- What the loop of `start` makes of the two dicts.
pub record Starts (names : List String) (ss ss' : Statuses) (ts ts' : Tasks) : Type 0 where
  pub statuses :
      (n : String) → lookup n ss' ≡ (if contains names n then some started_status else lookup n ss)
  pub tasks :
      (n : String) → lookup n ts' ≡ (if contains names n then some new_task else lookup n ts)
  pub named : keys ss' ≡ keys ss
  pub distinct : NodupKeys ts → NodupKeys ts'

-- The loop of `start` raises no KeyError where every name has a status.
pub start_workers-Starts :
    (names : List String) (ss : Statuses) (ts : Tasks)
    → ((n : String) → contains names n ≡ true → lookup n ss ≢ none)
    → (ss' : Statuses) × (ts' : Tasks) × (start_workers names ss ts ≡ ok (ss', ts'))
      × Starts names ss ss' ts ts'
unfolding start_workers
start_workers-Starts [] ss ts known = (
  ss,
  ts,
  refl,
  record { statuses = λ n. refl; tasks = λ n. refl; named = refl; distinct = λ u. u },
)
start_workers-Starts (m ∷ names) ss ts known =
    let rest =
      start_workers-Starts names (insert m started_status ss) (insert m new_task ts)
        (λ n h. ground (arith, known n, lookup-insert n m started_status ss)) in
    let run = rest.3 in
    (
      rest.0,
      rest.1,
      ground (arith, known m, ==-refl m, rest.2),
      record {
        statuses = λ n. ground (arith, run.statuses n, lookup-insert n m started_status ss);
        tasks = λ n. ground (arith, run.tasks n, lookup-insert n m new_task ts);
        named = run.named ∙ keys-insert m started_status ss (known m (ground (arith, ==-refl m)));
        distinct = λ u. run.distinct (insert-NodupKeys m new_task ts u);
      },
    )

-- What the loop of `stop` makes of the statuses.
abbrev pub marked : WorkerStatus → WorkerStatus
marked s = record s { state = WorkerState.stopping }

pub record Marks (tasks : Tasks) (ss ss' : Statuses) : Type 0 where
  pub statuses :
      (n : String)
      → lookup n ss'
        ≡ (if is_some (lookup n tasks) then Option.map marked (lookup n ss) else lookup n ss)
  pub named : keys ss' ≡ keys ss

-- The loop of `stop` raises no KeyError where every task's worker has a status.
pub mark_stopping-Marks :
    (tasks : Tasks) (ss : Statuses)
    → ((n : String) → lookup n tasks ≢ none → lookup n ss ≢ none)
    → (ss' : Statuses) × (mark_stopping tasks ss ≡ ok ss') × Marks tasks ss ss'
unfolding mark_stopping
mark_stopping-Marks [] ss known = (ss, refl, record { statuses = λ n. refl; named = refl })
mark_stopping-Marks ((m, t) ∷ tasks) ss known = elim (Option-cases (lookup m ss)) [
  | inl missing ↦ absurd (known m (ground (arith, ==-refl m)) missing)
  | inr (s, found) ↦
      let rest =
        mark_stopping-Marks tasks (insert m (marked s) ss)
          (λ n h. ground (arith, known n, lookup-insert n m (marked s) ss)) in
      let run = rest.2 in
      (
        rest.0,
        ground (arith, rest.1),
        record {
          statuses = λ n. ground (arith, run.statuses n, lookup-insert n m (marked s) ss);
          named = run.named ∙ keys-insert m (marked s) ss (ground arith);
        },
      )
]

-- What it takes to resume a supervisor, and what that changes.
pub record Wakes (rt next : Runtime) (name : String) (wake : Wake) : Type 0 where
  pub task : Task
  pub status : WorkerStatus
  pub status' : WorkerStatus
  pub point : Point
  pub has_task : lookup name rt.tasks ≡ some task
  pub has_status : lookup name rt.statuses ≡ some status
  pub allowed : can_wake task wake ≡ true
  pub resumed : supervise rt.backoff task.point wake status ≡ some (status', point)
  pub result : next ≡ record rt {
    statuses = insert name status' rt.statuses;
    tasks = insert name (record { point = point; cancel_requested = false }) rt.tasks;
  }

pub wake_task-Wakes :
    (rt : Runtime) {next : Runtime} (name : String) (wake : Wake)
    → wake_task name wake rt ≡ some next
    → Wakes rt next name wake
unfolding wake_task
wake_task-Wakes rt {next} name wake e = elim (Option-cases (lookup name rt.tasks)) [
  | inl p ↦ absurd (ground arith)
  | inr (t, p) ↦ elim (Option-cases (lookup name rt.statuses)) [
    | inl q ↦ absurd (ground arith)
    | inr (s, q) ↦ elim (Option-cases (supervise rt.backoff t.point wake s)) [
      | inl r ↦ absurd (ground arith)
      | inr ((s', point), r) ↦ record {
        task = t;
        status = s;
        status' = s';
        point = point;
        has_task = p;
        has_status = q;
        allowed = ground arith;
        resumed = r;
        result = ground arith;
      }
    ]
  ]
]
