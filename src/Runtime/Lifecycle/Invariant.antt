-- ===== src/Runtime/Lifecycle/Invariant.antt =====
-- What holds of every worker's status and task whenever no code of workers/runtime.py is running.

use balotly_backend.Base.{
  ℕ, subst, zero, suc, Option, none, some, Bool, true, false, ◌≡◌, ◌≢◌, refl, String, List, [],
  arith, string_eq, contains, inl, inr, Bool-cases, Option-cases, ◌∙◌, ◌⊎◌, sym,
}
use balotly_backend.Base.Dict.{
  keys, map_values, lookup, lookup-insert, keys-insert, contains-keys, is_some, NodupKeys,
  insert-NodupKeys, map_values-NodupKeys, lookup-map_values, keys-map_values, lookup-all_values,
}
use balotly_backend.Runtime.Backoff.{BackoffConfig, retry_seconds}
use balotly_backend.Runtime.Status.{
  WorkerState, WorkerStatus, Point, created, in_runner, asleep, ended, Task,
}
use balotly_backend.Runtime.Supervisor.{Wake, supervise, back_off, can_wake}
use balotly_backend.Runtime.Lifecycle.Loops.{
  wake_task-Wakes, lookup-with_fresh_status, keys-with_fresh_status, start_workers-Starts,
  mark_stopping-Marks,
}
use balotly_backend.Runtime.Lifecycle.{
  ok, Runtime, Float, create, start, begin_stop, end_stop, wake_task, cancel, stopped_status,
  create, initial, Float, Step, Reach, starts, stop_begins, stop_ends, stop_cancels, stop_raises,
  wakes, cancel_stop, raise_stop, has_ended, here, step,
}

-- The delay that was announced with the last restart.
abbrev pub announced : BackoffConfig → ℕ → Option ℕ
announced c zero = none
announced c (suc k) = retry_seconds c k

-- The status that goes with each point of the supervisor.
abbrev pub Shows : BackoffConfig → Point → WorkerStatus → Type 0
Shows c created s =
    (s.state ≡ WorkerState.starting) × (s.next_retry_seconds ≡ none) × (s.restart_count ≡ 0)
Shows c in_runner s = (s.state ≡ WorkerState.running) × (s.next_retry_seconds ≡ none)
Shows c asleep s =
    (s.state ≡ WorkerState.backoff)
    × (s.next_retry_seconds ≡ announced c s.restart_count)
    × (s.next_retry_seconds ≢ none)
Shows c ended s = (s.state ≡ WorkerState.stopped) × (s.next_retry_seconds ≡ none)

-- A worker whose task has ended: it shows as stopped, or still as stopping where it was cancelled
-- before its first step.
abbrev pub Rests : WorkerStatus → Type 0
Rests s =
    ((s.state ≡ WorkerState.stopped) ⊎ (s.state ≡ WorkerState.stopping))
    × (s.next_retry_seconds ≡ none)

-- While `stop` waits: a worker that has not seen its cancellation shows as stopping, one whose
-- runner has swallowed it runs on, and a stop that is itself cancelled cancels that one again.
abbrev pub Drains : BackoffConfig → (again requested : Bool) → Point → WorkerStatus → Type 0
Drains c again true ended s = ⊥
Drains c again true created s = (s.state ≡ WorkerState.stopping) × (s.next_retry_seconds ≡ none)
Drains c false true p s = s.state ≡ WorkerState.stopping
Drains c true true p s = (s.state ≡ WorkerState.stopping) ⊎ Shows c p s
Drains c again false created s = ⊥
Drains c again false ended s = Rests s
Drains c again false p s = Shows c p s

-- A worker's status and task in a runtime that is idle, serving or stopping. Tasks are left in an idle
-- runtime only by a stop that was cancelled, and they have ended.
abbrev pub Fits :
    BackoffConfig → (started locked again : Bool) → Option WorkerStatus → Option Task → Type 0
Fits c st lk again none none = Unit
Fits c st lk again none (some t) = ⊥
Fits c false false again (some s) none = Shows c ended s
Fits c false false again (some s) (some t) = (t.point ≡ ended) × Rests s
Fits c true false again (some s) (some t) = Shows c t.point s × (t.cancel_requested ≡ false)
Fits c false true again (some s) (some t) = Drains c again t.cancel_requested t.point s
Fits c st lk again (some s) t = ⊥

pub record IsConsistent (rt : Runtime) : Type 0 where
  pub named : keys rt.statuses ≡ rt.runners
  pub distinct : NodupKeys rt.tasks
  pub exclusive : rt.locked ≡ true → rt.started ≡ false
  pub fits :
      (name : String)
      → Fits rt.backoff rt.started rt.locked rt.stop_cancelled
          (lookup name rt.statuses)
          (lookup name rt.tasks)

-- One resumption keeps a worker's status in step with its point.
supervise-Fits :
    (c : BackoffConfig) (st lk again : Bool) (s s' : WorkerStatus) (t : Task) (wake : Wake)
    (p : Point)
    → can_wake t wake ≡ true
    → supervise c t.point wake s ≡ some (s', p)
    → Fits c st lk again (some s) (some t)
    → Fits c st lk again (some s') (some (record { point = p; cancel_requested = false }))
unfolding supervise back_off can_wake
supervise-Fits c st lk again s s' t wake p can e f = ground arith

-- Resuming a supervisor keeps the runtime consistent.
pub wake_task-IsConsistent :
    (rt : Runtime) {next : Runtime} (name : String) (wake : Wake)
    → IsConsistent rt
    → wake_task name wake rt ≡ some next
    → IsConsistent next
wake_task-IsConsistent rt {next} name wake v e =
    let w = wake_task-Wakes rt name wake e in
    let t' : Task = record { point = w.point; cancel_requested = false } in
    rw w.result (record {
      named = keys-insert name w.status' rt.statuses (ground (arith, w.has_status)) ∙ v.named;
      distinct = insert-NodupKeys name t' rt.tasks v.distinct;
      exclusive = v.exclusive;
      fits = λ n.
          let known = v.fits n in
          let at_name = v.fits name in
          ground (
            arith,
            w.has_task,
            w.has_status,
            lookup-insert n name w.status' rt.statuses,
            lookup-insert n name t' rt.tasks,
            supervise-Fits rt.backoff rt.started rt.locked rt.stop_cancelled w.status w.status'
                w.task wake w.point w.allowed w.resumed,
          );
    })

module _ (rt : Runtime) (v : IsConsistent rt) where
  pub has_status : (n : String) → contains rt.runners n ≡ is_some (lookup n rt.statuses)
  has_status n = rw (← v.named) (contains-keys n rt.statuses)

  -- `start` never raises, and leaves a consistent runtime that has started.
  pub start-IsConsistent :
      rt.locked ≡ false
      → (next : Runtime) × (start rt ≡ ok next) × IsConsistent next × (next.started ≡ true)
  unfolding start
  start-IsConsistent free = elim (Bool-cases rt.started) [
    | inl up ↦ (rt, ground arith, v, up)
    | inr down ↦
        let run =
          start_workers-Starts rt.runners rt.statuses rt.tasks
            (λ n h e. ground (arith, has_status n)) in
        (
          record rt { started = true; statuses = run.0; tasks = run.1 },
          ground (arith, run.2),
          record {
            named = run.3.named ∙ v.named;
            distinct = run.3.distinct v.distinct;
            exclusive = λ held. cc;
            fits = λ n. ground (arith, run.3.statuses n, run.3.tasks n, v.fits n, has_status n);
          },
          refl,
        )
  ]

  -- `stop` never raises before it waits, and leaves a consistent runtime that has not started.
  pub begin_stop-IsConsistent :
      rt.locked ≡ false
      → (next : Runtime) × (begin_stop rt ≡ ok next) × IsConsistent next × (next.started ≡ false)
  unfolding begin_stop
  begin_stop-IsConsistent free = elim (Bool-cases rt.started) [
    | inr down ↦ (rt, ground arith, v, down)
    | inl up ↦
        let run =
          mark_stopping-Marks rt.tasks rt.statuses (λ n h e. h (ground (arith, v.fits n))) in
        (
          record rt {
            started = false;
            locked = true;
            stop_cancelled = false;
            statuses = run.0;
            tasks = map_values cancel rt.tasks;
          },
          ground (arith, run.1),
          record {
            named = run.2.named ∙ v.named;
            distinct = map_values-NodupKeys cancel rt.tasks v.distinct;
            exclusive = λ held. refl;
            fits = λ n.
                ground (arith, run.2.statuses n, lookup-map_values cancel n rt.tasks, v.fits n);
          },
          refl,
        )
  ]

  pub end_stop-IsConsistent :
      {next : Runtime} → rt.locked ≡ true → end_stop rt ≡ some next → IsConsistent next
  unfolding end_stop
  end_stop-IsConsistent {next} held e =
      let done : next ≡ record rt {
        locked = false;
        statuses = map_values stopped_status rt.statuses;
        tasks = [];
      } =
        ground arith in
      rw done (record {
        named = keys-map_values stopped_status rt.statuses ∙ v.named;
        distinct = tt;
        exclusive = λ h. cc;
        fits =
            λ n. ground (arith, v.exclusive held, lookup-map_values stopped_status n rt.statuses);
      })

  pub cancel_stop-IsConsistent : rt.locked ≡ true → IsConsistent (cancel_stop rt)
  unfolding cancel_stop
  cancel_stop-IsConsistent held = record {
    named = v.named;
    distinct = map_values-NodupKeys cancel rt.tasks v.distinct;
    exclusive = v.exclusive;
    fits = λ n. ground (arith, v.exclusive held, lookup-map_values cancel n rt.tasks, v.fits n);
  }

  pub raise_stop-IsConsistent :
      {next : Runtime} → rt.locked ≡ true → raise_stop rt ≡ some next → IsConsistent next
  unfolding raise_stop
  raise_stop-IsConsistent {next} held e =
      let done : next ≡ record rt { locked = false; stop_cancelled = false } = ground arith in
      rw done (record {
        named = v.named;
        distinct = v.distinct;
        exclusive = λ h. cc;
        fits = λ n. elim (Option-cases (lookup n rt.tasks)) [
          | inl missing ↦ ground (arith, v.exclusive held, v.fits n, missing)
          | inr (t, found) ↦ ground (
            arith,
            v.exclusive held,
            v.fits n,
            found,
            lookup-all_values (λ t. has_ended t.point) n t rt.tasks,
          )
        ];
      })

Step-IsConsistent : {rt next : Runtime} → Step rt next → IsConsistent rt → IsConsistent next
Step-IsConsistent {rt} (starts free e) v =
    let (next, e', v', up) = start-IsConsistent rt v free in subst IsConsistent (ground arith) v'
Step-IsConsistent {rt} (stop_begins free e) v =
    let (next, e', v', down) = begin_stop-IsConsistent rt v free in
    subst IsConsistent (ground arith) v'
Step-IsConsistent {rt} (stop_ends held e) v = end_stop-IsConsistent rt v held e
Step-IsConsistent {rt} (stop_cancels held e) v =
    subst IsConsistent (sym e) (cancel_stop-IsConsistent rt v held)
Step-IsConsistent {rt} (stop_raises held e) v = raise_stop-IsConsistent rt v held e
Step-IsConsistent {rt} (wakes name wake e) v = wake_task-IsConsistent rt name wake v e

initial-IsConsistent :
    (exponent : ℕ → ℕ → ℕ) (names : List String) (base maximum : Float)
    → IsConsistent (initial exponent names base maximum)
unfolding initial
initial-IsConsistent exponent names base maximum = record {
  named = keys-with_fresh_status names;
  distinct = tt;
  exclusive = λ held. refl;
  fits = λ n. ground (arith, lookup-with_fresh_status n names);
}

-- A runtime that the constructor has accepted.
pub record Built (rt : Runtime) : Type 0 where
  pub exponent : ℕ → ℕ → ℕ
  pub names : List String
  pub base : Float
  pub maximum : Float
  pub accepted : create exponent names base maximum ≡ ok rt

pub Built-locked : {rt : Runtime} → Built rt → rt.locked ≡ false
unfolding create initial
Built-locked b = ground (arith, b.accepted)

pub Built-started : {rt : Runtime} → Built rt → rt.started ≡ false
unfolding create initial
Built-started b = ground (arith, b.accepted)

pub Built-IsConsistent : {rt : Runtime} → Built rt → IsConsistent rt
unfolding create
Built-IsConsistent {rt} b =
    subst IsConsistent (ground (arith, b.accepted))
      (initial-IsConsistent b.exponent b.names b.base b.maximum)

-- In every state that a constructed runtime can come to, in whatever order its callers start it, stop
-- it and cancel a stop that waits, and whatever its runners do, each worker's status agrees with the
-- point at which its supervisor stands, and an idle runtime has no task but ended ones.
pub Reach-IsConsistent : {rt now : Runtime} → Built rt → Reach rt now → IsConsistent now
Reach-IsConsistent b here = Built-IsConsistent b
Reach-IsConsistent b (step r st) = Step-IsConsistent st (Reach-IsConsistent b r)
