-- ===== src/Runtime/Lifecycle/Shutdown.antt =====
-- `stop` (workers/runtime.py) from `cancel()` to the return of `gather`, where every
-- runner passes its cancellation on.

use balotly_backend.Base.{
  ℕ, zero, suc, ◌<◌, if◌then◌else◌, ◌⊎◌, Option, none, some, Bool, true, false, ◌≡◌, ◌||◌, refl,
  String, List, [], ◌∷◌, arith, string_eq, contains, inl, inr, Bool-cases, Option-cases,
}
use balotly_backend.Base.Dict.{
  Dict, map_values, lookup, insert, lookup-insert, lookup-map_values, all_values_of,
}
use balotly_backend.Runtime.Status.{WorkerState, WorkerStatus, Point, created, ended, Task}
use balotly_backend.Runtime.Supervisor.{interrupted, supervise, can_wake}
use balotly_backend.Runtime.Lifecycle.Loops.{mark_stopping-Marks, wake_task-Wakes}
use balotly_backend.Runtime.Lifecycle.Invariant.{
  IsConsistent, has_status, wake_task-IsConsistent, begin_stop-IsConsistent, end_stop-IsConsistent,
}
use balotly_backend.Runtime.Lifecycle.{
  ok, Runtime, begin_stop, end_stop, wake_task, has_ended, all_ended, stopped_status, cancel,
}

-- A worker whose task has ended or has its cancellation still to come.
abbrev pub is_ready : Option Task → Bool
is_ready none = true
is_ready (some t) = has_ended t.point || t.cancel_requested

abbrev pub is_done : Option Task → Bool
is_done none = true
is_done (some t) = has_ended t.point

abbrev interrupted_status : Point → WorkerStatus → WorkerStatus
interrupted_status created s = s
interrupted_status p s = record s { state = WorkerState.stopped; next_retry_seconds = none }

-- The event loop delivers to a worker the cancellation that has been requested for its task, and the
-- worker passes it on.
pub record Delivery (name : String) (rt next : Runtime) : Type 0 where
  pub task : Task
  pub running : lookup name rt.tasks ≡ some task
  pub requested : task.cancel_requested ≡ true
  pub woken : wake_task name interrupted rt ≡ some next

-- What a stop leaves behind.
pub record IsStopped (rt : Runtime) : Type 0 where
  pub down : rt.started ≡ false
  pub unlocked : rt.locked ≡ false
  pub empty : rt.tasks ≡ []
  pub shown :
      (n : String) (s : WorkerStatus)
      → lookup n rt.statuses ≡ some s
      → (s.state ≡ WorkerState.stopped) × (s.next_retry_seconds ≡ none)

-- A stop returns in whatever order the requested cancellations are delivered: it either can end now,
-- or there is a delivery to make, and after each delivery that can be made it returns.
pub data IsReturning : Runtime → Type 0 where
  now : {rt final : Runtime} → end_stop rt ≡ some final → IsStopped final → IsReturning rt
  later :
      {rt : Runtime} {name : String} {next : Runtime}
      → Delivery name rt next
      → ((n : String) (after : Runtime) → Delivery n rt after → IsReturning after)
      → IsReturning rt

-- A stop that waits and is not cancelled, with no runner that has swallowed its cancellation.
record IsWaiting (rt : Runtime) : Type 0 where
  consistent : IsConsistent rt
  held : rt.locked ≡ true
  kept : rt.stop_cancelled ≡ false
  ready : (n : String) → is_ready (lookup n rt.tasks) ≡ true

-- The tasks whose cancellation is still to come.
abbrev pending : Dict String Task → ℕ
pending [] = 0
pending ((n, t) ∷ tasks) = (if t.cancel_requested then suc (pending tasks) else pending tasks)

ended_task : Point → Task
ended_task p = record { point = p; cancel_requested = false }

pending-insert :
    (name : String) (p : Point) (t : Task) (tasks : Dict String Task)
    → lookup name tasks ≡ some t
    → t.cancel_requested ≡ true
    → suc (pending (insert name (ended_task p) tasks)) ≡ pending tasks
unfolding ended_task
pending-insert name p t [] e h = cc
pending-insert name p t ((n, u) ∷ tasks) e h = ground (arith, h, pending-insert name p t tasks)

-- A delivery leaves one cancellation less to come, and ends its task.
delivered :
    (rt : Runtime) (name : String) {next : Runtime}
    → IsWaiting rt
    → Delivery name rt next
    → (suc (pending next.tasks) ≡ pending rt.tasks) × IsWaiting next
unfolding supervise ended_task can_wake
delivered rt name {next} w d =
    let k = wake_task-Wakes rt name interrupted d.woken in
    let t' : Task = record { point = k.point; cancel_requested = false } in
    let over : k.point ≡ ended = ground (arith, k.resumed, k.allowed) in
    (
      rw k.result (pending-insert name k.point d.task rt.tasks d.running d.requested),
      record {
        consistent = wake_task-IsConsistent rt name interrupted w.consistent d.woken;
        held = ground (arith, k.result, w.held);
        kept = ground (arith, k.result, w.kept);
        ready = λ n. ground (arith, k.result, over, w.ready n, lookup-insert n name t' rt.tasks);
      },
    )

-- A worker that has not ended can be delivered its cancellation.
deliverable :
    (rt : Runtime) (name : String)
    → IsWaiting rt
    → is_done (lookup name rt.tasks) ≡ false
    → (next : Runtime) × Delivery name rt next
unfolding wake_task supervise can_wake
deliverable rt name w alive = elim (Option-cases (lookup name rt.tasks)) [
  | inl missing ↦ absurd (ground arith)
  | inr (t, e) ↦ elim (Option-cases (lookup name rt.statuses)) [
    | inl missing ↦ absurd (ground (arith, w.consistent.fits name))
    | inr (s, found) ↦
        let requested : t.cancel_requested ≡ true = ground (arith, w.ready name) in
        (
          record rt {
            statuses = insert name (interrupted_status t.point s) rt.statuses;
            tasks = insert name (record { point = ended; cancel_requested = false }) rt.tasks;
          },
          record {
            task = t;
            running = e;
            requested = requested;
            woken = ground (arith, requested);
          },
        )
  ]
]

-- One of the names has a task that has not ended, or none has.
find_alive :
    (names : List String) (tasks : Dict String Task)
    → ((n : String) × (is_done (lookup n tasks) ≡ false))
      ⊎ ((n : String) → contains names n ≡ true → is_done (lookup n tasks) ≡ true)
find_alive [] tasks = inr (λ n h. cc)
find_alive (m ∷ names) tasks = elim (Bool-cases (is_done (lookup m tasks))) [
  | inr alive ↦ inl (m, alive)
  | inl done ↦ elim (find_alive names tasks) [
    | inl found ↦ inl found
    | inr all ↦ inr (λ n h. ground (arith, all n, done))
  ]
]

end_stop-IsStopped :
    (rt : Runtime)
    → IsWaiting rt
    → all_ended rt.tasks ≡ true
    → (final : Runtime) × (end_stop rt ≡ some final) × IsStopped final
unfolding end_stop
end_stop-IsStopped rt w ends =
    let final : Runtime = record rt {
      locked = false;
      statuses = map_values stopped_status rt.statuses;
      tasks = [];
    } in
    let ended_now : end_stop rt ≡ some final = ground (arith, ends, w.kept) in
    let c = end_stop-IsConsistent rt w.consistent w.held ended_now in
    (
      final,
      ended_now,
      record {
        down = w.consistent.exclusive w.held;
        unlocked = refl;
        empty = refl;
        shown = λ n s e. ground (arith, c.fits n, w.consistent.exclusive w.held);
      },
    )

waiting_returns :
    (fuel : ℕ) (rt : Runtime) → IsWaiting rt → pending rt.tasks < fuel → IsReturning rt
waiting_returns zero rt w h = absurd (omega arith)
waiting_returns (suc fuel) rt w h = elim (find_alive rt.runners rt.tasks) [
  | inl (name, alive) ↦ later (deliverable rt name w alive).1 (λ n after d.
      let (less, w') = delivered rt n w d in waiting_returns fuel after w' (omega (arith, less)))
  | inr done ↦
      let ends : all_ended rt.tasks ≡ true =
        all_values_of (λ t. has_ended t.point) rt.tasks w.consistent.distinct
          (λ n t e. ground (arith, done n, w.consistent.fits n, has_status rt w.consistent n)) in
      let (final, e, stopped) = end_stop-IsStopped rt w ends in now e stopped
]

begin_stop-IsWaiting :
    (rt : Runtime)
    → IsConsistent rt
    → rt.started ≡ true
    → rt.locked ≡ false
    → (mid : Runtime) × (begin_stop rt ≡ ok mid) × IsWaiting mid
unfolding begin_stop
begin_stop-IsWaiting rt v up free =
    let (mid, begun, v', down) = begin_stop-IsConsistent rt v free in
    let marks = mark_stopping-Marks rt.tasks rt.statuses (λ n h e. h (ground (arith, v.fits n))) in
    let same : mid ≡ record rt {
      started = false;
      locked = true;
      stop_cancelled = false;
      statuses = marks.0;
      tasks = map_values cancel rt.tasks;
    } =
      ground (arith, begun, marks.1) in
    (
      mid,
      begun,
      record {
        consistent = v';
        held = ground (arith, same);
        kept = ground (arith, same);
        ready = λ n. ground (arith, same, lookup-map_values cancel n rt.tasks);
      },
    )

-- From a consistent runtime that has started and whose lock is free, `stop` raises no error and then
-- returns in whatever order its cancellations are delivered, where every runner answers by passing its
-- cancellation on and the stop is not itself cancelled: until each task has ended there is a requested
-- cancellation that can be delivered, finitely many deliveries are made, and after the last one the
-- stop ends with the lock free, no task left, and every worker stopped with no retry announced.
pub stop_returns :
    (rt : Runtime)
    → IsConsistent rt
    → rt.started ≡ true
    → rt.locked ≡ false
    → (mid : Runtime) × (begin_stop rt ≡ ok mid) × IsReturning mid
stop_returns rt v up free =
    let (mid, begun, w) = begin_stop-IsWaiting rt v up free in
    (mid, begun, waiting_returns (suc (pending mid.tasks)) mid w (omega arith))
