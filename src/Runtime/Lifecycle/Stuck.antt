-- ===== src/Runtime/Lifecycle/Stuck.antt =====
-- The runners that keep `stop` (workers/runtime.py) waiting: those that answer their cancellation with
-- anything but `CancelledError`.

use balotly_backend.Base.{
  ℕ, Option, none, some, Bool, true, false, ◌≡◌, ◌≢◌, ◌&&◌, not, ◌⊎◌, refl, String, arith, ◌==◌,
  string_eq, inl, inr, Option-cases, subst,
}
use balotly_backend.Base.Dict.{lookup, lookup-insert, lookup-all_values}
use balotly_backend.Runtime.Backoff.{BackoffConfig, retry_seconds}
use balotly_backend.Runtime.Status.{WorkerStatus, Point, in_runner, asleep, Task}
use balotly_backend.Runtime.Supervisor.{Wake, interrupted, supervise, back_off}
use balotly_backend.Runtime.Lifecycle.Loops.{wake_task-Wakes}
use balotly_backend.Runtime.Lifecycle.{
  Runtime, stop_cancels, stop_raises, raise_stop, end_stop, wake_task, has_ended, Step, starts,
  stop_begins, stop_ends, wakes,
}

-- A task that is not about to end: its runner runs or its supervisor sleeps, and no cancellation is
-- to come.
abbrev is_up : Point → Bool
is_up in_runner = true
is_up asleep = true
is_up p = false

abbrev pub goes_on : Option Task → Bool
goes_on none = false
goes_on (some t) = is_up t.point && not t.cancel_requested

-- Whether a step is the worker's runner raising `CancelledError`, or a cancellation of the stop.
abbrev pub interrupts : String → {a b : Runtime} → Step a b → Bool
interrupts name (wakes m interrupted e) = m == name
interrupts name (stop_cancels held e) = true
interrupts name st = false

-- Steps among which the worker's runner never raises `CancelledError` and the stop is not cancelled.
pub data ReachBut (name : String) (rt : Runtime) : Runtime → Type 0 where
  stay : ReachBut name rt rt
  more :
      {a b : Runtime}
      → ReachBut name rt a
      → (st : Step a b) → interrupts name st ≡ false
      → ReachBut name rt b

-- A stop that waits for a worker that goes on.
record IsStuck (c : BackoffConfig) (name : String) (rt : Runtime) : Type 0 where
  held : rt.locked ≡ true
  up : goes_on (lookup name rt.tasks) ≡ true
  same : rt.backoff ≡ c

IsStuck-end_stop :
    {c : BackoffConfig} {name : String} {rt : Runtime} → IsStuck c name rt → end_stop rt ≡ none
unfolding end_stop
IsStuck-end_stop {name = name} {rt} s = elim (Option-cases (lookup name rt.tasks)) [
  | inl e ↦ absurd (ground (arith, s.up))
  | inr (t, e) ↦ ground (arith, s.up, lookup-all_values (λ t. has_ended t.point) name t rt.tasks)
]

IsStuck-raise_stop :
    {c : BackoffConfig} {name : String} {rt : Runtime} → IsStuck c name rt → raise_stop rt ≡ none
unfolding raise_stop
IsStuck-raise_stop {name = name} {rt} s = elim (Option-cases (lookup name rt.tasks)) [
  | inl e ↦ absurd (ground (arith, s.up))
  | inr (t, e) ↦ ground (arith, s.up, lookup-all_values (λ t. has_ended t.point) name t rt.tasks)
]

module _ (c : BackoffConfig) (name : String)
    (no_overflow : (k : ℕ) → retry_seconds c k ≢ none) where
  supervise_up :
      (p p' : Point) (wake : Wake) (s s' : WorkerStatus)
      → wake ≢ interrupted
      → supervise c p wake s ≡ some (s', p')
      → is_up p' ≡ true
  unfolding supervise back_off
  supervise_up p p' wake s s' ne e = ground (arith, no_overflow s.restart_count)

  -- A resumption that is no interruption of the worker leaves it up.
  wakes-IsStuck :
      (a : Runtime) {b : Runtime} (m : String) (wake : Wake)
      → (m ≡ name → wake ≢ interrupted)
      → wake_task m wake a ≡ some b
      → (goes_on (lookup name a.tasks) ≡ true) ⊎ (m ≡ name)
      → a.locked ≡ true
      → a.backoff ≡ c
      → IsStuck c name b
  wakes-IsStuck a {b} m wake ne e up held same =
      let w = wake_task-Wakes a m wake e in
      let t' : Task = record { point = w.point; cancel_requested = false } in
      let resumed : supervise c w.task.point wake w.status ≡ some (w.status', w.point) =
        subst (λ d. supervise d w.task.point wake w.status ≡ some (w.status', w.point)) same
          w.resumed in
      record {
        held = ground (arith, w.result);
        up = ground (
          arith,
          w.result,
          lookup-insert name m t' a.tasks,
          λ (n : wake ≢ interrupted).
              supervise_up w.task.point w.point wake w.status w.status' n resumed,
        );
        same = ground (arith, w.result);
      }

  Step-IsStuck :
      {a b : Runtime} (st : Step a b)
      → interrupts name st ≡ false
      → IsStuck c name a
      → IsStuck c name b
  Step-IsStuck (starts free e) i s = cc (s.held)
  Step-IsStuck (stop_begins free e) i s = cc (s.held)
  Step-IsStuck (stop_ends held e) i s = cc (IsStuck-end_stop s)
  Step-IsStuck (stop_cancels held e) i s = cc
  Step-IsStuck (stop_raises held e) i s = cc (IsStuck-raise_stop s)
  Step-IsStuck {a} (wakes m wake e) i s =
      wakes-IsStuck a m wake (λ p q. ground arith) e (inl s.up) s.held s.same

  -- Where no delay overflows: once a supervisor is resumed while a stop waits, and not by a
  -- `CancelledError`, as when its runner answers the cancellation by returning or by raising an
  -- ordinary exception, the stop goes on waiting, and neither returns nor raises, whatever happens
  -- but two things: that worker's runner raises `CancelledError` by itself, or the task that awaits
  -- the stop is cancelled.
  pub stop_waits_on :
      (rt : Runtime) {next now : Runtime} (wake : Wake)
      → rt.backoff ≡ c
      → rt.locked ≡ true
      → wake ≢ interrupted
      → wake_task name wake rt ≡ some next
      → ReachBut name next now
      → (now.locked ≡ true) × (end_stop now ≡ none) × (raise_stop now ≡ none)
  stop_waits_on rt {next} {now} wake same held ne e r =
      (s.held, IsStuck-end_stop s, IsStuck-raise_stop s)
    where
      stuck : {b : Runtime} → ReachBut name next b → IsStuck c name b
      stuck stay = wakes-IsStuck rt name wake (λ p. ne) e (inr refl) held same
      stuck (more r st i) = Step-IsStuck st i (stuck r)

      s : IsStuck c name now
      s = stuck r
