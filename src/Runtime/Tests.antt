-- ===== src/Runtime/Tests.antt =====
-- Runs of workers/runtime.py on two small workers, and the theorems about it at concrete inputs.
use text.Mathlib.TextEquality.{eq_iff}
use balotly_backend.Base.{
  ℕ, ◌≤◌, Option, none, some, true, false, ◌≡◌, ◌≢◌, refl, String, List, [], ◌∷◌, arith, string_eq,
}
use balotly_backend.Base.Dict.{lookup}
use balotly_backend.Runtime.Backoff.{
  BackoffConfig, IsExponent, retry_seconds, ldexp, float_limit, retry_seconds-eq-min, scale_mono,
}
use balotly_backend.Runtime.Status.{
  WorkerState, exception, returned, WorkerStatus, created, in_runner, asleep, ended,
}
use balotly_backend.Runtime.Supervisor.{
  completes, fails, interrupted, supervise, back_off, can_wake,
}
use balotly_backend.Runtime.Lifecycle.{
  Runtime, ok, err, blank_name, maximum_below_base, finite, is_blank, create, start, begin_stop,
  end_stop, raise_stop, cancel_stop, wake_task, started_status, new_task, here, step, starts, wakes,
}
use balotly_backend.Runtime.Lifecycle.Invariant.{Built, IsConsistent, Reach-IsConsistent}
use balotly_backend.Runtime.Lifecycle.Workers.{crash_loop, crash_loop-doubling}
use balotly_backend.Runtime.Lifecycle.Shutdown.{IsReturning, stop_returns}
use balotly_backend.Runtime.Lifecycle.Stuck.{stay, stop_waits_on}

-- Half a minute at most, from one second on: here a second is one unit.
abbrev seconds : BackoffConfig
seconds = record { base = 1; maximum = 30; max_exponent = 5 }

seconds-IsExponent : IsExponent seconds
seconds-IsExponent = record {
  positive = omega arith;
  ordered = omega arith;
  reaches = omega arith;
  least = λ e h. omega (arith, scale_mono 1 e 4 (omega arith));
}

fits : 60 ≤ float_limit
unfolding float_limit
fits = omega arith

retry_seconds-eq-min_example : retry_seconds seconds 7 ≡ some 30
retry_seconds-eq-min_example = retry_seconds-eq-min seconds-IsExponent 7 fits

third_delay : retry_seconds seconds 3 ≡ some 8
third_delay = retry_seconds-eq-min seconds-IsExponent 3 fits

abbrev names : List String
names = "poster" ∷ "webhook" ∷ []

abbrev five : ℕ → ℕ → ℕ
five lo hi = 5

abbrev runtime : Runtime
runtime = record {
  runners = names;
  backoff = seconds;
  statuses = ("poster", idle) ∷ ("webhook", idle) ∷ [];
  tasks = [];
  started = false;
  locked = false;
  stop_cancelled = false;
}
  where
    idle : WorkerStatus
    idle = record {
      state = WorkerState.stopped;
      restart_count = 0;
      last_exit = none;
      next_retry_seconds = none;
    }

created_runtime : create five names (finite 1) (finite 30) ≡ ok runtime
unfolding create is_blank
created_runtime = refl

create_blank : create five ("poster" ∷ " \t" ∷ []) (finite 1) (finite 30) ≡ err blank_name
unfolding create is_blank
create_blank = refl

create_low_maximum : create five names (finite 60) (finite 1) ≡ err maximum_below_base
unfolding create is_blank
create_low_maximum = refl

built : Built runtime
built = record {
  exponent = five;
  names = names;
  base = finite 1;
  maximum = finite 30;
  accepted = created_runtime;
}

-- Both workers have been started, and the first one's runner runs.
abbrev serving : Runtime
serving = record {
  runners = names;
  backoff = seconds;
  statuses =
      ("poster", record started_status { state = WorkerState.running })
      ∷ ("webhook", started_status)
      ∷ [];
  tasks = ("poster", record new_task { point = in_runner }) ∷ ("webhook", new_task) ∷ [];
  started = true;
  locked = false;
  stop_cancelled = false;
}

abbrev just_started : Runtime
just_started = record serving {
  statuses = ("poster", started_status) ∷ ("webhook", started_status) ∷ [];
  tasks = ("poster", new_task) ∷ ("webhook", new_task) ∷ [];
}

starts_runtime : start runtime ≡ ok just_started
unfolding start string_eq
starts_runtime = refl

runs_poster : wake_task "poster" completes just_started ≡ some serving
unfolding wake_task string_eq
runs_poster = refl

Reach-IsConsistent_example : IsConsistent serving
Reach-IsConsistent_example =
    Reach-IsConsistent built
      (step (step here (starts refl starts_runtime)) (wakes "poster" completes runs_poster))

serving-IsConsistent : IsConsistent serving
serving-IsConsistent = Reach-IsConsistent_example

differ : ◌≢◌ {A = String} "webhook" "poster"
differ = ground (arith, eq_iff "webhook" "poster")

abbrev up_and_running : WorkerStatus
up_and_running = record started_status { state = WorkerState.running }

crash_loop-doubling_example :
    (s : WorkerStatus) × (crash_loop seconds (exception ∷ returned ∷ exception ∷ []) up_and_running
      ≡ some (some 1 ∷ some 2 ∷ some 4 ∷ [], s))
    × (s.restart_count ≡ 3)
    × (s.state ≡ WorkerState.running)
crash_loop-doubling_example =
    crash_loop-doubling seconds (exception ∷ returned ∷ exception ∷ []) up_and_running
      seconds-IsExponent fits refl

stop_returns_example : (mid : Runtime) × (begin_stop serving ≡ ok mid) × IsReturning mid
stop_returns_example = stop_returns serving serving-IsConsistent refl refl

-- The stop waits, and the first worker's runner raises an ordinary exception while it cleans up.
abbrev waiting : Runtime
waiting = record serving {
  statuses =
      ("poster", record started_status { state = WorkerState.stopping })
      ∷ ("webhook", record started_status { state = WorkerState.stopping })
      ∷ [];
  tasks =
      ("poster", record { point = in_runner; cancel_requested = true })
      ∷ ("webhook", record { point = created; cancel_requested = true })
      ∷ [];
  started = false;
  locked = true;
  stop_cancelled = false;
}

stops_serving : begin_stop serving ≡ ok waiting
unfolding begin_stop string_eq
stops_serving = refl

abbrev backing_off : Runtime
backing_off = record waiting {
  statuses =
      (
        "poster",
        record {
          state = WorkerState.backoff;
          restart_count = 1;
          last_exit = some exception;
          next_retry_seconds = some 1;
        },
      )
      ∷ ("webhook", record started_status { state = WorkerState.stopping })
      ∷ [];
  tasks =
      ("poster", record { point = asleep; cancel_requested = false })
      ∷ ("webhook", record { point = created; cancel_requested = true })
      ∷ [];
}

cleanup_fails : wake_task "poster" fails waiting ≡ some backing_off
unfolding wake_task string_eq retry_seconds ldexp float_limit back_off
cleanup_fails = refl

no_overflow : (k : ℕ) → retry_seconds seconds k ≢ none
no_overflow k e = ground (arith, retry_seconds-eq-min seconds-IsExponent k fits)

stop_waits_on_example :
    (backing_off.locked ≡ true) × (end_stop backing_off ≡ none) × (raise_stop backing_off ≡ none)
stop_waits_on_example =
    stop_waits_on seconds "poster" no_overflow waiting fails refl refl (λ e. cc) cleanup_fails stay

-- The task that awaits the stop is cancelled: the second cancellation ends the sleep, and the lock is
-- freed with the ended tasks still in the dict.
abbrev left_behind : Option Runtime
left_behind = elim (wake_task "poster" interrupted (cancel_stop backing_off)) [
  | none ↦ none
  | some a ↦ elim (wake_task "webhook" interrupted a) [ none ↦ none | some b ↦ raise_stop b ]
]

cancelled_stop_keeps_tasks :
    (rt : Runtime) × (left_behind ≡ some rt)
    × (rt.locked ≡ false)
    × (rt.started ≡ false)
    × (lookup "webhook" rt.tasks ≡ some (record { point = ended; cancel_requested = false }))
    × (lookup "webhook" rt.statuses ≡ some (record started_status { state = WorkerState.stopping }))
unfolding wake_task string_eq supervise can_wake cancel_stop raise_stop
cancelled_stop_keeps_tasks = (_, refl, refl, refl, refl, refl)
