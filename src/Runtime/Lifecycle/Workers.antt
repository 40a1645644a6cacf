-- ===== src/Runtime/Lifecycle/Workers.antt =====
-- What `start` and the supervisors do to single workers (workers/runtime.py).
use mathlib.Core.Option
use balotly_backend.Base.{
  ℕ, suc, ◌+◌, ◌*◌, ◌^◌, ◌≤◌, ◌<◌, min, Option, none, some, true, false, ◌≡◌, ◌≢◌, ◌↔◌, refl,
  String, List, [], ◌∷◌, arith, string_eq, contains, length, All,
}
use balotly_backend.Base.Dict.{lookup}
use balotly_backend.Runtime.Backoff.{
  BackoffConfig, IsExponent, float_limit, retry_seconds-eq-min, retry_seconds-overflow,
}
use balotly_backend.Runtime.Status.{
  WorkerState, WorkerExit, exception, returned, WorkerStatus, in_runner, ended,
}
use balotly_backend.Runtime.Supervisor.{Wake, completes, fails, supervise, back_off}
use balotly_backend.Runtime.Lifecycle.Loops.{start_workers-Starts}
use balotly_backend.Runtime.Lifecycle.Invariant.{IsConsistent, has_status}
use balotly_backend.Runtime.Lifecycle.{
  ok, Float, finite, units, is_blank, any_blank, Runtime, initial, create, start, started_status,
  new_task,
}

-- What the constructor accepts.
pub record Accepts (names : List String) (base maximum : Float) : Type 0 where
  pub nonempty : names ≢ []
  pub legible : All (λ n. is_blank n ≡ false) names
  pub low : ℕ
  pub high : ℕ
  pub is_low : base ≡ finite low
  pub is_high : maximum ≡ finite high
  pub positive : 0 < low
  pub ordered : low ≤ high

any_blank_iff :
    (names : List String) → (any_blank names ≡ false) ↔ All (λ n. is_blank n ≡ false) names
unfolding any_blank
any_blank_iff [] = (λ h. tt, λ h. refl)
any_blank_iff (n ∷ names) = ground (arith, any_blank_iff names)

-- The constructor accepts exactly a nonempty mapping of names that are not blank, with two finite
-- delays, the base positive and the maximum no smaller.
pub create-ok_iff :
    (exponent : ℕ → ℕ → ℕ) (names : List String) (base maximum : Float)
    → ((rt : Runtime) × (create exponent names base maximum ≡ ok rt)) ↔ Accepts names base maximum
unfolding create
create-ok_iff exponent names base maximum = (
  λ (rt, e). record {
    nonempty = ground arith;
    legible = (any_blank_iff names).0 (ground arith);
    low = units base;
    high = units maximum;
    is_low = ground arith;
    is_high = ground arith;
    positive = ground arith;
    ordered = ground arith;
  },
  λ a. (
    initial exponent names base maximum,
    ground (
      arith,
      a.nonempty,
      (any_blank_iff names).1 a.legible,
      a.is_low,
      a.is_high,
      a.positive,
      a.ordered,
    ),
  ),
)

-- A start of a consistent runtime that has not started gives every runner a new task and a status
-- with nothing left of an earlier run; a second start then changes nothing.
pub start_resets :
    (rt : Runtime) {next : Runtime} (name : String)
    → IsConsistent rt
    → rt.started ≡ false
    → contains rt.runners name ≡ true
    → start rt ≡ ok next
    → (lookup name next.statuses ≡ some started_status)
      × (lookup name next.tasks ≡ some new_task)
      × (next.started ≡ true)
      × (start next ≡ ok next)
unfolding start
start_resets rt {next} name v down known e =
    let run =
      start_workers-Starts rt.runners rt.statuses rt.tasks
        (λ n h e. ground (arith, has_status rt v n)) in
    ground (arith, run.2, run.3.statuses name, run.3.tasks name)

-- The resumption by which a runner's end shows.
abbrev pub wake_of : WorkerExit → Wake
wake_of exception = fails
wake_of returned = completes

-- The supervisor of a runner that ends in these ways, one after the other, each followed by the whole
-- sleep: the delays announced, and the status at the end.
pub crash_loop :
    BackoffConfig → List WorkerExit → WorkerStatus → Option (List (Option ℕ) × WorkerStatus)
unfolding supervise
crash_loop c [] s = some ([], s)
crash_loop c (why ∷ whys) s = elim (supervise c in_runner (wake_of why) s) [
  | none ↦ none
  | some (s', p) ↦ elim (supervise c p completes s') [
    | none ↦ none
    | some (s'', q) ↦ Option.map (λ r. (s'.next_retry_seconds ∷ r.0, r.1)) (crash_loop c whys s'')
  ]
]

-- The delays that the backoff ought to give from a restart count on.
abbrev pub doubling : BackoffConfig → ℕ → List WorkerExit → List (Option ℕ)
doubling c k [] = []
doubling c k (why ∷ whys) = some (min (c.base * 2 ^ k) c.maximum) ∷ doubling c (suc k) whys

-- Where the exponent is the least one that reaches the maximum and twice the maximum is a float, a
-- runner that keeps ending, by whatever exits, is restarted each time: the count grows by one at
-- each exit, the delays double from the base up to the maximum, and the supervisor ends up running.
pub crash_loop-doubling :
    (c : BackoffConfig) (whys : List WorkerExit) (s : WorkerStatus)
    → IsExponent c
    → c.maximum + c.maximum ≤ float_limit
    → s.state ≡ WorkerState.running
    → (s' : WorkerStatus) × (crash_loop c whys s ≡ some (doubling c s.restart_count whys, s'))
      × (s'.restart_count ≡ s.restart_count + length whys)
      × (s'.state ≡ WorkerState.running)
unfolding crash_loop back_off
crash_loop-doubling c [] s h fits up = (s, refl, omega arith, up)
crash_loop-doubling c (why ∷ whys) s h fits up =
    let again : WorkerStatus = record {
      state = WorkerState.running;
      restart_count = suc s.restart_count;
      last_exit = some why;
      next_retry_seconds = none;
    } in
    let rest = crash_loop-doubling c whys again h fits refl in
    (
      rest.0,
      ground (arith, rest.1, retry_seconds-eq-min h s.restart_count fits),
      omega (arith, rest.2),
      rest.3,
    )

-- Where the largest product overflows, the exit of a runner that has been restarted often enough
-- ends its supervisor: the worker shows as stopped, and is not restarted.
pub overflow_ends :
    (c : BackoffConfig) (s : WorkerStatus) (why : WorkerExit)
    → float_limit ≤ c.base * 2 ^ c.max_exponent
    → c.max_exponent ≤ s.restart_count
    → (s' : WorkerStatus) × (supervise c in_runner (wake_of why) s ≡ some (s', ended))
      × (s'.state ≡ WorkerState.stopped)
      × (s'.restart_count ≡ s.restart_count)
      × (s'.last_exit ≡ some why)
unfolding supervise back_off
overflow_ends c s why big often = (
  record s { state = WorkerState.stopped; last_exit = some why; next_retry_seconds = none },
  ground (arith, retry_seconds-overflow c s.restart_count),
  refl,
  refl,
  refl,
)
