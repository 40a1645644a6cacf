-- ===== src/Runtime/Lifecycle.antt =====
-- `EmbeddedWorkerRuntime`: construction, `start`, `stop` and `status_snapshot` (workers/runtime.py).
pub mod Loops
pub mod Invariant
pub mod Workers
pub mod Shutdown
pub mod Stuck
pub mod Survival
use Prim.Native.Char.{code}
use balotly_backend.Base.{
  ℕ, Option, none, some, Bool, true, false, ◌||◌, ◌&&◌, not, ◌≡◌, String, List, [], ◌∷◌, map, leb,
  ltb, eqb, if◌then◌else◌, ◌==◌, string_eq,
}
use balotly_backend.Base.Dict.{Dict, keys, map_values, lookup, insert, all_values}
use balotly_backend.Runtime.Backoff.{BackoffConfig}
use balotly_backend.Runtime.Status.{
  WorkerState, starting, stopping, stopped, WorkerStatus, fresh_status, Point, created, ended, Task,
}
use balotly_backend.Runtime.Supervisor.{Wake, supervise, can_wake}

-- What the runtime raises: the constructor's ValueErrors in their order, and a KeyError.
pub data Error : Type 0 where
  no_runners blank_name bad_base infinite_maximum maximum_below_base key_error : Error

pub data Result (A : Type 0) : Type 0 where
  ok : A → Result A
  err : Error → Result A

infixl 5 ◌>>=◌ ◌>>◌
abbrev pub ◌>>=◌ : {A B : Type 0} → Result A → (A → Result B) → Result B
ok a >>= f = f a
err e >>= f = err e

abbrev pub ◌>>◌ : {A B : Type 0} → Result A → Result B → Result B
m >> k = m >>= λ _. k

abbrev raise_if : Bool → Error → Result (Unit {0})
raise_if true e = err e
raise_if false e = ok tt

-- A Python float: a finite one in units of 2^-1074, negative or not.
pub data Float : Type 0 where
  nan infinity : Float
  negative finite : ℕ → Float

-- `math.isfinite(x)`
abbrev is_finite : Float → Bool
is_finite (finite n) = true
is_finite (negative n) = true
is_finite x = false

-- `x <= 0`. The number of a negative float is its distance from zero.
abbrev le_zero : Float → Bool
le_zero (finite n) = eqb n 0
le_zero (negative n) = true
le_zero x = false

-- `x < y`, for finite floats.
abbrev lt_float : Float → Float → Bool
lt_float (finite m) (finite n) = ltb m n
lt_float (negative m) (finite n) = true
lt_float (negative m) (negative n) = ltb n m
lt_float x y = false

abbrev pub units : Float → ℕ
units (finite n) = n
units x = 0

-- `str.isspace` for one character: Unicode's white space and the four separators.
is_space : ℕ → Bool
is_space c =
    (leb 9 c && leb c 13)
    || (leb 28 c && leb c 32)
    || eqb c 133
    || eqb c 160
    || eqb c 5760
    || (leb 8192 c && leb c 8202)
    || eqb c 8232
    || eqb c 8233
    || eqb c 8239
    || eqb c 8287
    || eqb c 12288

-- `not name or not name.strip()`: a text is blank if every character is white space.
unfoldable pub is_blank : String → Bool
unfolding is_space
is_blank String.[] = true
is_blank (String.◌∷◌ c s) = is_space (code c) && is_blank s

any_blank : List String → Bool
any_blank [] = false
any_blank (n ∷ ns) = is_blank n || any_blank ns

-- The runtime's attributes. `locked` is the lifecycle lock; a runner factory is known by its name.
-- `stop_cancelled` belongs to the `gather` that `stop` awaits: whether it has been cancelled.
pub record Runtime : Type 0 where
  pub runners : List String
  pub backoff : BackoffConfig
  pub statuses : Dict String WorkerStatus
  pub tasks : Dict String Task
  pub started : Bool
  pub locked : Bool
  pub stop_cancelled : Bool

pub with_fresh_status : List String → Dict String WorkerStatus
with_fresh_status [] = []
with_fresh_status (n ∷ ns) = (n, fresh_status) ∷ with_fresh_status ns

abbrev is_empty : List String → Bool
is_empty [] = true
is_empty (n ∷ ns) = false

-- The attributes that the constructor sets.
pub initial : (exponent : ℕ → ℕ → ℕ) → List String → Float → Float → Runtime
unfolding with_fresh_status
initial exponent runners base maximum = record {
  runners = runners;
  backoff = record {
    base = units base;
    maximum = units maximum;
    max_exponent = exponent (units base) (units maximum);
  };
  statuses = with_fresh_status runners;
  tasks = [];
  started = false;
  locked = false;
  stop_cancelled = false;
}

-- The constructor. `exponent` is `math.ceil(math.log2(maximum) - math.log2(base))`.
unfoldable pub create : (exponent : ℕ → ℕ → ℕ) → List String → Float → Float → Result Runtime
unfolding any_blank initial
create exponent runners base maximum = do
  raise_if (is_empty runners) no_runners
  raise_if (any_blank runners) blank_name
  raise_if (not (is_finite base) || le_zero base) bad_base
  raise_if (not (is_finite maximum)) infinite_maximum
  raise_if (lt_float maximum base) maximum_below_base
  ok (initial exponent runners base maximum)

-- `self._statuses[name]`
abbrev index : {V : Type 0} → String → Dict String V → Result V
index name d = elim (lookup name d) [ none ↦ err key_error | some v ↦ ok v ]

abbrev pub started_status : WorkerStatus
started_status = record fresh_status { state = starting }

abbrev pub new_task : Task
new_task = record { point = created; cancel_requested = false }

-- The loop of `start` over the runners. It sets all four fields of the status.
pub start_workers :
    List String
    → Dict String WorkerStatus
    → Dict String Task
    → Result (Dict String WorkerStatus × Dict String Task)
start_workers [] statuses tasks = ok (statuses, tasks)
start_workers (name ∷ names) statuses tasks =
    index name statuses
    >> start_workers names (insert name started_status statuses) (insert name new_task tasks)

-- `start`: no await between taking the lock and releasing it.
unfoldable pub start : Runtime → Result Runtime
unfolding start_workers
start rt = if rt.started then ok rt else do
  (statuses, tasks) ← start_workers rt.runners rt.statuses rt.tasks
  ok (record rt { started = true; statuses = statuses; tasks = tasks })

abbrev pub has_ended : Point → Bool
has_ended ended = true
has_ended p = false

-- `task.cancel()`; it does nothing to a task that has ended.
abbrev pub cancel : Task → Task
cancel t = if has_ended t.point then t else record t { cancel_requested = true }

-- The loop of `stop` over the tasks, as far as it sets the statuses.
pub mark_stopping : Dict String Task → Dict String WorkerStatus → Result (Dict String WorkerStatus)
mark_stopping [] statuses = ok statuses
mark_stopping ((name, t) ∷ tasks) statuses = do
  status ← index name statuses
  mark_stopping tasks (insert name (record status { state = stopping }) statuses)

-- `stop` up to `await asyncio.gather(...)`, which it does with the lock held.
unfoldable pub begin_stop : Runtime → Result Runtime
unfolding mark_stopping
begin_stop rt = if not rt.started then ok rt else do
  statuses ← mark_stopping rt.tasks rt.statuses
  ok (record rt {
    started = false;
    locked = true;
    stop_cancelled = false;
    statuses = statuses;
    tasks = map_values cancel rt.tasks;
  })

abbrev pub all_ended : Dict String Task → Bool
all_ended = all_values (λ t. has_ended t.point)

abbrev pub stopped_status : WorkerStatus → WorkerStatus
stopped_status s = record s { state = stopped; next_retry_seconds = none }

-- `stop` from the return of `gather` on; none while a task still runs, and for a `gather` that has been
-- cancelled, which raises instead.
unfoldable pub end_stop : Runtime → Option Runtime
end_stop rt =
    if all_ended rt.tasks && not rt.stop_cancelled
    then some
        (record rt { locked = false; statuses = map_values stopped_status rt.statuses; tasks = [] })
    else none

-- The task that awaits `stop` is cancelled while it waits: `gather` hands that on to the tasks.
unfoldable pub cancel_stop : Runtime → Runtime
cancel_stop rt = record rt { stop_cancelled = true; tasks = map_values cancel rt.tasks }

-- A cancelled `gather` raises `CancelledError` once all tasks have ended: it leaves `stop` by the lock's
-- release, before the tasks are cleared.
unfoldable pub raise_stop : Runtime → Option Runtime
raise_stop rt =
    if all_ended rt.tasks && rt.stop_cancelled
    then some (record rt { locked = false; stop_cancelled = false })
    else none

-- The event loop resumes the supervisor of a worker; none if it cannot be resumed so.
unfoldable pub wake_task : String → Wake → Runtime → Option Runtime
unfolding supervise can_wake
wake_task name wake rt = elim (lookup name rt.tasks) [
  | none ↦ none
  | some t ↦ elim (lookup name rt.statuses) [
    | none ↦ none
    | some s ↦
        if can_wake t wake
        then elim (supervise rt.backoff t.point wake s) [
          | none ↦ none
          | some (s', point) ↦ some (record rt {
            statuses = insert name s' rt.statuses;
            tasks = insert name (record { point = point; cancel_requested = false }) rt.tasks;
          })
        ]
        else none
  ]
]

-- `status_snapshot`
pub record Snapshot : Type 0 where
  pub running : Bool
  pub workers : Dict String WorkerStatus

unfoldable pub status_snapshot : Runtime → Snapshot
status_snapshot rt = record {
  running = rt.started;
  workers =
      map_values
        (λ s. record {
          state = s.state;
          restart_count = s.restart_count;
          last_exit = s.last_exit;
          next_retry_seconds = s.next_retry_seconds;
        })
        rt.statuses;
}

-- What can happen between two awaits: a caller starts or stops the runtime while the lock is free, the
-- stop that holds the lock ends, is cancelled or ends by its cancellation, or the event loop resumes a
-- supervisor. A caller that is cancelled while it waits for the lock changes nothing.
pub data Step (rt next : Runtime) : Type 0 where
  starts : rt.locked ≡ false → start rt ≡ ok next → Step rt next
  stop_begins : rt.locked ≡ false → begin_stop rt ≡ ok next → Step rt next
  stop_ends : rt.locked ≡ true → end_stop rt ≡ some next → Step rt next
  stop_cancels : rt.locked ≡ true → next ≡ cancel_stop rt → Step rt next
  stop_raises : rt.locked ≡ true → raise_stop rt ≡ some next → Step rt next
  wakes : (name : String) (wake : Wake) → wake_task name wake rt ≡ some next → Step rt next

pub data Reach (rt : Runtime) : Runtime → Type 0 where
  here : Reach rt rt
  step : {a b : Runtime} → Reach rt a → Step a b → Reach rt b
