-- ===== src/Runtime/Lifecycle/Survival.antt =====
-- The workers of a runtime (workers/runtime.py) that is started and serves, while their runners return
-- and fail.

use balotly_backend.Base.{
  ℕ, suc, ◌*◌, ◌^◌, min, Option, none, some, Bool, true, false, ◌≡◌, ◌≢◌, String, string_eq,
  contains,
}
use balotly_backend.Base.Dict.{lookup}
use balotly_backend.Runtime.Backoff.{BackoffConfig}
use balotly_backend.Runtime.Status.{WorkerStatus, created, in_runner, asleep, ended, Task}
use balotly_backend.Runtime.Supervisor.{Wake, interrupted}
use balotly_backend.Runtime.Lifecycle.{Runtime, wake_task}

-- What the event loop makes of a runtime while nobody stops it, and no runner raises `CancelledError`
-- by itself.
pub data Serves (rt : Runtime) : Runtime → Type 0 where
  begun : Serves rt rt
  resumed :
      {a b : Runtime}
      → Serves rt a
      → (name : String) (wake : Wake) → wake ≢ interrupted
      → wake_task name wake a ≡ some b
      → Serves rt b

is_alive : Option Task → Bool
is_alive none = false
is_alive (some t) = elim t.point [
  | created ↦ true
  | in_runner ↦ true
  | asleep ↦ true
  | ended ↦ false
]

-- A started runtime with the backoff and the runners of another, all of whose workers are alive.
record IsAlive (rt now : Runtime) : Type 0 where
  up : now.started ≡ true
  same : now.backoff ≡ rt.backoff
  named : now.runners ≡ rt.runners
  alive : (n : String) → contains rt.runners n ≡ true → is_alive (lookup n now.tasks) ≡ true

-- A worker that is served: its runner runs or is about to, or it sleeps for the delay that belongs to its
-- restarts.
pub record IsServed (c : BackoffConfig) (s : WorkerStatus) (t : Task) : Type 0 where
  pub awake : t.point ≢ ended
  pub untouched : t.cancel_requested ≡ false
  pub delay :
      t.point ≡ asleep
      → (k : ℕ) × (s.restart_count ≡ suc k)
        × (s.next_retry_seconds ≡ some (min (c.base * 2 ^ k) c.maximum))
