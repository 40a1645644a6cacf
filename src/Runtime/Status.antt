-- ===== src/Runtime/Status.antt =====
-- The status of one worker and the point at which its supervisor is suspended (workers/runtime.py).
use balotly_backend.Base.{ℕ, Option, none, Bool}

pub data WorkerState : Type 0 where
  starting running backoff stopping stopped : WorkerState

pub data WorkerExit : Type 0 where
  exception returned : WorkerExit

-- `_WorkerStatus`. A delay is counted in units of 2^-1074 seconds, as in Backoff.
pub record WorkerStatus : Type 0 where
  pub state : WorkerState
  pub restart_count : ℕ
  pub last_exit : Option WorkerExit
  pub next_retry_seconds : Option ℕ

-- `_WorkerStatus()`
abbrev pub fresh_status : WorkerStatus
fresh_status = record {
  state = stopped;
  restart_count = 0;
  last_exit = none;
  next_retry_seconds = none;
}

-- Where a supervisor's coroutine stands: not yet run, at `await runner_factory()`, at
-- `await asyncio.sleep(retry_seconds)`, or ended.
pub data Point : Type 0 where
  created in_runner asleep ended : Point

-- An `asyncio.Task`: `cancel_requested` is set by `cancel()` until the coroutine has seen it.
pub record Task : Type 0 where
  pub point : Point
  pub cancel_requested : Bool
