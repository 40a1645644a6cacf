-- ===== src/Runtime/Supervisor.antt =====
-- `_supervise` (workers/runtime.py), cut at its awaits: one call of `supervise` runs the coroutine
-- from the await at which it is suspended to the next.
use balotly_backend.Base.{suc, Option, none, some, Bool, true, false}
use balotly_backend.Runtime.Backoff.{BackoffConfig, retry_seconds}
use balotly_backend.Runtime.Status.{
  WorkerState, WorkerExit, exception, returned, WorkerStatus, Point, created, in_runner, asleep,
  ended, Task,
}

-- How the event loop resumes the coroutine: the await completes, raises an `Exception`, or raises
-- `CancelledError` or another exception that is no `Exception`.
pub data Wake : Type 0 where
  completes fails interrupted : Wake

-- The `finally` block.
abbrev finish : WorkerStatus → WorkerStatus × Point
finish s = (record s { state = WorkerState.stopped; next_retry_seconds = none }, ended)

-- The head of the loop, up to `await runner_factory()`.
abbrev run_again : WorkerStatus → WorkerStatus × Point
run_again s = (record s { state = WorkerState.running; next_retry_seconds = none }, in_runner)

-- From the end of the runner to `await asyncio.sleep(retry_seconds)`; an OverflowError of `ldexp`
-- leaves the loop through `finally`.
unfoldable pub back_off : BackoffConfig → WorkerExit → WorkerStatus → WorkerStatus × Point
back_off c why s = elim (retry_seconds c s.restart_count) [
  | none ↦ finish (record s { last_exit = some why })
  | some delay ↦ (
    record {
      state = WorkerState.backoff;
      restart_count = suc s.restart_count;
      last_exit = some why;
      next_retry_seconds = some delay;
    },
    asleep,
  )
]

-- None where the coroutine cannot be resumed so. A task that is cancelled before its first step
-- never enters the `try`.
unfoldable pub supervise :
    BackoffConfig → Point → Wake → WorkerStatus → Option (WorkerStatus × Point)
supervise c created completes s = some (run_again s)
supervise c created fails s = none
supervise c created interrupted s = some (s, ended)
supervise c in_runner completes s = some (back_off c returned s)
supervise c in_runner fails s = some (back_off c exception s)
supervise c in_runner interrupted s = some (finish s)
supervise c asleep completes s = some (run_again s)
supervise c asleep fails s = none
supervise c asleep interrupted s = some (finish s)
supervise c ended wake s = none

-- `cancel()` reaches a suspended coroutine at its next resumption. Within the runner it is the
-- runner that receives it, and its answer may be any of the three; it may also raise
-- `CancelledError` by itself.
unfoldable pub can_wake : Task → Wake → Bool
can_wake t w = allowed t.point t.cancel_requested w
  where
    allowed : Point → Bool → Wake → Bool
    allowed in_runner c w = true
    allowed ended c w = false
    allowed p true interrupted = true
    allowed p true w = false
    allowed p false interrupted = false
    allowed p false w = true
