-- ===== src/App/Health/Laws.antt =====
-- What `health_check` (main.py) says of a runtime of workers/runtime.py.
use mathlib.Core.Option
use balotly_backend.Base.{Option, none, ◌≡◌, ◌≢◌, ◌↔◌, string_eq}
use balotly_backend.Runtime.Status.{
  WorkerState, WorkerStatus, Point, created, in_runner, asleep, ended,
}
use balotly_backend.Runtime.Lifecycle.{Runtime}

-- The state that the report should give a worker whose supervisor stands there.
abbrev pub shown_state : Point → WorkerState
shown_state created = WorkerState.starting
shown_state in_runner = WorkerState.running
shown_state asleep = WorkerState.backoff
shown_state ended = WorkerState.stopped

abbrev pub IsTrue : WorkerStatus → Point → Type 0
IsTrue s p = (s.state ≡ shown_state p) × ((s.next_retry_seconds ≢ none) ↔ (p ≡ asleep))
