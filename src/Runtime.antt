-- ===== src/Runtime.antt =====
-- workers/runtime.py: the embedded worker runtime, its supervisors and its lifecycle.
pub mod Backoff
pub mod Status
pub mod Supervisor
pub mod Lifecycle
mod Tests
