-- ===== src/App/Health.antt =====
-- `health_check` (main.py), on the runtime that `app.state` shows.
pub mod Laws
use balotly_backend.Base.{Option, none, some, String}
use balotly_backend.Runtime.Lifecycle.{Runtime, Snapshot, status_snapshot}

pub record Health : Type 0 where
  pub status : String
  pub worker_mode : String
  pub workers : Option Snapshot

-- Without a runtime the workers are an empty dict, which is none here.
unfoldable pub health_check : Option Runtime → Health
health_check none = record { status = "healthy"; worker_mode = "external"; workers = none }
health_check (some rt) = record {
  status = "healthy";
  worker_mode = "embedded";
  workers = some (status_snapshot rt);
}
