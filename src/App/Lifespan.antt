-- ===== src/App/Lifespan.antt =====
-- `lifespan` (main.py): start-up, serving, and the clean-up in nested `finally` blocks.
--
-- Each await is an action on a client outside. How it ends is a parameter that may depend on all that
-- has happened before. Checking the database is one action with its connection's opening and closing.
pub mod Laws
use balotly_backend.Base.{Bool, true, false, List, [], ◌∷◌, ◌++◌, if◌then◌else◌}

pub data Action : Type 0 where
  check_database ping_redis connect_broker start_workers serve : Action
  stop_workers close_broker close_redis dispose_engine : Action

-- An await returns, raises an `Exception`, or raises something else, as a cancellation does.
pub data Outcome : Type 0 where
  done failed cancelled : Outcome

-- What was awaited so far, whether the local `worker_runtime` is there, and whether
-- `app.state.worker_runtime` is.
pub record World : Type 0 where
  pub trace : List Action
  pub runtime : Bool
  pub visible : Bool

abbrev pub Ended : Type 0
Ended = Outcome × World

abbrev pub then_do : Ended → (World → Ended) → Ended
then_do (done, w) f = f w
then_do r f = r

-- `except Exception` with a log line.
abbrev pub forgive : Ended → Ended
forgive (failed, w) = (done, w)
forgive r = r

-- `try ... finally`: an exception of the second part replaces one of the first.
abbrev pub outcome_after : Outcome → Ended → Ended
outcome_after first (done, w) = (first, w)
outcome_after first r = r

abbrev pub finally_do : Ended → (World → Ended) → Ended
finally_do (first, w) f = outcome_after first (f w)

module _ (outcome : List Action → Action → Outcome) where
  abbrev pub await : Action → World → Ended
  await a w = (outcome w.trace a, record w { trace = w.trace ++ a ∷ [] })

  -- `build_default_worker_runtime` gives a runtime where workers are registered.
  unfoldable pub launch : (run_embedded registered : Bool) → World → Ended
  launch run_embedded registered w =
      if run_embedded
      then if registered
        then then_do (await start_workers (record w { runtime = true }))
            (λ v. (done, record v { visible = true }))
        else (done, w)
      else (done, w)

  unfoldable pub serving : (run_embedded registered : Bool) → World → Ended
  unfolding launch
  serving run_embedded registered w = then_do (await check_database w) (λ w1.
      then_do (await ping_redis w1) (λ w2.
        then_do (forgive (await connect_broker w2))
          (λ w3. then_do (launch run_embedded registered w3) (await serve))))

  unfoldable pub clean_up : World → Ended
  clean_up w = finally_do (if w.runtime then await stop_workers w else (done, w)) (λ w1.
      finally_do (await close_broker (record w1 { visible = false }))
        (λ w2. finally_do (await close_redis w2) (await dispose_engine)))

  unfoldable pub lifespan : (run_embedded registered : Bool) → Ended
  unfolding serving clean_up
  lifespan run_embedded registered =
      finally_do
        (serving run_embedded registered (record { trace = []; runtime = false; visible = false }))
        clean_up
