-- ===== src/App/Lifespan/Laws.antt =====
-- What `lifespan` (main.py) does on every path.
use mathlib.Core.List.{append_assoc}
use balotly_backend.Base.{
  Bool, true, false, ◌≡◌, ◌≢◌, ◌↔◌, sym, ◌∙◌, ap, List, [], ◌∷◌, ◌++◌, arith, if◌then◌else◌, ◌&&◌,
  ◌||◌, ◌⊎◌,
}
use balotly_backend.App.Lifespan.{
  Action, check_database, ping_redis, connect_broker, start_workers, serve, stop_workers,
  close_broker, close_redis, dispose_engine, Outcome, done, cancelled, World, Ended, launch,
  serving, clean_up, lifespan, await, outcome_after,
}

-- Whether an action has been awaited.
abbrev pub is_start : Action → Bool
is_start start_workers = true
is_start a = false

abbrev pub is_serve : Action → Bool
is_serve serve = true
is_serve a = false

abbrev pub is_clean_up : Action → Bool
is_clean_up stop_workers = true
is_clean_up close_broker = true
is_clean_up close_redis = true
is_clean_up dispose_engine = true
is_clean_up a = false

abbrev pub awaited : (Action → Bool) → List Action → Bool
awaited p [] = false
awaited p (a ∷ t) = p a || awaited p t

abbrev pub initial : World
initial = record { trace = []; runtime = false; visible = false }

-- The clean-up: the workers first, if a runtime was built, and then the clients that they share.
abbrev pub shutdown : Bool → List Action
shutdown built =
    (if built then stop_workers ∷ [] else []) ++ close_broker ∷ close_redis ∷ dispose_engine ∷ []

outcome_after-world : (a : Outcome) (r : Ended) → (outcome_after a r).1 ≡ r.1
outcome_after-world a r = ground arith

serve-shutdown :
    (t : List Action) (built : Bool) → awaited is_serve (t ++ shutdown built) ≡ awaited is_serve t
serve-shutdown [] built = ground arith
serve-shutdown (a ∷ t) built = ground (arith, serve-shutdown t built)

append-three :
    (t : List Action) (a b c : Action) → ((t ++ a ∷ []) ++ b ∷ []) ++ c ∷ [] ≡ t ++ a ∷ b ∷ c ∷ []
append-three t a b c =
    append_assoc (t ++ a ∷ []) (b ∷ []) (c ∷ []) ∙ append_assoc t (a ∷ []) (b ∷ c ∷ [])

module _ (outcome : List Action → Action → Outcome) where
  -- What the clean-up leaves, whatever each of its steps raises.
  clean_up-trace :
      (w : World)
      → ((clean_up outcome w).1.trace ≡ w.trace ++ shutdown w.runtime)
        × ((clean_up outcome w).1.visible ≡ false)
  unfolding clean_up
  clean_up-trace w =
      let first : Ended = if w.runtime then await outcome stop_workers w else (done, w) in
      let w1 : World = record first.1 { visible = false } in
      let second : Ended = await outcome close_broker w1 in
      let third : Ended = await outcome close_redis second.1 in
      let last : Ended = await outcome dispose_engine third.1 in
      let same =
        outcome_after-world first.0 (outcome_after second.0 (outcome_after third.0 last))
        ∙ outcome_after-world second.0 (outcome_after third.0 last)
        ∙ outcome_after-world third.0 last in
      (
        ap (λ v. v.trace) same
            ∙ append-three w1.trace close_broker close_redis dispose_engine
            ∙ ground (
              arith,
              append_assoc w.trace (stop_workers ∷ [])
                  (close_broker ∷ close_redis ∷ dispose_engine ∷ []),
            ),
        ap (λ v. v.visible) same,
      )

  module _ (run_embedded registered : Bool) where
    abbrev started : Ended
    started = serving outcome run_embedded registered initial

    started-runtime :
        (awaited is_start started.1.trace ≡ started.1.runtime)
        × (awaited is_clean_up started.1.trace ≡ false)
    unfolding serving launch
    started-runtime = ground arith

    started-serves : (awaited is_serve started.1.trace ≡ true) ↔ (
        (outcome [] check_database ≡ done)
        × (outcome (check_database ∷ []) ping_redis ≡ done)
        × (outcome (check_database ∷ ping_redis ∷ []) connect_broker ≢ cancelled)
        × ((run_embedded && registered ≡ false)
            ⊎ (outcome (check_database ∷ ping_redis ∷ connect_broker ∷ []) start_workers ≡ done)))
    unfolding serving launch
    started-serves = ground arith

    lifespan-started : (lifespan outcome run_embedded registered).1 ≡ (clean_up outcome started.1).1
    unfolding lifespan
    lifespan-started = outcome_after-world started.0 (clean_up outcome started.1)

    -- On every path, however each await ends: after what was awaited to start and to serve come the
    -- clean-up's actions, each once, in their order, and nothing else; the workers are stopped exactly
    -- if their start was awaited, even where it failed; and the state no longer shows a runtime.
    pub lifespan_cleans_up :
        let r = (lifespan outcome run_embedded registered).1 in
        let started = (serving outcome run_embedded registered initial).1.trace in
        (r.trace ≡ started ++ shutdown (awaited is_start started))
        × (awaited is_clean_up started ≡ false)
        × (r.visible ≡ false)
    lifespan_cleans_up =
        let cleaned = clean_up-trace started.1 in
        (
          ap (λ w. w.trace) lifespan-started
              ∙ cleaned.0
              ∙ ap (λ b. started.1.trace ++ shutdown b) (sym started-runtime.0),
          started-runtime.1,
          ap (λ w. w.visible) lifespan-started ∙ cleaned.1,
        )

    -- The application serves exactly if the database and Redis answer, the broker's connection is not
    -- interrupted (that it fails does no harm), and the workers, if it has any, start.
    pub serves_iff :
        (awaited is_serve (lifespan outcome run_embedded registered).1.trace ≡ true) ↔ (
          (outcome [] check_database ≡ done)
          × (outcome (check_database ∷ []) ping_redis ≡ done)
          × (outcome (check_database ∷ ping_redis ∷ []) connect_broker ≢ cancelled)
          × ((run_embedded && registered ≡ false)
              ⊎ (outcome (check_database ∷ ping_redis ∷ connect_broker ∷ []) start_workers ≡ done)))
    serves_iff =
        let same =
          ap (λ w. awaited is_serve w.trace) lifespan-started
          ∙ ap (awaited is_serve) (clean_up-trace started.1).0
          ∙ serve-shutdown started.1.trace started.1.runtime in
        (λ h. started-serves.0 (sym same ∙ h), λ h. same ∙ started-serves.1 h)
