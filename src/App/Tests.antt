-- ===== src/App/Tests.antt =====
-- Runs of main.py and api/core/mq.py with small stand-ins for the clients, and the theorems about them.
use balotly_backend.Base.{
  some, Bool, true, false, ◌≡◌, ◌≢◌, ◌↔◌, ◌⊎◌, refl, List, [], ◌∷◌, ◌++◌, string_eq,
}
use balotly_backend.Base.Text.{Text, codes}
use balotly_backend.App.Lifespan.{
  Action, check_database, ping_redis, connect_broker, start_workers, serve, stop_workers,
  close_broker, close_redis, dispose_engine, Outcome, done, failed, cancelled, lifespan, serving,
}
use balotly_backend.App.Lifespan.Laws.{
  awaited, is_start, is_serve, is_clean_up, initial, shutdown, lifespan_cleans_up, serves_iff,
}
use balotly_backend.App.Broker.{
  Call, connect_robust, open_channel, close_channel, declare_queue, publish_message, Library, World,
  connect, close, publish,
}
use balotly_backend.App.Broker.Laws.{Published, publish_closes, publish_returns}

-- Everything works but the broker, and stopping the workers fails.
abbrev no_broker : List Action → Action → Outcome
no_broker t connect_broker = failed
no_broker t stop_workers = failed
no_broker t a = done

lifespan_cleans_up_example :
    let r = (lifespan no_broker true true).1 in
    let started = (serving no_broker true true initial).1.trace in
    (r.trace ≡ started ++ shutdown (awaited is_start started))
    × (awaited is_clean_up started ≡ false)
    × (r.visible ≡ false)
lifespan_cleans_up_example = lifespan_cleans_up no_broker true true

-- The whole run.
no_broker_run :
    (lifespan no_broker true true).1.trace
    ≡ check_database ∷ ping_redis ∷ connect_broker ∷ start_workers ∷ serve ∷ stop_workers
      ∷ close_broker ∷ close_redis ∷ dispose_engine ∷ []
unfolding lifespan
no_broker_run = refl

serves_iff_example :
    (awaited is_serve (lifespan no_broker true true).1.trace ≡ true)
    ↔ ((done ≡ done) × (done ≡ done) × (failed ≢ cancelled) × ((true ≡ false) ⊎ (done ≡ done)))
serves_iff_example = serves_iff no_broker true true

-- The broker refuses to declare queues.
abbrev strict : Library
strict = record { raises = refuses; is_closed = λ t. false }
  where
    refuses : List Call → Call → Bool
    refuses t (declare_queue q) = true
    refuses t c = false

abbrev smooth : Library
smooth = record { raises = λ t c. false; is_closed = λ t. false }

abbrev idle : World
idle = record { calls = []; connected = false }

abbrev webhooks : Text
webhooks = codes "balotly.webhooks"

idle_connects :
    ((connect strict idle).0 ≡ true) × ((connect strict idle).1.calls ≡ connect_robust ∷ [])
unfolding connect
idle_connects = (refl, refl)

publish_closes_example :
    (middle : List Call) × ((publish strict webhooks (some (codes "{}")) idle).1.calls
      ≡ ((connect strict idle).1.calls ++ open_channel ∷ [])
        ++ (declare_queue webhooks ∷ (middle ++ close_channel ∷ [])))
    × Published strict webhooks (some (codes "{}")) middle
publish_closes_example =
    publish_closes strict webhooks (some (codes "{}")) idle idle_connects.0 refl

idle_publishes : (publish smooth webhooks (some (codes "{}")) idle).0 ≡ true
unfolding publish
idle_publishes = refl

publish_returns_example :
    (body : Text) × (some (codes "{}") ≡ some body)
    × ((publish smooth webhooks (some (codes "{}")) idle).1.calls
        ≡ (([] ++ (connect_robust ∷ [])) ++ open_channel ∷ [])
          ++ declare_queue webhooks ∷ publish_message webhooks body ∷ close_channel ∷ [])
    × ((publish smooth webhooks (some (codes "{}")) idle).1.connected ≡ true)
publish_returns_example = publish_returns smooth webhooks (some (codes "{}")) idle idle_publishes

abbrev busy : World
busy = record { calls = connect_robust ∷ []; connected = true }

busy_closes : (close smooth busy).0 ≡ true
unfolding close
busy_closes = refl
