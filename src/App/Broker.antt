-- ===== src/App/Broker.antt =====
-- The broker client (api/core/mq.py).
--
-- aio_pika is a parameter: which of its calls raise, and whether the connection is closed, may depend
-- on all calls so far. A payload is what `json.dumps` makes of it; none is its TypeError.
pub mod Laws
use balotly_backend.Base.{
  ℕ, Option, none, some, Bool, true, false, not, ◌&&◌, List, [], ◌∷◌, ◌++◌, if◌then◌else◌,
}
use balotly_backend.Base.Text.{Text}

-- The calls of aio_pika: a queue is declared durable, and a message published persistent.
pub data Call : Type 0 where
  connect_robust open_channel close_channel close_connection : Call
  declare_queue : Text → Call
  publish_message : (queue body : Text) → Call

pub record Library : Type 0 where
  pub raises : List Call → Call → Bool
  pub is_closed : List Call → Bool

-- The calls so far, and whether the global `_connection` is not None.
pub record World : Type 0 where
  pub calls : List Call
  pub connected : Bool

-- Whether a function returns; it raises otherwise.
abbrev pub Ended : Type 0
Ended = Bool × World

abbrev pub then_do : Ended → (World → Ended) → Ended
then_do (true, w) f = f w
then_do (false, w) f = (false, w)

-- `try ... finally`
abbrev pub finally_do : Ended → (World → Ended) → Ended
finally_do (first, w) f = let last = f w in (first && last.0, last.1)

module _ (lib : Library) where
  abbrev pub call : Call → World → Ended
  call c w = (not (lib.raises w.calls c), record w { calls = w.calls ++ c ∷ [] })

  -- Whether the connection there is can be used.
  abbrev pub is_usable : World → Bool
  is_usable w = w.connected && not (lib.is_closed w.calls)

  unfoldable pub connect : World → Ended
  connect w =
      if is_usable w
      then (true, w)
      else then_do (call connect_robust w) (λ v. (true, record v { connected = true }))

  unfoldable pub close : World → Ended
  close w =
      then_do (if is_usable w then call close_connection w else (true, w))
        (λ v. (true, record v { connected = false }))

  abbrev pub publish_body : Text → Option Text → World → Ended
  publish_body queue_name none w = (false, w)
  publish_body queue_name (some body) w = call (publish_message queue_name body) w

  -- The `try` of `_publish` and its `finally`.
  unfoldable pub send : (queue_name : Text) (payload : Option Text) → World → Ended
  send queue_name payload w =
      finally_do (then_do (call (declare_queue queue_name) w) (publish_body queue_name payload))
        (call close_channel)

  -- `_publish`
  unfoldable pub publish : (queue_name : Text) (payload : Option Text) → World → Ended
  unfolding connect send
  publish queue_name payload w =
      then_do (connect w) (λ w1. then_do (call open_channel w1) (send queue_name payload))

  -- `publish_webhook_event`; the queue's name is the setting WEBHOOK_QUEUE_NAME.
  unfoldable pub publish_webhook_event :
      (webhook_queue_name : Text) (payload : Option Text) → World → Ended
  unfolding publish
  publish_webhook_event webhook_queue_name payload w = publish webhook_queue_name payload w
