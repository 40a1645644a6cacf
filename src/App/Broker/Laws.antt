-- ===== src/App/Broker/Laws.antt =====
-- What a publish of api/core/mq.py leaves behind on each path.
use mathlib.Core.List.{append_assoc, append-nil}
use balotly_backend.Base.{
  Option, some, true, false, not, ◌≡◌, refl, sym, ap, ◌∙◌, ◌⊎◌, inl, inr, List, [], ◌∷◌, ◌++◌,
  arith, if◌then◌else◌, Bool-cases, Option-cases,
}
use balotly_backend.Base.Text.{Text}
use balotly_backend.App.Broker.{
  Call, connect_robust, open_channel, close_channel, declare_queue, publish_message, Library, World,
  Ended, connect, close, send, publish, is_usable, call, then_do, publish_body,
}

append-three :
    (t : List Call) (a b c : Call) → ((t ++ a ∷ []) ++ b ∷ []) ++ c ∷ [] ≡ t ++ a ∷ b ∷ c ∷ []
append-three t a b c =
    append_assoc (t ++ a ∷ []) (b ∷ []) (c ∷ []) ∙ append_assoc t (a ∷ []) (b ∷ c ∷ [])

then_do-true : (r : Ended) (f : World → Ended) → r.0 ≡ true → then_do r f ≡ f r.1
then_do-true (true, w) f h = refl
then_do-true (false, w) f h = cc

then_do-returns : (r : Ended) (f : World → Ended) → (then_do r f).0 ≡ true → r.0 ≡ true
then_do-returns (true, w) f h = refl
then_do-returns (false, w) f h = h

module _ (lib : Library) (w : World) where
  close_without : w.connected ≡ false → close lib w ≡ (true, w)
  unfolding close
  close_without h = ground (arith, h)

  connect_without : w.connected ≡ false → (connect lib w).1.calls ≡ w.calls ++ connect_robust ∷ []
  unfolding connect
  connect_without h = ground (arith, h)

  close-connected : (close lib w).0 ≡ true → (close lib w).1.connected ≡ false
  unfolding close
  close-connected e = ground arith

module _ (lib : Library) (w : World) where
  -- A close that returns leaves no connection: closing again calls nothing, and the next connect dials
  -- anew.
  pub close_disconnects :
      (close lib w).0 ≡ true
      → ((close lib w).1.connected ≡ false)
        × (close lib (close lib w).1 ≡ (true, (close lib w).1))
        × ((connect lib (close lib w).1).1.calls ≡ (close lib w).1.calls ++ connect_robust ∷ [])
  close_disconnects e =
      let off = close-connected lib w e in
      (off, close_without lib (close lib w).1 off, connect_without lib (close lib w).1 off)

module _ (lib : Library) (queue_name : Text) (payload : Option Text) where
  -- What is published between the declaration and the closing, if anything.
  abbrev pub Published : List Call → Type 0
  Published middle =
      (middle ≡ [])
      ⊎ ((body : Text) × (payload ≡ some body) × (middle ≡ publish_message queue_name body ∷ []))

  send-calls :
      (w : World)
      → (middle : List Call) × ((send lib queue_name payload w).1.calls
          ≡ w.calls ++ (declare_queue queue_name ∷ (middle ++ close_channel ∷ [])))
        × Published middle
  unfolding send
  send-calls w = elim (Bool-cases (lib.raises w.calls (declare_queue queue_name))) [
    | inl bad ↦ (
      [],
      ground
          (arith, bad, append_assoc w.calls (declare_queue queue_name ∷ []) (close_channel ∷ [])),
      inl refl,
    )
    | inr declared ↦ elim (Option-cases payload) [
      | inl empty ↦ (
        [],
        ground (
          arith,
          declared,
          empty,
          append_assoc w.calls (declare_queue queue_name ∷ []) (close_channel ∷ []),
        ),
        inl refl,
      )
      | inr (body, full) ↦
          let declaring = call lib (declare_queue queue_name) w in
          (
            publish_message queue_name body ∷ [],
            ap (λ r. r.1.calls ++ close_channel ∷ [])
                  (then_do-true declaring (publish_body lib queue_name payload) (ap not declared))
                ∙ ap
                    (λ o. (publish_body lib queue_name o declaring.1).1.calls ++ close_channel ∷ [])
                    full
                ∙ append-three w.calls (declare_queue queue_name) (publish_message queue_name body)
                    close_channel,
            inr (body, full, refl),
          )
    ]
  ]

  send_returns :
      (w : World)
      → (send lib queue_name payload w).0 ≡ true
      → (body : Text) × (payload ≡ some body)
        × ((send lib queue_name payload w).1.calls
            ≡ w.calls
              ++ declare_queue queue_name ∷ publish_message queue_name body ∷ close_channel ∷ [])
        × ((send lib queue_name payload w).1.connected ≡ w.connected)
  unfolding send
  send_returns w e = elim (Option-cases payload) [
    | inl empty ↦ absurd (ground (arith, empty))
    | inr (body, full) ↦ (
      body,
      full,
      ground (
        arith,
        full,
        append-three w.calls (declare_queue queue_name) (publish_message queue_name body)
            close_channel,
      ),
      ground (arith, full),
    )
  ]

  publish-send :
      (w : World)
      → (connect lib w).0 ≡ true
      → lib.raises (connect lib w).1.calls open_channel ≡ false
      → publish lib queue_name payload w
        ≡ send lib queue_name payload (call lib open_channel (connect lib w).1).1
  unfolding publish
  publish-send w up opened =
      then_do-true (connect lib w)
        (λ v. then_do (call lib open_channel v) (send lib queue_name payload)) up
      ∙ then_do-true (call lib open_channel (connect lib w).1) (send lib queue_name payload)
          (ap not opened)

  channel_opened :
      (w : World)
      → (publish lib queue_name payload w).0 ≡ true
      → ((connect lib w).0 ≡ true) × (lib.raises (connect lib w).1.calls open_channel ≡ false)
  unfolding publish
  channel_opened w e =
      let f : World → Ended =
        λ v. then_do (call lib open_channel v) (send lib queue_name payload) in
      let up = then_do-returns (connect lib w) f e in
      let opened =
        then_do-returns (call lib open_channel (connect lib w).1) (send lib queue_name payload)
          (ap (λ r. r.0) (sym (then_do-true (connect lib w) f up)) ∙ e) in
      (up, ground (arith, opened))

  -- Once the channel is open it is closed again, by the last call, on every path: after the queue is
  -- declared, and after the message is published if it comes so far.
  pub publish_closes :
      (w : World)
      → (connect lib w).0 ≡ true
      → lib.raises (connect lib w).1.calls open_channel ≡ false
      → (middle : List Call) × ((publish lib queue_name payload w).1.calls
          ≡ ((connect lib w).1.calls ++ open_channel ∷ [])
            ++ (declare_queue queue_name ∷ (middle ++ close_channel ∷ [])))
        × Published middle
  unfolding publish
  publish_closes w up opened =
      let (middle, calls, shown) = send-calls (call lib open_channel (connect lib w).1).1 in
      (middle, ap (λ r. r.1.calls) (publish-send w up opened) ∙ calls, shown)

  connect_returns :
      (w : World)
      → (connect lib w).0 ≡ true
      → ((connect lib w).1.calls ≡ w.calls ++ (if is_usable lib w then [] else connect_robust ∷ []))
        × ((connect lib w).1.connected ≡ true)
  unfolding connect
  connect_returns w e = ground (arith, append-nil w.calls)

  -- A publish that returns has published the payload, on the declared queue and on one channel, which
  -- it has closed; before that it has connected only if there was no usable connection.
  pub publish_returns :
      (w : World)
      → (publish lib queue_name payload w).0 ≡ true
      → (body : Text) × (payload ≡ some body)
        × ((publish lib queue_name payload w).1.calls
            ≡ ((w.calls ++ (if is_usable lib w then [] else connect_robust ∷ []))
                ++ open_channel ∷ [])
              ++ declare_queue queue_name ∷ publish_message queue_name body ∷ close_channel ∷ [])
        × ((publish lib queue_name payload w).1.connected ≡ true)
  publish_returns w e =
      let (up, opened) = channel_opened w e in
      let same = publish-send w up opened in
      let (before, there) = connect_returns w up in
      let (body, full, calls, kept) =
        send_returns (call lib open_channel (connect lib w).1).1 (ap (λ r. r.0) (sym same) ∙ e) in
      (
        body,
        full,
        ap (λ r. r.1.calls) same
            ∙ calls
            ∙ ap
                (λ t.
                  (t ++ open_channel ∷ [])
                  ++ declare_queue queue_name
                    ∷ publish_message queue_name body
                    ∷ close_channel
                    ∷ [])
                before,
        ap (λ r. r.1.connected) same ∙ kept ∙ there,
      )
