-- ===== src/Sync/Channel/Order.antt =====
-- Messages through the channel of sync/channel.rs: what each call does to the queue, and that any run
-- of calls delivers what it accepts, in order.
use aurix_tc365_async_rust.Prelude.{
  ◌≡◌, ◌<◌, refl, sym, ap, ◌∙◌, Option, some, none, List, [], ◌∷◌, ◌++◌, arith, length, Returns,
  panic, Result, ok, err, Poll, poll_of, ready, pending, append-nil, append_assoc, inl, inr,
}
use aurix_tc365_async_rust.Heapless.{pop_cases, Deque}
use aurix_tc365_async_rust.Sync.Waitqueue
use aurix_tc365_async_rust.Sync.Waitqueue.{Waker}
use aurix_tc365_async_rust.Sync.Channel.{
  ChannelState, TryReceiveError, TrySendError, full, try_receive_with_context, poll_receive,
  poll_ready_to_receive, try_send_with_context, poll_ready_to_send, poll_send, keep_refused,
}

module _ {T : Type 0} (D : Deque T) where
  open D use {cap, items}

  abbrev pub messages : ChannelState D → List T
  messages c = items c.queue

  -- What a receive of `front` did to the messages `q`.
  abbrev pub Received : List T → Result T TryReceiveError → List T → Type 0
  Received q (ok m) q' = q ≡ m ∷ q'
  Received q (err e) q' = (q ≡ []) × (q' ≡ [])

  -- What a send of `m` did.
  abbrev pub Sent : List T → T → Result (Unit {0}) (TrySendError T) → List T → Type 0
  Sent q m (ok u) q' = (length q < cap) × (q' ≡ q ++ (m ∷ []))
  Sent q m (err (full m')) q' = (length q ≡ cap) × (q' ≡ q) × (m' ≡ m)

  -- A receive takes the oldest message, or is refused on an empty queue. With a waker it is the same.
  pub try_receive-Received :
      (cx : Option Waker) (c : ChannelState D)
      → let (c', woken, r) = try_receive_with_context D cx c in
        Received (messages c) r (messages c')
  unfolding try_receive_with_context
  try_receive-Received cx c = elim (pop_cases (items c.queue)) [
    | inl h ↦ ground (arith, h, D.items-pop_front c.queue, D.pop_front-head? c.queue)
    | inr h ↦ ground (arith, h, D.items-pop_front c.queue, D.pop_front-head? c.queue)
  ]

  -- `poll_receive` is `try_receive_with_context` with a waker, the error being pending.
  pub poll_receive-eq :
      (cx : Waker) (c : ChannelState D)
      → poll_receive D cx c
        ≡ (let (c', woken, r) = try_receive_with_context D (some cx) c in (c', woken, poll_of r))
  unfolding try_receive_with_context poll_receive Waitqueue.register_context
  poll_receive-eq cx c = ground arith

  -- A send appends the message while fewer than `cap` are queued; on a full queue it hands the
  -- message back and leaves the queue alone.
  pub try_send-Sent :
      (m : T) (cx : Option Waker) (c : ChannelState D)
      → let (c', woken, r) = try_send_with_context D m cx c in Sent (messages c) m r (messages c')
  unfolding try_send_with_context
  try_send-Sent m cx c =
      ground
        (arith, D.items-push_back c.queue m, D.push_back-refuses c.queue m, D.length-le-cap c.queue)

  -- What one poll of a send future does, over its message.
  abbrev pub Polled : List T → T → ChannelState D × Option T × List Waker × Poll (Unit {0}) → Type 0
  Polled q m (c', none, woken, ready u) = (length q < cap) × (messages c' ≡ q ++ (m ∷ []))
  Polled q m (c', some m', woken, pending) = (length q ≡ cap) × (messages c' ≡ q) × (m' ≡ m)
  Polled q m _ = ⊥

  keep_refused-Polled :
      (q : List T) (m : T) (x : ChannelState D × List Waker × Result (Unit {0}) (TrySendError T))
      → Sent q m x.2 (messages x.0)
      → Polled q m (keep_refused D x)
  unfolding keep_refused
  keep_refused-Polled q m (c, woken, ok u) s = s
  keep_refused-Polled q m (c, woken, err (full m')) s = s

  -- A send future with its message either sends it, is ready and is spent, or is pending on a full
  -- queue and keeps the message. A spent one panics.
  pub poll_send-Polled :
      (cx : Waker) (m : T) (c : ChannelState D)
      → Returns (poll_send D cx (some m) c) (Polled (messages c) m)
        × (poll_send D cx none c ≡ panic)
  unfolding poll_send
  poll_send-Polled cx m c =
      let x = try_send_with_context D m (some cx) c in
      (
        (
          keep_refused D x,
          refl,
          keep_refused-Polled (messages c) m x (try_send-Sent m (some cx) c),
        ),
        refl,
      )

  -- What any task may call, the futures by their polls.
  pub data Call : Type 0 where
    receives : Option Waker → Call
    asks_to_receive : Waker → Call
    sends : T → Option Waker → Call
    asks_to_send : Waker → Call

  abbrev pub taken : Result T TryReceiveError → List T
  taken (ok m) = m ∷ []
  taken (err e) = []

  abbrev pub given : T → Result (Unit {0}) (TrySendError T) → List T
  given m (ok u) = m ∷ []
  given m (err e) = []

  -- The state after a call, the messages that it delivered and those that it accepted.
  unfoldable pub step : Call → ChannelState D → ChannelState D × List T × List T
  step (receives cx) c = let (c', woken, r) = try_receive_with_context D cx c in (c', taken r, [])
  step (asks_to_receive w) c = let (c', woken, r) = poll_ready_to_receive D w c in (c', [], [])
  step (sends m cx) c = let (c', woken, r) = try_send_with_context D m cx c in (c', [], given m r)
  step (asks_to_send w) c = let (c', woken, r) = poll_ready_to_send D w c in (c', [], [])

  unfoldable pub run : List Call → ChannelState D → ChannelState D × List T × List T
  run [] c = (c, [], [])
  run (call ∷ calls) c =
      let (c', ds, accepted) = step call c in
      let (c'', more, also) = run calls c' in (c'', ds ++ more, accepted ++ also)

  taken-Received :
      (q : List T) (r : Result T TryReceiveError) (q' : List T)
      → Received q r q'
      → taken r ++ q' ≡ q ++ []
  taken-Received q (ok m) q' h = rw h (sym (append-nil _))
  taken-Received q (err e) q' h = rw (h.0, h.1)

  given-Sent :
      (q : List T) (m : T) (r : Result (Unit {0}) (TrySendError T)) (q' : List T)
      → Sent q m r q'
      → q' ≡ q ++ given m r
  given-Sent q m (ok u) q' h = h.1
  given-Sent q m (err (full m')) q' h = h.1 ∙ sym (append-nil q)

  step_lem :
      (call : Call) (c : ChannelState D)
      → let (c', ds, accepted) = step call c in ds ++ messages c' ≡ messages c ++ accepted
  unfolding step poll_ready_to_receive poll_ready_to_send
  step_lem (receives cx) c = taken-Received (messages c) _ _ (try_receive-Received cx c)
  step_lem (asks_to_receive w) c = sym (append-nil _)
  step_lem (sends m cx) c = given-Sent (messages c) m _ _ (try_send-Sent m cx c)
  step_lem (asks_to_send w) c = sym (append-nil _)

  -- Any run of calls by any number of senders and receivers: the messages delivered, followed by those
  -- that are queued in the end, are the ones queued at first followed by those that sends accepted.
  -- So each accepted message is delivered once at most, in the order of the sends, and none is lost.
  pub run-order :
      (calls : List Call) (c : ChannelState D)
      → let (c', ds, accepted) = run calls c in ds ++ messages c' ≡ messages c ++ accepted
  unfolding run
  run-order [] c = sym (append-nil _)
  run-order (call ∷ calls) c =
      let (c', ds, accepted) = step call c in
      let (c'', more, also) = run calls c' in
      append_assoc ds more (messages c'')
      ∙ ap (◌++◌ ds) (run-order calls c')
      ∙ sym (append_assoc ds (messages c') also)
      ∙ ap (λ t. t ++ also) (step_lem call c)
      ∙ append_assoc (messages c) accepted also
