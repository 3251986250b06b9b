-- ===== src/Sync/Channel/Wakeups.antt =====
-- Who sleeps on the channel of sync/channel.rs: no send or receive leaves a task asleep that it
-- could serve.
use aurix_tc365_async_rust.Prelude.{
  ◌≡◌, true, false, Bool, Option, some, none, List, [], ◌∷◌, arith, length, Result, ok, err, Poll,
  ready, pending, inl, inr,
}
use aurix_tc365_async_rust.Heapless.{Deque, pop_cases}
use aurix_tc365_async_rust.Sync.Waitqueue
use aurix_tc365_async_rust.Sync.Waitqueue.{Waker}
use aurix_tc365_async_rust.Sync.Waitqueue.Sleep.{sleeps}
use aurix_tc365_async_rust.Sync.Channel.{
  ChannelState, wake_senders_if_full, try_receive_with_context, poll_ready_to_receive,
  try_send_with_context, poll_ready_to_send,
}
use aurix_tc365_async_rust.Sync.Channel.Order.{
  messages, Call, receives, asks_to_receive, sends, asks_to_send,
}

-- Does a task sleep as a receiver, and as a sender?
pub record Asleep : Type 0 where
  pub receiver : Bool
  pub sender : Bool

abbrev pub awake : Asleep
awake = record { receiver = false; sender = false }

abbrev pub refused {ℓ κ} : {A : Type ℓ} {E : Type κ} → Result A E → Bool
refused (ok a) = false
refused (err e) = true

abbrev pub is_pending {ℓ} : {A : Type ℓ} → Poll A → Bool
is_pending (ready a) = false
is_pending pending = true

module _ {T : Type 0} (D : Deque T) (w : Waker) where
  abbrev pub received : Asleep → Option Waker → Bool → List Waker → Asleep
  received a cx is_refused woken = record {
    receiver = sleeps w a.receiver cx is_refused woken;
    sender = sleeps w a.sender none false woken;
  }

  abbrev pub sent : Asleep → Option Waker → Bool → List Waker → Asleep
  sent a cx is_refused woken = record {
    receiver = sleeps w a.receiver none false woken;
    sender = sleeps w a.sender cx is_refused woken;
  }

  -- The channel after a call, and how the task `w` sleeps then.
  unfoldable pub observe : Call D → ChannelState D → Asleep → ChannelState D × Asleep
  observe (receives cx) c a =
      let (c', woken, r) = try_receive_with_context D cx c in (c', received a cx (refused r) woken)
  observe (asks_to_receive x) c a =
      let (c', woken, r) = poll_ready_to_receive D x c in
      (c', received a (some x) (is_pending r) woken)
  observe (sends m cx) c a =
      let (c', woken, r) = try_send_with_context D m cx c in (c', sent a cx (refused r) woken)
  observe (asks_to_send x) c a =
      let (c', woken, r) = poll_ready_to_send D x c in (c', sent a (some x) (is_pending r) woken)

  unfoldable pub trace : List (Call D) → ChannelState D → Asleep → ChannelState D × Asleep
  trace [] c a = (c, a)
  trace (call ∷ calls) c a = let (c', a') = observe call c a in trace calls c' a'

  -- A task that sleeps is registered, and what it waits for has not come.
  pub record Waits (c : ChannelState D) (a : Asleep) : Type 0 where
    pub receives : a.receiver ≡ true → (c.receiver_waker.waker ≡ some w) × (messages D c ≡ [])
    pub sends : a.sender ≡ true → (c.senders_waker.waker ≡ some w) × (length (messages D c) ≡ D.cap)

  module _ (c : ChannelState D) (a : Asleep) (h : Waits c a) where
    observe-Waits : (call : Call D) → let (c', a') = observe call c a in Waits c' a'
    unfolding observe try_receive_with_context wake_senders_if_full Waitqueue.wake
        Waitqueue.register_context poll_ready_to_receive poll_ready_to_send Waitqueue.register
        try_send_with_context
    observe-Waits (receives none) = elim (pop_cases (D.items c.queue)) [
      | inl e ↦
          ground
            (arith, e, D.is_full_lem c.queue, D.items-pop_front c.queue, D.pop_front-head? c.queue)
      | inr e ↦
          ground
            (arith, e, D.is_full_lem c.queue, D.items-pop_front c.queue, D.pop_front-head? c.queue)
    ]
    observe-Waits (receives (some x)) = elim (pop_cases (D.items c.queue)) [
      | inl e ↦
          ground
            (arith, e, D.is_full_lem c.queue, D.items-pop_front c.queue, D.pop_front-head? c.queue)
      | inr e ↦
          ground
            (arith, e, D.is_full_lem c.queue, D.items-pop_front c.queue, D.pop_front-head? c.queue)
    ]
    observe-Waits (asks_to_receive x) = ground (arith, D.is_empty_lem c.queue)
    observe-Waits (sends m none) =
        ground (
          arith,
          D.items-push_back c.queue m,
          D.push_back-refuses c.queue m,
          D.length-le-cap c.queue,
        )
    observe-Waits (sends m (some x)) =
        ground (
          arith,
          D.items-push_back c.queue m,
          D.push_back-refuses c.queue m,
          D.length-le-cap c.queue,
        )
    observe-Waits (asks_to_send x) = ground (arith, D.is_full_lem c.queue)

  trace-Waits :
      (calls : List (Call D)) (c : ChannelState D) (a : Asleep)
      → Waits c a
      → let (c', a') = trace calls c a in Waits c' a'
  unfolding trace
  trace-Waits [] c a h = h
  trace-Waits (call ∷ calls) c a h =
      let (c', a') = observe call c a in trace-Waits calls c' a' (observe-Waits c a h call)

  -- Any run of calls, by any tasks, from any state of the channel in which the task `w` does not sleep:
  -- in the end `w` sleeps as a receiver (its last attempt was refused or pending, and no call has woken
  -- it since) only if it is the registered receiver and no message is queued, and it sleeps as a sender
  -- only if it is the registered sender and the queue is full.
  pub sleeping_on_channel :
      (calls : List (Call D)) (c : ChannelState D)
      → let (c', a') = trace calls c awake in
        (a'.receiver ≡ true → (c'.receiver_waker.waker ≡ some w) × (messages D c' ≡ []))
        × (a'.sender ≡ true → (c'.senders_waker.waker ≡ some w) × (length (messages D c') ≡ D.cap))
  sleeping_on_channel calls c =
      let h = trace-Waits calls c awake (record { receives = λ e. cc; sends = λ e. cc }) in
      (h.receives, h.sends)
