-- ===== src/Sync/Priority/Wakeups.antt =====
-- Who sleeps on the channel of sync/priority_channel.rs, of the tasks that call `receive` and `send`, or
-- ask to receive.
use aurix_tc365_async_rust.Prelude.{
  ◌≡◌, true, false, Bool, Option, some, none, List, [], ◌∷◌, arith, length, inl, inr,
}
use aurix_tc365_async_rust.Heapless.{pop_cases}
use aurix_tc365_async_rust.Heapless.Heap.{BinaryHeap, length-push}
use aurix_tc365_async_rust.Sync.Waitqueue
use aurix_tc365_async_rust.Sync.Waitqueue.{Waker}
use aurix_tc365_async_rust.Sync.Waitqueue.Sleep.{sleeps}
use aurix_tc365_async_rust.Sync.Channel.Wakeups.{Asleep, awake, refused, is_pending}
use aurix_tc365_async_rust.Sync.Priority.{
  ChannelState, wake_senders_if_full, try_receive_with_context, poll_receive, poll_ready_to_receive,
  try_send_with_context,
}

module _ {T : Type 0} {le : T → T → Bool} (H : BinaryHeap T le) where
  pub data Call : Type 0 where
    receives : Option Waker → Call
    polls_receive : Waker → Call
    asks_to_receive : Waker → Call
    sends : T → Option Waker → Call

  module _ (w : Waker) where
    abbrev received : Asleep → Option Waker → Bool → List Waker → Asleep
    received a cx is_refused woken = record {
      receiver = sleeps w a.receiver cx is_refused woken;
      sender = sleeps w a.sender none false woken;
    }

    -- The channel after a call, and how the task `w` sleeps then.
    unfoldable pub observe : Call → ChannelState H → Asleep → ChannelState H × Asleep
    observe (receives cx) c a =
        let (c', woken, r) = try_receive_with_context H cx c in
        (c', received a cx (refused r) woken)
    observe (polls_receive x) c a =
        let (c', woken, r) = poll_receive H x c in (c', received a (some x) (is_pending r) woken)
    observe (asks_to_receive x) c a =
        let (c', woken, r) = poll_ready_to_receive H x c in
        (c', received a (some x) (is_pending r) woken)
    observe (sends m cx) c a =
        let (c', woken, r) = try_send_with_context H m cx c in
        (
          c',
          record {
            receiver = sleeps w a.receiver none false woken;
            sender = sleeps w a.sender cx (refused r) woken;
          },
        )

    unfoldable pub trace : List Call → ChannelState H → Asleep → ChannelState H × Asleep
    trace [] c a = (c, a)
    trace (call ∷ calls) c a = let (c', a') = observe call c a in trace calls c' a'

    -- A task that sleeps is registered, and what it waits for has not come.
    pub record Waits (c : ChannelState H) (a : Asleep) : Type 0 where
      pub for_message :
          a.receiver ≡ true → (c.receiver_waker.waker ≡ some w) × (H.items c.queue ≡ [])
      pub for_room :
          a.sender ≡ true → (c.senders_waker.waker ≡ some w) × (length (H.items c.queue) ≡ H.cap)

    module _ (c : ChannelState H) (a : Asleep) (h : Waits c a) where
      observe-Waits : (call : Call) → let (c', a') = observe call c a in Waits c' a'
      unfolding observe try_receive_with_context poll_receive wake_senders_if_full Waitqueue.wake
          Waitqueue.register_context poll_ready_to_receive Waitqueue.register try_send_with_context
      observe-Waits (receives none) = elim (pop_cases (H.items c.queue)) [
        | inl e ↦ ground (arith, e, H.len_lem c.queue, H.items-pop c.queue, H.pop-head? c.queue)
        | inr e ↦ ground (arith, e, H.len_lem c.queue, H.items-pop c.queue, H.pop-head? c.queue)
      ]
      observe-Waits (receives (some x)) = elim (pop_cases (H.items c.queue)) [
        | inl e ↦ ground (arith, e, H.len_lem c.queue, H.items-pop c.queue, H.pop-head? c.queue)
        | inr e ↦ ground (arith, e, H.len_lem c.queue, H.items-pop c.queue, H.pop-head? c.queue)
      ]
      observe-Waits (polls_receive x) = elim (pop_cases (H.items c.queue)) [
        | inl e ↦ ground (arith, e, H.len_lem c.queue, H.items-pop c.queue, H.pop-head? c.queue)
        | inr e ↦ ground (arith, e, H.len_lem c.queue, H.items-pop c.queue, H.pop-head? c.queue)
      ]
      observe-Waits (asks_to_receive x) = ground (arith, H.len_lem c.queue)
      observe-Waits (sends m none) =
          ground (arith, length-push H c.queue m, H.push-refuses c.queue m, H.length-le-cap c.queue)
      observe-Waits (sends m (some x)) =
          ground (arith, length-push H c.queue m, H.push-refuses c.queue m, H.length-le-cap c.queue)

    trace-Waits :
        (calls : List Call) (c : ChannelState H) (a : Asleep)
        → Waits c a
        → let (c', a') = trace calls c a in Waits c' a'
    unfolding trace
    trace-Waits [] c a h = h
    trace-Waits (call ∷ calls) c a h =
        let (c', a') = observe call c a in trace-Waits calls c' a' (observe-Waits c a h call)

    -- Any run of receives, of `poll_ready_to_receive` and of sends, by any tasks, from any state of the
    -- channel in which the task `w` does not sleep: in the end `w` sleeps as a receiver (its last
    -- attempt was refused or pending, and no call has woken it since) only if it is the registered
    -- receiver and no message is queued, and it sleeps as a sender only if it is the registered sender
    -- and the queue is full.
    pub sleeping_on_priority_channel :
        (calls : List Call) (c : ChannelState H)
        → let (c', a') = trace calls c awake in
          (a'.receiver ≡ true → (c'.receiver_waker.waker ≡ some w) × (H.items c'.queue ≡ []))
          × (a'.sender ≡ true
              → (c'.senders_waker.waker ≡ some w) × (length (H.items c'.queue) ≡ H.cap))
    sleeping_on_priority_channel calls c =
        let h = trace-Waits calls c awake (record { for_message = λ e. cc; for_room = λ e. cc }) in
        (h.for_message, h.for_room)
