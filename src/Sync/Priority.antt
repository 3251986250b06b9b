-- ===== src/Sync/Priority.antt =====
-- sync/priority_channel.rs: a bounded channel that hands on the message of the highest priority.
-- A call is one step on the `ChannelState`, as in sync/channel.rs, whose error types it uses.
pub mod Service
pub mod Wakeups
pub mod Runs
mod Tests
use aurix_tc365_async_rust.Prelude.{
  ℕ, ◌-◌, ◌^◌, Bool, true, false, not, Option, none, some, List, [], ◌∷◌, ◌++◌, Outcome, ret, panic,
  Result, ok, err, Poll, ready, pending, if◌then◌else◌, ◌==◌,
}
use aurix_tc365_async_rust.Heapless.Heap.{BinaryHeap}
use aurix_tc365_async_rust.Sync.Waitqueue
use aurix_tc365_async_rust.Sync.Waitqueue.{Waker, WakerRegistration}
use aurix_tc365_async_rust.Sync.Channel.{TryReceiveError, TrySendError, empty, full}

-- `!` on a `usize`, which is the bitwise complement.
abbrev pub not_usize : ℕ → ℕ
not_usize n = 2 ^ 32 - 1 - n

module _ {T : Type 0} {le : T → T → Bool} (H : BinaryHeap T le) where
  pub record ChannelState : Type 0 where
    pub queue : H.Carrier
    pub receiver_waker : WakerRegistration
    pub senders_waker : WakerRegistration

  unfoldable pub new : ChannelState
  new = record { queue = H.new; receiver_waker = Waitqueue.new; senders_waker = Waitqueue.new }

  -- `if self.queue.len() == self.queue.capacity() { self.senders_waker.wake() }`
  unfoldable pub wake_senders_if_full : ChannelState → ChannelState × List Waker
  wake_senders_if_full c =
      let (w, woken) = Waitqueue.wake c.senders_waker in
      if H.len c.queue == H.cap then (record c { senders_waker = w }, woken) else (c, [])

  unfoldable pub try_receive_with_context :
      Option Waker → ChannelState → ChannelState × List Waker × Result T TryReceiveError
  unfolding wake_senders_if_full
  try_receive_with_context cx c =
      let (s, woken) = wake_senders_if_full c in
      let (q, front) = H.pop s.queue in
      let (w, more) = Waitqueue.register_context s.receiver_waker cx in
      elim front [
        | some message ↦ (record s { queue = q }, woken, ok message)
        | none ↦ (record s { queue = q; receiver_waker = w }, woken ++ more, err empty)
      ]

  unfoldable pub try_receive : ChannelState → ChannelState × List Waker × Result T TryReceiveError
  try_receive c = try_receive_with_context none c

  unfoldable pub poll_receive : Waker → ChannelState → ChannelState × List Waker × Poll T
  unfolding wake_senders_if_full
  poll_receive cx c =
      let (s, woken) = wake_senders_if_full c in
      let (q, front) = H.pop s.queue in
      let (w, more) = Waitqueue.register s.receiver_waker cx in
      elim front [
        | some message ↦ (record s { queue = q }, woken, ready message)
        | none ↦ (record s { queue = q; receiver_waker = w }, woken ++ more, pending)
      ]

  unfoldable pub poll_ready_to_receive :
      Waker → ChannelState → ChannelState × List Waker × Poll (Unit {0})
  poll_ready_to_receive cx c =
      let (w, woken) = Waitqueue.register c.receiver_waker cx in
      (
        record c { receiver_waker = w },
        woken,
        if not (H.len c.queue == 0) then ready tt else pending,
      )

  unfoldable pub try_send_with_context :
      T
      → Option Waker
      → ChannelState
      → ChannelState × List Waker × Result (Unit {0}) (TrySendError T)
  try_send_with_context message cx c =
      let (q, refused) = H.push c.queue message in
      let (r, woken) = Waitqueue.wake c.receiver_waker in
      let (s, more) = Waitqueue.register_context c.senders_waker cx in
      elim refused [
        | none ↦ (record c { queue = q; receiver_waker = r }, woken, ok tt)
        | some m ↦ (record c { queue = q; senders_waker = s }, more, err (full m))
      ]

  unfoldable pub try_send :
      T → ChannelState → ChannelState × List Waker × Result (Unit {0}) (TrySendError T)
  try_send message c = try_send_with_context message none c

  unfoldable pub poll_ready_to_send :
      Waker → ChannelState → ChannelState × List Waker × Poll (Unit {0})
  poll_ready_to_send cx c =
      let (w, woken) = Waitqueue.register c.senders_waker cx in
      (
        record c { senders_waker = w },
        woken,
        if not_usize (H.len c.queue) == H.cap then ready tt else pending,
      )

  -- The match of `SendFuture::poll` on what `try_send_with_context` returned.
  unfoldable pub keep_refused :
      ChannelState × List Waker × Result (Unit {0}) (TrySendError T)
      → ChannelState × Option T × List Waker × Poll (Unit {0})
  keep_refused (c, woken, ok u) = (c, none, woken, ready tt)
  keep_refused (c, woken, err (full m)) = (c, some m, woken, pending)

  -- `SendFuture::poll`, over the future's `message`: it is taken out, and put back if it is refused.
  unfoldable pub poll_send :
      Waker
      → Option T
      → ChannelState
      → Outcome (ChannelState × Option T × List Waker × Poll (Unit {0}))
  poll_send cx none c = panic
  poll_send cx (some m) c = ret (keep_refused (try_send_with_context m (some cx) c))
