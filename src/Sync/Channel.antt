-- ===== src/Sync/Channel.antt =====
-- sync/channel.rs: a bounded queue of messages between tasks.
-- A call holds the blocking mutex and the `RefCell` throughout, so it is one step on the
-- `ChannelState`; `Channel` and its handles, in Handles, pass their calls on to it.
-- It returns the state, the wakers that it woke, and its result.
pub mod Order
pub mod Wakeups
pub mod Futures
pub mod Handles
mod Tests
use aurix_tc365_async_rust.Prelude.{
  ℕ, Bool, true, false, not, Option, none, some, List, [], ◌∷◌, ◌++◌, Outcome, ret, panic, Result,
  ok, err, Poll, ready, pending, if◌then◌else◌,
}
use aurix_tc365_async_rust.Heapless.{Deque}
use aurix_tc365_async_rust.Sync.Waitqueue
use aurix_tc365_async_rust.Sync.Waitqueue.{Waker, WakerRegistration}

pub data TryReceiveError : Type 0 where
  empty : TryReceiveError

pub data TrySendError (T : Type 0) : Type 0 where
  full : T → TrySendError T

module _ {T : Type 0} (D : Deque T) where
  open D use {Carrier, push_back, pop_front}

  pub record ChannelState : Type 0 where
    pub queue : Carrier
    pub receiver_waker : WakerRegistration
    pub senders_waker : WakerRegistration

  unfoldable pub new : ChannelState
  new = record { queue = D.new; receiver_waker = Waitqueue.new; senders_waker = Waitqueue.new }

  -- `if self.queue.is_full() { self.senders_waker.wake() }`
  unfoldable pub wake_senders_if_full : ChannelState → ChannelState × List Waker
  wake_senders_if_full c =
      let (w, woken) = Waitqueue.wake c.senders_waker in
      if D.is_full c.queue then (record c { senders_waker = w }, woken) else (c, [])

  unfoldable pub try_receive_with_context :
      Option Waker → ChannelState → ChannelState × List Waker × Result T TryReceiveError
  unfolding wake_senders_if_full
  try_receive_with_context cx c =
      let (s, woken) = wake_senders_if_full c in
      let (q, front) = pop_front s.queue in
      let (w, more) = Waitqueue.register_context s.receiver_waker cx in
      elim front [
        | some message ↦ (record s { queue = q }, woken, ok message)
        | none ↦ (record s { queue = q; receiver_waker = w }, woken ++ more, err empty)
      ]

  unfoldable pub try_receive : ChannelState → ChannelState × List Waker × Result T TryReceiveError
  try_receive c = try_receive_with_context none c

  unfoldable pub poll_receive : Waker → ChannelState → ChannelState × List Waker × Poll T
  unfolding wake_senders_if_full
  poll_receive cx c =
      let (s, woken) = wake_senders_if_full c in
      let (q, front) = pop_front s.queue in
      let (w, more) = Waitqueue.register s.receiver_waker cx in
      elim front [
        | some message ↦ (record s { queue = q }, woken, ready message)
        | none ↦ (record s { queue = q; receiver_waker = w }, woken ++ more, pending)
      ]

  unfoldable pub poll_ready_to_receive :
      Waker → ChannelState → ChannelState × List Waker × Poll (Unit {0})
  poll_ready_to_receive cx c =
      let (w, woken) = Waitqueue.register c.receiver_waker cx in
      (
        record c { receiver_waker = w },
        woken,
        if not (D.is_empty c.queue) then ready tt else pending,
      )

  unfoldable pub try_send_with_context :
      T
      → Option Waker
      → ChannelState
      → ChannelState × List Waker × Result (Unit {0}) (TrySendError T)
  try_send_with_context message cx c =
      let (q, refused) = push_back c.queue message in
      let (r, woken) = Waitqueue.wake c.receiver_waker in
      let (s, more) = Waitqueue.register_context c.senders_waker cx in
      elim refused [
        | none ↦ (record c { queue = q; receiver_waker = r }, woken, ok tt)
        | some m ↦ (record c { queue = q; senders_waker = s }, more, err (full m))
      ]

  unfoldable pub try_send :
      T → ChannelState → ChannelState × List Waker × Result (Unit {0}) (TrySendError T)
  try_send message c = try_send_with_context message none c

  unfoldable pub poll_ready_to_send :
      Waker → ChannelState → ChannelState × List Waker × Poll (Unit {0})
  poll_ready_to_send cx c =
      let (w, woken) = Waitqueue.register c.senders_waker cx in
      (record c { senders_waker = w }, woken, if not (D.is_full c.queue) then ready tt else pending)

  unfoldable pub len : ChannelState → ℕ
  len c = D.len c.queue

  unfoldable pub is_empty : ChannelState → Bool
  is_empty c = D.is_empty c.queue

  unfoldable pub is_full : ChannelState → Bool
  is_full c = D.is_full c.queue

  -- The match of `SendFuture::poll` on what `try_send_with_context` returned.
  unfoldable pub keep_refused :
      ChannelState × List Waker × Result (Unit {0}) (TrySendError T)
      → ChannelState × Option T × List Waker × Poll (Unit {0})
  keep_refused (c, woken, ok u) = (c, none, woken, ready tt)
  keep_refused (c, woken, err (full m)) = (c, some m, woken, pending)

  -- `SendFuture::poll`, over the future's `message`: it is taken out, and put back if it is refused.
  unfoldable pub poll_send :
      Waker
      → Option T
      → ChannelState
      → Outcome (ChannelState × Option T × List Waker × Poll (Unit {0}))
  poll_send cx none c = panic
  poll_send cx (some m) c = ret (keep_refused (try_send_with_context m (some cx) c))
