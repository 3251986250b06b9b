-- ===== src/Sync/Channel/Handles.antt =====
-- `Channel` of sync/channel.rs, and the references to channels that its handles and futures are. A
-- channel is known by its address; the channels of a program may have different capacities, so each
-- has its own queue. `&dyn DynamicChannel<T>` is such a reference too: what it forgets, the type of the channel, is
-- kept by the channel. It is one to a `Channel` here; the code also has them to a `PriorityChannel`.
pub mod Senders
pub mod Receivers
pub mod Uses
pub mod Kept
pub mod Runs
use aurix_tc365_async_rust.Prelude.{
  ℕ, Bool, Option, none, some, List, Outcome, ret, ◌>>=◌, Result, Poll, ◌==◌, if◌then◌else◌,
}
use aurix_tc365_async_rust.Heapless.{Deque}
use aurix_tc365_async_rust.Sync.Waitqueue.{Waker}
use aurix_tc365_async_rust.Sync.Channel as States
use aurix_tc365_async_rust.Sync.Channel.{ChannelState, TryReceiveError, TrySendError}
use aurix_tc365_async_rust.Sync.Channel.Futures.{
  poll_receive_future, poll_receive_ready_future, poll_dynamic_receive, poll_dynamic_send,
}

module _ (T : Type 0) where
  pub record Channel : Type 1 where
    pub queue_type : Deque T
    pub inner : ChannelState queue_type

  -- The channel at each address.
  abbrev pub Channels : Type 1
  Channels = ℕ → Channel

-- The futures.
pub record ReceiveFuture : Type 0 where
  pub channel : ℕ

pub record ReceiveReadyFuture : Type 0 where
  pub channel : ℕ

pub record DynamicReceiveFuture : Type 0 where
  pub channel : ℕ

pub record SendFuture (T : Type 0) : Type 0 where
  pub channel : ℕ
  pub message : Option T

pub record DynamicSendFuture (T : Type 0) : Type 0 where
  pub channel : ℕ
  pub message : Option T

unfoldable pub receive : ℕ → ReceiveFuture
receive a = record { channel = a }

unfoldable pub ready_to_receive : ℕ → ReceiveReadyFuture
ready_to_receive a = record { channel = a }

module _ {T : Type 0} where
  unfoldable pub new : Deque T → Channel T
  new D = record { queue_type = D; inner = States.new D }

  abbrev pub put : ℕ → Channel T → Channels T → Channels T
  put a c cs b = if b == a then c else cs b

  -- `self.lock(|c| ...)`: the borrow of the `RefCell` does not fail, since no call holds it when it ends.
  unfoldable pub lock :
      {R : Type 0}
      → ℕ
      → ((D : Deque T) → ChannelState D → ChannelState D × List Waker × R)
      → Channels T
      → Channels T × List Waker × R
  lock a f cs =
      let c = cs a in
      let (s, woken, r) = f c.queue_type c.inner in
      (put a (record { queue_type = c.queue_type; inner = s }) cs, woken, r)

  -- The calls of `Channel` that the handles and the futures pass on.
  unfoldable pub try_receive_with_context :
      ℕ → Option Waker → Channels T → Channels T × List Waker × Result T TryReceiveError
  try_receive_with_context a cx = lock a (λ D. States.try_receive_with_context D cx)

  unfoldable pub poll_receive : ℕ → Waker → Channels T → Channels T × List Waker × Poll T
  poll_receive a cx = lock a (λ D. States.poll_receive D cx)

  unfoldable pub try_send_with_context :
      ℕ
      → T
      → Option Waker
      → Channels T
      → Channels T × List Waker × Result (Unit {0}) (TrySendError T)
  try_send_with_context a m cx = lock a (λ D. States.try_send_with_context D m cx)

  unfoldable pub poll_ready_to_receive :
      ℕ → Waker → Channels T → Channels T × List Waker × Poll (Unit {0})
  poll_ready_to_receive a cx = lock a (λ D. States.poll_ready_to_receive D cx)

  unfoldable pub poll_ready_to_send :
      ℕ → Waker → Channels T → Channels T × List Waker × Poll (Unit {0})
  poll_ready_to_send a cx = lock a (λ D. States.poll_ready_to_send D cx)

  unfoldable pub try_send :
      ℕ → T → Channels T → Channels T × List Waker × Result (Unit {0}) (TrySendError T)
  try_send a m = lock a (λ D. States.try_send D m)

  unfoldable pub try_receive : ℕ → Channels T → Channels T × List Waker × Result T TryReceiveError
  try_receive a = lock a (λ D. States.try_receive D)

  unfoldable pub send : ℕ → T → SendFuture T
  send a m = record { channel = a; message = some m }

  unfoldable pub len : ℕ → Channels T → ℕ
  len a cs = States.len (cs a).queue_type (cs a).inner

  unfoldable pub is_empty : ℕ → Channels T → Bool
  is_empty a cs = States.is_empty (cs a).queue_type (cs a).inner

  unfoldable pub is_full : ℕ → Channels T → Bool
  is_full a cs = States.is_full (cs a).queue_type (cs a).inner

  -- One poll of each future.
  unfoldable pub receive_poll :
      Waker → ReceiveFuture → Channels T → Channels T × List Waker × Poll T
  receive_poll cx f = lock f.channel (λ D. poll_receive_future D cx)

  unfoldable pub receive_ready_poll :
      Waker → ReceiveReadyFuture → Channels T → Channels T × List Waker × Poll (Unit {0})
  receive_ready_poll cx f = lock f.channel (λ D. poll_receive_ready_future D cx)

  unfoldable pub dynamic_receive_poll :
      Waker → DynamicReceiveFuture → Channels T → Channels T × List Waker × Poll T
  dynamic_receive_poll cx f = lock f.channel (λ D. poll_dynamic_receive D cx)

  unfoldable pub send_poll :
      Waker
      → SendFuture T
      → Channels T
      → Outcome (Channels T × SendFuture T × List Waker × Poll (Unit {0}))
  send_poll cx f cs =
      let c = cs f.channel in
      States.poll_send c.queue_type cx f.message c.inner >>= λ (s, m, woken, r). ret (
        put f.channel (record { queue_type = c.queue_type; inner = s }) cs,
        record f { message = m },
        woken,
        r,
      )

  unfoldable pub dynamic_send_poll :
      Waker
      → DynamicSendFuture T
      → Channels T
      → Outcome (Channels T × DynamicSendFuture T × List Waker × Poll (Unit {0}))
  dynamic_send_poll cx f cs =
      let c = cs f.channel in
      poll_dynamic_send c.queue_type cx f.message c.inner >>= λ (s, m, woken, r). ret (
        put f.channel (record { queue_type = c.queue_type; inner = s }) cs,
        record f { message = m },
        woken,
        r,
      )
