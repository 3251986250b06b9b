-- ===== src/Sync/Channel/Handles/Receivers.antt =====
-- `Receiver` and `DynamicReceiver` of sync/channel.rs.
use aurix_tc365_async_rust.Prelude.{ℕ, none, List, Result, Poll}
use aurix_tc365_async_rust.Sync.Waitqueue.{Waker}
use aurix_tc365_async_rust.Sync.Channel.{TryReceiveError}
use aurix_tc365_async_rust.Sync.Channel.Handles as Channel
use aurix_tc365_async_rust.Sync.Channel.Handles.{
  Channels, ReceiveFuture, ReceiveReadyFuture, DynamicReceiveFuture,
}

pub record Receiver : Type 0 where
  pub channel : ℕ

pub record DynamicReceiver : Type 0 where
  pub channel : ℕ

unfoldable pub receiver : ℕ → Receiver
receiver a = record { channel = a }

unfoldable pub dyn_receiver : ℕ → DynamicReceiver
dyn_receiver a = record { channel = a }

unfoldable pub clone : Receiver → Receiver
clone s = record { channel = s.channel }

unfoldable pub dynamic_clone : DynamicReceiver → DynamicReceiver
dynamic_clone s = record { channel = s.channel }

-- `From<Receiver>` of a `DynamicReceiver`, and `From<ReceiveFuture>` of its future.
unfoldable pub from : Receiver → DynamicReceiver
from s = record { channel = s.channel }

unfoldable pub from_future : ReceiveFuture → DynamicReceiveFuture
from_future f = record { channel = f.channel }

unfoldable pub receive : Receiver → ReceiveFuture
receive r = Channel.receive r.channel

unfoldable pub ready_to_receive : Receiver → ReceiveReadyFuture
ready_to_receive r = Channel.ready_to_receive r.channel

unfoldable pub dynamic_receive : DynamicReceiver → DynamicReceiveFuture
dynamic_receive r = record { channel = r.channel }

module _ {T : Type 0} where
  unfoldable pub try_receive :
      Receiver → Channels T → Channels T × List Waker × Result T TryReceiveError
  try_receive r = Channel.try_receive r.channel

  unfoldable pub poll_ready_to_receive :
      Receiver → Waker → Channels T → Channels T × List Waker × Poll (Unit {0})
  poll_ready_to_receive r cx = Channel.poll_ready_to_receive r.channel cx

  unfoldable pub poll_receive : Receiver → Waker → Channels T → Channels T × List Waker × Poll T
  poll_receive r cx = Channel.poll_receive r.channel cx

  unfoldable pub dynamic_try_receive :
      DynamicReceiver → Channels T → Channels T × List Waker × Result T TryReceiveError
  dynamic_try_receive r = Channel.try_receive_with_context r.channel none

  unfoldable pub dynamic_poll_ready_to_receive :
      DynamicReceiver → Waker → Channels T → Channels T × List Waker × Poll (Unit {0})
  dynamic_poll_ready_to_receive r cx = Channel.poll_ready_to_receive r.channel cx

  unfoldable pub dynamic_poll_receive :
      DynamicReceiver → Waker → Channels T → Channels T × List Waker × Poll T
  dynamic_poll_receive r cx = Channel.poll_receive r.channel cx
