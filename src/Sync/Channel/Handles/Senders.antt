-- ===== src/Sync/Channel/Handles/Senders.antt =====
-- `Sender` and `DynamicSender` of sync/channel.rs.
use aurix_tc365_async_rust.Prelude.{ℕ, none, some, List, Result, Poll}
use aurix_tc365_async_rust.Sync.Waitqueue.{Waker}
use aurix_tc365_async_rust.Sync.Channel.{TrySendError}
use aurix_tc365_async_rust.Sync.Channel.Handles as Channel
use aurix_tc365_async_rust.Sync.Channel.Handles.{Channels, SendFuture, DynamicSendFuture}

pub record Sender : Type 0 where
  pub channel : ℕ

pub record DynamicSender : Type 0 where
  pub channel : ℕ

unfoldable pub sender : ℕ → Sender
sender a = record { channel = a }

unfoldable pub dyn_sender : ℕ → DynamicSender
dyn_sender a = record { channel = a }

unfoldable pub clone : Sender → Sender
clone s = record { channel = s.channel }

unfoldable pub dynamic_clone : DynamicSender → DynamicSender
dynamic_clone s = record { channel = s.channel }

-- `From<Sender>` of a `DynamicSender`.
unfoldable pub from : Sender → DynamicSender
from s = record { channel = s.channel }

module _ {T : Type 0} where
  unfoldable pub send : Sender → T → SendFuture T
  send s m = Channel.send s.channel m

  unfoldable pub try_send :
      Sender → T → Channels T → Channels T × List Waker × Result (Unit {0}) (TrySendError T)
  try_send s m = Channel.try_send s.channel m

  unfoldable pub poll_ready_to_send :
      Sender → Waker → Channels T → Channels T × List Waker × Poll (Unit {0})
  poll_ready_to_send s cx = Channel.poll_ready_to_send s.channel cx

  unfoldable pub dynamic_send : DynamicSender → T → DynamicSendFuture T
  dynamic_send s m = record { channel = s.channel; message = some m }

  unfoldable pub dynamic_try_send :
      DynamicSender → T → Channels T → Channels T × List Waker × Result (Unit {0}) (TrySendError T)
  dynamic_try_send s m = Channel.try_send_with_context s.channel m none

  unfoldable pub dynamic_poll_ready_to_send :
      DynamicSender → Waker → Channels T → Channels T × List Waker × Poll (Unit {0})
  dynamic_poll_ready_to_send s cx = Channel.poll_ready_to_send s.channel cx

  -- `From<SendFuture>` of a `DynamicSendFuture`.
  unfoldable pub from_future : SendFuture T → DynamicSendFuture T
  from_future f = record { channel = f.channel; message = f.message }
