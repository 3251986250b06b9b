-- ===== src/Sync/Channel/Futures.antt =====
-- The futures of sync/channel.rs, one poll of each, and those behind `dyn DynamicChannel`.
use aurix_tc365_async_rust.Prelude.{
  ◌≡◌, refl, sym, poll_of, Option, none, some, List, Outcome, ret, panic, Poll,
}
use aurix_tc365_async_rust.Heapless.{Deque}
use aurix_tc365_async_rust.Sync.Waitqueue.{Waker}
use aurix_tc365_async_rust.Sync.Channel.{
  ChannelState, poll_receive, poll_ready_to_receive, poll_send, keep_refused,
  try_receive_with_context, try_send_with_context,
}
use aurix_tc365_async_rust.Sync.Channel.Order.{poll_receive-eq}

module _ {T : Type 0} (D : Deque T) where
  -- `ReceiveFuture::poll`
  unfoldable pub poll_receive_future : Waker → ChannelState D → ChannelState D × List Waker × Poll T
  poll_receive_future cx c = poll_receive D cx c

  -- `ReceiveReadyFuture::poll`
  unfoldable pub poll_receive_ready_future :
      Waker → ChannelState D → ChannelState D × List Waker × Poll (Unit {0})
  poll_receive_ready_future cx c = poll_ready_to_receive D cx c

  -- `DynamicReceiveFuture::poll`
  unfoldable pub poll_dynamic_receive :
      Waker → ChannelState D → ChannelState D × List Waker × Poll T
  poll_dynamic_receive cx c =
      let (c', woken, r) = try_receive_with_context D (some cx) c in (c', woken, poll_of r)

  -- `DynamicSendFuture::poll`, over the future's `message`.
  unfoldable pub poll_dynamic_send :
      Waker
      → Option T
      → ChannelState D
      → Outcome (ChannelState D × Option T × List Waker × Poll (Unit {0}))
  poll_dynamic_send cx none c = panic
  poll_dynamic_send cx (some m) c = ret (keep_refused D (try_send_with_context D m (some cx) c))

  -- A receiver or a sender behind `dyn DynamicChannel` does in each poll what the one that knows the
  -- channel's type does, by another call of the channel: state, wakers woken and result agree, and
  -- both send futures panic when they are polled again after they were ready.
  pub dynamic_futures-eq :
      (cx : Waker) (m : Option T) (c : ChannelState D)
      → (poll_dynamic_receive cx c ≡ poll_receive_future cx c)
        × (poll_dynamic_send cx m c ≡ poll_send D cx m c)
  unfolding poll_dynamic_receive poll_receive_future poll_dynamic_send poll_send
  dynamic_futures-eq cx none c = (sym (poll_receive-eq D cx c), refl)
  dynamic_futures-eq cx (some m) c = (sym (poll_receive-eq D cx c), refl)
