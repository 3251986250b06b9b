-- ===== src/Sync/Channel/Handles/Runs.antt =====
-- That each of several channels of sync/channel.rs keeps its messages, whatever is done with their handles.
use aurix_tc365_async_rust.Prelude.{
  ℕ, refl, sym, ap, ◌∙◌, Option, none, some, List, [], ◌∷◌, ◌++◌, append-nil, append_assoc, ret,
  ◌>>=◌, Returns, Returns->>=,
}
use aurix_tc365_async_rust.Sync.Waitqueue.{Waker}
use aurix_tc365_async_rust.Sync.Channel as States
use aurix_tc365_async_rust.Sync.Channel.{ChannelState, TryReceiveError, TrySendError, full}
use aurix_tc365_async_rust.Sync.Channel.Handles as Handles
use aurix_tc365_async_rust.Sync.Channel.Handles.{
  Channel, Channels, put, lock, send_poll, dynamic_send_poll, receive_poll, receive_ready_poll,
  dynamic_receive_poll,
}
use aurix_tc365_async_rust.Sync.Channel.Futures.{
  poll_receive_future, poll_receive_ready_future, poll_dynamic_receive, poll_dynamic_send,
}
use aurix_tc365_async_rust.Sync.Channel.Handles.Senders as Senders
use aurix_tc365_async_rust.Sync.Channel.Handles.Senders.{Sender, DynamicSender}
use aurix_tc365_async_rust.Sync.Channel.Handles.Receivers as Receivers
use aurix_tc365_async_rust.Sync.Channel.Handles.Receivers.{Receiver, DynamicReceiver}
use aurix_tc365_async_rust.Sync.Channel.Handles.Uses.{
  Log, on, messages, nothing, taken, polled, given, sent, logs, Use, step, run, sends, polls_send,
  asks_to_send, dynamic_sends, dynamic_polls_send, dynamic_asks_to_send, receives, polls_receive,
  polls_receive_future, polls_ready, asks_to_receive, dynamic_receives, dynamic_polls_receive,
  dynamic_polls_receive_future, dynamic_asks_to_receive,
}
use aurix_tc365_async_rust.Sync.Channel.Handles.Kept.{
  Kept, on-append, put-Kept, lock-Kept, polled-poll_of, taken-try_receive, polled-poll_receive,
  given-try_send, sent-try_send,
}

module _ {T : Type 0} where
  polls_send-Kept :
      (a : ℕ) (m : T) (cx : Waker) (cs : Channels T)
      → Returns
          (send_poll cx (record { channel = a; message = some m }) cs >>= λ (cs', f, woken, r).
            ret (logs a nothing (sent m) (cs', woken, r)))
          (Kept cs)
  unfolding send_poll States.poll_send
  polls_send-Kept a m cx cs =
      let c = cs a in
      let (s, m', woken, r) =
        States.keep_refused c.queue_type
          (States.try_send_with_context c.queue_type m (some cx) c.inner) in
      (
        _,
        refl,
        put-Kept a (record { queue_type = c.queue_type; inner = s }) cs [] (sent m r)
            (sent-try_send c.queue_type c.inner m cx),
      )

  dynamic_polls_send-Kept :
      (a : ℕ) (m : T) (cx : Waker) (cs : Channels T)
      → Returns
          (dynamic_send_poll cx (record { channel = a; message = some m }) cs
            >>= λ (cs', f, woken, r). ret (logs a nothing (sent m) (cs', woken, r)))
          (Kept cs)
  unfolding dynamic_send_poll poll_dynamic_send
  dynamic_polls_send-Kept a m cx cs =
      let c = cs a in
      let (s, m', woken, r) =
        States.keep_refused c.queue_type
          (States.try_send_with_context c.queue_type m (some cx) c.inner) in
      (
        _,
        refl,
        put-Kept a (record { queue_type = c.queue_type; inner = s }) cs [] (sent m r)
            (sent-try_send c.queue_type c.inner m cx),
      )

  -- The calls behind the handles, of the channel at `a`.
  module _ (a : ℕ) (cs : Channels T) where
    try_send-Kept :
        (m : T) (cx : Option Waker)
        → Kept cs (logs a nothing (given m) (Handles.try_send_with_context a m cx cs))
    unfolding Handles.try_send_with_context
    try_send-Kept m cx =
        lock-Kept a (λ D. States.try_send_with_context D m cx) cs nothing (given m)
          (λ D c. given-try_send D c m cx)

    try_receive-Kept :
        (cx : Option Waker)
        → Kept cs (logs a taken nothing (Handles.try_receive_with_context a cx cs))
    unfolding Handles.try_receive_with_context
    try_receive-Kept cx =
        lock-Kept a (λ D. States.try_receive_with_context D cx) cs taken nothing
          (λ D c. taken-try_receive D c cx)

    poll_receive-Kept :
        (cx : Waker) → Kept cs (logs a polled nothing (Handles.poll_receive a cx cs))
    unfolding Handles.poll_receive
    poll_receive-Kept cx =
        lock-Kept a (λ D. States.poll_receive D cx) cs polled nothing
          (λ D c. polled-poll_receive D c cx)

    poll_dynamic_receive-Kept :
        (cx : Waker)
        → Kept cs (logs a polled nothing (dynamic_receive_poll cx (record { channel = a }) cs))
    unfolding dynamic_receive_poll poll_dynamic_receive
    poll_dynamic_receive-Kept cx =
        lock-Kept a (λ D. poll_dynamic_receive D cx) cs polled nothing
          (λ D c.
            rw (polled-poll_of (States.try_receive_with_context D (some cx) c).2)
              (taken-try_receive D c (some cx)))

    poll_ready_to_receive-Kept :
        (cx : Waker) → Kept cs (logs a nothing nothing (Handles.poll_ready_to_receive a cx cs))
    unfolding Handles.poll_ready_to_receive States.poll_ready_to_receive
    poll_ready_to_receive-Kept cx =
        lock-Kept a (λ D. States.poll_ready_to_receive D cx) cs nothing nothing
          (λ D c. sym (append-nil _))

    poll_ready_to_send-Kept :
        (cx : Waker) → Kept cs (logs a nothing nothing (Handles.poll_ready_to_send a cx cs))
    unfolding Handles.poll_ready_to_send States.poll_ready_to_send
    poll_ready_to_send-Kept cx =
        lock-Kept a (λ D. States.poll_ready_to_send D cx) cs nothing nothing
          (λ D c. sym (append-nil _))

  step-Kept : (u : Use T) (cs : Channels T) → Returns (step u cs) (Kept cs)
  unfolding step Senders.try_send Senders.send Senders.poll_ready_to_send Senders.dynamic_try_send
      Senders.dynamic_send Senders.dynamic_poll_ready_to_send Receivers.try_receive
      Receivers.poll_receive Receivers.receive Receivers.ready_to_receive
      Receivers.poll_ready_to_receive Receivers.dynamic_try_receive Receivers.dynamic_poll_receive
      Receivers.dynamic_receive Receivers.dynamic_poll_ready_to_receive Handles.send Handles.receive
      Handles.ready_to_receive Handles.try_send Handles.try_send_with_context Handles.try_receive
      Handles.try_receive_with_context States.try_send States.try_receive receive_poll
      receive_ready_poll poll_receive_future poll_receive_ready_future Handles.poll_receive
      Handles.poll_ready_to_receive
  step-Kept (sends s m) cs = (_, refl, try_send-Kept s.channel cs m none)
  step-Kept (polls_send s m cx) cs = polls_send-Kept s.channel m cx cs
  step-Kept (asks_to_send s cx) cs = (_, refl, poll_ready_to_send-Kept s.channel cs cx)
  step-Kept (dynamic_sends s m) cs = (_, refl, try_send-Kept s.channel cs m none)
  step-Kept (dynamic_polls_send s m cx) cs = dynamic_polls_send-Kept s.channel m cx cs
  step-Kept (dynamic_asks_to_send s cx) cs = (_, refl, poll_ready_to_send-Kept s.channel cs cx)
  step-Kept (receives r) cs = (_, refl, try_receive-Kept r.channel cs none)
  step-Kept (polls_receive r cx) cs = (_, refl, poll_receive-Kept r.channel cs cx)
  step-Kept (polls_receive_future r cx) cs = (_, refl, poll_receive-Kept r.channel cs cx)
  step-Kept (polls_ready r cx) cs = (_, refl, poll_ready_to_receive-Kept r.channel cs cx)
  step-Kept (asks_to_receive r cx) cs = (_, refl, poll_ready_to_receive-Kept r.channel cs cx)
  step-Kept (dynamic_receives r) cs = (_, refl, try_receive-Kept r.channel cs none)
  step-Kept (dynamic_polls_receive r cx) cs = (_, refl, poll_receive-Kept r.channel cs cx)
  step-Kept (dynamic_polls_receive_future r cx) cs =
      (_, refl, poll_dynamic_receive-Kept r.channel cs cx)
  step-Kept (dynamic_asks_to_receive r cx) cs =
      (_, refl, poll_ready_to_receive-Kept r.channel cs cx)

  Kept-append :
      (cs cs' cs'' : Channels T) (ds more accepted also : Log T)
      → Kept cs (cs', ds, accepted)
      → Kept cs' (cs'', more, also)
      → Kept cs (cs'', ds ++ more, accepted ++ also)
  Kept-append cs cs' cs'' ds more accepted also k k' a =
      rw (on-append a ds more, on-append a accepted also)
        (append_assoc (on a ds) (on a more) (messages (cs'' a))
          ∙ ap (◌++◌ (on a ds)) (k' a)
          ∙ sym (append_assoc (on a ds) (messages (cs' a)) (on a also))
          ∙ ap (λ t. t ++ on a also) (k a)
          ∙ append_assoc (messages (cs a)) (on a accepted) (on a also))

  -- Any number of channels, of any capacities, and any uses of senders and receivers of them, dynamic
  -- or not, in any order: no use panics, and for each channel the messages that its receivers got,
  -- followed by those that are queued in it in the end, are the ones queued in it at first followed by those that its
  -- senders got accepted.
  pub run-Kept : (uses : List (Use T)) (cs : Channels T) → Returns (run uses cs) (Kept cs)
  unfolding run
  run-Kept [] cs = (_, refl, λ a. sym (append-nil _))
  run-Kept (u ∷ uses) cs =
      Returns->>= (Kept cs) (Kept cs) (step u cs) _ (step-Kept u cs) (λ (cs', ds, accepted) k.
        Returns->>= (Kept cs') (Kept cs) (run uses cs') _ (run-Kept uses cs')
          (λ (cs'', more, also) k'. (_, refl, Kept-append cs cs' cs'' ds more accepted also k k')))
