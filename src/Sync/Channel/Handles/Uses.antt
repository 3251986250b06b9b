-- ===== src/Sync/Channel/Handles/Uses.antt =====
-- Senders and receivers of several channels of sync/channel.rs, dynamic or not, and their uses in any order.
use aurix_tc365_async_rust.Prelude.{
  ℕ, ◌==◌, if◌then◌else◌, List, [], ◌∷◌, ◌++◌, Outcome, ret, ◌>>=◌, Result, ok, err, Poll, ready,
  pending,
}
use aurix_tc365_async_rust.Sync.Waitqueue.{Waker}
use aurix_tc365_async_rust.Sync.Channel.{TryReceiveError, TrySendError}
use aurix_tc365_async_rust.Sync.Channel.Order as Order
use aurix_tc365_async_rust.Sync.Channel.Handles.{
  Channel, Channels, send_poll, dynamic_send_poll, receive_poll, receive_ready_poll,
  dynamic_receive_poll,
}
use aurix_tc365_async_rust.Sync.Channel.Handles.Senders as Senders
use aurix_tc365_async_rust.Sync.Channel.Handles.Senders.{Sender, DynamicSender}
use aurix_tc365_async_rust.Sync.Channel.Handles.Receivers as Receivers
use aurix_tc365_async_rust.Sync.Channel.Handles.Receivers.{Receiver, DynamicReceiver}

-- Messages with the addresses of their channels.
abbrev pub Log : Type 0 → Type 0
Log T = List (ℕ × T)

-- What a task may do with a handle; the futures of the handle by their polls. A send future that is
-- pending has its message again, so that its next poll is another one of these.
pub data Use (T : Type 0) : Type 0 where
  sends : Sender → T → Use T
  polls_send : Sender → T → Waker → Use T
  asks_to_send : Sender → Waker → Use T
  dynamic_sends : DynamicSender → T → Use T
  dynamic_polls_send : DynamicSender → T → Waker → Use T
  dynamic_asks_to_send : DynamicSender → Waker → Use T
  receives : Receiver → Use T
  polls_receive : Receiver → Waker → Use T
  polls_receive_future : Receiver → Waker → Use T
  polls_ready : Receiver → Waker → Use T
  asks_to_receive : Receiver → Waker → Use T
  dynamic_receives : DynamicReceiver → Use T
  dynamic_polls_receive : DynamicReceiver → Waker → Use T
  dynamic_polls_receive_future : DynamicReceiver → Waker → Use T
  dynamic_asks_to_receive : DynamicReceiver → Waker → Use T

module _ {T : Type 0} where
  abbrev pub on : ℕ → Log T → List T
  on a [] = []
  on a ((b, m) ∷ log) = if a == b then m ∷ on a log else on a log

  abbrev pub tag : ℕ → List T → Log T
  tag a [] = []
  tag a (m ∷ ms) = (a, m) ∷ tag a ms

  abbrev pub messages : Channel T → List T
  messages c = Order.messages c.queue_type c.inner

  abbrev pub nothing : {R : Type 0} → R → List T
  nothing r = []

  abbrev pub taken : Result T TryReceiveError → List T
  taken (ok m) = m ∷ []
  taken (err e) = []

  abbrev pub polled : Poll T → List T
  polled (ready m) = m ∷ []
  polled pending = []

  abbrev pub given : T → Result (Unit {0}) (TrySendError T) → List T
  given m (ok u) = m ∷ []
  given m (err e) = []

  abbrev pub sent : T → Poll (Unit {0}) → List T
  sent m (ready u) = m ∷ []
  sent m pending = []

  abbrev pub logs :
      {R : Type 0} (a : ℕ) (delivered accepted : R → List T)
      → Channels T × List Waker × R
      → Channels T × Log T × Log T
  logs a delivered accepted (cs, woken, r) = (cs, tag a (delivered r), tag a (accepted r))

  -- The channels after a use, the messages that it delivered and those that were accepted.
  unfoldable pub step : Use T → Channels T → Outcome (Channels T × Log T × Log T)
  step (sends s m) cs = ret (logs s.channel nothing (given m) (Senders.try_send s m cs))
  step (polls_send s m cx) cs = send_poll cx (Senders.send s m) cs >>= λ (cs', f, woken, r).
      ret (logs s.channel nothing (sent m) (cs', woken, r))
  step (asks_to_send s cx) cs =
      ret (logs s.channel nothing nothing (Senders.poll_ready_to_send s cx cs))
  step (dynamic_sends s m) cs =
      ret (logs s.channel nothing (given m) (Senders.dynamic_try_send s m cs))
  step (dynamic_polls_send s m cx) cs =
      dynamic_send_poll cx (Senders.dynamic_send s m) cs >>= λ (cs', f, woken, r).
      ret (logs s.channel nothing (sent m) (cs', woken, r))
  step (dynamic_asks_to_send s cx) cs =
      ret (logs s.channel nothing nothing (Senders.dynamic_poll_ready_to_send s cx cs))
  step (receives r) cs = ret (logs r.channel taken nothing (Receivers.try_receive r cs))
  step (polls_receive r cx) cs =
      ret (logs r.channel polled nothing (Receivers.poll_receive r cx cs))
  step (polls_receive_future r cx) cs =
      ret (logs r.channel polled nothing (receive_poll cx (Receivers.receive r) cs))
  step (polls_ready r cx) cs =
      ret (logs r.channel nothing nothing (receive_ready_poll cx (Receivers.ready_to_receive r) cs))
  step (asks_to_receive r cx) cs =
      ret (logs r.channel nothing nothing (Receivers.poll_ready_to_receive r cx cs))
  step (dynamic_receives r) cs =
      ret (logs r.channel taken nothing (Receivers.dynamic_try_receive r cs))
  step (dynamic_polls_receive r cx) cs =
      ret (logs r.channel polled nothing (Receivers.dynamic_poll_receive r cx cs))
  step (dynamic_polls_receive_future r cx) cs =
      ret (logs r.channel polled nothing (dynamic_receive_poll cx (Receivers.dynamic_receive r) cs))
  step (dynamic_asks_to_receive r cx) cs =
      ret (logs r.channel nothing nothing (Receivers.dynamic_poll_ready_to_receive r cx cs))

  unfoldable pub run : List (Use T) → Channels T → Outcome (Channels T × Log T × Log T)
  run [] cs = ret (cs, [], [])
  run (use_ ∷ uses) cs = step use_ cs >>= λ (cs', ds, accepted).
      run uses cs' >>= λ (cs'', more, also). ret (cs'', ds ++ more, accepted ++ also)
