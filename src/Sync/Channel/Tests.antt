-- ===== src/Sync/Channel/Tests.antt =====
-- Runs of the channel of sync/channel.rs, of two messages.
use aurix_tc365_async_rust.Prelude.{
  arith, ℕ, ◌==◌, if◌then◌else◌, Returns, ◌≡◌, true, some, none, List, [], ◌∷◌, ◌++◌, length,
}
use aurix_tc365_async_rust.Heapless.{Deque}
use aurix_tc365_async_rust.Heapless.Model.{bounded_deque}
use aurix_tc365_async_rust.Sync.Channel.{new}
use aurix_tc365_async_rust.Sync.Channel.Handles as Handles
use aurix_tc365_async_rust.Sync.Channel.Handles.{Channels}
use aurix_tc365_async_rust.Sync.Channel.Handles.Senders as Senders
use aurix_tc365_async_rust.Sync.Channel.Handles.Senders.{sender, dyn_sender}
use aurix_tc365_async_rust.Sync.Channel.Handles.Receivers.{receiver, dyn_receiver}
use aurix_tc365_async_rust.Sync.Channel.Handles.Uses as Uses
use aurix_tc365_async_rust.Sync.Channel.Handles.Uses.{
  Use, polls_send, dynamic_sends, dynamic_polls_send, polls_receive, polls_receive_future,
  dynamic_receives,
}
use aurix_tc365_async_rust.Sync.Channel.Handles.Uses.{
  sends as handle_sends, receives as handle_receives,
}
use aurix_tc365_async_rust.Sync.Channel.Handles.Kept.{Kept}
use aurix_tc365_async_rust.Sync.Channel.Handles.Runs.{run-Kept}
use aurix_tc365_async_rust.Sync.Channel.Order.{
  Call, receives, asks_to_receive, sends, run, messages, run-order,
}
use aurix_tc365_async_rust.Sync.Channel.Wakeups.{trace, awake, sleeping_on_channel}

abbrev two_messages : Deque ℕ
two_messages = bounded_deque 2 (omega arith)

abbrev channel_calls : List (Call two_messages)
channel_calls =
    receives (some 4)
    ∷ sends 10 none
    ∷ sends 11 (some 5)
    ∷ sends 12 (some 5)
    ∷ asks_to_receive 4
    ∷ receives none
    ∷ []

run-order_example :
    let (c', ds, accepted) = run two_messages channel_calls (new two_messages) in
    ds ++ messages two_messages c' ≡ messages two_messages (new two_messages) ++ accepted
run-order_example = run-order two_messages channel_calls (new two_messages)

sleeping_on_channel_example :
    let (c', a') = trace two_messages 4 channel_calls (new two_messages) awake in
    (a'.receiver ≡ true → (c'.receiver_waker.waker ≡ some 4) × (messages two_messages c' ≡ []))
    × (a'.sender ≡ true
        → (c'.senders_waker.waker ≡ some 4) × (length (messages two_messages c') ≡ 2))
sleeping_on_channel_example = sleeping_on_channel two_messages 4 channel_calls (new two_messages)

abbrev two_channels : Channels ℕ
two_channels a =
    if a == 0 then Handles.new two_messages else Handles.new (bounded_deque 1 (omega arith))

-- Two channels, of two messages and of one, and copies of their handles.
abbrev handle_uses : List (Use ℕ)
handle_uses =
    polls_receive_future (receiver 0) 4
    ∷ handle_sends (sender 0) 10
    ∷ dynamic_polls_send (dyn_sender 1) 20 5
    ∷ handle_sends (sender 1) 21
    ∷ dynamic_sends (Senders.from (sender 0)) 11
    ∷ polls_send (Senders.clone (sender 0)) 12 5
    ∷ dynamic_receives (dyn_receiver 0)
    ∷ handle_receives (receiver 1)
    ∷ polls_receive (receiver 0) 4
    ∷ []

run-Kept_example : Returns (Uses.run handle_uses two_channels) (Kept two_channels)
run-Kept_example = run-Kept handle_uses two_channels
