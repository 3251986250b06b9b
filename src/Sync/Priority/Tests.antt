-- ===== src/Sync/Priority/Tests.antt =====
-- Runs of the channel of sync/priority_channel.rs, of two messages.
use aurix_tc365_async_rust.Prelude.{
  ℕ, ◌≡◌, true, List, [], ◌∷◌, length, ◌++◌, All, some, none, arith, leb, pending,
}
use aurix_tc365_async_rust.Heapless.Heap.{BinaryHeap}
use aurix_tc365_async_rust.Heapless.Sorted.{ranked_heap}
use aurix_tc365_async_rust.Sync.Priority.{ChannelState, new, poll_ready_to_send}
use aurix_tc365_async_rust.Sync.Priority.Service.{poll_ready_to_send-pending}
use aurix_tc365_async_rust.Sync.Channel.Wakeups.{awake}
use aurix_tc365_async_rust.Sync.Priority.Runs.{run, messages_of, IsUrgent, run-IsUrgent}
use mathlib.Core.List.{Perm}
use aurix_tc365_async_rust.Sync.Priority.Wakeups.{
  Call, receives, polls_receive, asks_to_receive, sends, trace, sleeping_on_priority_channel,
}

abbrev two_lowest : BinaryHeap ℕ leb
two_lowest = ranked_heap 2 (λ n. n)

-- A sender waits.
abbrev both : ChannelState two_lowest
both = record {
  queue = (two_lowest.push (two_lowest.push two_lowest.new 9).0 4).0;
  receiver_waker = record { waker = none };
  senders_waker = record { waker = some 7 };
}

poll_ready_to_send-pending_example : (poll_ready_to_send two_lowest 7 (new two_lowest)).2 ≡ pending
poll_ready_to_send-pending_example =
    poll_ready_to_send-pending two_lowest 7 (new two_lowest) (omega arith)

-- The task 4 is refused by the third send, and is woken by the receive that follows.
abbrev priority_calls : List (Call two_lowest)
priority_calls =
    sends 10 none
    ∷ sends 3 (some 4)
    ∷ sends 12 (some 4)
    ∷ asks_to_receive 5
    ∷ receives none
    ∷ polls_receive 5
    ∷ polls_receive 4
    ∷ []

sleeping_on_priority_channel_example :
    let (c', a') = trace two_lowest 4 priority_calls (new two_lowest) awake in
    (a'.receiver ≡ true → (c'.receiver_waker.waker ≡ some 4) × (two_lowest.items c'.queue ≡ []))
    × (a'.sender ≡ true
        → (c'.senders_waker.waker ≡ some 4) × (length (two_lowest.items c'.queue) ≡ 2))
sleeping_on_priority_channel_example =
    sleeping_on_priority_channel two_lowest 4 priority_calls (new two_lowest)

run-IsUrgent_example :
    let (c', ds, accepted) = run two_lowest priority_calls both in
    Perm (messages_of ds ++ two_lowest.items c'.queue) (two_lowest.items both.queue ++ accepted)
    × All (IsUrgent two_lowest) ds
run-IsUrgent_example = run-IsUrgent two_lowest priority_calls both
