-- ===== src/Sync/Pubsub/Tests.antt =====
-- A channel of sync/pubsub/ with room for three messages and two subscribers.
use aurix_tc365_async_rust.Prelude.{ℕ, ◌≡◌, refl, some, none, All, List, [], ◌∷◌, arith, Returns}
use aurix_tc365_async_rust.Heapless.{Deque, Vec}
use aurix_tc365_async_rust.Heapless.Model.{bounded_deque, bounded_vec}
use aurix_tc365_async_rust.Sync.Waitqueue.{Waker}
use aurix_tc365_async_rust.Sync.Pubsub.{PubSubState, get_message, unregister_subscriber}
use aurix_tc365_async_rust.Sync.Pubsub.Counters.{readers, Counts}
use aurix_tc365_async_rust.Sync.Pubsub.Invariant.{Inv, items, oldest}
use aurix_tc365_async_rust.Sync.Pubsub.Read.{Got, get_message-Got}
use aurix_tc365_async_rust.Sync.Pubsub.Leave.{Gone, unregister_subscriber-Inv}
use aurix_tc365_async_rust.Sync.Pubsub.Leak.{unregister_subscriber_leaks}
use aurix_tc365_async_rust.Sync.Pubsub.System.{
  Event, subscribes, publishes, publishes_immediate, receives, start, run,
}
use aurix_tc365_async_rust.Sync.Pubsub.Log.{IsLog}
use aurix_tc365_async_rust.Sync.Pubsub.Heard.{Followed}
use aurix_tc365_async_rust.Sync.Pubsub.Runs.{run-Heard}

abbrev places : Deque (ℕ × ℕ)
places = bounded_deque 3 (omega arith)

abbrev wakers : Vec Waker
wakers = bounded_vec 2

-- The messages 10 and 11 are queued, the first for one reader.
abbrev two_queued : PubSubState places wakers wakers
two_queued = record {
  queue = (70, 1) ∷ (71, 2) ∷ [];
  next_message_id = 12;
  subscriber_wakers = [];
  publisher_wakers = 7 ∷ [];
  subscriber_count = 2;
  publisher_count = 1;
}

one_reads-Inv : Inv places wakers wakers (10 ∷ 11 ∷ []) two_queued
one_reads-Inv = record {
  subscribers = refl;
  few = omega arith;
  word = omega arith;
  queued = omega arith;
  no_wrap = omega arith;
  positions = (omega arith, (omega arith, tt));
  counted = (refl, (refl, tt));
  unread = λ p. omega arith;
}

-- The first subscriber may as well have been left behind.
one_lags-Inv : Inv places wakers wakers (5 ∷ 11 ∷ []) two_queued
one_lags-Inv = record {
  subscribers = refl;
  few = omega arith;
  word = omega arith;
  queued = omega arith;
  no_wrap = omega arith;
  positions = (omega arith, (omega arith, tt));
  counted = (refl, (refl, tt));
  unread = λ p. omega arith;
}

get_message-Got_example :
    Returns
      (get_message places wakers wakers 10 two_queued)
      (Got places wakers wakers [] (11 ∷ []) 10 one_reads-Inv)
get_message-Got_example = get_message-Got places wakers wakers [] (11 ∷ []) 10 one_reads-Inv

unregister_subscriber-Inv_example :
    let left = unregister_subscriber places wakers wakers 10 two_queued in
    Inv places wakers wakers (11 ∷ []) left.0
    × Gone places wakers wakers [] (11 ∷ []) 10 one_reads-Inv left
unregister_subscriber-Inv_example =
    unregister_subscriber-Inv places wakers wakers [] (11 ∷ []) 10 one_reads-Inv (omega arith)

unregister_subscriber_leaks_example :
    let s' = (unregister_subscriber places wakers wakers 5 two_queued).0 in
    ((unregister_subscriber places wakers wakers 5 two_queued).1 ≡ [])
    × (items places wakers wakers s' ≡ items places wakers wakers two_queued)
    × Counts (readers (11 ∷ [])) 1 (oldest places wakers wakers s') (items places wakers wakers s')
unregister_subscriber_leaks_example =
    unregister_subscriber_leaks places wakers wakers [] (11 ∷ []) 5 two_queued one_lags-Inv
      (omega arith)

-- Of two subscribers one reads what is published at once, and the other comes late and then lags.
abbrev events : List (Event places wakers wakers)
events =
    subscribes
    ∷ publishes 50 none
    ∷ subscribes
    ∷ receives 1 (some 4)
    ∷ publishes 51 (some 5)
    ∷ publishes_immediate 52
    ∷ publishes_immediate 53
    ∷ publishes_immediate 54
    ∷ receives 0 none
    ∷ receives 0 none
    ∷ []

run-Heard_example :
    Returns
      (run places wakers wakers events (start places wakers wakers))
      (λ sys. All (Followed sys.log) sys.listeners × IsLog places wakers wakers sys.log sys.state)
run-Heard_example =
    run-Heard places wakers wakers events (omega arith) (omega arith) (omega arith) (omega arith)
      (omega arith)
