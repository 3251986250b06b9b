-- ===== src/Time/Tests.antt =====
-- A queue of four timers, two of which have expired at 20.
use aurix_tc365_async_rust.Prelude.{ℕ, arith, Returns}
use aurix_tc365_async_rust.Heapless.Heap.{BinaryHeap}
use aurix_tc365_async_rust.Heapless.Sorted.{ranked_heap}
use aurix_tc365_async_rust.Time.{TimerQueueItem, first, dequeue_expired, n_timers}
use aurix_tc365_async_rust.Time.Expiry.{Expired, dequeue_expired-Expired}

abbrev timers : BinaryHeap TimerQueueItem first
timers = ranked_heap n_timers (λ t. t.expires_at)

abbrev timer : ℕ → ℕ → TimerQueueItem
timer at task = record { expires_at = at; waker = task }

abbrev four_timers : timers.Carrier
four_timers =
    let q = (timers.push timers.new (timer 30 1)).0 in
    let q = (timers.push q (timer 10 2)).0 in
    let q = (timers.push q (timer 20 3)).0 in (timers.push q (timer 25 4)).0

dequeue_expired-Expired_example :
    Returns (dequeue_expired timers 20 four_timers) (Expired timers 20 0 (timers.items four_timers))
dequeue_expired-Expired_example = dequeue_expired-Expired timers 20 four_timers (omega arith)
