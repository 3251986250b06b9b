-- ===== src/Time.antt =====
-- time/timer_queue.rs: the timers that an executor waits for.
-- An item is its `expires_at` and its waker, the number of its task.
pub mod Expiry
mod Tests
use aurix_tc365_async_rust.Prelude.{
  ℕ, zero, suc, Bool, Option, none, some, List, [], ◌∷◌, leb, if◌then◌else◌, add_usize, Outcome,
  ret, panic, ◌>>=◌,
}
use aurix_tc365_async_rust.Heapless.Heap.{BinaryHeap}

pub record TimerQueueItem : Type 0 where
  pub expires_at : ℕ
  pub waker : ℕ

-- `Ord` for `TimerQueueItem`, and the `Min` kind: the item that expires first comes out first.
abbrev pub first : TimerQueueItem → TimerQueueItem → Bool
first a b = leb a.expires_at b.expires_at

abbrev pub n_timers : ℕ
n_timers = 64

module _ (H : BinaryHeap TimerQueueItem first) where
  unfoldable pub new : H.Carrier
  new = H.new

  unfoldable pub enqueue : TimerQueueItem → H.Carrier → H.Carrier × Option (Unit {0})
  enqueue item queue =
      let (q, refused) = H.push queue item in
      elim refused [ none ↦ (q, some tt) | some _ ↦ (queue, none) ]

  -- The `loop`, over the items that `on_each` was called on, oldest call first. It pops one item in each
  -- round, so `len` rounds and one more are enough.
  unfoldable pub expire : ℕ → ℕ → H.Carrier → ℕ → Outcome (H.Carrier × List TimerQueueItem × ℕ)
  expire zero now queue x = panic
  expire (suc rounds) now queue x =
      let rest = expire rounds now (H.pop queue).0 (add_usize x 1) in
      elim (H.peek queue) [
        | none ↦ ret (queue, [], x)
        | some item ↦
            if leb item.expires_at now
            then elim (H.pop queue).1 [
              | none ↦ panic
              | some item' ↦ rest >>= λ (q, called, x'). ret (q, item' ∷ called, x')
            ]
            else ret (queue, [], x)
      ]

  unfoldable pub dequeue_expired : ℕ → H.Carrier → Outcome (H.Carrier × List TimerQueueItem × ℕ)
  dequeue_expired now queue = expire (suc (H.len queue)) now queue 0

  unfoldable pub next_expiration : H.Carrier → Option ℕ
  next_expiration queue = elim (H.peek queue) [ none ↦ none | some item ↦ some item.expires_at ]
