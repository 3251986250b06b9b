-- ===== src/Sync/Pubsub/Leak.antt =====
-- A subscriber of sync/pubsub/ that the queue has left behind goes.
use aurix_tc365_async_rust.Prelude.{
  ℕ, ◌+◌, ◌≤◌, ◌<◌, ◌≡◌, refl, List, [], ◌∷◌, ◌++◌, arith, leb, false,
}
use aurix_tc365_async_rust.Heapless.{Deque, Vec}
use aurix_tc365_async_rust.Sync.Waitqueue.{Waker}
use aurix_tc365_async_rust.Sync.Pubsub.{PubSubState, unregister_subscriber}
use aurix_tc365_async_rust.Sync.Pubsub.Counters.{readers, Counts}
use aurix_tc365_async_rust.Sync.Pubsub.Invariant.{items, oldest, Inv, start_id-oldest}
use aurix_tc365_async_rust.Sync.Pubsub.Leave.{readers-remove}

Counts-too_many :
    {T : Type 0} (R R' : ℕ → ℕ) (i : ℕ) (q : List (T × ℕ))
    → ((j : ℕ) → i ≤ j → R j ≡ R' j + 1)
    → Counts R 0 i q
    → Counts R' 1 i q
Counts-too_many R R' i [] more h = tt
Counts-too_many R R' i ((m, c) ∷ q) more h = (
  omega (arith, h.0, more i (omega arith)),
  Counts-too_many R R' (i + 1) q (λ j k. more j (omega arith)) h.1,
)

module _ {T : Type 0} (D : Deque (T × ℕ)) (S P : Vec Waker) where
  -- A subscriber behind the queue, at `n`, leaves every counter as it was. So afterwards each queued
  -- message counts one reader more than the subscribers that have yet to read it, and no publisher is
  -- woken.
  pub unregister_subscriber_leaks :
      (pre post : List ℕ) (n : ℕ) (s : PubSubState D S P)
      → Inv D S P (pre ++ (n ∷ post)) s
      → n < oldest D S P s
      → let s' = (unregister_subscriber D S P n s).0 in
        ((unregister_subscriber D S P n s).1 ≡ [])
        × (items D S P s' ≡ items D S P s)
        × Counts (readers (pre ++ post)) 1 (oldest D S P s') (items D S P s')
  unfolding unregister_subscriber
  unregister_subscriber_leaks pre post n s v h =
      let start = start_id-oldest D S P s v.queued v.no_wrap in
      let behind : leb (oldest D S P s) n ≡ false = ground arith in
      rw (start, behind)
        (
          refl,
          refl,
          Counts-too_many (readers (pre ++ (n ∷ post))) (readers (pre ++ post)) (oldest D S P s)
              (items D S P s) (λ j k. ground (arith, readers-remove pre post n j)) v.counted,
        )
