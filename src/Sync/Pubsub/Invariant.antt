-- ===== src/Sync/Pubsub/Invariant.antt =====
-- The invariant of the queue of sync/pubsub/mod.rs with its live subscribers, and the branches of
-- `get_message` under it.
use aurix_tc365_async_rust.Prelude.{
  ℕ, ◌-◌, ◌^◌, ◌≤◌, ◌<◌, ◌≡◌, List, [], arith, ltb, leb, ◌==◌, ◌&&◌, if◌then◌else◌, length, All,
  none, some, get_elem?, true, false, ret, ◌>>=◌,
}
use aurix_tc365_async_rust.Heapless.{Deque, Vec, map_index, length-map_index, head?}
use aurix_tc365_async_rust.Sync.Waitqueue.{Waker}
use aurix_tc365_async_rust.Sync.Waitqueue.MultiWaker
use aurix_tc365_async_rust.Sync.Pubsub.{
  PubSubState, lagged, message, read_once, index_from, get_message, deliver, start_id,
}
use aurix_tc365_async_rust.Sync.Pubsub.Counters.{readers, Counts}

module _ {T : Type 0} (D : Deque (T × ℕ)) (S P : Vec Waker) where
  abbrev pub items : PubSubState D S P → List (T × ℕ)
  items s = D.items s.queue

  -- The id of the oldest queued message.
  abbrev pub oldest : PubSubState D S P → ℕ
  oldest s = s.next_message_id - length (items s)

  -- `subs` has the `next_message_id` of each live subscriber. Each queued message counts those that
  -- have yet to read it, and the oldest has such a reader.
  pub record Inv (subs : List ℕ) (s : PubSubState D S P) : Type 0 where
    pub subscribers : s.subscriber_count ≡ length subs
    pub few : length subs ≤ S.cap
    pub word : S.cap < 2 ^ 31
    pub queued : length (items s) ≤ s.next_message_id
    pub no_wrap : s.next_message_id < 2 ^ 63
    pub positions : All (λ n. n ≤ s.next_message_id) subs
    pub counted : Counts (readers subs) 0 (oldest s) (items s)
    pub unread : 0 < length (items s) → 0 < readers subs (oldest s)

  -- The queue with one reader less at the position `k`.
  abbrev pub lowered : PubSubState D S P → ℕ → D.Carrier
  lowered s k = D.iter_mut (λ j x. if j == k then read_once x else x) s.queue

  pub items-lowered :
      (s : PubSubState D S P) (k : ℕ)
      → D.items (lowered s k) ≡ map_index (λ j x. if j == k then read_once x else x) 0 (items s)
  items-lowered s k = D.items-iter_mut _ s.queue

  pub length-lowered :
      (s : PubSubState D S P) (k : ℕ) → length (D.items (lowered s k)) ≡ length (items s)
  length-lowered s k = rw (items-lowered s k) (length-map_index _ 0 (items s))

  module _ (s : PubSubState D S P) (queued : length (items s) ≤ s.next_message_id)
      (no_wrap : s.next_message_id < 2 ^ 63) where
    pub start_id-oldest : start_id D S P s ≡ oldest s
    unfolding start_id
    start_id-oldest = omega (arith, D.len_lem s.queue)

    pub get_message-lagged :
        (n : ℕ) → n < oldest s → get_message D S P n s ≡ ret (s, [], some (lagged (oldest s - n)))
    unfolding get_message
    get_message-lagged n h = rw start_id-oldest (ground arith)

    pub get_message-none :
        (n : ℕ) → n ≡ s.next_message_id → get_message D S P n s ≡ ret (s, [], none)
    unfolding get_message
    get_message-none n h =
        rw start_id-oldest (ground (arith, D.len_lem s.queue, D.length-le-cap s.queue, D.cap_word))

    pub get_message-message :
        (n : ℕ) (item : T × ℕ)
        → oldest s ≤ n
        → n < s.next_message_id
        → get_elem? (items s) (n - oldest s) ≡ some item
        → get_message D S P n s ≡ (
            deliver D S P (n - oldest s) (read_once item) (lowered s (n - oldest s)) s
            >>= λ (s', woken, m). ret (s', woken, some (message m)))
    unfolding get_message
    get_message-message n item h k e =
        let index : index_from (oldest s) n ≡ n - oldest s =
          omega (arith, D.length-le-cap s.queue, D.cap_word) in
        let not_behind : ltb n (oldest s) ≡ false = ground arith in
        let inside : leb (D.len s.queue) (n - oldest s) ≡ false =
          ground (arith, D.len_lem s.queue) in
        rw (start_id-oldest, index, not_behind, inside, e)

  -- The state behind `deliver`: the item goes when its last reader has it.
  module _ (s : PubSubState D S P) (k : ℕ) (item : T × ℕ) (q : D.Carrier) where
    pub deliver-keeps :
        (k == 0 && (item.1 == 0)) ≡ false
        → deliver D S P k item q s ≡ ret (record s { queue = q }, [], item.0)
    unfolding deliver
    deliver-keeps h = rw h

    pub deliver-pops :
        (k == 0 && (item.1 == 0)) ≡ true
        → (front : T × ℕ) → head? (D.items q) ≡ some front
        → deliver D S P k item q s
          ≡ ret (
            record s {
              queue = (D.pop_front q).0;
              publisher_wakers = (MultiWaker.wake P s.publisher_wakers).0;
            },
            (MultiWaker.wake P s.publisher_wakers).1,
            front.0,
          )
    unfolding deliver
    deliver-pops h front e = rw (h, D.pop_front-head? q, e)
