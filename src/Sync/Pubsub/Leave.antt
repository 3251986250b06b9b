-- ===== src/Sync/Pubsub/Leave.antt =====
-- A subscriber of sync/pubsub/ goes: `unregister_subscriber`.
use aurix_tc365_async_rust.Prelude.{
  ℕ, drop, length-drop, zero, suc, ◌+◌, ◌-◌, ◌^◌, ◌≤◌, ◌<◌, ◌≡◌, refl, sym, ap, ◌∙◌, List, [], ◌∷◌,
  ◌++◌, arith, ltb, leb, if◌then◌else◌, Bool, length, length-append, All-middle, All-remove,
  sub_usize, true, false, Bool-cases, inl, inr,
}
use aurix_tc365_async_rust.Heapless.{Deque, Vec, map_index, length-map_index}
use aurix_tc365_async_rust.Sync.Waitqueue.{Waker}
use aurix_tc365_async_rust.Sync.Waitqueue.MultiWaker
use aurix_tc365_async_rust.Sync.Pubsub.{
  PubSubState, unregister_subscriber, pop_read, read_once, index_from,
}
use aurix_tc365_async_rust.Sync.Pubsub.Counters.{
  readers, readers-append, readers-le-length, Counts, Counts-leave,
}
use aurix_tc365_async_rust.Sync.Pubsub.Popping.{Popped, pop_read-Popped}
use aurix_tc365_async_rust.Sync.Pubsub.Invariant.{items, oldest, Inv, start_id-oldest}

pub readers-remove :
    (pre post : List ℕ) (n j : ℕ)
    → readers (pre ++ (n ∷ post)) j
      ≡ (if leb n j then suc (readers (pre ++ post) j) else readers (pre ++ post) j)
readers-remove pre post n j =
    ground (arith, readers-append pre (n ∷ post) j, readers-append pre post j)

module _ {T : Type 0} where
  -- The messages of items, without their counters.
  abbrev pub contents : List (T × ℕ) → List T
  contents [] = []
  contents ((m, c) ∷ q) = m ∷ contents q

  contents-drop : (k : ℕ) (q : List (T × ℕ)) → contents (drop k q) ≡ drop k (contents q)
  contents-drop zero q = refl
  contents-drop (suc k) [] = refl
  contents-drop (suc k) ((m, c) ∷ q) = contents-drop k q

  contents-lowered :
      (k i : ℕ) (q : List (T × ℕ))
      → contents (map_index (λ j x. if leb k j then read_once x else x) i q) ≡ contents q
  contents-lowered k i [] = refl
  contents-lowered k i ((m, c) ∷ q) = elim (Bool-cases (leb k i)) [
    | inl e ↦ rw (contents-lowered k (i + 1) q, e) refl
    | inr e ↦ rw (contents-lowered k (i + 1) q, e) refl
  ]

module _ {T : Type 0} (D : Deque (T × ℕ)) (S P : Vec Waker) where
  module _ (pre post : List ℕ) (n : ℕ) {s : PubSubState D S P}
      (v : Inv D S P (pre ++ (n ∷ post)) s) where
    abbrev before : ℕ → ℕ
    before = readers (pre ++ (n ∷ post))

    abbrev after : ℕ → ℕ
    after = readers (pre ++ post)

    fewer_subs : length (pre ++ (n ∷ post)) ≡ suc (length (pre ++ post))
    fewer_subs = omega (arith, length-append pre (n ∷ post), length-append pre post)

    small : (j : ℕ) → before j + 0 < 2 ^ 32
    small j = omega (arith, readers-le-length (pre ++ (n ∷ post)) j, v.few, v.word)

    abbrev lowered_from : ℕ → D.Carrier
    lowered_from k = D.iter_mut (λ j x. if leb k j then read_once x else x) s.queue

    length-lowered_from : (k : ℕ) → length (D.items (lowered_from k)) ≡ length (items D S P s)
    length-lowered_from k =
        rw (D.items-iter_mut (λ j x. if leb k j then read_once x else x) s.queue)
          (length-map_index _ 0 (items D S P s))

    counted-lowered_from :
        oldest D S P s ≤ n
        → Counts after 0 (oldest D S P s) (D.items (lowered_from (n - oldest D S P s)))
    counted-lowered_from h =
        let k = n - oldest D S P s in
        rw (D.items-iter_mut (λ j x. if leb k j then read_once x else x) s.queue) (
          Counts-leave before after 0 (oldest D S P s) 0 k n (items D S P s) (omega arith) small
            (readers-remove pre post n) v.counted)

    -- What the loop made of the lowered queue.
    abbrev popped_queue : D.Carrier × Bool
    popped_queue = let q = lowered_from (n - oldest D S P s) in pop_read D S P (D.len q) q false

    popped_queue-Popped :
        oldest D S P s ≤ n
        → Popped D S P after (oldest D S P s) (lowered_from (n - oldest D S P s)) false popped_queue
    popped_queue-Popped h =
        let q = lowered_from (n - oldest D S P s) in
        pop_read-Popped D S P after (D.len q) (oldest D S P s) q false (omega (arith, D.len_lem q))
          (counted-lowered_from h)

    -- The messages that go are the first `k`, and the others keep their ids.
    left-oldest :
        (k : ℕ)
        → k ≤ length (D.items (lowered_from (n - oldest D S P s)))
        → D.items popped_queue.0 ≡ drop k (D.items (lowered_from (n - oldest D S P s)))
        → (length (D.items popped_queue.0) ≤ length (items D S P s))
          × (s.next_message_id - length (D.items popped_queue.0) ≡ oldest D S P s + k)
    left-oldest k le dropped =
        let same = length-lowered_from (n - oldest D S P s) in
        let all = D.items (lowered_from (n - oldest D S P s)) in
        let less : length (D.items popped_queue.0) ≡ length all - k =
          ap length dropped ∙ length-drop k all in
        (omega (arith, less, same), omega (arith, less, same, le, v.queued))

    left-Inv :
        oldest D S P s ≤ n
        → (w : P.Carrier)
        → Inv D S P (pre ++ post) (record s {
          queue = popped_queue.0;
          publisher_wakers = w;
          subscriber_count = sub_usize s.subscriber_count 1;
        })
    left-Inv h w =
        let (k, le, dropped, flag, gone, cs, some_left) = popped_queue-Popped h in
        let (fewer, first) = left-oldest k le dropped in
        record {
          subscribers = ground (arith, v.subscribers, fewer_subs, v.few, v.word);
          few = omega (arith, fewer_subs, v.few);
          word = v.word;
          queued = omega (arith, fewer, v.queued);
          no_wrap = v.no_wrap;
          positions = All-remove (λ m. m ≤ s.next_message_id) pre n post v.positions;
          counted = rw first cs;
          unread = rw first some_left;
        }

    left-contents :
        (k : ℕ)
        → D.items popped_queue.0 ≡ drop k (D.items (lowered_from (n - oldest D S P s)))
        → contents (D.items popped_queue.0) ≡ drop k (contents (items D S P s))
    left-contents k dropped =
        let from = n - oldest D S P s in
        ap contents dropped
        ∙ contents-drop k (D.items (lowered_from from))
        ∙ ap (λ q. drop k (contents q))
            (D.items-iter_mut (λ j x. if leb from j then read_once x else x) s.queue)
        ∙ ap (drop k) (contents-lowered from 0 (items D S P s))

    -- The first `k` messages go, and no others.
    abbrev pub Gone : PubSubState D S P × List Waker → Type 0
    Gone (s', woken) =
        (k : ℕ) × (k ≤ length (items D S P s))
        × (contents (items D S P s') ≡ drop k (contents (items D S P s)))
        × ((j : ℕ) → j < k → readers (pre ++ post) (oldest D S P s + j) ≡ 0)
        × (woken ≡ (if ltb 0 k then P.items s.publisher_wakers else []))

    -- In a state of the invariant, a subscriber that is not behind the queue leaves it one of the
    -- invariant for the others, so the first message that stays, if one does, has a reader left. Of
    -- the queued messages exactly the first `k`, for some `k`, go, each of which none of the others
    -- has yet to read; the rest stays, unchanged and in order. All publishers that wait are woken if
    -- a message went, and none is if not.
    pub unregister_subscriber-Inv :
        oldest D S P s ≤ n
        → Inv D S P (pre ++ post) (unregister_subscriber D S P n s).0
          × Gone (unregister_subscriber D S P n s)
    unfolding unregister_subscriber MultiWaker.wake
    unregister_subscriber-Inv h =
        let start = start_id-oldest D S P s v.queued v.no_wrap in
        let index : index_from (oldest D S P s) n ≡ n - oldest D S P s = omega (
          arith,
          v.no_wrap,
          v.queued,
          D.length-le-cap s.queue,
          D.cap_word,
          All-middle (λ m. m ≤ s.next_message_id) pre n post v.positions,
        ) in
        let ahead : leb (oldest D S P s) n ≡ true = ground arith in
        let (k, le, dropped, flag, gone, cs, some_left) = popped_queue-Popped h in
        let inside : k ≤ length (items D S P s) =
          omega (arith, le, length-lowered_from (n - oldest D S P s)) in
        elim (Bool-cases popped_queue.1) [
          | inl wakes ↦
              rw (start, index, ahead, wakes)
                (
                  left-Inv h (P.clear s.publisher_wakers),
                  (k, inside, left-contents k dropped, gone, rw (sym flag ∙ wakes) refl),
                )
          | inr quiet ↦
              rw (start, index, ahead, quiet)
                (
                  left-Inv h s.publisher_wakers,
                  (k, inside, left-contents k dropped, gone, rw (sym flag ∙ quiet) refl),
                )
        ]
