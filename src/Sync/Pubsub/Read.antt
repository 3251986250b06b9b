-- ===== src/Sync/Pubsub/Read.antt =====
-- A subscriber of sync/pubsub/ asks for its next message.
use aurix_tc365_async_rust.Prelude.{
  ℕ, zero, suc, ◌+◌, ◌-◌, ◌^◌, ◌≤◌, ◌<◌, ◌≡◌, ◌≢◌, ◌∙◌, List, [], ◌∷◌, ◌++◌, arith, ltb, ◌==◌, ◌&&◌,
  if◌then◌else◌, length, length-append, All, All-middle, All-replace, length-drop, Option, none,
  some, get_elem?, sub_usize, Returns, Bool-cases, inl, inr,
}
use aurix_tc365_async_rust.Heapless.{Deque, Vec, map_index, head?}
use aurix_tc365_async_rust.Sync.Waitqueue.{Waker}
use aurix_tc365_async_rust.Sync.Waitqueue.MultiWaker
use aurix_tc365_async_rust.Sync.Pubsub.{
  PubSubState, WaitResult, lagged, message, read_once, get_message,
}
use aurix_tc365_async_rust.Sync.Pubsub.Counters.{
  readers, readers_mono, readers-append, readers-le-length, Counts, Counts-get, Counts-drop,
  Counts-read, Counts-cong,
}
use aurix_tc365_async_rust.Sync.Pubsub.Invariant.{
  items, oldest, Inv, lowered, items-lowered, length-lowered, get_message-lagged, get_message-none,
  get_message-message, deliver-keeps, deliver-pops,
}

readers-move :
    (pre post : List ℕ) (n j : ℕ)
    → readers (pre ++ (n ∷ post)) j ≡ (
        if j == n
        then suc (readers (pre ++ ((n + 1) ∷ post)) j)
        else readers (pre ++ ((n + 1) ∷ post)) j)
readers-move pre post n j =
    ground (arith, readers-append pre (n ∷ post) j, readers-append pre ((n + 1) ∷ post) j)

readers-jump :
    (pre post : List ℕ) (n to j : ℕ)
    → n ≤ to
    → to ≤ j
    → readers (pre ++ (n ∷ post)) j ≡ readers (pre ++ (to ∷ post)) j
readers-jump pre post n to j h k =
    ground (arith, readers-append pre (n ∷ post) j, readers-append pre (to ∷ post) j)

length-replace :
    (pre post : List ℕ) (n n' : ℕ) → length (pre ++ (n ∷ post)) ≡ length (pre ++ (n' ∷ post))
length-replace pre post n n' =
    omega (arith, length-append pre (n ∷ post), length-append pre (n' ∷ post))

head?-lowered :
    {T : Type 0} (q : List (T × ℕ)) (item : T × ℕ) (k : ℕ)
    → k ≡ 0
    → get_elem? q k ≡ some item
    → head? (map_index (λ j x. if j == k then read_once x else x) 0 q) ≡ some (read_once item)
head?-lowered q item (suc k) z h = absurd (omega arith)
head?-lowered [] item zero z h = cc
head?-lowered (x ∷ q) item zero z h = ground arith

module _ {T : Type 0} (D : Deque (T × ℕ)) (S P : Vec Waker) where
  module _ (pre post : List ℕ) (n : ℕ) {s : PubSubState D S P}
      (v : Inv D S P (pre ++ (n ∷ post)) s) where
    abbrev pub before : ℕ → ℕ
    before = readers (pre ++ (n ∷ post))

    abbrev pub after : ℕ → ℕ
    after = readers (pre ++ ((n + 1) ∷ post))

    small : (j : ℕ) → before j + 0 < 2 ^ 32
    small j = omega (arith, readers-le-length (pre ++ (n ∷ post)) j, v.few, v.word)

    counted-lowered :
        oldest D S P s ≤ n
        → Counts after 0 (oldest D S P s) (D.items (lowered D S P s (n - oldest D S P s)))
    counted-lowered h =
        let k = n - oldest D S P s in
        rw (items-lowered D S P s k) (
          Counts-read before after 0 (oldest D S P s) 0 k n (items D S P s) (omega arith) small
            (readers-move pre post n) v.counted)

    after-before : (j : ℕ) → j ≢ n → after j ≡ before j
    after-before j ne = ground (arith, readers-move pre post n j)

    moved :
        All (λ m. m ≤ s.next_message_id) (pre ++ (n ∷ post))
        → n < s.next_message_id
        → All (λ m. m ≤ s.next_message_id) (pre ++ ((n + 1) ∷ post))
    moved h k = All-replace (λ m. m ≤ s.next_message_id) pre n (n + 1) post (omega arith) h

    -- Where the message at `n` keeps a reader, or is not the oldest, it stays.
    keeps-Inv :
        oldest D S P s ≤ n
        → n < s.next_message_id
        → (n ≡ oldest D S P s → 0 < after n)
        → Inv D S P
            (pre ++ ((n + 1) ∷ post))
            (record s { queue = lowered D S P s (n - oldest D S P s) })
    keeps-Inv h k left =
        let k' = n - oldest D S P s in
        let same = length-lowered D S P s k' in
        record {
          subscribers = v.subscribers ∙ length-replace pre post n (n + 1);
          few = omega (arith, v.few, length-replace pre post n (n + 1));
          word = v.word;
          queued = omega (arith, v.queued, same);
          no_wrap = v.no_wrap;
          positions = moved v.positions k;
          counted = rw same (counted-lowered h);
          unread =
              rw same
                (λ p. ground (arith, readers-move pre post n (oldest D S P s), v.unread p, left));
        }

    -- Where it was the oldest and `n` was its last reader, it goes.
    pops-Inv :
        oldest D S P s ≡ n
        → n < s.next_message_id
        → (w : P.Carrier)
        → Inv D S P (pre ++ ((n + 1) ∷ post)) (record s {
          queue = (D.pop_front (lowered D S P s (n - oldest D S P s))).0;
          publisher_wakers = w;
        })
    pops-Inv h k w =
        let k' = n - oldest D S P s in
        let same = length-lowered D S P s k' in
        let popped = D.items-pop_front (lowered D S P s k') in
        let fewer : length (D.items (D.pop_front (lowered D S P s k')).0) + 1
            ≡ length (items D S P s) =
          rw popped (omega (arith, same, length-drop 1 (D.items (lowered D S P s k')))) in
        let moved_on : s.next_message_id - length (D.items (D.pop_front (lowered D S P s k')).0)
            ≡ oldest D S P s + 1 =
          omega (arith, fewer, v.queued) in
        record {
          subscribers = v.subscribers ∙ length-replace pre post n (n + 1);
          few = omega (arith, v.few, length-replace pre post n (n + 1));
          word = v.word;
          queued = omega (arith, v.queued, fewer);
          no_wrap = v.no_wrap;
          positions = moved v.positions k;
          counted =
              rw (moved_on, popped)
                (Counts-drop after 0 (oldest D S P s) _ (counted-lowered (omega arith)));
          unread = λ p. rw moved_on (
              ground (
                arith,
                readers-move pre post n (oldest D S P s + 1),
                readers_mono (pre ++ (n ∷ post)) (oldest D S P s) (oldest D S P s + 1),
                v.unread (omega (arith, fewer)),
              ));
        }

    -- A subscriber behind the queue is set to its start.
    pub jump-Inv : n < oldest D S P s → Inv D S P (pre ++ (oldest D S P s ∷ post)) s
    jump-Inv h = record {
      subscribers = v.subscribers ∙ length-replace pre post n (oldest D S P s);
      few = omega (arith, v.few, length-replace pre post n (oldest D S P s));
      word = v.word;
      queued = v.queued;
      no_wrap = v.no_wrap;
      positions =
          All-replace (λ m. m ≤ s.next_message_id) pre n (oldest D S P s) post (omega arith)
            v.positions;
      counted =
          Counts-cong before (readers (pre ++ (oldest D S P s ∷ post))) 0 (oldest D S P s)
            (items D S P s) (λ j h' k. readers-jump pre post n (oldest D S P s) j (omega arith) h')
            v.counted;
      unread =
          λ p. omega (arith, v.unread p, readers-jump pre post n (oldest D S P s) (oldest D S P s));
    }

    -- What `get_message` for the subscriber at `n` comes to.
    abbrev pub Got : PubSubState D S P × List Waker × Option (WaitResult T) → Type 0
    Got (s', woken, some (message m)) =
        (oldest D S P s ≤ n)
        × (n < s.next_message_id)
        × (get_elem? (items D S P s) (n - oldest D S P s) ≡ some (m, before n))
        × Inv D S P (pre ++ ((n + 1) ∷ post)) s'
    Got (s', woken, some (lagged k)) =
        (n + k ≡ oldest D S P s) × (0 < k) × Inv D S P (pre ++ ((n + k) ∷ post)) s'
    Got (s', woken, none) = (n ≡ s.next_message_id) × Inv D S P (pre ++ (n ∷ post)) s'

    get_message-Got_message :
        oldest D S P s ≤ n → n < s.next_message_id → Returns (get_message D S P n s) Got
    get_message-Got_message h k =
        let at = n - oldest D S P s in
        let (m, here) =
          Counts-get before 0 (oldest D S P s) at (items D S P s) (omega (arith, v.queued))
            v.counted in
        let same : oldest D S P s + at ≡ n = omega arith in
        let here' : get_elem? (items D S P s) at ≡ some (m, before n) = ground (arith, here) in
        let item : T × ℕ = (m, before n) in
        let found = get_message-message D S P s v.queued v.no_wrap n item h k here' in
        let step = readers-move pre post n n in
        let s_pop = record s {
          queue = (D.pop_front (lowered D S P s at)).0;
          publisher_wakers = (MultiWaker.wake P s.publisher_wakers).0;
        } in
        let s_keep = record s { queue = lowered D S P s at } in
        elim (Bool-cases (at == 0 && (sub_usize (before n) 1 == 0))) [
          | inl last ↦ (
            (s_pop, (MultiWaker.wake P s.publisher_wakers).1, some (message m)),
            rw (
              found,
              deliver-pops D S P s at (read_once item) (lowered D S P s at) last (read_once item) (
                  rw (items-lowered D S P s at)
                    (head?-lowered (items D S P s) item at (ground arith) here')),
            ),
            (h, k, here', pops-Inv (ground arith) k (MultiWaker.wake P s.publisher_wakers).0),
          )
          | inr more ↦ (
            (s_keep, [], some (message m)),
            rw (found, deliver-keeps D S P s at (read_once item) (lowered D S P s at) more),
            (h, k, here', keeps-Inv h k (λ e. ground (arith, step, small n))),
          )
        ]

    -- In a state of the invariant `get_message` for one of the subscribers, at `n`, does not panic. A
    -- subscriber behind the queue gets the number of messages that it lost; it is then at the start of
    -- the queue. One that has read everything gets nothing. Any other gets the message with its id,
    -- whose counter was the number of subscribers still to read it. With the subscriber moved on, the
    -- state is one of the invariant.
    pub get_message-Got : Returns (get_message D S P n s) Got
    get_message-Got =
        let here = All-middle (λ m. m ≤ s.next_message_id) pre n post v.positions in
        elim (Bool-cases (ltb n (oldest D S P s))) [
          | inl behind ↦ (
            (s, [], some (lagged (oldest D S P s - n))),
            get_message-lagged D S P s v.queued v.no_wrap n (ground arith),
            (
              ground arith,
              ground arith,
              (let same : n + (oldest D S P s - n) ≡ oldest D S P s = ground arith in
                  rw same (jump-Inv (ground arith))),
            ),
          )
          | inr not_behind ↦ elim (Bool-cases (ltb n s.next_message_id)) [
            | inl unread_one ↦ get_message-Got_message (ground arith) (ground arith)
            | inr caught_up ↦ (
              (s, [], none),
              get_message-none D S P s v.queued v.no_wrap n (ground (arith, here)),
              (ground (arith, here), v),
            )
          ]
        ]
