-- ===== src/Sync/Pubsub/Calls.antt =====
-- Publishing to sync/pubsub/, and the subscribers' coming.
use aurix_tc365_async_rust.Prelude.{
  ℕ, ◌+◌, ◌-◌, ◌^◌, ◌≤◌, ◌<◌, ◌≡◌, ◌≢◌, refl, List, [], ◌∷◌, ◌++◌, arith, leb, ◌==◌, if◌then◌else◌,
  length, length-append, All, drop, length-drop, true, false, ret, ◌>>=◌, Returns, Result, ok, err,
  Bool-cases, inl, inr, ◌⊎◌,
}
use aurix_tc365_async_rust.Heapless.{Deque, Vec}
use aurix_tc365_async_rust.Sync.Waitqueue.{Waker}
use aurix_tc365_async_rust.Sync.Waitqueue.MultiWaker
use aurix_tc365_async_rust.Sync.Pubsub.{
  PubSubState, subscriber, try_publish, publish_immediate, add_u64, enqueue, published,
  maximum_subscribers_reached,
}
use aurix_tc365_async_rust.Sync.Pubsub.Counters.{
  readers, readers_mono, readers-All, readers-le-length, Counts-append, Counts-drop, Counts-cong,
}
use aurix_tc365_async_rust.Sync.Pubsub.Invariant.{items, oldest, Inv}

All-le-suc : (n : ℕ) (xs : List ℕ) → All (λ m. m ≤ n) xs → All (λ m. m ≤ n + 1) xs
All-le-suc n [] h = tt
All-le-suc n (x ∷ xs) h = (omega (arith, h.0), All-le-suc n xs h.1)

module _ {T : Type 0} (D : Deque (T × ℕ)) (S P : Vec Waker) where
  -- In a state of the invariant, `subscriber` either refuses, since there are as many subscribers as
  -- the registration has room for wakers, or adds one at the next id: nothing that was published
  -- before is for it, no counter changes, and the invariant holds with it among the subscribers.
  pub subscriber-Inv :
      (subs : List ℕ) (s : PubSubState D S P)
      → Inv D S P subs s
      → (subscriber D S P s ≡ (s, err maximum_subscribers_reached)) × (length subs ≡ S.cap)
        ⊎ ((subscriber D S P s).1 ≡ ok s.next_message_id)
          × Inv D S P (s.next_message_id ∷ subs) (subscriber D S P s).0
  unfolding subscriber
  subscriber-Inv subs s v = elim (Bool-cases (leb S.cap s.subscriber_count)) [
    | inl full ↦ inl (rw full refl, ground (arith, v.subscribers, v.few))
    | inr room ↦ inr (
      rw room refl,
      rw room record {
        subscribers = ground (arith, v.subscribers, v.word);
        few = ground (arith, v.subscribers);
        word = v.word;
        queued = v.queued;
        no_wrap = v.no_wrap;
        positions = (omega arith, v.positions);
        counted =
            Counts-cong (readers subs) (readers (s.next_message_id ∷ subs)) 0 (oldest D S P s)
              (items D S P s) (λ j h k. ground (arith, v.queued)) v.counted;
        unread = λ p. ground (arith, v.unread p);
      },
    )
  ]

  module _ (subs : List ℕ) (s : PubSubState D S P) (v : Inv D S P subs s) where
    -- Room for the message, and a subscriber to read it.
    pub enqueue-Inv :
        (m : T)
        → 0 < length subs
        → length (items D S P s) < D.cap
        → s.next_message_id + 1 < 2 ^ 63
        → Returns (enqueue D S P m s) (λ (s', woken, r).
          (items D S P s' ≡ items D S P s ++ ((m, length subs) ∷ []))
          × (s'.next_message_id ≡ s.next_message_id + 1)
          × (woken ≡ S.items s.subscriber_wakers)
          × (r ≡ ok tt)
          × Inv D S P subs s')
    unfolding enqueue MultiWaker.wake
    enqueue-Inv m some_sub room no_wrap =
        let q = (D.push_back s.queue (m, s.subscriber_count)).0 in
        let s' = record s {
          queue = q;
          next_message_id = add_u64 s.next_message_id 1;
          subscriber_wakers = S.clear s.subscriber_wakers;
        } in
        let pushed : D.items q ≡ items D S P s ++ ((m, length subs) ∷ []) =
          ground (arith, D.items-push_back s.queue (m, s.subscriber_count), v.subscribers) in
        let longer : length (D.items q) ≡ length (items D S P s) + 1 =
          rw pushed (omega (arith, length-append (items D S P s) ((m, length subs) ∷ []))) in
        let next : add_u64 s.next_message_id 1 ≡ s.next_message_id + 1 = omega arith in
        let same : add_u64 s.next_message_id 1 - length (D.items q) ≡ oldest D S P s =
          omega (arith, next, longer) in
        (
          (s', S.items s.subscriber_wakers, ok tt),
          ground (arith, D.push_back-refuses s.queue (m, s.subscriber_count)),
          (
            pushed,
            next,
            refl,
            refl,
            record {
              subscribers = v.subscribers;
              few = v.few;
              word = v.word;
              queued = omega (arith, v.queued, longer);
              no_wrap = omega (arith, next);
              positions = rw next (All-le-suc s.next_message_id subs v.positions);
              counted =
                  rw (same, pushed)
                    (Counts-append (readers subs) 0 (oldest D S P s) s.next_message_id
                      (items D S P s) m (length subs) (omega (arith, v.queued))
                      (omega (arith, readers-All subs s.next_message_id v.positions)) v.counted);
              unread = λ p. rw same (
                  ground
                    (arith, v.unread, v.queued, readers-All subs s.next_message_id v.positions));
            },
          ),
        )

    abbrev pub Published : T → PubSubState D S P × List Waker × Result (Unit {0}) T → Type 0
    Published m (s', woken, r) =
        (length subs ≡ 0) × (s' ≡ s) × (woken ≡ []) × (r ≡ ok tt)
        ⊎ (length subs ≢ 0)
          × (length (items D S P s) ≡ D.cap)
          × (s' ≡ s)
          × (woken ≡ [])
          × (r ≡ err m)
        ⊎ (length subs ≢ 0)
          × (length (items D S P s) < D.cap)
          × (items D S P s' ≡ items D S P s ++ ((m, length subs) ∷ []))
          × (s'.next_message_id ≡ s.next_message_id + 1)
          × (woken ≡ S.items s.subscriber_wakers)
          × (r ≡ ok tt)
          × Inv D S P subs s'

    -- In a state of the invariant, and with ids left, `try_publish` does not panic. Without subscribers
    -- the message is dropped. With subscribers and a full queue it is refused. Else it is queued behind
    -- the others for all the subscribers there are, the subscribers that wait are woken, and the
    -- invariant holds.
    pub try_publish-Published :
        (m : T) → s.next_message_id + 1 < 2 ^ 63 → Returns (try_publish D S P m s) (Published m)
    unfolding try_publish
    try_publish-Published m no_wrap = elim (Bool-cases (s.subscriber_count == 0)) [
      | inl nobody ↦
          ((s, [], ok tt), rw nobody refl, inl (ground (arith, v.subscribers), refl, refl, refl))
      | inr somebody ↦ elim (Bool-cases (D.is_full s.queue)) [
        | inl full ↦ (
          (s, [], err m),
          rw (somebody, full) refl,
          inr (
              inl (
                ground (arith, v.subscribers),
                ground (arith, D.is_full_lem s.queue),
                refl,
                refl,
                refl,
              )),
        )
        | inr room ↦
            (let fits : length (items D S P s) < D.cap =
                ground (arith, D.is_full_lem s.queue, D.length-le-cap s.queue) in
              let ((s', w, r), run, (pushed, next, woken, fine, v')) =
                enqueue-Inv m (ground (arith, v.subscribers)) fits no_wrap in
              (
                (s', w, r),
                rw (somebody, room) run,
                inr (inr (ground (arith, v.subscribers), fits, pushed, next, woken, fine, v')),
              ))
      ]
    ]

    nobody-empty : length subs ≡ 0 → length (items D S P s) ≡ 0
    nobody-empty e = elim (Bool-cases (length (items D S P s) == 0)) [
      | inl z ↦ ground arith
      | inr nz ↦ ground (arith, v.unread, readers-le-length subs (oldest D S P s))
    ]

    -- The oldest message makes room.
    drop_oldest-Inv :
        0 < length (items D S P s) → Inv D S P subs (record s { queue = (D.pop_front s.queue).0 })
    drop_oldest-Inv some_left =
        let popped = D.items-pop_front s.queue in
        let fewer : length (D.items (D.pop_front s.queue).0) ≡ length (items D S P s) - 1 =
          rw popped (omega (arith, length-drop 1 (items D S P s))) in
        let moved_on : s.next_message_id - length (D.items (D.pop_front s.queue).0)
            ≡ oldest D S P s + 1 =
          ground (arith, fewer, v.queued) in
        record {
          subscribers = v.subscribers;
          few = v.few;
          word = v.word;
          queued = omega (arith, v.queued, fewer);
          no_wrap = v.no_wrap;
          positions = v.positions;
          counted =
              rw (moved_on, popped)
                (Counts-drop (readers subs) 0 (oldest D S P s) (items D S P s) v.counted);
          unread = λ p. rw moved_on (
              ground (
                arith,
                readers_mono subs (oldest D S P s) (oldest D S P s + 1),
                v.unread (omega (arith, fewer)),
              ));
        }

  published-ok :
      (s : PubSubState D S P) (w : List Waker) (r : Result (Unit {0}) T)
      → r ≡ ok tt
      → published D S P (s, w, r) ≡ ret (s, w)
  published-ok s w (ok u) e = refl
  published-ok s w (err m) e = cc

  abbrev pub PublishedImmediate :
      List ℕ → T → PubSubState D S P → PubSubState D S P × List Waker → Type 0
  PublishedImmediate subs m s (s', woken) =
      Inv D S P subs s'
      × (items D S P s' ≡ (
          if length subs == 0
          then items D S P s
          else (if length (items D S P s) == D.cap then drop 1 (items D S P s) else items D S P s)
            ++ ((m, length subs) ∷ [])))
      × (s'.next_message_id
          ≡ (if length subs == 0 then s.next_message_id else s.next_message_id + 1))

  -- `try_publish` on a queue that is known to have room, with its `.ok().unwrap()`.
  publish_into_room :
      (subs : List ℕ) (s : PubSubState D S P)
      → Inv D S P subs s
      → (m : T) → length (items D S P s) < D.cap
      → s.next_message_id + 1 < 2 ^ 63
      → Returns (try_publish D S P m s >>= published D S P) (λ (s', woken).
        Inv D S P subs s'
        × (items D S P s' ≡ (
            if length subs == 0 then items D S P s else items D S P s ++ ((m, length subs) ∷ [])))
        × (s'.next_message_id
            ≡ (if length subs == 0 then s.next_message_id else s.next_message_id + 1)))
  publish_into_room subs s v m room no_wrap =
      let ((s', w, r), run, done) = try_publish-Published subs s v m no_wrap in
      elim done [
        | inl (nobody, same, none_woken, fine) ↦ (
          (s', w),
          rw run (published-ok s' w r fine),
          (rw same v, rw (same, nobody) refl, rw (same, nobody) refl),
        )
        | inr (inl (somebody, full, _, _, _)) ↦ absurd (omega (arith, full, room))
        | inr (inr (somebody, _, pushed, next, _, fine, v')) ↦
            let not_zero : (length subs == 0) ≡ false = ground arith in
            ((s', w), rw run (published-ok s' w r fine), (v', rw not_zero pushed, rw not_zero next))
      ]

  -- In a state of the invariant, with ids left and a queue of one message at least,
  -- `publish_immediate` does not panic on its `unwrap`. The new message is the last, for all the
  -- subscribers there are, with the next id; a full queue loses its oldest message for it. Without
  -- subscribers nothing changes. The invariant holds after it.
  pub publish_immediate-Published :
      (subs : List ℕ) (s : PubSubState D S P)
      → Inv D S P subs s
      → (m : T) → 0 < D.cap
      → s.next_message_id + 1 < 2 ^ 63
      → Returns (publish_immediate D S P m s) (PublishedImmediate subs m s)
  unfolding publish_immediate
  publish_immediate-Published subs s v m pos no_wrap = elim (Bool-cases (D.is_full s.queue)) [
    | inl full ↦
        let popped = D.items-pop_front s.queue in
        let s_drop = record s { queue = (D.pop_front s.queue).0 } in
        let at_cap : length (items D S P s) ≡ D.cap = ground (arith, D.is_full_lem s.queue) in
        let eq : (length (items D S P s) == D.cap) ≡ true = ground arith in
        let nonempty : (length subs == 0) ≡ false = ground (arith, nobody-empty subs s v) in
        let room : length (items D S P s_drop) < D.cap =
          rw popped (omega (arith, length-drop 1 (items D S P s))) in
        let (out, run, (v', pushed, next)) =
          publish_into_room subs s_drop (drop_oldest-Inv subs s v (omega (arith, at_cap))) m room
            no_wrap in
        (out, rw full run, (v', rw (eq, nonempty) (ground (arith, pushed, popped, nonempty)), next))
    | inr room ↦
        let ne : (length (items D S P s) == D.cap) ≡ false =
          ground (arith, D.is_full_lem s.queue) in
        let (out, run, (v', pushed, next)) =
          publish_into_room subs s v m
            (ground (arith, D.is_full_lem s.queue, D.length-le-cap s.queue)) no_wrap in
        (out, rw room run, (v', rw ne pushed, next))
  ]
