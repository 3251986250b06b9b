-- ===== src/Sync/Pubsub/Handles.antt =====
-- sync/pubsub/subscriber.rs and publisher.rs: what the handles make of the channel's calls. A `Sub` is its
-- `next_message_id`, which each call returns anew; what a call wakes is left out where the caller
-- makes several.
use aurix_tc365_async_rust.Prelude.{
  ℕ, zero, suc, ◌+◌, ◌-◌, ◌^◌, ◌≤◌, ◌<◌, ◌≡◌, refl, ◌∙◌, length, List, [], ◌∷◌, ◌++◌, arith, Option,
  none, some, get_elem?, Outcome, ret, panic, ◌>>=◌, Returns, Result, ok, err, Poll, ready, pending,
  Bool-cases, inl, inr, ltb, max,
}
use aurix_tc365_async_rust.Heapless.{Deque, Vec}
use aurix_tc365_async_rust.Sync.Waitqueue.{Waker}
use aurix_tc365_async_rust.Sync.Pubsub.{
  PubSubState, WaitResult, lagged, message, get_message, get_message_with_context, advance,
  register_subscriber, add_u64, publish_with_context, unwrap,
}
use aurix_tc365_async_rust.Sync.Pubsub.Counters.{readers}
use aurix_tc365_async_rust.Sync.Pubsub.Invariant.{items, oldest, Inv, get_message-lagged}
use aurix_tc365_async_rust.Sync.Pubsub.Read.{Got, get_message-Got, jump-Inv}

module _ {T : Type 0} (D : Deque (T × ℕ)) (S P : Vec Waker) where
  -- `SubscriberWaitFuture::poll`
  unfoldable pub poll_next_message :
      Waker
      → ℕ
      → PubSubState D S P
      → Outcome (PubSubState D S P × ℕ × List Waker × Poll (WaitResult T))
  poll_next_message cx next s = get_message_with_context D S P next (some cx) s

  -- `Sub::try_next_message`
  unfoldable pub try_next_message :
      ℕ → PubSubState D S P → Outcome (PubSubState D S P × ℕ × Option (WaitResult T))
  try_next_message next s = get_message_with_context D S P next none s >>= λ (s', next', woken, r).
      elim r [ ready result ↦ ret (s', next', some result) | pending ↦ ret (s', next', none) ]

  -- The loop of `Sub::try_next_message_pure`.
  unfoldable pub try_next_message_pure :
      ℕ → ℕ → PubSubState D S P → Outcome (PubSubState D S P × ℕ × Option T)
  try_next_message_pure zero next s = panic
  try_next_message_pure (suc rounds) next s = try_next_message next s >>= λ (s', next', r). elim r [
    | none ↦ ret (s', next', none)
    | some (message m) ↦ ret (s', next', some m)
    | some (lagged k) ↦ try_next_message_pure rounds next' s'
  ]

  -- The match of `Stream::poll_next` for `Sub`.
  abbrev pub skip_lag :
      Waker
      → PubSubState D S P × ℕ × List Waker × Poll (WaitResult T)
      → PubSubState D S P × ℕ × List Waker × Poll (Option T)
  skip_lag cx (s, next, woken, ready (message m)) = (s, next, woken, ready (some m))
  skip_lag cx (s, next, woken, ready (lagged k)) = (s, next, woken ++ (cx ∷ []), pending)
  skip_lag cx (s, next, woken, pending) = (s, next, woken, pending)

  -- `Stream::poll_next` for `Sub`
  unfoldable pub poll_next :
      Waker → ℕ → PubSubState D S P → Outcome (PubSubState D S P × ℕ × List Waker × Poll (Option T))
  poll_next cx next s = get_message_with_context D S P next (some cx) s >>= λ x. ret (skip_lag cx x)

  -- The match of `PublisherWaitFuture::poll`.
  abbrev pub keep_refused :
      PubSubState D S P × List Waker × Result (Unit {0}) T
      → PubSubState D S P × Option T × List Waker × Poll (Unit {0})
  keep_refused (s, woken, ok u) = (s, none, woken, ready tt)
  keep_refused (s, woken, err m) = (s, some m, woken, pending)

  -- `PublisherWaitFuture::poll`, over the future's `message`.
  unfoldable pub poll_publish :
      Waker
      → Option T
      → PubSubState D S P
      → Outcome (PubSubState D S P × Option T × List Waker × Poll (Unit {0}))
  poll_publish cx kept s = do
    m ← unwrap kept
    x ← publish_with_context D S P m (some cx) s
    ret (keep_refused x)

  module _ (pre post : List ℕ) (n : ℕ) {s : PubSubState D S P}
      (v : Inv D S P (pre ++ (n ∷ post)) s) where
    -- What `try_next_message_pure` comes to: `at` is the message that it looks for.
    abbrev pub Received : ℕ → PubSubState D S P × ℕ × Option T → Type 0
    Received at (s', next', some m) =
        (at < s.next_message_id)
        × (next' ≡ at + 1)
        × (get_elem? (items D S P s) (at - oldest D S P s)
            ≡ some (m, readers (pre ++ (at ∷ post)) at))
        × Inv D S P (pre ++ (next' ∷ post)) s'
    Received at (s', next', none) =
        (at ≡ s.next_message_id) × (next' ≡ at) × Inv D S P (pre ++ (next' ∷ post)) s'

    Received-ahead :
        (rounds : ℕ) (s' : PubSubState D S P) (woken : List Waker) (r : Option (WaitResult T))
        → oldest D S P s ≤ n
        → get_message D S P n s ≡ ret (s', woken, r)
        → Got D S P pre post n v (s', woken, r)
        → Returns (try_next_message_pure (suc rounds) n s) (Received n)
    unfolding try_next_message_pure try_next_message get_message_with_context advance
        register_subscriber
    Received-ahead rounds s' woken (some (message m)) h run (_, k, here, v') =
        let next : add_u64 n 1 ≡ n + 1 = omega (arith, v.no_wrap) in
        ((s', add_u64 n 1, some m), rw run refl, (k, next, here, rw next v'))
    Received-ahead rounds s' woken (some (lagged k)) h run (e, pos, v') =
        absurd (omega (arith, e, pos, h))
    Received-ahead rounds s' woken none h run (e, v') = ((s', n, none), rw run refl, (e, refl, v'))

  ahead :
      (pre post : List ℕ) (n : ℕ) {s : PubSubState D S P} (v : Inv D S P (pre ++ (n ∷ post)) s)
      (rounds : ℕ)
      → oldest D S P s ≤ n
      → Returns (try_next_message_pure (suc rounds) n s) (Received pre post n v n)
  ahead pre post n v rounds h =
      let ((s', woken, r), run, got) = get_message-Got D S P pre post n v in
      Received-ahead pre post n v rounds s' woken r h run got

  lag_step :
      (rounds n : ℕ) (s : PubSubState D S P)
      → length (items D S P s) ≤ s.next_message_id
      → s.next_message_id < 2 ^ 63
      → n < oldest D S P s
      → try_next_message_pure (suc rounds) n s ≡ try_next_message_pure rounds (oldest D S P s) s
  unfolding try_next_message_pure try_next_message get_message_with_context advance
  lag_step rounds n s queued no_wrap h =
      let next : add_u64 n (oldest D S P s - n) ≡ oldest D S P s = omega arith in
      rw (get_message-lagged D S P s queued no_wrap n h, next) refl

  -- For a subscriber at `n` in a state of the invariant, `try_next_message_pure` returns within two rounds
  -- of its loop, since it lags once at most, and does not panic. It looks for the message `n`, or the oldest
  -- where that is gone. It returns it and moves the subscriber behind it, or, when that message is not
  -- published yet, returns nothing and leaves the subscriber there. The invariant holds after it.
  pub try_next_message_pure-Received :
      (pre post : List ℕ) (n : ℕ) {s : PubSubState D S P} (v : Inv D S P (pre ++ (n ∷ post)) s)
      → Returns (try_next_message_pure 2 n s) (Received pre post n v (max n (oldest D S P s)))
  try_next_message_pure-Received pre post n {s} v = elim (Bool-cases (ltb n (oldest D S P s))) [
    | inr not_behind ↦
        let at : max n (oldest D S P s) ≡ n = ground arith in
        rw at (ahead pre post n v 1 (ground arith))
    | inl behind ↦
        let at : max n (oldest D S P s) ≡ oldest D S P s = ground arith in
        let (x, run, got) =
          ahead pre post (oldest D S P s) (jump-Inv D S P pre post n v (ground arith)) 0
            (omega arith) in
        rw at (x, lag_step 1 n s v.queued v.no_wrap (ground arith) ∙ run, got)
  ]
