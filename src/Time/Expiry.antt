-- ===== src/Time/Expiry.antt =====
-- What `dequeue_expired` of time/timer_queue.rs takes out.
use aurix_tc365_async_rust.Prelude.{
  ℕ, zero, suc, ◌+◌, ◌^◌, ◌≤◌, ◌<◌, ◌≡◌, refl, inl, inr, Bool-cases, true, false, none, some, List,
  [], ◌∷◌, leb, length, All, arith, ret, ◌>>=◌, Returns, add_usize,
}
use aurix_tc365_async_rust.Heapless.Heap.{BinaryHeap, IsSorted}
use aurix_tc365_async_rust.Heapless.Due.{due, not_due, none_due, later-All}
use aurix_tc365_async_rust.Time.{TimerQueueItem, first, expire, dequeue_expired, next_expiration}

-- The timers of the list that have expired at `now`, and the others.
abbrev pub expired : ℕ → List TimerQueueItem → List TimerQueueItem
expired = due (λ t. t.expires_at)

abbrev pub waiting : ℕ → List TimerQueueItem → List TimerQueueItem
waiting = not_due (λ t. t.expires_at)

first_mono : (a b : TimerQueueItem) → first a b ≡ true → a.expires_at ≤ b.expires_at
first_mono a b h = ground arith

module _ (H : BinaryHeap TimerQueueItem first) where
  abbrev pub Expired : ℕ → ℕ → List TimerQueueItem → H.Carrier × List TimerQueueItem × ℕ → Type 0
  Expired now x before (q, called, x') =
      (called ≡ expired now before)
      × (H.items q ≡ waiting now before)
      × (x' ≡ x + length called)
      × ((at : ℕ) → next_expiration H q ≡ some at → now < at)

  next_later :
      (now : ℕ) (q : H.Carrier) (ts : List TimerQueueItem)
      → H.items q ≡ ts
      → All (λ t. now < t.expires_at) ts
      → (at : ℕ) → next_expiration H q ≡ some at
      → now < at
  unfolding next_expiration
  next_later now q [] e a at h =
      let none_left : H.peek q ≡ none = rw (H.peek_lem q, e) refl in absurd (ground (arith, h))
  next_later now q (t ∷ ts) e a at h =
      let here : H.peek q ≡ some t = rw (H.peek_lem q, e) refl in ground (arith, h, a.0)

  expire_stops :
      (rounds now : ℕ) (q : H.Carrier) (x : ℕ)
      → H.peek q ≡ none
      → expire H (suc rounds) now q x ≡ ret (q, [], x)
  unfolding expire
  expire_stops rounds now q x e = rw (e, expire) refl

  expire_waits :
      (rounds now : ℕ) (q : H.Carrier) (x : ℕ) (t : TimerQueueItem)
      → H.peek q ≡ some t
      → leb t.expires_at now ≡ false
      → expire H (suc rounds) now q x ≡ ret (q, [], x)
  unfolding expire
  expire_waits rounds now q x t e later = rw (e, expire, later) refl

  expire_pops :
      (rounds now : ℕ) (q : H.Carrier) (x : ℕ) (t : TimerQueueItem)
      → H.peek q ≡ some t
      → (H.pop q).1 ≡ some t
      → leb t.expires_at now ≡ true
      → expire H (suc rounds) now q x ≡ (
          expire H rounds now (H.pop q).0 (add_usize x 1) >>= λ (q', called, x').
          ret (q', t ∷ called, x'))
  unfolding expire
  expire_pops rounds now q x t e p due = rw (e, p, expire, due) refl

  -- The rounds over a queue with the items `ts`.
  expire-Expired :
      (rounds now : ℕ) (q : H.Carrier) (x : ℕ) (ts : List TimerQueueItem)
      → H.items q ≡ ts
      → IsSorted first ts
      → length ts < rounds
      → x + length ts < 2 ^ 32
      → Returns (expire H rounds now q x) (Expired now x ts)
  expire-Expired zero now q x ts e s few small = absurd (omega arith)
  expire-Expired (suc rounds) now q x [] e s few small = (
    (q, [], x),
    expire_stops rounds now q x (rw (H.peek_lem q, e) refl),
    (refl, e, omega arith, next_later now q [] e tt),
  )
  expire-Expired (suc rounds) now q x (t ∷ ts) e s few small =
      elim (Bool-cases (leb t.expires_at now)) [
        | inl due ↦
            let next : add_usize x 1 ≡ x + 1 = omega arith in
            let popped : H.items (H.pop q).0 ≡ ts = rw (H.items-pop q, e) refl in
            let ((q', called, x'), run, (c, w, n, l)) =
              expire-Expired rounds now (H.pop q).0 (add_usize x 1) ts popped s.1 (omega arith)
                (omega (arith, next)) in
            (
              (q', t ∷ called, x'),
              rw
                  (
                    expire_pops rounds now q x t (rw (H.peek_lem q, e) refl)
                        (rw (H.pop-head? q, e) refl) due,
                    run,
                  )
                  refl,
              rw due (rw c refl, w, omega (arith, n, next), l),
            )
        | inr later ↦
            let (e', w) =
              none_due (λ u. u.expires_at) first first_mono now t ts (ground arith) s.0 in
            (
              (q, [], x),
              expire_waits rounds now q x t (rw (H.peek_lem q, e) refl) later,
              rw (later, e', w)
                  (
                    refl,
                    e,
                    omega arith,
                    next_later now q (t ∷ ts) e (
                      ground arith,
                      later-All (λ u. u.expires_at) first first_mono now t ts (ground arith) s.0,
                    ),
                  ),
            )
      ]

  -- With less than 2 ^ 32 places, `dequeue_expired` neither panics nor runs on: it calls `on_each` on exactly the timers that have
  -- expired, the one that expires first before the others, leaves exactly the others, and returns how
  -- many there were. The next expiration, if there is one, is then still to come.
  pub dequeue_expired-Expired :
      (now : ℕ) (q : H.Carrier)
      → H.cap < 2 ^ 32
      → Returns (dequeue_expired H now q) (Expired now 0 (H.items q))
  unfolding dequeue_expired
  dequeue_expired-Expired now q word =
      expire-Expired (suc (H.len q)) now q 0 (H.items q) refl (H.items-IsSorted q)
        (omega (arith, H.len_lem q)) (omega (arith, H.length-le-cap q))
