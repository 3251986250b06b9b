-- ===== src/Sync/Pubsub/Popping.antt =====
-- The loop of `unregister_subscriber` of sync/pubsub/mod.rs, which drops the messages that were read.
use aurix_tc365_async_rust.Prelude.{
  ℕ, drop, subst, zero, suc, ◌+◌, ◌≤◌, ◌<◌, ◌≡◌, refl, ap, ◌∙◌, List, [], ◌∷◌, arith, ltb, ◌==◌,
  Bool, ◌||◌, length, true, false, inl, inr, ◌⊎◌,
}
use aurix_tc365_async_rust.Heapless.{Deque, Vec}
use aurix_tc365_async_rust.Sync.Waitqueue.{Waker}
use aurix_tc365_async_rust.Sync.Pubsub.{pop_read}
use aurix_tc365_async_rust.Sync.Pubsub.Counters.{Counts, Counts-drop}

cases :
    {T : Type 0} (q : List (T × ℕ))
    → (q ≡ []) ⊎ ((item : T × ℕ) × (rest : List (T × ℕ)) × (q ≡ item ∷ rest))
cases [] = inl refl
cases ((m, c) ∷ rest) = inr ((m, c), rest, refl)

or_true : (b : Bool) → true ≡ (b || true)
or_true true = refl
or_true false = refl

or_false : (b : Bool) → b ≡ (b || false)
or_false true = refl
or_false false = refl

module _ {T : Type 0} (D : Deque (T × ℕ)) (S P : Vec Waker) where
  -- What the loop leaves of the queue `q`, whose first message has the id `i`: the first `k` messages are
  -- gone, which nobody has yet to read, and somebody has yet to read the next.
  abbrev pub Popped : (ℕ → ℕ) → ℕ → D.Carrier → Bool → D.Carrier × Bool → Type 0
  Popped R i q wakes (q', flag) =
      (k : ℕ) × (k ≤ length (D.items q))
      × (D.items q' ≡ drop k (D.items q))
      × (flag ≡ (wakes || ltb 0 k))
      × ((j : ℕ) → j < k → R (i + j) ≡ 0)
      × Counts R 0 (i + k) (D.items q')
      × (0 < length (D.items q') → 0 < R (i + k))

  stays :
      (R : ℕ → ℕ) (i : ℕ) (q : D.Carrier) (wakes : Bool)
      → Counts R 0 i (D.items q)
      → (0 < length (D.items q) → 0 < R i)
      → Popped R i q wakes (q, wakes)
  stays R i q wakes cs some_left =
      let at : i + 0 ≡ i = omega arith in
      (
        0,
        omega arith,
        refl,
        or_false wakes,
        λ j h. absurd (omega (arith, h)),
        rw at cs,
        rw at some_left,
      )

  pop_read_stops :
      (rounds : ℕ) (q : D.Carrier) (wakes : Bool)
      → length (D.items q) ≡ 0
      → pop_read D S P rounds q wakes ≡ (q, wakes)
  unfolding pop_read
  pop_read_stops zero q wakes e = refl
  pop_read_stops (suc rounds) q wakes e = elim (cases (D.items q)) [
    | inl none_left ↦ rw (none_left, pop_read) refl
    | inr (_, rest, h) ↦ absurd (ground (arith, h))
  ]

  pop_read_keeps :
      (rounds : ℕ) (q : D.Carrier) (wakes : Bool) (m : T) (c : ℕ) (rest : List (T × ℕ))
      → D.items q ≡ (m, suc c) ∷ rest
      → pop_read D S P rounds q wakes ≡ (q, wakes)
  unfolding pop_read
  pop_read_keeps zero q wakes m c rest e = refl
  pop_read_keeps (suc rounds) q wakes m c rest e =
      let going : (suc c == 0) ≡ false = ground arith in rw (e, pop_read, going) refl

  pop_read_pops :
      (rounds : ℕ) (q : D.Carrier) (wakes : Bool) (m : T) (rest : List (T × ℕ))
      → D.items q ≡ (m, 0) ∷ rest
      → pop_read D S P (suc rounds) q wakes ≡ pop_read D S P rounds (D.pop_front q).0 true
  unfolding pop_read
  pop_read_pops rounds q wakes m rest e = rw (e, pop_read) refl

  -- One message that nobody has yet to read goes, and the loop goes on with the rest.
  goes_on :
      (R : ℕ → ℕ) (i : ℕ) (q : D.Carrier) (wakes : Bool) (m : T) (rest : List (T × ℕ))
      (x : D.Carrier × Bool)
      → D.items q ≡ (m, 0) ∷ rest
      → R i ≡ 0
      → Popped R (i + 1) (D.pop_front q).0 true x
      → Popped R i q wakes x
  goes_on R i q wakes m rest x h unread (k, le, dropped, flag, gone, cs, left) =
      let popped : D.items (D.pop_front q).0 ≡ rest = rw (D.items-pop_front q, h) refl in
      let next : i + suc k ≡ i + 1 + k = omega arith in
      let some_gone : ltb 0 (suc k) ≡ true = ground arith in
      let shorter : length (D.items q) ≡ suc (length (D.items (D.pop_front q).0)) =
        rw (h, popped) refl in
      (
        suc k,
        omega (arith, le, shorter),
        rw h (rw (← popped) dropped),
        rw some_gone (flag ∙ or_true wakes),
        first,
        rw next cs,
        rw next left,
      )
    where
      first : (j : ℕ) → j < suc k → R (i + j) ≡ 0
      first zero less = ap R (omega arith) ∙ unread
      first (suc j) less = ap R (omega arith) ∙ gone j (omega (arith, less))

  -- The loop drops the messages that have no reader left, and stops at one that has.
  pub pop_read-Popped :
      (R : ℕ → ℕ) (rounds i : ℕ) (q : D.Carrier) (wakes : Bool)
      → length (D.items q) ≤ rounds
      → Counts R 0 i (D.items q)
      → Popped R i q wakes (pop_read D S P rounds q wakes)
  pop_read-Popped R zero i q wakes few cs =
      rw (pop_read_stops 0 q wakes (omega arith)) (stays R i q wakes cs (λ p. absurd (omega arith)))
  pop_read-Popped R (suc rounds) i q wakes few cs = elim (cases (D.items q)) [
    | inl none_left ↦
        let l : length (D.items q) ≡ 0 = rw none_left refl in
        rw (pop_read_stops (suc rounds) q wakes l)
          (stays R i q wakes cs (λ p. absurd (omega arith)))
    | inr ((m, suc c), rest, h) ↦
        let counts : Counts R 0 i ((m, suc c) ∷ rest) = subst (Counts R 0 i) h cs in
        rw (pop_read_keeps (suc rounds) q wakes m c rest h)
          (stays R i q wakes cs (λ p. omega (arith, counts.0)))
    | inr ((m, zero), rest, h) ↦
        let counts : Counts R 0 i ((m, 0) ∷ rest) = subst (Counts R 0 i) h cs in
        let fewer : suc (length (D.items (D.pop_front q).0)) ≡ length (D.items q) =
          ground (arith, D.items-pop_front q, h) in
        rw (pop_read_pops rounds q wakes m rest h) (
          goes_on R i q wakes m rest _ h (omega (arith, counts.0)) (
            pop_read-Popped R rounds (i + 1) (D.pop_front q).0 true (omega (arith, fewer))
              (rw (D.items-pop_front q) (Counts-drop R 0 i (D.items q) cs))))
  ]
