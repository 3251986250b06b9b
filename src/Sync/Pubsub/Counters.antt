-- ===== src/Sync/Pubsub/Counters.antt =====
-- The counters of the queued messages of sync/pubsub/mod.rs, against the subscribers that have yet to
-- read them.
use aurix_tc365_async_rust.Prelude.{
  ℕ, zero, suc, ◌+◌, ◌^◌, ◌≤◌, ◌<◌, ◌≡◌, refl, List, [], ◌∷◌, ◌++◌, arith, leb, ◌==◌, if◌then◌else◌,
  length, All, drop, some, get_elem?,
}
use aurix_tc365_async_rust.Heapless.{map_index}
use aurix_tc365_async_rust.Sync.Pubsub.{read_once}

-- How many subscribers have the message `id` before them.
abbrev pub readers : List ℕ → ℕ → ℕ
readers [] id = 0
readers (n ∷ subs) id = (if leb n id then 1 else 0) + readers subs id

pub readers_mono : (subs : List ℕ) (i j : ℕ) → i ≤ j → readers subs i ≤ readers subs j
readers_mono [] i j h = omega arith
readers_mono (n ∷ subs) i j h = ground (arith, readers_mono subs i j)

pub readers-le-length : (subs : List ℕ) (i : ℕ) → readers subs i ≤ length subs
readers-le-length [] i = omega arith
readers-le-length (n ∷ subs) i = ground (arith, readers-le-length subs i)

pub readers-All : (subs : List ℕ) (i : ℕ) → All (λ n. n ≤ i) subs → readers subs i ≡ length subs
readers-All [] i h = refl
readers-All (n ∷ subs) i h = ground (arith, readers-All subs i h.1, h.0)

pub readers-append :
    (subs more : List ℕ) (i : ℕ) → readers (subs ++ more) i ≡ readers subs i + readers more i
readers-append [] more i = omega arith
readers-append (n ∷ subs) more i = omega (arith, readers-append subs more i)

module _ {T : Type 0} where
  -- The items' counters are those of `R`, from the id `i` on, with `extra` on each.
  abbrev pub Counts : (ℕ → ℕ) → ℕ → ℕ → List (T × ℕ) → Type 0
  Counts R extra i [] = Unit
  Counts R extra i ((m, c) ∷ q) = (c ≡ R i + extra) × Counts R extra (i + 1) q

  pub Counts-append :
      (R : ℕ → ℕ) (extra i k : ℕ) (q : List (T × ℕ)) (m : T) (c : ℕ)
      → k ≡ i + length q
      → c ≡ R k + extra
      → Counts R extra i q
      → Counts R extra i (q ++ ((m, c) ∷ []))
  Counts-append R extra i k [] m c e f h = let same : k ≡ i = omega arith in (rw (← same) f, tt)
  Counts-append R extra i k ((n, d) ∷ q) m c e f h =
      (h.0, Counts-append R extra (i + 1) k q m c (omega arith) f h.1)

  pub Counts-drop :
      (R : ℕ → ℕ) (extra i : ℕ) (q : List (T × ℕ))
      → Counts R extra i q
      → Counts R extra (i + 1) (drop 1 q)
  Counts-drop R extra i [] h = tt
  Counts-drop R extra i ((m, c) ∷ q) h = h.1

  -- Counters that agree on the ids of the items.
  pub Counts-cong :
      (R R' : ℕ → ℕ) (extra i : ℕ) (q : List (T × ℕ))
      → ((j : ℕ) → i ≤ j → j < i + length q → R j ≡ R' j)
      → Counts R extra i q
      → Counts R' extra i q
  Counts-cong R R' extra i [] same h = tt
  Counts-cong R R' extra i ((m, c) ∷ q) same h = (
    omega (arith, h.0, same i (omega arith) (omega arith)),
    Counts-cong R R' extra (i + 1) q (λ j k l. same j (omega arith) (omega arith)) h.1,
  )

  -- The reader of `n` moves on: its item, at the position `at`, has one reader less.
  pub Counts-read :
      (R R' : ℕ → ℕ) (extra i p at n : ℕ) (q : List (T × ℕ))
      → n + p ≡ i + at
      → ((j : ℕ) → R j + extra < 2 ^ 32)
      → ((j : ℕ) → R j ≡ (if j == n then suc (R' j) else R' j))
      → Counts R extra i q
      → Counts R' extra i (map_index (λ j x. if j == at then read_once x else x) p q)
  Counts-read R R' extra i p at n [] e small step h = tt
  Counts-read R R' extra i p at n ((m, c) ∷ q) e small step h = (
    ground (arith, h.0, small i, step i),
    Counts-read R R' extra (i + 1) (p + 1) at n q (omega arith) small step h.1,
  )

  -- A subscriber at `n` leaves: the items from its own on have one reader less.
  pub Counts-leave :
      (R R' : ℕ → ℕ) (extra i p at n : ℕ) (q : List (T × ℕ))
      → n + p ≡ i + at
      → ((j : ℕ) → R j + extra < 2 ^ 32)
      → ((j : ℕ) → R j ≡ (if leb n j then suc (R' j) else R' j))
      → Counts R extra i q
      → Counts R' extra i (map_index (λ j x. if leb at j then read_once x else x) p q)
  Counts-leave R R' extra i p at n [] e small step h = tt
  Counts-leave R R' extra i p at n ((m, c) ∷ q) e small step h = (
    ground (arith, h.0, small i, step i),
    Counts-leave R R' extra (i + 1) (p + 1) at n q (omega arith) small step h.1,
  )

  -- The item at a position has the counter of its message.
  pub Counts-get :
      (R : ℕ → ℕ) (extra i k : ℕ) (q : List (T × ℕ))
      → k < length q
      → Counts R extra i q
      → (m : T) × (get_elem? q k ≡ some (m, R (i + k) + extra))
  Counts-get R extra i k [] h cs = absurd (omega arith)
  Counts-get R extra i zero ((m, c) ∷ q) h cs =
      let same : i + 0 ≡ i = omega arith in (m, rw (same, cs.0))
  Counts-get R extra i (suc k) ((m, c) ∷ q) h cs =
      let (m', e) = Counts-get R extra (i + 1) k q (omega arith) cs.1 in
      let same : i + suc k ≡ i + 1 + k = omega arith in (m', rw (same, e))
