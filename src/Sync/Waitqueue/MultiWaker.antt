-- ===== src/Sync/Waitqueue/MultiWaker.antt =====
-- sync/waitqueue/multi_waker.rs: the wakers of several tasks, over heapless's `Vec`.
use aurix_tc365_async_rust.Prelude.{
  ℕ, ◌≡◌, ◌<◌, Bool, true, false, ◌||◌, none, some, List, [], ◌∷◌, ◌++◌, ◌==◌, if◌then◌else◌,
  Outcome, ret, panic, arith, length, Returns, Bool-cases, inl, inr, ◌⊎◌, refl,
}
use aurix_tc365_async_rust.Heapless.{Vec}

module _ (V : Vec ℕ) where
  -- `for w2 in &self.wakers { if w.will_wake(w2) { … } }`
  abbrev pub any_will_wake : ℕ → List ℕ → Bool
  any_will_wake w [] = false
  any_will_wake w (w2 ∷ ws) = w == w2 || any_will_wake w ws

  -- Empties the registration and wakes all that it held, oldest first.
  unfoldable pub wake : V.Carrier → V.Carrier × List ℕ
  wake wakers = (V.clear wakers, V.items wakers)

  unfoldable pub wake_if_full : V.Carrier → V.Carrier × List ℕ
  unfolding wake
  wake_if_full wakers = if V.is_full wakers then wake wakers else (wakers, [])

  unfoldable pub register : V.Carrier → ℕ → Outcome (V.Carrier × List ℕ)
  unfolding wake_if_full
  register wakers w =
      let (room, woken) = wake_if_full wakers in
      let (pushed, refused) = V.push room w in
      if any_will_wake w (V.items wakers)
      then ret (wakers, [])
      else elim refused [ none ↦ ret (pushed, woken) | some _ ↦ panic ]

  abbrev pub Registered : List ℕ → ℕ → V.Carrier × List ℕ → Type 0
  Registered before w (after, woken) =
      (any_will_wake w (V.items after) ≡ true)
      × ((woken ≡ []) × ((V.items after ≡ before) ⊎ (V.items after ≡ before ++ (w ∷ [])))
          ⊎ (woken ≡ before) × (V.items after ≡ w ∷ []))

  any_will_wake-snoc : (w : ℕ) (ws : List ℕ) → any_will_wake w (ws ++ (w ∷ [])) ≡ true
  any_will_wake-snoc w [] = ground arith
  any_will_wake-snoc w (v ∷ ws) = ground (arith, any_will_wake-snoc w ws)

  -- With room for one waker at least, `register` does not panic, and the task is registered after it.
  -- The tasks registered before are so still and none is woken, or else the registration was full and
  -- all of them are woken. So none that waits is forgotten.
  pub register-Registered :
      (wakers : V.Carrier) (w : ℕ)
      → 0 < V.cap
      → Returns (register wakers w) (Registered (V.items wakers) w)
  unfolding register
  register-Registered wakers w pos = elim (Bool-cases (any_will_wake w (V.items wakers))) [
    | inl known ↦ ((wakers, []), ground arith, (known, inl (refl, inl refl)))
    | inr new ↦ elim (Bool-cases (V.is_full wakers)) [
      | inl full ↦ (
        ((V.push (V.clear wakers) w).0, V.items wakers),
        ground (arith, cleared, V.push-refuses (V.clear wakers) w),
        (rw only (ground arith), inr (refl, only)),
      )
      | inr room ↦ (
        ((V.push wakers w).0, []),
        ground (arith, fits room, V.push-refuses wakers w),
        (rw (added room) (any_will_wake-snoc w (V.items wakers)), inl (refl, inr (added room))),
      )
    ]
  ]
    where
      cleared : V.items (V.clear wakers) ≡ []
      cleared = V.items-clear wakers

      only : V.items (V.push (V.clear wakers) w).0 ≡ w ∷ []
      only = ground (arith, cleared, V.items-push (V.clear wakers) w)

      fits : V.is_full wakers ≡ false → length (V.items wakers) < V.cap
      fits room = ground (arith, V.is_full_lem wakers, V.length-le-cap wakers)

      added : V.is_full wakers ≡ false → V.items (V.push wakers w).0 ≡ V.items wakers ++ (w ∷ [])
      added room = ground (arith, fits room, V.items-push wakers w)
