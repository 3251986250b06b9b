-- ===== src/Heapless/Pushes.antt =====
-- `push(x).ok().unwrap()` of one element after the other, as the loops of the program do it.
use aurix_tc365_async_rust.Prelude.{
  ℕ, ◌+◌, ◌≤◌, ◌<◌, ◌≡◌, refl, true, false, Option, none, some, List, [], ◌∷◌, ◌++◌, append-nil,
  append_assoc, ltb, if◌then◌else◌, length, length-append, arith, Outcome, ret, panic, Returns,
  Bool-cases, inl, inr,
}

unfoldable pub push_each : {C T : Type 0} → (C → T → C × Option T) → List T → C → Outcome C
push_each push [] q = ret q
push_each push (x ∷ xs) q =
    let (q', refused) = push q x in
    let rest = push_each push xs q' in elim refused [ none ↦ rest | some _ ↦ panic ]

-- A container that refuses an element when it is full, and has it at the end otherwise.
module _ {C T : Type 0} (cap : ℕ) (items : C → List T) (push : C → T → C × Option T)
    (items-push : (q : C) (x : T)
      → items (push q x).0 ≡ (if ltb (length (items q)) cap then items q ++ (x ∷ []) else items q))
    (push-refuses : (q : C) (x : T)
      → (push q x).1 ≡ (if ltb (length (items q)) cap then none else some x)) where
  push_each-next :
      (x : T) (xs : List T) (q : C)
      → length (items q) < cap
      → (push_each push (x ∷ xs) q ≡ push_each push xs (push q x).0)
        × (items (push q x).0 ≡ items q ++ (x ∷ []))
        × (length (items (push q x).0) ≡ length (items q) + 1)
  unfolding push_each
  push_each-next x xs q room =
      let fits : ltb (length (items q)) cap ≡ true = ground arith in
      let accepted : (push q x).1 ≡ none = rw (push-refuses q x, fits) refl in
      let pushed : items (push q x).0 ≡ items q ++ (x ∷ []) = rw (items-push q x, fits) refl in
      (rw (push_each, accepted) refl, pushed, rw pushed (length-append (items q) (x ∷ [])))

  push_each-full :
      (x : T) (xs : List T) (q : C) → cap ≤ length (items q) → push_each push (x ∷ xs) q ≡ panic
  unfolding push_each
  push_each-full x xs q full =
      let none_left : ltb (length (items q)) cap ≡ false = ground arith in
      let refused : (push q x).1 ≡ some x = rw (push-refuses q x, none_left) refl in
      rw (push_each, refused) refl

  pub push_each-append :
      (xs : List T) (q : C)
      → length (items q) + length xs ≤ cap
      → Returns (push_each push xs q) (λ q'. items q' ≡ items q ++ xs)
  unfolding push_each
  push_each-append [] q fits = (q, refl, rw (append-nil (items q)) refl)
  push_each-append (x ∷ xs) q fits =
      let (step, pushed, more) = push_each-next x xs q (omega arith) in
      let (q', run, same) = push_each-append xs (push q x).0 (omega (arith, more)) in
      (q', rw step run, rw (same, pushed, append_assoc (items q) (x ∷ []) xs) refl)

  pub push_each-panics :
      (xs : List T) (q : C)
      → length (items q) ≤ cap
      → cap < length (items q) + length xs
      → push_each push xs q ≡ panic
  push_each-panics [] q few over = absurd (omega arith)
  push_each-panics (x ∷ xs) q few over = elim (Bool-cases (ltb (length (items q)) cap)) [
    | inl room ↦
        let (step, pushed, more) = push_each-next x xs q (ground arith) in
        rw step (push_each-panics xs (push q x).0 (ground (arith, more)) (omega (arith, more)))
    | inr full ↦ push_each-full x xs q (ground arith)
  ]
