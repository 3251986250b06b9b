-- ===== src/Heapless/Due.antt =====
-- The elements of a sorted list that are due at a time: where the order is by time, they come first.
use aurix_tc365_async_rust.Prelude.{
  ℕ, ◌≤◌, ◌<◌, ◌≡◌, refl, Bool, true, false, List, [], ◌∷◌, leb, if◌then◌else◌, All, arith,
}

module _ {T : Type 0} (time : T → ℕ) where
  abbrev pub due : ℕ → List T → List T
  due now [] = []
  due now (t ∷ ts) = let rest = due now ts in if leb (time t) now then t ∷ rest else rest

  abbrev pub not_due : ℕ → List T → List T
  not_due now [] = []
  not_due now (t ∷ ts) = let rest = not_due now ts in if leb (time t) now then rest else t ∷ rest

module _ {T : Type 0} (time : T → ℕ) (le : T → T → Bool)
    (mono : (a b : T) → le a b ≡ true → time a ≤ time b) (now : ℕ) (t : T) where
  -- Behind one that is not due, none is.
  pub none_due :
      (ts : List T)
      → now < time t
      → All (λ u. le t u ≡ true) ts
      → (due time now ts ≡ []) × (not_due time now ts ≡ ts)
  none_due [] h a = (refl, refl)
  none_due (u ∷ us) h a =
      let (e, w) = none_due us h a.1 in
      let later : leb (time u) now ≡ false = ground (arith, mono t u a.0) in rw later (e, rw w refl)

  pub later-All :
      (ts : List T) → now < time t → All (λ u. le t u ≡ true) ts → All (λ u. now < time u) ts
  later-All [] h a = tt
  later-All (u ∷ us) h a = (omega (arith, mono t u a.0), later-All us h a.1)
