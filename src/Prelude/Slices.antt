-- ===== src/Prelude/Slices.antt =====
-- `xs[lo..hi]`, and copying a slice into an array (`copy_from_slice`).
use Prim.Native.Nat.{ℕ, zero, suc, ◌+◌, ◌-◌, ◌≤◌}
use native.Mathlib.Nat.{zero-add, suc-add}
use mathlib.Core.Path.{◌≡◌, refl, ap}
use mathlib.Core.List.{List, [], ◌∷◌, ◌++◌}
use native.Mathlib.Omega.{arith}
use aurix_tc365_async_rust.Prelude.Lists.{length, take, drop}

module _ {ℓ} {A : Type ℓ} where
  abbrev pub slice : ℕ → ℕ → List A → List A
  slice zero hi xs = take hi xs
  slice (suc lo) zero xs = []
  slice (suc lo) (suc hi) [] = []
  slice (suc lo) (suc hi) (x ∷ xs) = slice lo hi xs

  -- The bytes from index `i` on are overwritten by those of `ys`.
  abbrev pub copy_at : ℕ → List A → List A → List A
  copy_at i ys [] = []
  copy_at (suc i) ys (x ∷ xs) = x ∷ copy_at i ys xs
  copy_at zero [] (x ∷ xs) = x ∷ xs
  copy_at zero (y ∷ ys) (x ∷ xs) = y ∷ copy_at zero ys xs

  pub length-copy_at : (i : ℕ) (ys xs : List A) → length (copy_at i ys xs) ≡ length xs
  length-copy_at i ys [] = refl
  length-copy_at (suc i) ys (x ∷ xs) = ap suc (length-copy_at i ys xs)
  length-copy_at zero [] (x ∷ xs) = refl
  length-copy_at zero (y ∷ ys) (x ∷ xs) = ap suc (length-copy_at zero ys xs)

  pub length-slice : (lo hi : ℕ) (xs : List A) → hi ≤ length xs → length (slice lo hi xs) ≡ hi - lo
  length-slice zero zero xs h = omega arith
  length-slice zero (suc hi) [] h = absurd (omega arith)
  length-slice zero (suc hi) (x ∷ xs) h = omega (arith, length-slice zero hi xs)
  length-slice (suc lo) zero xs h = omega arith
  length-slice (suc lo) (suc hi) [] h = absurd (omega arith)
  length-slice (suc lo) (suc hi) (x ∷ xs) h = omega (arith, length-slice lo hi xs)

  pub slice_empty : (lo hi : ℕ) (xs : List A) → hi ≤ lo → slice lo hi xs ≡ []
  slice_empty zero zero xs h = refl
  slice_empty zero (suc hi) xs h = absurd (omega arith)
  slice_empty (suc lo) zero xs h = refl
  slice_empty (suc lo) (suc hi) [] h = refl
  slice_empty (suc lo) (suc hi) (x ∷ xs) h = slice_empty lo hi xs (omega arith)

  drop-take : (k hi : ℕ) (xs : List A) → drop k (take hi xs) ≡ slice k hi xs
  drop-take zero hi xs = refl
  drop-take (suc k) zero xs = refl
  drop-take (suc k) (suc hi) [] = refl
  drop-take (suc k) (suc hi) (x ∷ xs) = drop-take k hi xs

  drop_nil : (k : ℕ) → drop {A = A} k [] ≡ []
  drop_nil zero = refl
  drop_nil (suc k) = refl

  pub drop-slice : (k lo hi : ℕ) (xs : List A) → drop k (slice lo hi xs) ≡ slice (lo + k) hi xs
  drop-slice k zero hi xs = rw zero-add (drop-take k hi xs)
  drop-slice k (suc lo) zero xs = rw suc-add (drop_nil k)
  drop-slice k (suc lo) (suc hi) [] = rw suc-add (drop_nil k)
  drop-slice k (suc lo) (suc hi) (x ∷ xs) = rw suc-add (drop-slice k lo hi xs)

  -- A copy at `i` leaves what ends at or before `i` alone,
  pub slice-copy_at_before :
      (lo hi i : ℕ) (ys xs : List A) → hi ≤ i → slice lo hi (copy_at i ys xs) ≡ slice lo hi xs
  slice-copy_at_before zero hi i ys [] h = refl
  slice-copy_at_before zero zero i ys (x ∷ xs) h = refl
  slice-copy_at_before zero (suc hi) zero ys (x ∷ xs) h = absurd (omega arith)
  slice-copy_at_before zero (suc hi) (suc i) ys (x ∷ xs) h =
      ap (◌∷◌ x) (slice-copy_at_before zero hi i ys xs (omega arith))
  slice-copy_at_before (suc lo) zero i ys xs h = refl
  slice-copy_at_before (suc lo) (suc hi) i ys [] h = refl
  slice-copy_at_before (suc lo) (suc hi) zero ys (x ∷ xs) h = absurd (omega arith)
  slice-copy_at_before (suc lo) (suc hi) (suc i) ys (x ∷ xs) h =
      slice-copy_at_before lo hi i ys xs (omega arith)

  -- and what begins behind the copied bytes.
  pub slice-copy_at_behind :
      (lo hi i : ℕ) (ys xs : List A)
      → i + length ys ≤ lo
      → slice lo hi (copy_at i ys xs) ≡ slice lo hi xs
  slice-copy_at_behind lo hi i ys [] h = refl
  slice-copy_at_behind zero hi zero [] (x ∷ xs) h = refl
  slice-copy_at_behind zero hi zero (y ∷ ys) (x ∷ xs) h = absurd (omega arith)
  slice-copy_at_behind zero hi (suc i) ys (x ∷ xs) h = absurd (omega arith)
  slice-copy_at_behind (suc lo) zero i ys (x ∷ xs) h = refl
  slice-copy_at_behind (suc lo) (suc hi) zero [] (x ∷ xs) h = refl
  slice-copy_at_behind (suc lo) (suc hi) zero (y ∷ ys) (x ∷ xs) h =
      slice-copy_at_behind lo hi zero ys xs (omega arith)
  slice-copy_at_behind (suc lo) (suc hi) (suc i) ys (x ∷ xs) h =
      slice-copy_at_behind lo hi i ys xs (omega arith)

  -- What ends with the copied bytes is extended by them.
  pub slice-copy_at :
      (lo i hi : ℕ) (ys xs : List A)
      → hi ≡ i + length ys
      → lo ≤ i
      → hi ≤ length xs
      → slice lo hi (copy_at i ys xs) ≡ slice lo i xs ++ ys
  slice-copy_at zero zero zero [] xs e h k = refl
  slice-copy_at zero zero (suc hi) [] xs e h k = absurd (omega arith)
  slice-copy_at zero zero zero (y ∷ ys) xs e h k = absurd (omega arith)
  slice-copy_at zero zero (suc hi) (y ∷ ys) [] e h k = absurd (omega arith)
  slice-copy_at zero zero (suc hi) (y ∷ ys) (x ∷ xs) e h k =
      ap (◌∷◌ y) (slice-copy_at zero zero hi ys xs (omega arith) h (omega arith))
  slice-copy_at zero (suc i) zero ys xs e h k = absurd (omega arith)
  slice-copy_at zero (suc i) (suc hi) ys [] e h k = absurd (omega arith)
  slice-copy_at zero (suc i) (suc hi) ys (x ∷ xs) e h k =
      ap (◌∷◌ x) (slice-copy_at zero i hi ys xs (omega arith) (omega arith) (omega arith))
  slice-copy_at (suc lo) zero hi ys xs e h k = absurd (omega arith)
  slice-copy_at (suc lo) (suc i) zero ys xs e h k = absurd (omega arith)
  slice-copy_at (suc lo) (suc i) (suc hi) ys [] e h k = absurd (omega arith)
  slice-copy_at (suc lo) (suc i) (suc hi) ys (x ∷ xs) e h k =
      slice-copy_at lo i hi ys xs (omega arith) (omega arith) (omega arith)

  pub copy_at-nil : (i : ℕ) (xs : List A) → copy_at i [] xs ≡ xs
  copy_at-nil i [] = refl
  copy_at-nil zero (x ∷ xs) = refl
  copy_at-nil (suc i) (x ∷ xs) = ap (◌∷◌ x) (copy_at-nil i xs)
