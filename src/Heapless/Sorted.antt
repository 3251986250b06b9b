-- ===== src/Heapless/Sorted.antt =====
-- Sorted lists with a bound meet the laws of heapless's `BinaryHeap`.
use aurix_tc365_async_rust.Prelude.{
  ℕ, suc, ◌≡◌, ◌≤◌, refl, Bool, true, false, Option, none, some, List, [], ◌∷◌, ltb, leb,
  if◌then◌else◌, length, drop, All, arith, Bool-cases, inl, inr, length-drop,
}
use mathlib.Core.List.{Perm}
use mathlib.Core.List.Perm
use aurix_tc365_async_rust.Heapless.{head?}
use aurix_tc365_async_rust.Heapless.Heap.{BinaryHeap, IsSorted}

module _ {T : Type 0} (bound : ℕ) (le : T → T → Bool)
    (total : (a b : T) → le a b ≡ false → le b a ≡ true)
    (trans : (a b c : T) → le a b ≡ true → le b c ≡ true → le a c ≡ true) where
  abbrev pub insert : T → List T → List T
  insert x [] = x ∷ []
  insert x (y ∷ ys) = let rest = insert x ys in if le x y then x ∷ y ∷ ys else y ∷ rest

  pub length-insert : (x : T) (xs : List T) → length (insert x xs) ≡ suc (length xs)
  length-insert x [] = refl
  length-insert x (y ∷ ys) = ground (arith, length-insert x ys)

  All-le :
      (x y : T) (ys : List T)
      → le x y ≡ true
      → All (λ z. le y z ≡ true) ys
      → All (λ z. le x z ≡ true) ys
  All-le x y [] h a = tt
  All-le x y (z ∷ zs) h a = (trans x y z h a.0, All-le x y zs h a.1)

  All-insert :
      (x y : T) (ys : List T)
      → le y x ≡ true
      → All (λ z. le y z ≡ true) ys
      → All (λ z. le y z ≡ true) (insert x ys)
  All-insert x y [] h a = (h, tt)
  All-insert x y (z ∷ zs) h a = elim (Bool-cases (le x z)) [
    | inl first ↦ rw first (h, a)
    | inr later ↦ rw later (a.0, All-insert x y zs h a.1)
  ]

  pub insert-IsSorted : (x : T) (xs : List T) → IsSorted le xs → IsSorted le (insert x xs)
  insert-IsSorted x [] s = (tt, tt)
  insert-IsSorted x (y ∷ ys) s = elim (Bool-cases (le x y)) [
    | inl first ↦ rw first ((first, All-le x y ys first s.0), s)
    | inr later ↦ rw later (All-insert x y ys (total x y later) s.0, insert-IsSorted x ys s.1)
  ]

  insert-Perm : (x : T) (xs : List T) → Perm (insert x xs) (x ∷ xs)
  insert-Perm x [] = Perm.refl (x ∷ [])
  insert-Perm x (y ∷ ys) = elim (Bool-cases (le x y)) [
    | inl first ↦ rw first (Perm.refl (x ∷ y ∷ ys))
    | inr later ↦ rw later (Perm.trans (Perm.cons y (insert-Perm x ys)) (Perm.swap x y ys))
  ]

  pub drop-IsSorted : (xs : List T) → IsSorted le xs → IsSorted le (drop 1 xs)
  drop-IsSorted [] s = tt
  drop-IsSorted (x ∷ xs) s = s.1

  pub record Sorted : Type 0 where
    pub elements : List T
    pub sorted : IsSorted le elements
    pub few : length elements ≤ bound

  pub length-insert_le :
      (q : Sorted) (x : T)
      → ltb (length q.elements) bound ≡ true
      → length (insert x q.elements) ≤ bound
  length-insert_le q x h = ground (arith, length-insert x q.elements)

  abbrev pub inserted : (q : Sorted) (x : T) → ltb (length q.elements) bound ≡ true → Sorted
  inserted q x h = record {
    elements = insert x q.elements;
    sorted = insert-IsSorted x q.elements q.sorted;
    few = length-insert_le q x h;
  }

  abbrev pub push_when :
      (q : Sorted) (x : T) (b : Bool) → ltb (length q.elements) bound ≡ b → Sorted × Option T
  push_when q x true h = (inserted q x h, none)
  push_when q x false h = (q, some x)

  abbrev pub popped : Sorted → Sorted
  popped q = record {
    elements = drop 1 q.elements;
    sorted = drop-IsSorted q.elements q.sorted;
    few = omega (arith, length-drop 1 q.elements, q.few);
  }

  pub push_when-Perm :
      (q : Sorted) (x : T) (b : Bool) (h : ltb (length q.elements) bound ≡ b)
      → Perm (push_when q x b h).0.elements (if b then x ∷ q.elements else q.elements)
  push_when-Perm q x true h = insert-Perm x q.elements
  push_when-Perm q x false h = Perm.refl q.elements

  pub push_when-refuses :
      (q : Sorted) (x : T) (b : Bool) (h : ltb (length q.elements) bound ≡ b)
      → (push_when q x b h).1 ≡ (if b then none else some x)
  push_when-refuses q x true h = refl
  push_when-refuses q x false h = refl

  abbrev pub sorted_heap : BinaryHeap T le
  sorted_heap = record {
    Carrier = Sorted;
    cap = bound;
    items = λ q. q.elements;
    new = record { elements = []; sorted = tt; few = omega arith };
    push = λ q x. push_when q x (ltb (length q.elements) bound) refl;
    pop = λ q. (popped q, head? q.elements);
    peek = λ q. head? q.elements;
    len = λ q. length q.elements;
    items-new = refl;
    length-le-cap = λ q. q.few;
    items-IsSorted = λ q. q.sorted;
    items-push = λ q x. push_when-Perm q x (ltb (length q.elements) bound) refl;
    push-refuses = λ q x. push_when-refuses q x (ltb (length q.elements) bound) refl;
    items-pop = λ q. refl;
    pop-head? = λ q. refl;
    peek_lem = λ q. refl;
    len_lem = λ q. refl;
  }

pub ranked_total :
    {T : Type 0} (rank : T → ℕ) (a b : T)
    → leb (rank a) (rank b) ≡ false
    → leb (rank b) (rank a) ≡ true
ranked_total rank a b h = ground arith

pub ranked_trans :
    {T : Type 0} (rank : T → ℕ) (a b c : T)
    → leb (rank a) (rank b) ≡ true
    → leb (rank b) (rank c) ≡ true
    → leb (rank a) (rank c) ≡ true
ranked_trans rank a b c h k = ground arith

-- The elements of the lowest rank first.
abbrev pub ranked_heap :
    {T : Type 0} → ℕ → (rank : T → ℕ) → BinaryHeap T (λ a b. leb (rank a) (rank b))
ranked_heap bound rank =
    sorted_heap bound (λ a b. leb (rank a) (rank b)) (ranked_total rank) (ranked_trans rank)
