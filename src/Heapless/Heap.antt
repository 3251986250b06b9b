-- ===== src/Heapless/Heap.antt =====
-- `BinaryHeap<T, K, N>` of heapless, by its documented behaviour. `le a b` says that `K` and `T`'s order
-- allow `a` to come out before `b`. `items` is what `pop`, called again and again, would yield.
use aurix_tc365_async_rust.Prelude.{
  ℕ, suc, refl, ap, sym, ◌∙◌, subst, inl, inr, Bool-cases, ◌≡◌, ◌≤◌, Bool, true, Option, none, some,
  List, [], ◌∷◌, ltb, if◌then◌else◌, length, drop, All,
}
use mathlib.Core.List.{Perm, foldr}
use mathlib.Core.List.Perm
use aurix_tc365_async_rust.Heapless.{head?}

abbrev pub IsSorted : {T : Type 0} → (T → T → Bool) → List T → Type 0
IsSorted le [] = Unit
IsSorted le (x ∷ xs) = All (λ y. le x y ≡ true) xs × IsSorted le xs

pub record BinaryHeap (T : Type 0) (le : T → T → Bool) : Type 1 where
  pub Carrier : Type 0
  pub cap : ℕ
  pub items : Carrier → List T
  pub new : Carrier
  pub push : Carrier → T → Carrier × Option T
  pub pop : Carrier → Carrier × Option T
  pub peek : Carrier → Option T
  pub len : Carrier → ℕ
  pub items-new : items new ≡ []
  pub length-le-cap : (q : Carrier) → length (items q) ≤ cap
  pub items-IsSorted : (q : Carrier) → IsSorted le (items q)
  pub items-push :
      (q : Carrier) (x : T)
      → Perm (items (push q x).0) (if ltb (length (items q)) cap then x ∷ items q else items q)
  pub push-refuses :
      (q : Carrier) (x : T) → (push q x).1 ≡ (if ltb (length (items q)) cap then none else some x)
  pub items-pop : (q : Carrier) → items (pop q).0 ≡ drop 1 (items q)
  pub pop-head? : (q : Carrier) → (pop q).1 ≡ head? (items q)
  pub peek_lem : (q : Carrier) → peek q ≡ head? (items q)
  pub len_lem : (q : Carrier) → len q ≡ length (items q)

one_more : {T : Type 0} → T → ℕ → ℕ
one_more x n = suc n

length-foldr : {T : Type 0} (xs : List T) → foldr one_more 0 xs ≡ length xs
unfolding one_more
length-foldr [] = refl
length-foldr (x ∷ xs) = ap suc (length-foldr xs)

pub length-Perm : {T : Type 0} {xs ys : List T} → Perm xs ys → length xs ≡ length ys
unfolding one_more
length-Perm {xs} {ys} p =
    sym (length-foldr xs) ∙ Perm.foldr-eq (hlevel) one_more (λ a b n. refl) p 0 ∙ length-foldr ys

pub length-push :
    {T : Type 0} {le : T → T → Bool} (H : BinaryHeap T le) (q : H.Carrier) (x : T)
    → length (H.items (H.push q x).0)
      ≡ (if ltb (length (H.items q)) H.cap then suc (length (H.items q)) else length (H.items q))
length-push H q x = elim (Bool-cases (ltb (length (H.items q)) H.cap)) [
  | inl e ↦
      subst
        (λ b.
          length (H.items (H.push q x).0)
          ≡ (if b then suc (length (H.items q)) else length (H.items q)))
        (sym e)
        (length-Perm (
          subst (λ b. Perm (H.items (H.push q x).0) (if b then x ∷ H.items q else H.items q)) e
            (H.items-push q x)))
  | inr e ↦
      subst
        (λ b.
          length (H.items (H.push q x).0)
          ≡ (if b then suc (length (H.items q)) else length (H.items q)))
        (sym e)
        (length-Perm (
          subst (λ b. Perm (H.items (H.push q x).0) (if b then x ∷ H.items q else H.items q)) e
            (H.items-push q x)))
]
