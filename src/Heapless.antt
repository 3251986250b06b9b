-- ===== src/Heapless.antt =====
-- The containers of the crate `heapless` that the program uses, which is not part of the repository:
-- an interface for each, with the documented behaviour as laws over the list of the elements.
pub mod Model
pub mod Heap
pub mod Sorted
pub mod Due
pub mod Pushes
pub mod Any
use aurix_tc365_async_rust.Prelude.{
  ℕ, suc, ◌≡◌, refl, ap, ◌≤◌, ◌<◌, ◌^◌, Bool, Option, none, some, List, [], ◌∷◌, ◌++◌, ltb, ◌+◌,
  ◌==◌, if◌then◌else◌, length, drop, set, ◌⊎◌, inl, inr,
}

abbrev pub head? : {T : Type 0} → List T → Option T
head? [] = none
head? (x ∷ xs) = some x

pub pop_cases :
    {T : Type 0} (q : List T)
    → ((q ≡ []) × (drop 1 q ≡ []) × (head? q ≡ none))
      ⊎ ((m : T) × ((q ≡ m ∷ drop 1 q) × (head? q ≡ some m)))
pop_cases [] = inl (refl, refl, refl)
pop_cases (m ∷ q) = inr (m, (refl, refl))

-- Each element changed in place, by its position.
abbrev pub map_index : {T : Type 0} → (ℕ → T → T) → ℕ → List T → List T
map_index f i [] = []
map_index f i (x ∷ xs) = f i x ∷ map_index f (i + 1) xs

pub length-map_index :
    {T : Type 0} (f : ℕ → T → T) (i : ℕ) (xs : List T) → length (map_index f i xs) ≡ length xs
length-map_index f i [] = refl
length-map_index f i (x ∷ xs) = ap suc (length-map_index f (i + 1) xs)

-- `Deque<T, N>`. `items` is what `iter` goes through, front first, and `iter_mut f` changes each element
-- that it goes through by its position. A mutating method returns the new deque beside its result; `push_back` and `push_front`
-- return the element that they refuse.
pub record Deque (T : Type 0) : Type 1 where
  pub Carrier : Type 0
  pub cap : ℕ
  pub items : Carrier → List T
  pub new : Carrier
  pub push_back : Carrier → T → Carrier × Option T
  pub push_front : Carrier → T → Carrier × Option T
  pub pop_front : Carrier → Carrier × Option T
  pub iter_mut : (ℕ → T → T) → Carrier → Carrier
  pub len : Carrier → ℕ
  pub is_empty : Carrier → Bool
  pub is_full : Carrier → Bool
  -- `N` is a `usize`.
  pub cap_word : cap < 2 ^ 32
  pub items-new : items new ≡ []
  pub length-le-cap : (q : Carrier) → length (items q) ≤ cap
  pub items-push_back :
      (q : Carrier) (x : T)
      → items (push_back q x).0
        ≡ (if ltb (length (items q)) cap then items q ++ (x ∷ []) else items q)
  pub push_back-refuses :
      (q : Carrier) (x : T)
      → (push_back q x).1 ≡ (if ltb (length (items q)) cap then none else some x)
  pub items-push_front :
      (q : Carrier) (x : T)
      → items (push_front q x).0 ≡ (if ltb (length (items q)) cap then x ∷ items q else items q)
  pub push_front-refuses :
      (q : Carrier) (x : T)
      → (push_front q x).1 ≡ (if ltb (length (items q)) cap then none else some x)
  pub items-pop_front : (q : Carrier) → items (pop_front q).0 ≡ drop 1 (items q)
  pub pop_front-head? : (q : Carrier) → (pop_front q).1 ≡ head? (items q)
  pub items-iter_mut :
      (f : ℕ → T → T) (q : Carrier) → items (iter_mut f q) ≡ map_index f 0 (items q)
  pub len_lem : (q : Carrier) → len q ≡ length (items q)
  pub is_empty_lem : (q : Carrier) → is_empty q ≡ (length (items q) == 0)
  pub is_full_lem : (q : Carrier) → is_full q ≡ (length (items q) == cap)

-- `Vec<T, N>`. `push` returns the element that it refuses, `clear` is `set_len(0)`, and
-- `write` is an assignment through `get_mut`, with the index in range.
pub record Vec (T : Type 0) : Type 1 where
  pub Carrier : Type 0
  pub cap : ℕ
  pub items : Carrier → List T
  pub new : Carrier
  pub push : Carrier → T → Carrier × Option T
  pub clear : Carrier → Carrier
  pub write : Carrier → ℕ → T → Carrier
  pub is_full : Carrier → Bool
  pub items-new : items new ≡ []
  pub length-le-cap : (v : Carrier) → length (items v) ≤ cap
  pub items-push :
      (v : Carrier) (x : T)
      → items (push v x).0 ≡ (if ltb (length (items v)) cap then items v ++ (x ∷ []) else items v)
  pub push-refuses :
      (v : Carrier) (x : T) → (push v x).1 ≡ (if ltb (length (items v)) cap then none else some x)
  pub items-write : (v : Carrier) (i : ℕ) (x : T) → items (write v i x) ≡ set (items v) i x
  pub items-clear : (v : Carrier) → items (clear v) ≡ []
  pub is_full_lem : (v : Carrier) → is_full v ≡ (length (items v) == cap)
