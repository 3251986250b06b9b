-- ===== src/Heapless/Model.antt =====
-- Lists with a bound meet the laws of heapless's containers.
use aurix_tc365_async_rust.Prelude.{
  ℕ, ◌≡◌, ◌≤◌, ◌<◌, ◌^◌, refl, Bool-cases, inl, inr, Option, none, some, List, [], ◌∷◌, ◌++◌, ltb,
  ◌==◌, if◌then◌else◌, length, take, drop, arith, length-append, length-take, length-set, set,
  length-drop, zero, suc, ap,
}
use aurix_tc365_async_rust.Heapless.{Deque, Vec, head?, map_index, length-map_index}

take_all {ℓ} : {A : Type ℓ} (n : ℕ) (xs : List A) → length xs ≤ n → take n xs ≡ xs
take_all zero [] h = refl
take_all zero (x ∷ xs) h = absurd (omega arith)
take_all (suc n) [] h = refl
take_all (suc n) (x ∷ xs) h = ap (◌∷◌ x) (take_all n xs (omega arith))

-- The first `bound` elements of the carrier count.
module _ {T : Type 0} (bound : ℕ) where
  abbrev pub push : List T → T → List T × Option T
  push q x =
      if ltb (length (take bound q)) bound
      then (take bound q ++ (x ∷ []), none)
      else (take bound q, some x)

  pub take-push :
      (q : List T) (x : T)
      → take bound (push q x).0
        ≡ (if ltb (length (take bound q)) bound then take bound q ++ (x ∷ []) else take bound q)
  take-push q x = ground (
    arith,
    length-take bound q,
    length-append (take bound q) (x ∷ []),
    take_all bound (take bound q ++ (x ∷ [])),
    take_all bound (take bound q),
  )

  pub push-refuses :
      (q : List T) (x : T)
      → (push q x).1 ≡ (if ltb (length (take bound q)) bound then none else some x)
  push-refuses q x = ground arith

  pub take_bounded : (q : List T) → length (take bound q) ≤ bound
  take_bounded q = omega (arith, length-take bound q)

  abbrev pub push_first : List T → T → List T × Option T
  push_first q x =
      if ltb (length (take bound q)) bound then (x ∷ take bound q, none) else (take bound q, some x)

  pub take-push_first :
      (q : List T) (x : T)
      → take bound (push_first q x).0
        ≡ (if ltb (length (take bound q)) bound then x ∷ take bound q else take bound q)
  take-push_first q x = elim (Bool-cases (ltb (length (take bound q)) bound)) [
    | inl room ↦ rw room (take_all bound (x ∷ take bound q) (ground arith))
    | inr full ↦ rw full (take_all bound (take bound q) (take_bounded q))
  ]

  pub push_first-refuses :
      (q : List T) (x : T)
      → (push_first q x).1 ≡ (if ltb (length (take bound q)) bound then none else some x)
  push_first-refuses q x = ground arith

  pub take-drop_one : (q : List T) → take bound (drop 1 (take bound q)) ≡ drop 1 (take bound q)
  take-drop_one q =
      take_all bound _ (omega (arith, length-drop 1 (take bound q), length-take bound q))

  pub take-nil : take {A = T} bound [] ≡ []
  take-nil = take_all bound [] (omega arith)

  pub take-map_index :
      (f : ℕ → T → T) (q : List T)
      → take bound (map_index f 0 (take bound q)) ≡ map_index f 0 (take bound q)
  take-map_index f q =
      take_all bound _ (omega (arith, length-map_index f 0 (take bound q), length-take bound q))

  pub take-set :
      (q : List T) (i : ℕ) (x : T) → take bound (set (take bound q) i x) ≡ set (take bound q) i x
  take-set q i x =
      take_all bound _ (omega (arith, length-set (take bound q) i x, length-take bound q))

  abbrev pub bounded_deque : bound < 2 ^ 32 → Deque T
  bounded_deque small = record {
    Carrier = List T;
    cap = bound;
    items = take bound;
    new = [];
    push_back = push;
    push_front = push_first;
    pop_front = λ q. (drop 1 (take bound q), head? (take bound q));
    iter_mut = λ f q. map_index f 0 (take bound q);
    len = λ q. length (take bound q);
    is_empty = λ q. length (take bound q) == 0;
    is_full = λ q. length (take bound q) == bound;
    cap_word = small;
    items-new = take-nil;
    length-le-cap = take_bounded;
    items-push_back = take-push;
    push_back-refuses = push-refuses;
    items-push_front = take-push_first;
    push_front-refuses = push_first-refuses;
    items-pop_front = take-drop_one;
    pop_front-head? = λ q. refl;
    items-iter_mut = take-map_index;
    len_lem = λ q. refl;
    is_empty_lem = λ q. refl;
    is_full_lem = λ q. refl;
  }

  abbrev pub bounded_vec : Vec T
  bounded_vec = record {
    Carrier = List T;
    cap = bound;
    items = take bound;
    new = [];
    push = push;
    clear = λ q. [];
    write = λ q i x. set (take bound q) i x;
    is_full = λ q. length (take bound q) == bound;
    items-new = take-nil;
    length-le-cap = take_bounded;
    items-push = take-push;
    push-refuses = push-refuses;
    items-write = take-set;
    items-clear = λ q. take-nil;
    is_full_lem = λ q. refl;
  }
