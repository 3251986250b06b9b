-- ===== src/Sync/Pubsub/Log.antt =====
-- The messages that sync/pubsub/ has given an id, in order, and the part of them that is queued.
use aurix_tc365_async_rust.Prelude.{
  ℕ, zero, suc, ◌+◌, ◌-◌, ◌≤◌, ◌<◌, ◌≡◌, refl, sym, ap, ◌∙◌, List, [], ◌∷◌, ◌++◌, arith, ltb, leb,
  ◌==◌, ◌&&◌, if◌then◌else◌, length, length-append, drop, length-drop, drop-append_of_le, get_elem?,
  some, ret, Ensures, Ensures->>=, Bool-cases, Option-cases, inl, inr, ◌⊎◌,
}
use aurix_tc365_async_rust.Heapless.{Deque, Vec, map_index}
use aurix_tc365_async_rust.Sync.Waitqueue.{Waker}
use aurix_tc365_async_rust.Sync.Pubsub.{
  PubSubState, message, read_once, get_message, deliver, start_id, index_from,
}
use aurix_tc365_async_rust.Sync.Pubsub.Invariant.{items, oldest, lowered, items-lowered}

module _ {T : Type 0} where
  abbrev pub messages : List (T × ℕ) → List T
  messages [] = []
  messages ((m, counter) ∷ q) = m ∷ messages q

  pub length-messages : (q : List (T × ℕ)) → length (messages q) ≡ length q
  length-messages [] = refl
  length-messages (x ∷ q) = ap suc (length-messages q)

  pub messages-append : (p q : List (T × ℕ)) → messages (p ++ q) ≡ messages p ++ messages q
  messages-append [] q = refl
  messages-append ((m, counter) ∷ p) q = ap (◌∷◌ m) (messages-append p q)

  messages-lowered :
      (k i : ℕ) (q : List (T × ℕ))
      → messages (map_index (λ j x. if j == k then read_once x else x) i q) ≡ messages q
  messages-lowered k i [] = refl
  messages-lowered k i ((m, counter) ∷ q) = elim (Bool-cases (i == k)) [
    | inl e ↦ rw e (ap (◌∷◌ m) (messages-lowered k (i + 1) q))
    | inr e ↦ rw e (ap (◌∷◌ m) (messages-lowered k (i + 1) q))
  ]

  pub messages-drop : (q : List (T × ℕ)) → messages (drop 1 q) ≡ drop 1 (messages q)
  messages-drop [] = refl
  messages-drop (x ∷ q) = refl

  pub get_elem?-messages :
      (q : List (T × ℕ)) (k : ℕ) (m : T) (counter : ℕ)
      → get_elem? q k ≡ some (m, counter)
      → get_elem? (messages q) k ≡ some m
  get_elem?-messages [] k m counter e = cc
  get_elem?-messages ((m', c) ∷ q) zero m counter e = ground arith
  get_elem?-messages (x ∷ q) (suc k) m counter e = get_elem?-messages q k m counter e

  pub get_elem?-drop :
      (n : ℕ) (xs : List T) (k : ℕ) → get_elem? (drop n xs) k ≡ get_elem? xs (n + k)
  get_elem?-drop zero xs k = ap (get_elem? xs) (omega arith)
  get_elem?-drop (suc n) [] k = refl
  get_elem?-drop (suc n) (x ∷ xs) k =
      let next : suc n + k ≡ suc (n + k) = omega arith in rw next (get_elem?-drop n xs k)

  drop-nothing : (xs : List T) → length xs ≡ 0 → drop 1 xs ≡ xs
  drop-nothing [] h = refl
  drop-nothing (x ∷ xs) h = absurd (omega arith)

  drop_next : (n : ℕ) (xs : List T) → drop 1 (drop n xs) ≡ drop (suc n) xs
  drop_next zero xs = refl
  drop_next (suc n) [] = refl
  drop_next (suc n) (x ∷ xs) = drop_next n xs

module _ {T : Type 0} (D : Deque (T × ℕ)) (S P : Vec Waker) where
  -- `log` has the messages by their ids, and the queue the last of them.
  abbrev pub IsLog : List T → PubSubState D S P → Type 0
  IsLog log s =
      (length log ≡ s.next_message_id) × (messages (items D S P s) ≡ drop (oldest D S P s) log)

  -- No id is given out, and the queue loses its front at most.
  abbrev pub Shrinks : PubSubState D S P → PubSubState D S P → Type 0
  Shrinks s s' =
      (s'.next_message_id ≡ s.next_message_id)
      × ((messages (items D S P s') ≡ messages (items D S P s))
          ⊎ (messages (items D S P s') ≡ drop 1 (messages (items D S P s))))

  deliver-Shrinks :
      (index k : ℕ) (item : T × ℕ) (s : PubSubState D S P)
      → Ensures (deliver D S P index item (lowered D S P s k) s) (λ (s', woken, m). Shrinks s s')
  unfolding deliver
  deliver-Shrinks index k (m, counter) s =
      let q = lowered D S P s k in
      let same : messages (D.items q) ≡ messages (items D S P s) =
        rw (items-lowered D S P s k) (messages-lowered k 0 (items D S P s)) in
      elim (Bool-cases (index == 0 && (counter == 0))) [
        | inr keeps ↦ rw keeps (refl, inl same)
        | inl pops ↦ elim (Option-cases ((D.pop_front q).1)) [
          | inl nothing ↦ rw (pops, nothing) tt
          | inr (front, some_front) ↦
              rw (pops, some_front)
                (
                  refl,
                  inr (
                      ap messages (D.items-pop_front q)
                      ∙ messages-drop (D.items q)
                      ∙ ap (drop 1) same),
                )
        ]
      ]

  Shrinks-refl : (s : PubSubState D S P) → Shrinks s s
  Shrinks-refl s = (refl, inl refl)

  pub get_message-Shrinks :
      (n : ℕ) (s : PubSubState D S P)
      → Ensures (get_message D S P n s) (λ (s', woken, r). Shrinks s s')
  unfolding get_message
  get_message-Shrinks n s =
      let index = index_from (start_id D S P s) n in
      elim (Bool-cases (ltb n (start_id D S P s))) [
        | inl behind ↦ rw behind (Shrinks-refl s)
        | inr not_behind ↦ elim (Bool-cases (leb (D.len s.queue) index)) [
          | inl outside ↦ rw (not_behind, outside) (Shrinks-refl s)
          | inr within ↦ elim (Option-cases (get_elem? (items D S P s) index)) [
            | inl nothing ↦ rw (not_behind, within, nothing) tt
            | inr (item, found) ↦
                rw (not_behind, within, found)
                  (Ensures->>= (λ (s', woken, m). Shrinks s s') (λ (s', woken, r). Shrinks s s')
                    (deliver D S P index (read_once item) (lowered D S P s index) s)
                    (λ (s', woken, m). ret (s', woken, some (message m)))
                    (deliver-Shrinks index index (read_once item) s) (λ x h. h))
          ]
        ]
      ]

  -- The log after a call that takes nothing but the front.
  pub Shrinks-IsLog :
      (log : List T) (s s' : PubSubState D S P)
      → length (items D S P s) ≤ s.next_message_id
      → Shrinks s s'
      → IsLog log s
      → IsLog log s'
  Shrinks-IsLog log s s' queued (next, inl same) (count, h) =
      let long : length (items D S P s') ≡ length (items D S P s) =
        sym (length-messages (items D S P s')) ∙ ap length same ∙ length-messages (items D S P s) in
      let at : oldest D S P s' ≡ oldest D S P s = omega (arith, long, next) in
      (count ∙ sym next, rw at (same ∙ h))
  Shrinks-IsLog log s s' queued (next, inr dropped) (count, h) =
      let long : length (items D S P s') ≡ length (items D S P s) - 1 =
        sym (length-messages (items D S P s'))
        ∙ ap length dropped
        ∙ length-drop 1 (messages (items D S P s))
        ∙ ap (λ n. n - 1) (length-messages (items D S P s)) in
      elim (Bool-cases (length (items D S P s) == 0)) [
        | inl none_left ↦
            let at : oldest D S P s' ≡ oldest D S P s = ground (arith, long, next) in
            let empty : drop 1 (messages (items D S P s)) ≡ messages (items D S P s) =
              drop-nothing (messages (items D S P s))
                (ground (arith, length-messages (items D S P s))) in
            (count ∙ sym next, rw at (dropped ∙ empty ∙ h))
        | inr some_left ↦
            let at : oldest D S P s' ≡ suc (oldest D S P s) = ground (arith, long, next) in
            (count ∙ sym next, rw at (dropped ∙ ap (drop 1) h ∙ drop_next (oldest D S P s) log))
      ]

  -- The log after a message was queued behind the others, or behind all but the front.
  pub queued-IsLog :
      (log : List T) (m : T) (counter : ℕ) (q : List (T × ℕ)) (s s' : PubSubState D S P)
      → IsLog log s
      → length (items D S P s) ≤ s.next_message_id
      → s'.next_message_id ≡ s.next_message_id + 1
      → items D S P s' ≡ q ++ ((m, counter) ∷ [])
      → (messages q ≡ messages (items D S P s))
        ⊎ (messages q ≡ drop 1 (messages (items D S P s))) × (0 < length (items D S P s))
      → IsLog (log ++ (m ∷ [])) s'
  queued-IsLog log m counter q s s' (count, h) queued next pushed at =
      let longer : length (log ++ (m ∷ [])) ≡ s'.next_message_id =
        omega (arith, length-append log (m ∷ []), count, next) in
      let all : messages (items D S P s') ≡ messages q ++ (m ∷ []) =
        ap messages pushed ∙ messages-append q ((m, counter) ∷ []) in
      let long : length (items D S P s') ≡ length q + 1 =
        ap length pushed ∙ omega (arith, length-append q ((m, counter) ∷ [])) in
      elim at [
        | inl same ↦
            let size : length q ≡ length (items D S P s) =
              sym (length-messages q) ∙ ap length same ∙ length-messages (items D S P s) in
            let old : oldest D S P s' ≡ oldest D S P s = omega (arith, long, size, next) in
            (
              longer,
              all
                  ∙ ap (λ x. x ++ (m ∷ [])) (same ∙ h)
                  ∙ sym (drop-append_of_le (oldest D S P s) log (m ∷ []) (omega (arith, count)))
                  ∙ ap (λ n. drop n (log ++ (m ∷ []))) (sym old),
            )
        | inr (dropped, some_left) ↦
            let size : length q ≡ length (items D S P s) - 1 =
              sym (length-messages q)
              ∙ ap length dropped
              ∙ length-drop 1 (messages (items D S P s))
              ∙ ap (λ n. n - 1) (length-messages (items D S P s)) in
            let old : oldest D S P s' ≡ suc (oldest D S P s) =
              omega (arith, long, size, next, some_left, queued) in
            (
              longer,
              all
                  ∙ ap (λ x. x ++ (m ∷ []))
                      (dropped ∙ ap (drop 1) h ∙ drop_next (oldest D S P s) log)
                  ∙ sym (
                      drop-append_of_le (suc (oldest D S P s)) log (m ∷ [])
                        (omega (arith, count, some_left, queued)))
                  ∙ ap (λ n. drop n (log ++ (m ∷ []))) (sym old),
            )
      ]
