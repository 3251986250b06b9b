-- ===== src/Cpu/Alarm/Calls.antt =====
-- Which callbacks the alarms of cpu/alarm.rs run.
use aurix_tc365_async_rust.Prelude.{
  ℕ, zero, suc, ◌+◌, ◌^◌, ◌≤◌, ◌<◌, ◌≡◌, refl, true, false, inl, inr, Bool-cases, Option, none,
  some, List, [], ◌∷◌, ◌++◌, leb, length, get_elem?, All, arith, add_usize, ret, ◌>>=◌, Returns,
}
use aurix_tc365_async_rust.Heapless.{Vec}
use aurix_tc365_async_rust.Heapless.Heap.{BinaryHeap, IsSorted}
use aurix_tc365_async_rust.Heapless.Due.{due, not_due, none_due}
use aurix_tc365_async_rust.Cpu.Alarm.{
  AlarmItem, before, callback_of, AlarmQueue, call, get_one_expired_item, call_expired,
  call_all_expired,
}

before_mono : (a b : AlarmItem) → before a b ≡ true → a.expires_at ≤ b.expires_at
before_mono a b h = ground arith

abbrev pub expired : ℕ → List AlarmItem → List AlarmItem
expired = due (λ t. t.expires_at)

abbrev pub waiting : ℕ → List AlarmItem → List AlarmItem
waiting = not_due (λ t. t.expires_at)

-- The callbacks of the handles of some items, under a table of callbacks.
abbrev pub callbacks_for : {C : Type 0} → List (Option C) → List AlarmItem → List C
callbacks_for table [] = []
callbacks_for table (t ∷ ts) =
    let rest = callbacks_for table ts in
    elim (get_elem? table t.handle) [ none ↦ rest | some f ↦ callback_of f ++ rest ]

pub callbacks_for-cons :
    {C : Type 0} (table : List (Option C)) (t : AlarmItem) (ts : List AlarmItem) (f : Option C)
    → get_elem? table t.handle ≡ some f
    → callbacks_for table (t ∷ ts) ≡ callback_of f ++ callbacks_for table ts
callbacks_for-cons table t ts f k = rw (callbacks_for, k) refl

get_elem?-defined :
    {A : Type 0} (xs : List A) (i : ℕ) → i < length xs → (a : A) × (get_elem? xs i ≡ some a)
get_elem?-defined [] i h = absurd (omega arith)
get_elem?-defined (x ∷ xs) zero h = (x, refl)
get_elem?-defined (x ∷ xs) (suc i) h = get_elem?-defined xs i (omega arith)

module _ {C : Type 0} (V : Vec (Option C)) (H : BinaryHeap AlarmItem before) where
  -- Every alarm in the queue is of a handle that was given out.
  abbrev pub IsValid : AlarmQueue V H → Type 0
  IsValid q = All (λ t. t.handle < length (V.items q.callbacks)) (H.items q.queue)

  abbrev pub Called :
      ℕ → ℕ → List (Option C) → List AlarmItem → AlarmQueue V H × List C × ℕ → Type 0
  Called now x table before (q, ran, n) =
      (ran ≡ callbacks_for table (expired now before))
      × (H.items q.queue ≡ waiting now before)
      × (V.items q.callbacks ≡ table)
      × (n ≡ x + length (expired now before))

  takes_none :
      (now : ℕ) (q : AlarmQueue V H)
      → H.peek q.queue ≡ none
      → get_one_expired_item V H now q ≡ (q, none)
  unfolding get_one_expired_item
  takes_none now q e = rw (e, get_one_expired_item) refl

  takes_later :
      (now : ℕ) (q : AlarmQueue V H) (t : AlarmItem)
      → H.peek q.queue ≡ some t
      → leb t.expires_at now ≡ false
      → get_one_expired_item V H now q ≡ (q, none)
  unfolding get_one_expired_item
  takes_later now q t e later = rw (e, get_one_expired_item, later) refl

  takes_due :
      (now : ℕ) (q : AlarmQueue V H) (t : AlarmItem)
      → H.peek q.queue ≡ some t
      → (H.pop q.queue).1 ≡ some t
      → leb t.expires_at now ≡ true
      → get_one_expired_item V H now q ≡ (record q { queue = (H.pop q.queue).0 }, some t)
  unfolding get_one_expired_item
  takes_due now q t e p past = rw (e, get_one_expired_item, past, p) refl

  stops :
      (rounds now : ℕ) (q : AlarmQueue V H) (x : ℕ)
      → get_one_expired_item V H now q ≡ (q, none)
      → call_expired V H (suc rounds) now q x ≡ ret (q, [], x)
  unfolding call_expired
  stops rounds now q x e = rw (call_expired, e, e) refl

  calls :
      (rounds now : ℕ) (q q' : AlarmQueue V H) (x : ℕ) (t : AlarmItem) (f : Option C)
      → get_one_expired_item V H now q ≡ (q', some t)
      → leb t.expires_at now ≡ true
      → get_elem? (V.items q'.callbacks) t.handle ≡ some f
      → call_expired V H (suc rounds) now q x ≡ (
          call_expired V H rounds now q' (add_usize x 1) >>= λ (q'', ran, n).
          ret (q'', callback_of f ++ ran, n))
  unfolding call_expired call
  calls rounds now q q' x t f e past k = rw (call_expired, e, past, e, call, k) refl

  -- The rounds over a queue with the alarms `ts`.
  call_expired-Called :
      (rounds now : ℕ) (q : AlarmQueue V H) (x : ℕ) (ts : List AlarmItem)
      → H.items q.queue ≡ ts
      → IsSorted before ts
      → All (λ t. t.handle < length (V.items q.callbacks)) ts
      → length ts < rounds
      → x + length ts < 2 ^ 32
      → Returns (call_expired V H rounds now q x) (Called now x (V.items q.callbacks) ts)
  call_expired-Called zero now q x ts e s v few small = absurd (omega arith)
  call_expired-Called (suc rounds) now q x [] e s v few small = (
    (q, [], x),
    stops rounds now q x (takes_none now q (rw (H.peek_lem q.queue, e) refl)),
    (refl, e, refl, omega arith),
  )
  call_expired-Called (suc rounds) now q x (t ∷ ts) e s v few small =
      elim (Bool-cases (leb t.expires_at now)) [
        | inl past ↦
            let next : add_usize x 1 ≡ x + 1 = omega arith in
            let popped : H.items (H.pop q.queue).0 ≡ ts = rw (H.items-pop q.queue, e) refl in
            let (f, k) = get_elem?-defined (V.items q.callbacks) t.handle v.0 in
            let ((q', ran, n), run, (c, w, same, m)) =
              call_expired-Called rounds now (record q { queue = (H.pop q.queue).0 })
                (add_usize x 1) ts popped s.1 v.1 (omega arith) (omega (arith, next)) in
            (
              (q', callback_of f ++ ran, n),
              rw
                  (
                    calls rounds now q (record q { queue = (H.pop q.queue).0 }) x t f
                        (takes_due now q t (rw (H.peek_lem q.queue, e) refl)
                          (rw (H.pop-head? q.queue, e) refl) past)
                        past k,
                    run,
                  )
                  refl,
              rw past (
                rw (callbacks_for-cons (V.items q.callbacks) t (expired now ts) f k, c) refl,
                w,
                same,
                omega (arith, m, next),
              ),
            )
        | inr later ↦
            let (e', w) =
              none_due (λ u. u.expires_at) before before_mono now t ts (ground arith) s.0 in
            (
              (q, [], x),
              stops rounds now q x (takes_later now q t (rw (H.peek_lem q.queue, e) refl) later),
              rw (later, e', w) (refl, e, refl, omega arith),
            )
      ]

  -- With every alarm of a handle that was given out and less than 2 ^ 32 places, `call_all_expired` neither
  -- panics nor runs on: it calls the registered callbacks of exactly the alarms that have expired, in the
  -- order of the queue, leaves exactly the others and every callback, and returns how many had expired.
  pub call_all_expired-Called :
      (now : ℕ) (q : AlarmQueue V H)
      → IsValid q
      → H.cap < 2 ^ 32
      → Returns (call_all_expired V H now q) (Called now 0 (V.items q.callbacks) (H.items q.queue))
  unfolding call_all_expired
  call_all_expired-Called now q v word =
      call_expired-Called (suc (H.len q.queue)) now q 0 (H.items q.queue) refl
        (H.items-IsSorted q.queue) v (omega (arith, H.len_lem q.queue))
        (omega (arith, H.length-le-cap q.queue))
