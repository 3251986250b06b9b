-- ===== src/Cpu/Alarm/Handles.antt =====
-- The handles that cpu/alarm.rs gives out, and their callbacks.
use aurix_tc365_async_rust.Prelude.{
  ℕ, ◌-◌, ◌%◌, ◌^◌, ◌≤◌, ◌<◌, ◌≡◌, refl, ap, true, Option, none, some, [], ◌∷◌, ◌++◌, ltb, length,
  get_elem?, set, get_elem?-set_self, get_elem?-set_ne, get_elem?-append_self, get_elem?-append_lt,
  length-append, arith, ret,
}
use aurix_tc365_async_rust.Heapless.{Vec}
use aurix_tc365_async_rust.Heapless.Heap.{BinaryHeap}
use aurix_tc365_async_rust.Cpu.Alarm.{
  AlarmItem, before, AlarmQueue, try_allocate_handle, register_callback, call,
}

module _ {C : Type 0} (V : Vec (Option C)) (H : BinaryHeap AlarmItem before) where
  pub try_allocate_handle-room :
      (q : AlarmQueue V H)
      → length (V.items q.callbacks) < V.cap
      → V.cap ≤ 2 ^ 8
      → (try_allocate_handle V H q ≡ (
        record q { callbacks = (V.push q.callbacks none).0 },
        some (length (V.items q.callbacks)),
      ))
        × (V.items (V.push q.callbacks none).0 ≡ V.items q.callbacks ++ (none ∷ []))
  unfolding try_allocate_handle
  try_allocate_handle-room q room byte =
      let fits : ltb (length (V.items q.callbacks)) V.cap ≡ true = ground arith in
      let pushed : V.items (V.push q.callbacks none).0 ≡ V.items q.callbacks ++ (none ∷ []) =
        rw (V.items-push q.callbacks none, fits) refl in
      let accepted : (V.push q.callbacks none).1 ≡ none =
        rw (V.push-refuses q.callbacks none, fits) refl in
      let last : (length (V.items q.callbacks ++ (none ∷ [])) - 1) % 2 ^ 8
          ≡ length (V.items q.callbacks) =
        omega (arith, length-append (V.items q.callbacks) (none ∷ [])) in
      (rw (try_allocate_handle, accepted, pushed, last) refl, pushed)

  pub register_callback-written :
      (q : AlarmQueue V H) (handle : ℕ) (f : C) (old : Option C)
      → get_elem? (V.items q.callbacks) handle ≡ some old
      → register_callback V H handle f q
        ≡ ret (record q { callbacks = V.write q.callbacks handle (some f) })
  unfolding register_callback
  register_callback-written q handle f old e = rw (register_callback, e) refl

  call-get_elem? :
      (q : AlarmQueue V H) (handle : ℕ) (f : Option C)
      → get_elem? (V.items q.callbacks) handle ≡ some f
      → call V H handle q ≡ ret f
  unfolding call
  call-get_elem? q handle f e = rw (call, e) refl

  call-cong :
      (q q' : AlarmQueue V H) (handle : ℕ)
      → get_elem? (V.items q.callbacks) handle ≡ get_elem? (V.items q'.callbacks) handle
      → call V H handle q ≡ call V H handle q'
  unfolding call
  call-cong q q' handle e = rw (call, call, e) refl

  -- While fewer than `cap` handles, at most 256, are out, a handle can be allocated: it is a new one, a
  -- callback can be registered for it, `call` then runs that callback, and the calls of the older handles
  -- and the queue of alarms are as before.
  pub call-register_callback :
      (q : AlarmQueue V H) (f : C)
      → length (V.items q.callbacks) < V.cap
      → V.cap ≤ 2 ^ 8
      → (q₁ : AlarmQueue V H) × (q₂ : AlarmQueue V H) × (try_allocate_handle V H q
          ≡ (q₁, some (length (V.items q.callbacks))))
        × (register_callback V H (length (V.items q.callbacks)) f q₁ ≡ ret q₂)
        × (call V H (length (V.items q.callbacks)) q₂ ≡ ret (some f))
        × ((i : ℕ) → i < length (V.items q.callbacks) → call V H i q₂ ≡ call V H i q)
        × (q₂.queue ≡ q.queue)
  call-register_callback q f room byte =
      let n = length (V.items q.callbacks) in
      let (allocated, pushed) = try_allocate_handle-room q room byte in
      let q₁ : AlarmQueue V H = record q { callbacks = (V.push q.callbacks none).0 } in
      let q₂ : AlarmQueue V H = record q { callbacks = V.write q₁.callbacks n (some f) } in
      let inside : n < length (V.items q₁.callbacks) =
        omega (arith, ap length pushed, length-append (V.items q.callbacks) (none ∷ [])) in
      let written : V.items q₂.callbacks ≡ set (V.items q₁.callbacks) n (some f) =
        V.items-write q₁.callbacks n (some f) in
      (
        q₁,
        q₂,
        allocated,
        register_callback-written q₁ n f none
            (rw pushed (get_elem?-append_self (V.items q.callbacks) none)),
        call-get_elem? q₂ n (some f)
            (rw written (get_elem?-set_self (V.items q₁.callbacks) n (some f) inside)),
        λ i h. call-cong q₂ q i (
            rw (written, get_elem?-set_ne (V.items q₁.callbacks) n i (some f) (omega arith), pushed)
              (get_elem?-append_lt (V.items q.callbacks) (none ∷ []) i h)),
        refl,
      )
