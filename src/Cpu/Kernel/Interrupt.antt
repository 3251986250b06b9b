-- ===== src/Cpu/Kernel/Interrupt.antt =====
-- Which executors the timer interrupt of cpu/cpu0.rs pends.
use aurix_tc365_async_rust.Prelude.{
  ℕ, ◌+◌, ◌%◌, ◌^◌, ◌<◌, ◌≡◌, refl, Bool, true, false, Option, List, [], ◌∷◌, ◌==◌, ◌||◌, Returns,
  arith,
}
use aurix_tc365_async_rust.Heapless.{Vec}
use aurix_tc365_async_rust.Heapless.Heap.{BinaryHeap}
use aurix_tc365_async_rust.Cpu.Alarm.{AlarmItem, before, AlarmQueue}
use aurix_tc365_async_rust.Cpu.Alarm.Calls.{
  IsValid, callbacks_for, expired, waiting, call_all_expired-Called,
}
use aurix_tc365_async_rust.Cpu.Kernel.{
  Pender, thread_executor_pender, interrupt_executor_pender, Kernel, pend, pend_all,
  on_timer_interrupt,
}

abbrev pub same : Pender → Pender → Bool
same thread_executor_pender thread_executor_pender = true
same (interrupt_executor_pender a) (interrupt_executor_pender b) = a == b
same _ _ = false

abbrev pub among : Pender → List Pender → Bool
among p [] = false
among p (x ∷ xs) = same p x || among p xs

module _ (V : Vec (Option Pender)) (H : BinaryHeap AlarmItem before) where
  -- The executor has been asked to run.
  abbrev pub pended : Pender → Kernel V H → Bool
  pended thread_executor_pender k = k.local_event
  pended (interrupt_executor_pender node) k = k.requested node

  pub pended-pend :
      (p x : Pender) (k : Kernel V H) → pended p (pend V H x k) ≡ (same p x || pended p k)
  unfolding pend
  pended-pend thread_executor_pender thread_executor_pender k = refl
  pended-pend thread_executor_pender (interrupt_executor_pender b) k = refl
  pended-pend (interrupt_executor_pender a) thread_executor_pender k = refl
  pended-pend (interrupt_executor_pender a) (interrupt_executor_pender b) k = refl

  or_swap : (a b c : Bool) → (a || (b || c)) ≡ ((b || a) || c)
  or_swap a b c = ground arith

  pended-pend_all :
      (p : Pender) (xs : List Pender) (k : Kernel V H)
      → pended p (pend_all V H xs k) ≡ (among p xs || pended p k)
  pended-pend_all p [] k = refl
  pended-pend_all p (x ∷ xs) k =
      rw (pended-pend_all p xs (pend V H x k), pended-pend p x k)
        (or_swap (among p xs) (same p x) (pended p k))

  ticks-pend : (x : Pender) (k : Kernel V H) → (pend V H x k).ticks ≡ k.ticks
  unfolding pend
  ticks-pend thread_executor_pender k = refl
  ticks-pend (interrupt_executor_pender b) k = refl

  pub alarms-pend : (x : Pender) (k : Kernel V H) → (pend V H x k).alarms ≡ k.alarms
  unfolding pend
  alarms-pend thread_executor_pender k = refl
  alarms-pend (interrupt_executor_pender b) k = refl

  ticks-pend_all : (xs : List Pender) (k : Kernel V H) → (pend_all V H xs k).ticks ≡ k.ticks
  ticks-pend_all [] k = refl
  ticks-pend_all (x ∷ xs) k = rw (ticks-pend_all xs (pend V H x k)) (ticks-pend x k)

  alarms-pend_all : (xs : List Pender) (k : Kernel V H) → (pend_all V H xs k).alarms ≡ k.alarms
  alarms-pend_all [] k = refl
  alarms-pend_all (x ∷ xs) k = rw (alarms-pend_all xs (pend V H x k)) (alarms-pend x k)

  pub pended-ticked :
      (p : Pender) (k : Kernel V H) (t : ℕ) (q : AlarmQueue V H)
      → pended p (record k { ticks = t; alarms = q }) ≡ pended p k
  pended-ticked thread_executor_pender k t q = refl
  pended-ticked (interrupt_executor_pender a) k t q = refl

  -- What the interrupt leaves, under the callbacks and the alarms of the kernel `k` before it.
  abbrev pub Ticked : Kernel V H → Kernel V H → Type 0
  Ticked k k' =
      (k'.ticks ≡ (k.ticks + 1) % 2 ^ 32)
      × ((p : Pender)
          → pended p k' ≡ (
              among p (
                callbacks_for (V.items k.alarms.callbacks)
                  (expired k.ticks (H.items k.alarms.queue)))
              || pended p k))
      × (H.items k'.alarms.queue ≡ waiting k.ticks (H.items k.alarms.queue))
      × (V.items k'.alarms.callbacks ≡ V.items k.alarms.callbacks)

  -- With every alarm of a handle that was given out and less than 2 ^ 32 places, the timer interrupt does not
  -- panic, adds 1 to the ticks, which wrap at 2 ^ 32, pends exactly the executors that are registered for an alarm that expires at
  -- the tick before, and keeps exactly the other alarms and all the callbacks.
  pub on_timer_interrupt-Ticked :
      (k : Kernel V H)
      → IsValid V H k.alarms
      → H.cap < 2 ^ 32
      → Returns (on_timer_interrupt V H k) (Ticked k)
  unfolding on_timer_interrupt
  on_timer_interrupt-Ticked k v word =
      let ((q, ran, n), run, (c, w, same, m)) =
        call_all_expired-Called V H k.ticks k.alarms v word in
      let k₀ : Kernel V H = record k { ticks = (k.ticks + 1) % 2 ^ 32; alarms = q } in
      (
        pend_all V H ran k₀,
        rw run refl,
        (
          ticks-pend_all ran k₀,
          λ p. rw (pended-pend_all p ran k₀, c, pended-ticked p k ((k.ticks + 1) % 2 ^ 32) q) refl,
          rw (alarms-pend_all ran k₀) w,
          rw (alarms-pend_all ran k₀) same,
        ),
      )
