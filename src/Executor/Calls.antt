-- ===== src/Executor/Calls.antt =====
-- What single calls do to an executor: being pended, its queues replaced, one task popped and run.
use aurix_tc365_async_rust.Prelude.{
  ℕ, ◌+◌, ◌%◌, ◌^◌, ◌≡◌, refl, ◌∙◌, true, false, none, some, List, [], ◌∷◌, map, ret, ◌>>=◌, inl,
  inr, Ensures, Outcome-cases,
}
use aurix_tc365_async_rust.Cpu.Alarm
use aurix_tc365_async_rust.Cpu.Kernel
use aurix_tc365_async_rust.Heapless.Pushes.{push_each}
use aurix_tc365_async_rust.Cpu.Kernel.{
  Pender, thread_executor_pender, interrupt_executor_pender, Kernel,
}
use aurix_tc365_async_rust.Cpu.Kernel.Interrupt.{same, pended, pended-pend, pended-ticked}
use aurix_tc365_async_rust.Cpu.Kernel.Due.{same_refl, or_true}
use aurix_tc365_async_rust.Time
use aurix_tc365_async_rust.Executor.{Containers, World, with_executor}
use aurix_tc365_async_rust.Executor.Tasks.{Body, current}
use aurix_tc365_async_rust.Executor.Run.{get_task_ref, check_timer_queue, run_one, poll_task}

module _ (X : Containers) where
  abbrev Core : Type 0
  Core = Kernel X.handles X.alarms

  abbrev pub IsPended : Pender → Core → Type 0
  IsPended p k = pended X.handles X.alarms p k ≡ true

  pub pend-IsPended :
      (p x : Pender) (k : Core) → IsPended p k → IsPended p (Kernel.pend X.handles X.alarms x k)
  pend-IsPended p x k h = pended-pend X.handles X.alarms p x k ∙ rw h (or_true (same p x))

  pub pend_own : (p : Pender) (k : Core) → IsPended p (Kernel.pend X.handles X.alarms p k)
  pend_own p k = let own = same_refl p in pended-pend X.handles X.alarms p p k ∙ rw own refl

  pend_all-IsPended :
      (p : Pender) (ps : List Pender) (k : Core)
      → IsPended p k
      → IsPended p (Kernel.pend_all X.handles X.alarms ps k)
  pend_all-IsPended p [] k h = h
  pend_all-IsPended p (x ∷ ps) k h =
      pend_all-IsPended p ps (Kernel.pend X.handles X.alarms x k) (pend-IsPended p x k h)

  pub kernel-IsPended :
      (p : Pender) (k : Core)
      → Ensures
          (Kernel.on_timer_interrupt X.handles X.alarms k)
          (λ k'. IsPended p k → IsPended p k')
  unfolding Kernel.on_timer_interrupt
  kernel-IsPended p k =
      elim (Outcome-cases (Alarm.call_all_expired X.handles X.alarms k.ticks k.alarms)) [
        | inl fails ↦ rw fails tt
        | inr ((q, ran, n), runs) ↦ rw runs (λ h.
            pend_all-IsPended p ran _
              (pended-ticked X.handles X.alarms p k ((k.ticks + 1) % 2 ^ 32) q ∙ h))
      ]

module _ (X : Containers) {F : Type 0} (e : ℕ) where
  -- The executor `e` has other queues, and no more has changed.
  abbrev pub Replaced : World X F → World X F → Type 0
  Replaced w w' =
      (q : X.run_queues.Carrier) × (timers : X.timers.Carrier) × (w'
        ≡ with_executor X e (record (w.executors e) { run_queue = q; timer_queue = timers }) w)

  pub check_timer_queue-Replaced : (w : World X F) → Ensures (check_timer_queue X e w) (Replaced w)
  unfolding check_timer_queue
  check_timer_queue-Replaced w =
      let x = w.executors e in
      elim (Outcome-cases (Time.dequeue_expired X.timers (current X w) x.timer_queue)) [
        | inl fails ↦ rw fails tt
        | inr ((timers, items, n), runs) ↦
            elim (Outcome-cases
              (push_each X.ready_tasks.push (map get_task_ref items) X.ready_tasks.new)) [
                | inl fails ↦ rw (runs, fails) tt
                | inr (ready, collects) ↦
                    elim (Outcome-cases
                      (push_each X.run_queues.push_back (X.ready_tasks.items ready) x.run_queue)) [
                        | inl fails ↦ rw (runs, collects, fails) tt
                        | inr (q, moves) ↦ rw (runs, collects, moves) (q, timers, refl)
                      ]
              ]
      ]

module _ (X : Containers) {F : Type 0} where
  -- The executor without the front of its run queue.
  abbrev pub popped : ℕ → World X F → World X F
  popped e' w =
      let x = w.executors e' in
      with_executor X e' (record x { run_queue = (X.run_queues.pop_front x.run_queue).0 }) w

  pub run_one-none :
      (behave : F → Body F) (e' : ℕ) (w : World X F)
      → (X.run_queues.pop_front (w.executors e').run_queue).1 ≡ none
      → run_one X behave e' w ≡ ret (popped e' w, false)
  unfolding run_one
  run_one-none behave e' w nothing = rw (run_one, nothing) refl

  pub run_one-some :
      (behave : F → Body F) (e' t : ℕ) (w : World X F)
      → (X.run_queues.pop_front (w.executors e').run_queue).1 ≡ some t
      → run_one X behave e' w ≡ (poll_task X behave e' t (popped e' w) >>= λ w''. ret (w'', true))
  unfolding run_one
  run_one-some behave e' t w front = rw (run_one, front) refl
