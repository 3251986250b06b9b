-- ===== src/Executor/Grows.antt =====
-- How the calls of the other modules change what an executor `e` waits for: its run queue, and to be pended by `p`.
use aurix_tc365_async_rust.Prelude.{
  ℕ, ◌≢◌, ◌≡◌, refl, sym, subst, ap, ◌∙◌, Bool, true, false, none, Outcome, ret, ◌==◌, ◌⊎◌, inl,
  inr, Bool-cases, leb, ==_refl, Ensures, Ensures->>=, Ensures_mono, Option-cases, arith,
}
use aurix_tc365_async_rust.Cpu.Kernel
use aurix_tc365_async_rust.Cpu.Kernel.{
  Pender, thread_executor_pender, interrupt_executor_pender, Kernel,
}
use aurix_tc365_async_rust.Cpu.Kernel.Interrupt.{same, pended-ticked}
use aurix_tc365_async_rust.Time
use aurix_tc365_async_rust.Executor.{
  Containers, BaseExecutor, World, with_executor, with_task, wake_by_ref, on_timer_interrupt,
}
use aurix_tc365_async_rust.Executor.Tasks.{
  Body, suspends, exits, wakes, reads_now, polls_timer, polls_yielder, run, current, is_ready,
  poll_timer, poll_yielder,
}
use aurix_tc365_async_rust.Executor.Run.{
  check_timer_queue, run_one, renew_alarm, set_alarm, poll_task, update_timer_queue,
}
use aurix_tc365_async_rust.Executor.Calls.{
  IsPended, pend-IsPended, pend_own, kernel-IsPended, Replaced, check_timer_queue-Replaced, popped,
  run_one-none, run_one-some,
}

module _ (X : Containers) {F : Type 0} (e : ℕ) (p : Pender) where
  abbrev pub HasPender : World X F → Type 0
  HasPender w = (w.executors e).pender ≡ p

  -- The run queue of `e` only changes with the executor pended, and it stays pended.
  abbrev pub Grows : World X F → World X F → Type 0
  Grows w w' =
      HasPender w'
      × (IsPended X p w.kernel → IsPended X p w'.kernel)
      × (((w'.executors e).run_queue ≡ (w.executors e).run_queue) ⊎ (IsPended X p w'.kernel))

  Grows-refl : (w : World X F) → HasPender w → Grows w w
  Grows-refl w th = (th, λ h. h, inl refl)

  pub Grows-trans : (w w' w'' : World X F) → Grows w w' → Grows w' w'' → Grows w w''
  Grows-trans w w' w'' (th, keeps, inl same) (th', keeps', inl same') =
      (th', λ h. keeps' (keeps h), inl (rw same' same))
  Grows-trans w w' w'' (th, keeps, inr set) (th', keeps', inl same') =
      (th', λ h. keeps' (keeps h), inr (keeps' set))
  Grows-trans w w' w'' (th, keeps, q) (th', keeps', inr set') =
      (th', λ h. keeps' (keeps h), inr set')

  with_executor-Grows :
      (e' : ℕ) (x : BaseExecutor X) (w : World X F)
      → e ≢ e'
      → HasPender w
      → Grows w (with_executor X e' x w)
  with_executor-Grows e' x w other th =
      let elsewhere : (e == e') ≡ false = ground arith in rw elsewhere (th, λ h. h, inl refl)

  pub wake_by_ref-Grows : (t : ℕ) (w : World X F) → HasPender w → Grows w (wake_by_ref X t w)
  unfolding wake_by_ref
  wake_by_ref-Grows t w th = elim (Bool-cases (e == (w.tasks t).executor)) [
    | inl here ↦
        let same : e ≡ (w.tasks t).executor = ground arith in
        let thread : (w.executors (w.tasks t).executor).pender ≡ p =
          subst (λ i. (w.executors i).pender ≡ p) same th in
        rw here (thread, pend-IsPended X p _ w.kernel, inr (rw thread (pend_own X p w.kernel)))
    | inr elsewhere ↦ rw elsewhere (th, pend-IsPended X p _ w.kernel, inl refl)
  ]

  pub on_timer_interrupt-Grows :
      (w : World X F) → HasPender w → Ensures (on_timer_interrupt X w) (Grows w)
  unfolding on_timer_interrupt
  on_timer_interrupt-Grows w th =
      Ensures->>= (λ k. IsPended X p w.kernel → IsPended X p k) (Grows w) _ _
        (kernel-IsPended X p w.kernel) (λ k keeps. (th, keeps, inl refl))

  -- The part after a step that grows.
  Grows-after :
      (w w' : World X F) (m : Outcome (World X F × F))
      → Grows w w'
      → Ensures m (λ (w'', f). Grows w' w'')
      → Ensures m (λ (w'', f). Grows w w'')
  Grows-after w w' m g =
      Ensures_mono (λ (w'', f). Grows w' w'') (λ (w'', f). Grows w w'') m
        (λ (w'', f) g'. Grows-trans w w' w'' g g')

  poll_timer-Grows :
      (expires_at t : ℕ) (w : World X F) → HasPender w → Grows w (poll_timer X expires_at t w).0
  unfolding poll_timer
  poll_timer-Grows expires_at t w th = elim (Bool-cases (leb expires_at (current X w))) [
    | inl past ↦ rw past (Grows-refl w th)
    | inr later ↦ rw later (th, λ h. h, inl refl)
  ]

  poll_yielder-Grows :
      (yielded : Bool) (t : ℕ) (w : World X F)
      → HasPender w
      → Grows w (poll_yielder X yielded t w).0
  unfolding poll_yielder
  poll_yielder-Grows true t w th = Grows-refl w th
  poll_yielder-Grows false t w th = wake_by_ref-Grows t w th

  -- A poll of any task, by any executor.
  run-Grows :
      (b : Body F) (t : ℕ) (w : World X F)
      → HasPender w
      → Ensures (run X b t w) (λ (w', f). Grows w w')
  unfolding run
  run-Grows (suspends f) t w th = Grows-refl w th
  run-Grows exits t w th = tt
  run-Grows (wakes u b) t w th =
      let g = wake_by_ref-Grows u w th in
      Grows-after w (wake_by_ref X u w) _ g (run-Grows b t (wake_by_ref X u w) g.0)
  run-Grows (reads_now k) t w th = run-Grows (k (current X w)) t w th
  run-Grows (polls_timer expires_at k) t w th =
      let (w', r) = poll_timer X expires_at t w in
      let g = poll_timer-Grows expires_at t w th in
      Grows-after w w' _ g (run-Grows (k (is_ready r)) t w' g.0)
  run-Grows (polls_yielder yielded k) t w th =
      let (w', r) = poll_yielder X yielded t w in
      let g = poll_yielder-Grows yielded t w th in
      Grows-after w w' _ g (run-Grows (k (is_ready r)) t w' g.0)

  pub own-HasPender :
      (x : BaseExecutor X) (w : World X F)
      → x.pender ≡ (w.executors e).pender
      → HasPender w
      → HasPender (with_executor X e x w)
  own-HasPender x w same th = let here = ==_refl e in rw here (same ∙ th)

  -- An executor whose run queue and pender stay as they are.
  kept-Grows :
      (e' : ℕ) (x : BaseExecutor X) (w : World X F)
      → x.run_queue ≡ (w.executors e').run_queue
      → x.pender ≡ (w.executors e').pender
      → HasPender w
      → Grows w (with_executor X e' x w)
  kept-Grows e' x w same_queue same_pender th = elim (Bool-cases (e == e')) [
    | inl here ↦
        let same : e ≡ e' = ground arith in
        rw here (
          same_pender ∙ subst (λ i. (w.executors i).pender ≡ p) same th,
          λ h. h,
          inl (same_queue ∙ ap (λ i. (w.executors i).run_queue) (sym same)),
        )
    | inr elsewhere ↦ rw elsewhere (th, λ h. h, inl refl)
  ]

  update_timer_queue-Grows :
      (e' task : ℕ) (w : World X F) → HasPender w → Grows w (update_timer_queue X e' task w)
  unfolding update_timer_queue
  update_timer_queue-Grows e' task w th = elim (Option-cases (w.tasks task).expires_at) [
    | inl no_timer ↦ rw (update_timer_queue, no_timer) (Grows-refl w th)
    | inr (at, timer) ↦
        rw (update_timer_queue, timer)
          (kept-Grows e'
            (record (w.executors e') {
              timer_queue =
                  (Time.enqueue X.timers (record { expires_at = at; waker = task })
                    (w.executors e').timer_queue).0;
            })
            w refl refl th)
  ]

  pub renew_alarm-Grows :
      (e' : ℕ) (w : World X F) → HasPender w → Ensures (renew_alarm X e' w) (Grows w)
  unfolding renew_alarm set_alarm Kernel.set_alarm
  renew_alarm-Grows e' w th =
      elim (Option-cases (Time.next_expiration X.timers (w.executors e').timer_queue)) [
        | inl nothing ↦ rw (renew_alarm, nothing) (Grows-refl w th)
        | inr (at, next) ↦ elim (Option-cases (w.executors e').alarm_handle) [
          | inl missing ↦ rw (renew_alarm, next, set_alarm, missing) tt
          | inr (handle, there) ↦
              rw (renew_alarm, next, set_alarm, there)
                (
                  th,
                  λ h. pended-ticked X.handles X.alarms p w.kernel w.kernel.ticks _ ∙ h,
                  inl refl,
                )
        ]
      ]

  -- Any executor other than `e`.
  pub check_timer_queue-Grows :
      (e' : ℕ) (w : World X F) → e ≢ e' → HasPender w → Ensures (check_timer_queue X e' w) (Grows w)
  check_timer_queue-Grows e' w other th =
      Ensures_mono (Replaced X e' w) (Grows w) (check_timer_queue X e' w)
        (λ w' (q, timers, same). rw same (
          with_executor-Grows e' (record (w.executors e') { run_queue = q; timer_queue = timers }) w
            other th))
        (check_timer_queue-Replaced X e' w)

  pub poll_task-Grows :
      (behave : F → Body F) (e' t : ℕ) (w : World X F)
      → HasPender w
      → Ensures (poll_task X behave e' t w) (Grows w)
  unfolding poll_task
  poll_task-Grows behave e' t w th =
      let h = record (w.tasks t) { expires_at = none } in
      Ensures->>= (λ (w', f). Grows w w') (Grows w) (run X (behave h.fut_ref) t (with_task X t h w))
        _ (run-Grows (behave h.fut_ref) t (with_task X t h w) th)
        (λ (w', f) g.
          let w'' = with_task X t (record (w'.tasks t) { fut_ref = f }) w' in
          Grows-trans w w' (update_timer_queue X e' t w'') g
            (update_timer_queue-Grows e' t w'' g.0))

  pub run_one-Grows :
      (behave : F → Body F) (e' : ℕ) (w : World X F)
      → e ≢ e'
      → HasPender w
      → Ensures (run_one X behave e' w) (λ (w', more). Grows w w')
  run_one-Grows behave e' w other th =
      let q = (w.executors e').run_queue in
      let g : Grows w (popped X e' w) =
        with_executor-Grows e'
          (record (w.executors e') { run_queue = (X.run_queues.pop_front q).0 }) w other th in
      elim (Option-cases (X.run_queues.pop_front q).1) [
        | inl nothing ↦ rw (run_one-none X behave e' w nothing) g
        | inr (t, front) ↦ rw (run_one-some X behave e' t w front) (
            Ensures->>= (Grows (popped X e' w)) (λ (w', more). Grows w w')
              (poll_task X behave e' t (popped X e' w)) (λ w''. ret (w'', true))
              (poll_task-Grows behave e' t (popped X e' w) g.0)
              (λ w'' g'. Grows-trans w (popped X e' w) w'' g g'))
      ]
