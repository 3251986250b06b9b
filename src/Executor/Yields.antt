-- ===== src/Executor/Yields.antt =====
-- A task that yields, by executor/yields.rs, whenever it is polled.
use aurix_tc365_async_rust.Prelude.{
  ℕ, zero, suc, ◌≡◌, refl, ap, ◌∙◌, true, false, none, some, [], ◌∷◌, drop, ltb, inl, inr,
  Option-cases, ret, ◌>>=◌, Returns, arith, ◌<◌,
}
use aurix_tc365_async_rust.Heapless.{head?}
use aurix_tc365_async_rust.Executor.{
  Containers, BaseExecutor, TaskHeader, World, at_self, with_task, wake_by_ref,
}
use aurix_tc365_async_rust.Executor.Tasks.{Body, suspends, polls_yielder, run, poll_yielder}
use aurix_tc365_async_rust.Executor.Run.{
  update_timer_queue, poll_task, run_one, advance_runnable_tasks,
}
use aurix_tc365_async_rust.Executor.Calls.{popped, run_one-some}
use aurix_tc365_async_rust.Executor.Advance.{
  queued, update_timer_queue-kept, popped-queued, advance_goes_on,
}

module _ (X : Containers) {F : Type 0} where
  wake_by_ref-queued :
      (e t : ℕ) (w : World X F)
      → queued X e w ≡ []
      → (w.tasks t).executor ≡ e
      → 0 < X.run_queues.cap
      → queued X e (wake_by_ref X t w) ≡ t ∷ []
  unfolding wake_by_ref
  wake_by_ref-queued e t w empty own room =
      let x = w.executors e in
      let x' : BaseExecutor X = record x { run_queue = (X.run_queues.push_back x.run_queue t).0 } in
      let fits : ltb 0 X.run_queues.cap ≡ true = ground arith in
      rw own (
        ap (λ x. X.run_queues.items x.run_queue) (at_self w.executors e x')
        ∙ rw (X.run_queues.items-push_back x.run_queue t, empty, fits) refl)

  run-yields :
      (f : F) (t : ℕ) (w : World X F)
      → run X (polls_yielder false (λ r. suspends f)) t w ≡ ret (wake_by_ref X t w, f)
  unfolding run poll_yielder
  run-yields f t w = refl

  update_timer_queue-tasks :
      (e t : ℕ) (w : World X F) → (update_timer_queue X e t w).tasks ≡ w.tasks
  unfolding update_timer_queue
  update_timer_queue-tasks e t w = elim (Option-cases (w.tasks t).expires_at) [
    | inl no_timer ↦ rw (update_timer_queue, no_timer) refl
    | inr (expires_at, timer) ↦ rw (update_timer_queue, timer) refl
  ]

  wake_by_ref-tasks : (t : ℕ) (w : World X F) → (wake_by_ref X t w).tasks ≡ w.tasks
  unfolding wake_by_ref
  wake_by_ref-tasks t w = refl

module _ (X : Containers) {F : Type 0} (behave : F → Body F) (e t : ℕ)
    (yields : (f : F) → behave f ≡ polls_yielder false (λ r. suspends f)) where
  -- The task is the only one in the run queue of its executor.
  abbrev pub IsAlone : World X F → Type 0
  IsAlone w = (queued X e w ≡ t ∷ []) × ((w.tasks t).executor ≡ e)

  poll_task-IsAlone :
      (w : World X F)
      → queued X e w ≡ []
      → (w.tasks t).executor ≡ e
      → 0 < X.run_queues.cap
      → Returns (poll_task X behave e t w) IsAlone
  unfolding poll_task
  poll_task-IsAlone w empty own room =
      let h : TaskHeader F = record (w.tasks t) { expires_at = none } in
      let w₁ : World X F = with_task X t h w in
      let own₁ : (w₁.tasks t).executor ≡ e = ap (λ h. h.executor) (at_self w.tasks t h) ∙ own in
      let w₂ = wake_by_ref X t w₁ in
      let h₂ : TaskHeader F = record (w₂.tasks t) { fut_ref = h.fut_ref } in
      let w₃ : World X F = with_task X t h₂ w₂ in
      let own₂ : (w₂.tasks t).executor ≡ e =
        ap (λ ts. (ts t).executor) (wake_by_ref-tasks X t w₁) ∙ own₁ in
      (
        update_timer_queue X e t w₃,
        rw (poll_task, yields h.fut_ref, run-yields X h.fut_ref t w₁) refl,
        (
          (update_timer_queue-kept X e t w₃).1 ∙ wake_by_ref-queued X e t w₁ empty own₁ room,
          ap (λ ts. (ts t).executor) (update_timer_queue-tasks X e t w₃)
              ∙ ap (λ h. h.executor) (at_self w₂.tasks t h₂)
              ∙ own₂,
        ),
      )

  -- A task that yields whenever it is polled, and is alone in the run queue of its executor, which has a place, keeps the loop of
  -- `advance_runnable_tasks` from coming to its end: after any number of rounds it has not ended, nor
  -- panicked, and the task is alone in the run queue again.
  pub advance_runnable_tasks-IsAlone :
      (rounds : ℕ) (w : World X F)
      → IsAlone w
      → 0 < X.run_queues.cap
      → Returns
          (advance_runnable_tasks X behave rounds e w)
          (λ (w', done). (done ≡ false) × IsAlone w')
  unfolding advance_runnable_tasks
  advance_runnable_tasks-IsAlone zero w alone room = ((w, false), refl, (refl, alone))
  advance_runnable_tasks-IsAlone (suc rounds) w (are, own) room =
      let front : (X.run_queues.pop_front (w.executors e).run_queue).1 ≡ some t =
        X.run_queues.pop_front-head? (w.executors e).run_queue ∙ ap head? are in
      let (w', runs, alone) =
        poll_task-IsAlone (popped X e w) (popped-queued X e w ∙ ap (drop 1) are) own room in
      let one : run_one X behave e w ≡ ret (w', true) =
        run_one-some X behave e t w front ∙ ap (λ m. m >>= λ w''. ret (w'', true)) runs in
      let (r, rest, after) = advance_runnable_tasks-IsAlone rounds w' alone room in
      (r, advance_goes_on X behave e rounds w w' one ∙ rest, after)
