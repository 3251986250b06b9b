-- ===== src/Executor/Advance.antt =====
-- The end of the loop of `advance_runnable_tasks` in executor/base_executor.rs.
use aurix_tc365_async_rust.Prelude.{
  ℕ, suc, ◌≡◌, refl, ap, ◌∙◌, Bool, true, false, none, some, List, [], ◌∷◌, length, drop, leb,
  Bool-cases, inl, inr, Option-cases, ret, ◌>>=◌, Returns,
}
use aurix_tc365_async_rust.Heapless.{head?}
use aurix_tc365_async_rust.Time
use aurix_tc365_async_rust.Time.{TimerQueueItem}
use aurix_tc365_async_rust.Executor.{Containers, BaseExecutor, World, at_self, with_task}
use aurix_tc365_async_rust.Executor.Tasks.{
  Body, suspends, exits, wakes, reads_now, polls_timer, polls_yielder, run, current, poll_timer,
  poll_yielder,
}
use aurix_tc365_async_rust.Executor.Run.{
  update_timer_queue, poll_task, run_one, advance_runnable_tasks,
}
use aurix_tc365_async_rust.Executor.Calls.{popped, run_one-none, run_one-some}

module _ {F : Type 0} where
  -- A poll that wakes no task, does not end, and does not yield.
  abbrev pub IsQuiet : Body F → Type 0
  IsQuiet (suspends f) = Unit
  IsQuiet exits = ⊥
  IsQuiet (wakes u b) = ⊥
  IsQuiet (reads_now k) = (n : ℕ) → IsQuiet (k n)
  IsQuiet (polls_timer expires_at k) = (r : Bool) → IsQuiet (k r)
  IsQuiet (polls_yielder true k) = IsQuiet (k true)
  IsQuiet (polls_yielder false k) = ⊥

module _ (X : Containers) {F : Type 0} where
  -- The kernel and the executors are as they were.
  abbrev Unmoved : World X F → World X F × F → Type 0
  Unmoved w (w', f) = (w'.kernel ≡ w.kernel) × (w'.executors ≡ w.executors)

  run-Unmoved : (b : Body F) (t : ℕ) (w : World X F) → IsQuiet b → Returns (run X b t w) (Unmoved w)
  unfolding run poll_timer poll_yielder
  run-Unmoved (suspends f) t w q = ((w, f), refl, (refl, refl))
  run-Unmoved exits t w q = absurd q
  run-Unmoved (wakes u b) t w q = absurd q
  run-Unmoved (reads_now k) t w q = run-Unmoved (k (current X w)) t w (q (current X w))
  run-Unmoved (polls_timer expires_at k) t w q = elim (Bool-cases (leb expires_at (current X w))) [
    | inl past ↦ rw past (run-Unmoved (k true) t w (q true))
    | inr later ↦ rw later (
        run-Unmoved (k false) t
          (with_task X t (record (w.tasks t) { expires_at = some expires_at }) w) (q false))
  ]
  run-Unmoved (polls_yielder true k) t w q = run-Unmoved (k true) t w q
  run-Unmoved (polls_yielder false k) t w q = absurd q

module _ (X : Containers) {F : Type 0} where
  abbrev pub queued : ℕ → World X F → List ℕ
  queued e w = X.run_queues.items (w.executors e).run_queue

  pub update_timer_queue-kept :
      (e t : ℕ) (w : World X F)
      → ((update_timer_queue X e t w).kernel ≡ w.kernel)
        × (queued e (update_timer_queue X e t w) ≡ queued e w)
        × (((update_timer_queue X e t w).executors e).alarm_handle ≡ (w.executors e).alarm_handle)
  unfolding update_timer_queue
  update_timer_queue-kept e t w = elim (Option-cases (w.tasks t).expires_at) [
    | inl no_timer ↦ rw (update_timer_queue, no_timer) (refl, refl, refl)
    | inr (expires_at, timer) ↦
        let x = w.executors e in
        let item : TimerQueueItem = record { expires_at = expires_at; waker = t } in
        let x' : BaseExecutor X = record x {
          timer_queue = (Time.enqueue X.timers item x.timer_queue).0;
        } in
        rw (update_timer_queue, timer)
          (
            refl,
            ap (λ x. X.run_queues.items x.run_queue) (at_self w.executors e x'),
            ap (λ x. x.alarm_handle) (at_self w.executors e x'),
          )
  ]

  pub popped-queued : (e : ℕ) (w : World X F) → queued e (popped X e w) ≡ drop 1 (queued e w)
  popped-queued e w =
      let x = w.executors e in
      let x' : BaseExecutor X = record x { run_queue = (X.run_queues.pop_front x.run_queue).0 } in
      ap (λ x. X.run_queues.items x.run_queue) (at_self w.executors e x')
      ∙ X.run_queues.items-pop_front x.run_queue

  popped-handle :
      (e : ℕ) (w : World X F)
      → ((popped X e w).executors e).alarm_handle ≡ (w.executors e).alarm_handle
  popped-handle e w =
      let x = w.executors e in
      let x' : BaseExecutor X = record x { run_queue = (X.run_queues.pop_front x.run_queue).0 } in
      ap (λ x. x.alarm_handle) (at_self w.executors e x')

module _ (X : Containers) {F : Type 0} (behave : F → Body F) (e : ℕ) where
  pub advance_goes_on :
      (rounds : ℕ) (w w' : World X F)
      → run_one X behave e w ≡ ret (w', true)
      → advance_runnable_tasks X behave (suc rounds) e w
        ≡ advance_runnable_tasks X behave rounds e w'
  unfolding advance_runnable_tasks
  advance_goes_on rounds w w' more = rw (advance_runnable_tasks, more) refl

module _ (X : Containers) {F : Type 0} (behave : F → Body F) (e : ℕ)
    (quiet : (f : F) → IsQuiet (behave f)) where
  -- The kernel, the run queue and the alarm handle are as they were.
  abbrev Kept : World X F → World X F → Type 0
  Kept w w' =
      (w'.kernel ≡ w.kernel)
      × (queued X e w' ≡ queued X e w)
      × ((w'.executors e).alarm_handle ≡ (w.executors e).alarm_handle)

  poll_task-Kept : (t : ℕ) (w : World X F) → Returns (poll_task X behave e t w) (Kept w)
  unfolding poll_task
  poll_task-Kept t w =
      let h = record (w.tasks t) { expires_at = none } in
      let ((w', f), runs, (k, x)) =
        run-Unmoved X (behave h.fut_ref) t (with_task X t h w) (quiet h.fut_ref) in
      let w'' : World X F = with_task X t (record (w'.tasks t) { fut_ref = f }) w' in
      let (k', q, a) = update_timer_queue-kept X e t w'' in
      (
        update_timer_queue X e t w'',
        rw (poll_task, runs) refl,
        (
          k' ∙ k,
          q ∙ ap (λ x. X.run_queues.items (x e).run_queue) x,
          a ∙ ap (λ x. (x e).alarm_handle) x,
        ),
      )

  advance_ends :
      (rounds : ℕ) (w w' : World X F)
      → run_one X behave e w ≡ ret (w', false)
      → advance_runnable_tasks X behave (suc rounds) e w ≡ ret (w', true)
  unfolding advance_runnable_tasks
  advance_ends rounds w w' ends = rw (advance_runnable_tasks, ends) refl

  abbrev pub Drained : World X F → World X F × Bool → Type 0
  Drained w (w', done) =
      (done ≡ true)
      × (queued X e w' ≡ [])
      × (w'.kernel ≡ w.kernel)
      × ((w'.executors e).alarm_handle ≡ (w.executors e).alarm_handle)

  pub advance-Drained :
      (tasks : List ℕ) (w : World X F)
      → queued X e w ≡ tasks
      → Returns (advance_runnable_tasks X behave (suc (length tasks)) e w) (Drained w)
  advance-Drained [] w are =
      let nothing : (X.run_queues.pop_front (w.executors e).run_queue).1 ≡ none =
        X.run_queues.pop_front-head? (w.executors e).run_queue ∙ ap head? are in
      (
        (popped X e w, true),
        advance_ends 0 w (popped X e w) (run_one-none X behave e w nothing),
        (refl, popped-queued X e w ∙ ap (drop 1) are, refl, popped-handle X e w),
      )
  advance-Drained (t ∷ tasks) w are =
      let front : (X.run_queues.pop_front (w.executors e).run_queue).1 ≡ some t =
        X.run_queues.pop_front-head? (w.executors e).run_queue ∙ ap head? are in
      let (w', runs, (k, q, a)) = poll_task-Kept t (popped X e w) in
      let ((w'', done), rest, (d, empty, k', a')) =
        advance-Drained tasks w' (q ∙ popped-queued X e w ∙ ap (drop 1) are) in
      let one : run_one X behave e w ≡ ret (w', true) =
        run_one-some X behave e t w front ∙ ap (λ m. m >>= λ w''. ret (w'', true)) runs in
      (
        (w'', done),
        advance_goes_on X behave e (suc (length tasks)) w w' one ∙ rest,
        (d, empty, k' ∙ k, a' ∙ a ∙ popped-handle X e w),
      )

  -- If no poll of a task wakes a task, ends or yields, then `advance_runnable_tasks` does not panic: after one round for each task in
  -- the run queue and one more it has come to its end, the run queue is empty, and the kernel and the alarm
  -- handle are as before.
  pub advance_runnable_tasks-Drained :
      (w : World X F)
      → Returns (advance_runnable_tasks X behave (suc (length (queued X e w))) e w) (Drained w)
  advance_runnable_tasks-Drained w = advance-Drained (queued X e w) w refl
