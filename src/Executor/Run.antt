-- ===== src/Executor/Run.antt =====
-- The loop of executor/base_executor.rs, which thread_executor.rs and interrupt_executor.rs pass on.
use aurix_tc365_async_rust.Prelude.{
  ℕ, zero, suc, Bool, true, false, Option, none, some, Outcome, ret, panic, ◌>>=◌, map,
}
use aurix_tc365_async_rust.Heapless.Pushes.{push_each}
use aurix_tc365_async_rust.Cpu.Kernel
use aurix_tc365_async_rust.Time
use aurix_tc365_async_rust.Time.{TimerQueueItem}
use aurix_tc365_async_rust.Executor.{Containers, World, with_executor, with_task}
use aurix_tc365_async_rust.Executor.Tasks.{Body, current, run}

abbrev pub get_task_ref : TimerQueueItem → ℕ
get_task_ref item = item.waker

module _ (X : Containers) {F : Type 0} where
  -- The closure that `dequeue_expired` calls on each item pushes its task onto `ready`.
  unfoldable pub check_timer_queue : ℕ → World X F → Outcome (World X F)
  check_timer_queue e w =
      let x = w.executors e in
      Time.dequeue_expired X.timers (current X w) x.timer_queue >>= λ (timers, items, n_expired).
      push_each X.ready_tasks.push (map get_task_ref items) X.ready_tasks.new >>= λ ready.
      push_each X.run_queues.push_back (X.ready_tasks.items ready) x.run_queue >>= λ q.
      ret (with_executor X e (record x { run_queue = q; timer_queue = timers }) w)

  unfoldable pub update_timer_queue : ℕ → ℕ → World X F → World X F
  update_timer_queue e task w =
      let x = w.executors e in
      elim (w.tasks task).expires_at [
        | none ↦ w
        | some expires_at ↦
            let item : TimerQueueItem = record { expires_at = expires_at; waker = task } in
            with_executor X e
              (record x { timer_queue = (Time.enqueue X.timers item x.timer_queue).0 }) w
      ]

  unfoldable pub set_alarm : ℕ → ℕ → World X F → Outcome (World X F × Option (Unit {0}))
  set_alarm e expires_at w = elim (w.executors e).alarm_handle [
    | none ↦ panic
    | some handle ↦
        let (k, r) = Kernel.set_alarm X.handles X.alarms handle expires_at w.kernel in
        ret (record w { kernel = k }, r)
  ]

  unfoldable pub renew_alarm : ℕ → World X F → Outcome (World X F)
  unfolding set_alarm
  renew_alarm e w = elim (Time.next_expiration X.timers (w.executors e).timer_queue) [
    | none ↦ ret w
    | some next_tick ↦ set_alarm e next_tick w >>= λ (w', r). ret w'
  ]

module _ (X : Containers) {F : Type 0} (behave : F → Body F) where
  -- The body of the `while let`: one task is popped, and polled.
  unfoldable pub poll_task : ℕ → ℕ → World X F → Outcome (World X F)
  unfolding update_timer_queue
  poll_task e t w =
      let h = record (w.tasks t) { expires_at = none } in
      run X (behave h.fut_ref) t (with_task X t h w) >>= λ (w', f).
      ret (update_timer_queue X e t (with_task X t (record (w'.tasks t) { fut_ref = f }) w'))

  -- One round, with whether there was a task to run.
  unfoldable pub run_one : ℕ → World X F → Outcome (World X F × Bool)
  unfolding poll_task
  run_one e w =
      let x = w.executors e in
      let (q, popped) = X.run_queues.pop_front x.run_queue in
      let w' = with_executor X e (record x { run_queue = q }) w in
      elim popped [ none ↦ ret (w', false) | some t ↦ poll_task e t w' >>= λ w''. ret (w'', true) ]

  -- At most `rounds` rounds, with whether the loop came to its end.
  unfoldable pub advance_runnable_tasks : ℕ → ℕ → World X F → Outcome (World X F × Bool)
  unfolding run_one
  advance_runnable_tasks zero e w = ret (w, false)
  advance_runnable_tasks (suc rounds) e w = run_one e w >>= λ (w', more).
      let rest = advance_runnable_tasks rounds e w' in
      elim more [ false ↦ ret (w', true) | true ↦ rest ]

  unfoldable pub exec_once : ℕ → ℕ → World X F → Outcome (World X F × Bool)
  unfolding check_timer_queue advance_runnable_tasks renew_alarm
  exec_once rounds e w = check_timer_queue X e w >>= λ w.
      advance_runnable_tasks rounds e w >>= λ (w, done). elim done [
        | true ↦ renew_alarm X e w >>= λ w. ret (w, true)
        | false ↦ ret (w, false)
      ]
