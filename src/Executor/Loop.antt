-- ===== src/Executor/Loop.antt =====
-- The parts of one turn of an executor: of the loop of executor/thread_executor.rs, or, for an executor of
-- executor/interrupt_executor.rs, of its handler. What else goes on between them on the core is the timer
-- interrupt, wakes, and the turns of the other executors, which preempt it or are preempted.
use aurix_tc365_async_rust.Prelude.{
  ℕ, ◌≢◌, ◌≡◌, Bool, Outcome, ret, ◌>>=◌, if◌then◌else◌, ◌==◌, ◌&&◌, not,
}
use aurix_tc365_async_rust.Cpu.Kernel
use aurix_tc365_async_rust.Cpu.Kernel.{
  Pender, thread_executor_pender, interrupt_executor_pender, Kernel,
}
use aurix_tc365_async_rust.Executor.{Containers, World, wake_by_ref, on_timer_interrupt}
use aurix_tc365_async_rust.Executor.Tasks.{Body}
use aurix_tc365_async_rust.Executor.Run.{check_timer_queue, run_one, renew_alarm}

-- What the executor does next: find out whether it is pended, or a part of `exec_once`.
pub data Turn : Type 0 where
  waiting : Turn
  checking : Turn
  advancing : Turn
  renewing : Turn

module _ (X : Containers) where
  -- What sets an executor off takes that it was pended: the thread fetches the event, and the hardware takes the request of
  -- a node when it enters the node's handler.
  unfoldable pub fetch : Pender → Kernel X.handles X.alarms → Kernel X.handles X.alarms × Bool
  fetch thread_executor_pender k = Kernel.event_fetch_and_clear_local X.handles X.alarms k
  fetch (interrupt_executor_pender node) k =
      (record k { requested = λ n. not (n == node) && k.requested n }, k.requested node)

module _ (X : Containers) {F : Type 0} (behave : F → Body F) (e : ℕ) where
  unfoldable pub turn : Turn → World X F → Outcome (Turn × World X F)
  unfolding fetch
  turn waiting w =
      let (k, woken) = fetch X (w.executors e).pender w.kernel in
      ret ((if woken then checking else waiting), record w { kernel = k })
  turn checking w = check_timer_queue X e w >>= λ w'. ret (advancing, w')
  turn advancing w =
      run_one X behave e w >>= λ (w', more). ret ((if more then advancing else renewing), w')
  turn renewing w = renew_alarm X e w >>= λ w'. ret (waiting, w')

  pub data Step : Turn × World X F → Turn × World X F → Type 0 where
    own : (pc : Turn) (w : World X F) (s : Turn × World X F) → turn pc w ≡ ret s → Step (pc, w) s
    timer_interrupt :
        (pc : Turn) (w w' : World X F) → on_timer_interrupt X w ≡ ret w' → Step (pc, w) (pc, w')
    handler_wakes : (pc : Turn) (w : World X F) (t : ℕ) → Step (pc, w) (pc, wake_by_ref X t w)
    other_fetches :
        (pc : Turn) (w : World X F) (e' : ℕ)
        → (w.executors e').pender ≢ (w.executors e).pender
        → Step (pc, w) (pc, record w { kernel = (fetch X (w.executors e').pender w.kernel).0 })
    other_checks :
        (pc : Turn) (w w' : World X F) (e' : ℕ)
        → e ≢ e'
        → check_timer_queue X e' w ≡ ret w'
        → Step (pc, w) (pc, w')
    other_runs :
        (pc : Turn) (w w' : World X F) (e' : ℕ) (more : Bool)
        → e ≢ e'
        → run_one X behave e' w ≡ ret (w', more)
        → Step (pc, w) (pc, w')
    other_renews :
        (pc : Turn) (w w' : World X F) (e' : ℕ)
        → e ≢ e'
        → renew_alarm X e' w ≡ ret w'
        → Step (pc, w) (pc, w')

  pub data Steps : Turn × World X F → Turn × World X F → Type 0 where
    stay : (s : Turn × World X F) → Steps s s
    and_then : (s s' s'' : Turn × World X F) → Steps s s' → Step s' s'' → Steps s s''
