-- ===== src/Executor/Tests.antt =====
-- The thread executor 0 with three tasks. The future `f` of a task sleeps until 10 * f.
use aurix_tc365_async_rust.Prelude.{
  ℕ, ◌+◌, ◌-◌, ◌*◌, ◌≡◌, ◌≢◌, refl, true, false, none, some, [], ◌∷◌, arith, ret, panic, ◌>>=◌,
  Returns, inl,
}
use aurix_tc365_async_rust.Heapless.Model.{bounded_deque, bounded_vec}
use aurix_tc365_async_rust.Heapless.Sorted.{ranked_heap}
use aurix_tc365_async_rust.Cpu.Alarm.Tests.{alarms}
use aurix_tc365_async_rust.Cpu.Kernel
use aurix_tc365_async_rust.Cpu.Kernel.{thread_executor_pender, Kernel}
use aurix_tc365_async_rust.Cpu.Kernel.Interrupt.{pended}
use aurix_tc365_async_rust.Time
use aurix_tc365_async_rust.Time.{TimerQueueItem}
use aurix_tc365_async_rust.Executor.{Containers, World, wake_by_ref}
use aurix_tc365_async_rust.Executor.Tasks.{Body, suspends, polls_timer, polls_yielder}
use aurix_tc365_async_rust.Executor.Advance.{IsQuiet}
use aurix_tc365_async_rust.Executor.Yields.{IsAlone, advance_runnable_tasks-IsAlone}
use aurix_tc365_async_rust.Executor.Once.{Slept, exec_once-Slept}
use aurix_tc365_async_rust.Executor.Run.{
  exec_once, advance_runnable_tasks, check_timer_queue, renew_alarm,
}
use aurix_tc365_async_rust.Executor.Expired.{
  Moved, check_timer_queue-Moved, check_timer_queue-panics,
}
use aurix_tc365_async_rust.Executor.Loop.{waiting, checking, turn, handler_wakes, stay, and_then}
use aurix_tc365_async_rust.Executor.Wakeups.{no_lost_wakeup}
use aurix_tc365_async_rust.Executor.Sleep.{interrupts, renew_alarm-pended}

-- With `ready` places for the tasks that a check finds.
abbrev pub sized : ℕ → Containers
sized ready = record {
  run_queues = bounded_deque 32 (omega arith);
  ready_tasks = bounded_vec ready;
  timers = ranked_heap 64 (λ t. t.expires_at);
  handles = bounded_vec 8;
  alarms = alarms;
}

abbrev sleeps : ℕ → Body ℕ
sleeps f = polls_timer (10 * f) (λ r. suspends f)

abbrev pub timer : ℕ → TimerQueueItem
timer t = record { expires_at = 10 * t; waker = t }

-- At the tick 20, with a task in the run queue.
module _ (ready : ℕ) where
  abbrev pub world_with : (sized ready).timers.Carrier → World (sized ready) ℕ
  world_with timers = record {
    kernel = record {
      ticks = 20;
      local_event = true;
      requested = λ node. false;
      alarms = record { callbacks = some thread_executor_pender ∷ []; queue = alarms.new };
    };
    executors = λ e. record {
      run_queue = 7 ∷ [];
      timer_queue = timers;
      next_alarm_at = none;
      alarm_handle = some 0;
      pender = thread_executor_pender;
    };
    tasks = λ t. record { fut_ref = t; executor = 0; expires_at = none };
    n_tasks = 8;
  }

  abbrev pub one_timer : (sized ready).timers.Carrier
  one_timer = let H = (sized ready).timers in (H.push H.new (timer 3)).0

  -- Two of the timers have expired.
  abbrev pub three_timers : (sized ready).timers.Carrier
  three_timers =
      let H = (sized ready).timers in
      let q = (H.push one_timer (timer 1)).0 in (H.push q (timer 2)).0

abbrev pub X : Containers
X = sized 32

abbrev pub world : World X ℕ
world = world_with 32 (three_timers 32)

check_timer_queue-Moved_example : Returns (check_timer_queue X 0 world) (Moved X 0 world)
unfolding Kernel.now
check_timer_queue-Moved_example =
    check_timer_queue-Moved X 0 world (omega arith) (omega arith) (omega arith)

-- Two timers have expired, and there is one place.
check_timer_queue-panics_example :
    check_timer_queue (sized 1) 0 (world_with 1 (three_timers 1)) ≡ panic
unfolding Kernel.now
check_timer_queue-panics_example =
    check_timer_queue-panics (sized 1) 0 (world_with 1 (three_timers 1)) (omega arith)
      (inl (omega arith))

abbrev woken : World X ℕ
woken = wake_by_ref X 5 world

some_woken : X.run_queues.items (woken.executors 0).run_queue ≢ []
unfolding wake_by_ref
some_woken e = absurd (ground (arith, e))

no_lost_wakeup_example : (w'' : World X ℕ) × (turn X sleeps 0 waiting woken ≡ ret (checking, w''))
no_lost_wakeup_example =
    no_lost_wakeup X sleeps 0 thread_executor_pender world woken refl refl
      (and_then (waiting, world) (waiting, world) (waiting, woken) (stay (waiting, world))
        (handler_wakes waiting world 5))
      some_woken

-- The earliest timer expires at 30, and eleven interrupts follow.
abbrev asleep : World X ℕ
asleep = world_with 32 (one_timer 32)

earliest : Time.next_expiration X.timers (one_timer 32) ≡ some 30
unfolding Time.next_expiration
earliest = refl

renew_alarm-pended_example :
    Returns
      (renew_alarm X 0 asleep >>= λ w'. interrupts X (30 + 1 - 20) w')
      (λ w'. pended X.handles X.alarms thread_executor_pender w'.kernel ≡ true)
renew_alarm-pended_example =
    renew_alarm-pended X 0 0 30 asleep (omega arith) (omega arith) (omega arith) tt refl refl
      earliest (omega arith)

never_wakes : (f : ℕ) → IsQuiet (sleeps f)
never_wakes f r = tt

abbrev yields_on : ℕ → Body ℕ
yields_on f = polls_yielder false (λ r. suspends f)

advance_runnable_tasks-IsAlone_example :
    Returns
      (advance_runnable_tasks X yields_on 100 0 world)
      (λ (w', done). (done ≡ false) × IsAlone X yields_on 0 7 (λ f. refl) w')
advance_runnable_tasks-IsAlone_example =
    advance_runnable_tasks-IsAlone X yields_on 0 7 (λ f. refl) 100 world (refl, refl) (omega arith)

-- Two timers have expired and a task is queued, so four rounds are enough.
exec_once-Slept_example : Returns (exec_once X sleeps 4 0 world) (Slept X sleeps 0 never_wakes 0)
unfolding Kernel.now
exec_once-Slept_example =
    exec_once-Slept X sleeps 0 never_wakes 0 world (omega arith) (omega arith) (omega arith) refl
      (omega arith)
