-- ===== src/Executor.antt =====
-- executor/: the executors of a core, their tasks, and the calls that tasks make on them. Executors and tasks
-- are numbers, as the code holds them by reference. A queue of wakers or tasks holds the tasks' numbers.
pub mod Tasks
pub mod Run
pub mod Expired
pub mod Loop
pub mod Calls
pub mod Grows
pub mod Wakeups
pub mod Armed
pub mod Sleep
pub mod Advance
pub mod Yields
pub mod Once
pub mod Tests
use aurix_tc365_async_rust.Prelude.{
  ℕ, ◌+◌, ◌%◌, ◌^◌, Bool, true, false, Option, none, some, List, [], ◌∷◌, leb, ◌==◌, ==_refl, ◌≡◌,
  refl, if◌then◌else◌, Outcome, ret, panic, ◌>>=◌, Poll, ready, pending,
}
use aurix_tc365_async_rust.Heapless.{Deque, Vec}
use aurix_tc365_async_rust.Heapless.Heap.{BinaryHeap}
use aurix_tc365_async_rust.Cpu.Alarm.{AlarmItem, before}
use aurix_tc365_async_rust.Cpu.Kernel
use aurix_tc365_async_rust.Cpu.Kernel.{Pender, Kernel}
use aurix_tc365_async_rust.Time.{TimerQueueItem, first}

-- The containers of a kernel and its executors.
pub record Containers : Type 1 where
  pub run_queues : Deque ℕ
  pub ready_tasks : Vec ℕ
  pub timers : BinaryHeap TimerQueueItem first
  pub handles : Vec (Option Pender)
  pub alarms : BinaryHeap AlarmItem before

abbrev pub at : {A : Type 0} → (ℕ → A) → ℕ → A → ℕ → A
at f i a j = if j == i then a else f j

pub at_self : {A : Type 0} (f : ℕ → A) (i : ℕ) (a : A) → at f i a i ≡ a
at_self f i a = let here = ==_refl i in rw here refl

abbrev pub ok? : Option ℕ → Option (Unit {0})
ok? none = some tt
ok? (some refused) = none

module _ (X : Containers) where
  pub record BaseExecutor : Type 0 where
    pub run_queue : X.run_queues.Carrier
    pub timer_queue : X.timers.Carrier
    pub next_alarm_at : Option ℕ
    pub alarm_handle : Option ℕ
    pub pender : Pender

  unfoldable pub new : Pender → Option ℕ → BaseExecutor
  new pender alarm_handle = record {
    run_queue = X.run_queues.new;
    timer_queue = X.timers.new;
    next_alarm_at = none;
    alarm_handle = alarm_handle;
    pender = pender;
  }

pub record TaskHeader (F : Type 0) : Type 0 where
  pub fut_ref : F
  pub executor : ℕ
  pub expires_at : Option ℕ

-- The tasks from `n_tasks` on are not allocated yet.
module _ (X : Containers) (F : Type 0) where
  pub record World : Type 0 where
    pub kernel : Kernel X.handles X.alarms
    pub executors : ℕ → BaseExecutor X
    pub tasks : ℕ → TaskHeader F
    pub n_tasks : ℕ

module _ (X : Containers) {F : Type 0} where
  abbrev pub with_executor : ℕ → BaseExecutor X → World X F → World X F
  with_executor e x w = record w { executors = at w.executors e x }

  abbrev pub with_task : ℕ → TaskHeader F → World X F → World X F
  with_task t h w = record w { tasks = at w.tasks t h }

  -- The allocator has room for the header and the future.
  unfoldable pub spawn : ℕ → F → World X F → Outcome (World X F)
  spawn e f w =
      let x = w.executors e in
      let header : TaskHeader F = record { fut_ref = f; executor = e; expires_at = none } in
      let allocated : World X F = record (with_task w.n_tasks header w) {
        n_tasks = w.n_tasks + 1;
      } in
      let (q, refused) = X.run_queues.push_front x.run_queue w.n_tasks in
      elim refused [
        | none ↦ ret (with_executor e (record x { run_queue = q }) allocated)
        | some _ ↦ panic
      ]

  unfoldable pub enqueue_no_pend : ℕ → ℕ → World X F → World X F × Option (Unit {0})
  enqueue_no_pend e t w =
      let x = w.executors e in
      let (q, refused) = X.run_queues.push_back x.run_queue t in
      (with_executor e (record x { run_queue = q }) w, ok? refused)

  unfoldable pub enqueue_and_pend : ℕ → ℕ → World X F → World X F × Option (Unit {0})
  enqueue_and_pend e t w =
      let x = w.executors e in
      let (q, refused) = X.run_queues.push_back x.run_queue t in
      let queued = with_executor e (record x { run_queue = q }) w in
      (record queued { kernel = Kernel.pend X.handles X.alarms x.pender w.kernel }, ok? refused)

  unfoldable pub wake_by_ref : ℕ → World X F → World X F
  unfolding enqueue_and_pend
  wake_by_ref t w = (enqueue_and_pend (w.tasks t).executor t w).0

  -- The handler of the timer interrupt.
  unfoldable pub on_timer_interrupt : World X F → Outcome (World X F)
  on_timer_interrupt w =
      Kernel.on_timer_interrupt X.handles X.alarms w.kernel >>= λ k. ret (record w { kernel = k })

  unfoldable pub register_alarm : ℕ → ℕ → World X F → World X F
  register_alarm e handle w =
      with_executor e (record (w.executors e) { alarm_handle = some handle }) w

  unfoldable pub register_alarm_callback : ℕ → World X F → Outcome (World X F)
  register_alarm_callback e w = elim (w.executors e).alarm_handle [
    | none ↦ ret w
    | some handle ↦
        Kernel.set_alarm_callback X.handles X.alarms handle (w.executors e).pender w.kernel >>= λ k.
        ret (record w { kernel = k })
  ]
