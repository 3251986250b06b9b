-- ===== src/Cpu/Executors.antt =====
-- cpu/executor_list.rs: the executors of the core. A handle is its priority. An executor of priority `p` is the
-- number `p` of the world, and the thread executor the number 0, which no interrupt executor has.
pub mod Start
mod Tests
use aurix_tc365_async_rust.Prelude.{
  ℕ, ◌≢◌, ◌≡◌, Bool, true, false, Option, none, some, ◌==◌, if◌then◌else◌, Outcome, ret, panic,
  ◌>>=◌,
}
use aurix_tc365_async_rust.Cpu.Kernel
use aurix_tc365_async_rust.Cpu.Kernel.{interrupt_executor_pender}
use aurix_tc365_async_rust.Executor
use aurix_tc365_async_rust.Executor.{
  Containers, World, with_executor, register_alarm, register_alarm_callback,
}
use aurix_tc365_async_rust.Executor.Tasks.{Body}
use aurix_tc365_async_rust.Executor.Run.{exec_once}

-- `LinearMap<K, V, N>` of heapless, with numbers as keys and values. `insert` is nothing when it refuses the pair.
pub record LinearMap : Type 1 where
  pub Carrier : Type 0
  pub new : Carrier
  pub get : Carrier → ℕ → Option ℕ
  pub insert : Carrier → ℕ → ℕ → Option Carrier
  pub get-new : (k : ℕ) → get new k ≡ none
  pub get-insert_self : (m m' : Carrier) (k v : ℕ) → insert m k v ≡ some m' → get m' k ≡ some v
  pub get-insert_ne :
      (m m' : Carrier) (k j v : ℕ) → insert m k v ≡ some m' → k ≢ j → get m' j ≡ get m j

-- `InterruptExecutor::start`
module _ (X : Containers) {F : Type 0} where
  unfoldable pub start : ℕ → World X F → Outcome (World X F)
  start e w = register_alarm_callback X e w >>= λ w'.
      ret (record w' { kernel = Kernel.pend X.handles X.alarms (w'.executors e).pender w'.kernel })

-- The list, beside the world of its executors; `initialised` is the static of `thread_executor`.
module _ (X : Containers) (M : LinearMap) (F : Type 0) where
  pub record ExecutorList : Type 0 where
    pub executors : M.Carrier
    pub initialised : Bool
    pub world : World X F

module _ (X : Containers) (M : LinearMap) {F : Type 0} where
  unfoldable pub thread_executor : ExecutorList X M F → Outcome (ExecutorList X M F × ℕ)
  thread_executor l =
      let (k, alarm) = Kernel.allocate_alarm X.handles X.alarms l.world.kernel in
      if l.initialised then ret (l, 0) else elim alarm [
        | none ↦ panic
        | some alarm ↦
            let w = register_alarm X 0 alarm (record l.world { kernel = k }) in
            ret (record l { initialised = true; world = w }, 0)
      ]

  -- The node's interrupt is set up by the caller's hardware.
  unfoldable pub allocate : ℕ → ExecutorList X M F → Outcome (ExecutorList X M F × Option ℕ)
  allocate node l =
      let (k, alarm) = Kernel.allocate_alarm X.handles X.alarms l.world.kernel in
      if node == 0 then panic else elim alarm [
        | none ↦ panic
        | some alarm ↦ elim (M.insert l.executors node node) [
          | none ↦ panic
          | some m ↦
              let x = Executor.new X (interrupt_executor_pender node) (some alarm) in
              let w = with_executor X node x (record l.world { kernel = k }) in
              ret (record l { executors = m; world = w }, some node)
        ]
      ]

  unfoldable pub get : ℕ → ExecutorList X M F → Outcome ℕ
  get handle l = elim (M.get l.executors handle) [ none ↦ panic | some e ↦ ret e ]

  unfoldable pub spawn : ℕ → F → ExecutorList X M F → Outcome (ExecutorList X M F)
  unfolding get
  spawn handle fut l =
      get handle l >>= λ e. Executor.spawn X e fut l.world >>= λ w. ret (record l { world = w })

  unfoldable pub start_interrupt_executor : ℕ → ExecutorList X M F → Outcome (ExecutorList X M F)
  unfolding get
  start_interrupt_executor handle l =
      get handle l >>= λ e. start X e l.world >>= λ w. ret (record l { world = w })

  -- The handler that `install_interrupt_executor_handler` installs.
  unfoldable pub on_interrupt :
      (F → Body F) → ℕ → ℕ → ExecutorList X M F → Outcome (ExecutorList X M F × Bool)
  unfolding get
  on_interrupt behave rounds handle l = get handle l >>= λ e.
      exec_once X behave rounds e l.world >>= λ (w, done). ret (record l { world = w }, done)

  -- `Kernel::spawn`
  unfoldable pub spawn_thread : F → ExecutorList X M F → Outcome (ExecutorList X M F)
  unfolding thread_executor
  spawn_thread fut l = thread_executor l >>= λ (l', e).
      Executor.spawn X e fut l'.world >>= λ w. ret (record l' { world = w })

  unfoldable pub allocate_interrupt_executor :
      ℕ → ExecutorList X M F → Outcome (ExecutorList X M F × ℕ)
  unfolding allocate
  allocate_interrupt_executor node l =
      allocate node l >>= λ (l', handle). elim handle [ none ↦ panic | some x ↦ ret (l', x) ]
