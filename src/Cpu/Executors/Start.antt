-- ===== src/Cpu/Executors/Start.antt =====
-- An interrupt executor of cpu/executor_list.rs from its allocation to its start.
use aurix_tc365_async_rust.Prelude.{
  ℕ, ◌^◌, ◌≤◌, ◌<◌, ◌≢◌, ◌≡◌, refl, ap, ◌∙◌, ◌||◌, Bool, true, false, Option, none, some, ◌==◌,
  ==_refl, length, get_elem?, List, [], ◌∷◌, ◌++◌, ret, ◌>>=◌, Returns, arith, get_elem?-set_self,
  get_elem?-append_self, set,
}
use aurix_tc365_async_rust.Cpu.Alarm.Handles.{try_allocate_handle-room, register_callback-written}
use aurix_tc365_async_rust.Cpu.Kernel
use aurix_tc365_async_rust.Cpu.Kernel.{Pender, Kernel, interrupt_executor_pender}
use aurix_tc365_async_rust.Cpu.Kernel.Interrupt.{same, pended, pended-pend, alarms-pend}
use aurix_tc365_async_rust.Cpu.Kernel.Due.{get_elem?-lt}
use aurix_tc365_async_rust.Executor
use aurix_tc365_async_rust.Executor.{
  Containers, BaseExecutor, World, at_self, with_executor, register_alarm_callback,
}
use aurix_tc365_async_rust.Cpu.Executors.{
  LinearMap, ExecutorList, allocate, get, start, start_interrupt_executor,
}

own_first :
    (node : ℕ) (p : Pender) (b : Bool)
    → p ≡ interrupt_executor_pender node
    → (same (interrupt_executor_pender node) p || b) ≡ true
own_first node p b own = let here = ==_refl node in rw (own, here) refl

module _ (X : Containers) where
  abbrev Core : Type 0
  Core = Kernel X.handles X.alarms

  abbrev handles_of : Core → List (Option Pender)
  handles_of k = X.handles.items k.alarms.callbacks

  allocate_alarm-room :
      (k : Core)
      → length (handles_of k) < X.handles.cap
      → X.handles.cap ≤ 2 ^ 8
      → (k' : Core) × (Kernel.allocate_alarm X.handles X.alarms k
          ≡ (k', some (length (handles_of k))))
        × (handles_of k' ≡ handles_of k ++ (none ∷ []))
  unfolding Kernel.allocate_alarm
  allocate_alarm-room k room byte =
      let (e, pushed) = try_allocate_handle-room X.handles X.alarms k.alarms room byte in
      let q = (X.handles.push k.alarms.callbacks none).0 in
      let alarms = k.alarms in
      (
        record k { alarms = record alarms { callbacks = q } },
        rw (Kernel.allocate_alarm, e) refl,
        pushed,
      )

  set_alarm_callback-written :
      (handle : ℕ) (p : Pender) (old : Option Pender) (k : Core)
      → get_elem? (handles_of k) handle ≡ some old
      → (k' : Core) × (Kernel.set_alarm_callback X.handles X.alarms handle p k ≡ ret k')
        × (get_elem? (handles_of k') handle ≡ some (some p))
  unfolding Kernel.set_alarm_callback
  set_alarm_callback-written handle p old k e =
      let q = X.handles.write k.alarms.callbacks handle (some p) in
      let alarms = k.alarms in
      let written : X.handles.items q ≡ set (handles_of k) handle (some p) =
        X.handles.items-write k.alarms.callbacks handle (some p) in
      (
        record k { alarms = record alarms { callbacks = q } },
        rw
            (
              Kernel.set_alarm_callback,
              register_callback-written X.handles X.alarms k.alarms handle p old e,
            )
            refl,
        rw written (
            get_elem?-set_self (handles_of k) handle (some p)
              (get_elem?-lt (handles_of k) handle old e)),
      )

module _ (X : Containers) {F : Type 0} where
  start-registered :
      (e handle : ℕ) (old : Option Pender) (w : World X F)
      → (w.executors e).alarm_handle ≡ some handle
      → get_elem? (handles_of X w.kernel) handle ≡ some old
      → (k : Core X) × (start X e w
          ≡ ret (record w { kernel = Kernel.pend X.handles X.alarms (w.executors e).pender k }))
        × (get_elem? (handles_of X k) handle ≡ some (some (w.executors e).pender))
  unfolding start register_alarm_callback
  start-registered e handle old w own known =
      let (k, run, written) =
        set_alarm_callback-written X handle (w.executors e).pender old w.kernel known in
      (k, rw (start, register_alarm_callback, own, run) refl, written)

module _ (X : Containers) (M : LinearMap) {F : Type 0} where
  allocate-room :
      (node : ℕ) (m : M.Carrier) (l : ExecutorList X M F) (k : Core X) (handle : ℕ)
      → node ≢ 0
      → Kernel.allocate_alarm X.handles X.alarms l.world.kernel ≡ (k, some handle)
      → M.insert l.executors node node ≡ some m
      → allocate X M node l
        ≡ ret (
          record l {
            executors = m;
            world =
                with_executor X node
                  (Executor.new X (interrupt_executor_pender node) (some handle))
                  (record l.world { kernel = k });
          },
          some node,
        )
  unfolding allocate
  allocate-room node m l k handle positive allocated inserted =
      let thread : (node == 0) ≡ false = ground arith in
      rw (allocate, thread, allocated, inserted, allocated) refl

  start_interrupt_executor-listed :
      (node : ℕ) (l : ExecutorList X M F) (w : World X F)
      → M.get l.executors node ≡ some node
      → start X node l.world ≡ ret w
      → start_interrupt_executor X M node l ≡ ret (record l { world = w })
  unfolding start_interrupt_executor get
  start_interrupt_executor-listed node l w listed runs =
      rw (start_interrupt_executor, get, listed, runs) refl

  -- The executor of `node` listens to the alarm handle `handle`, and has been pended.
  abbrev pub Started : ℕ → ℕ → ExecutorList X M F → Type 0
  Started node handle l =
      (M.get l.executors node ≡ some node)
      × ((l.world.executors node).alarm_handle ≡ some handle)
      × ((l.world.executors node).pender ≡ interrupt_executor_pender node)
      × (get_elem? (X.handles.items l.world.kernel.alarms.callbacks) handle
          ≡ some (some (l.world.executors node).pender))
      × (pended X.handles X.alarms (interrupt_executor_pender node) l.world.kernel ≡ true)

  -- For a priority that is not 0, while fewer than `cap` alarm handles, at most 256, are out and the map has
  -- room: `allocate` and the start of the executor that it returns do not panic, and leave the executor in the list, pended, and
  -- registered for an alarm handle that is new.
  pub start-allocate :
      (node : ℕ) (m : M.Carrier) (l : ExecutorList X M F)
      → node ≢ 0
      → length (X.handles.items l.world.kernel.alarms.callbacks) < X.handles.cap
      → X.handles.cap ≤ 2 ^ 8
      → M.insert l.executors node node ≡ some m
      → Returns
          (allocate X M node l >>= λ (l', handle). start_interrupt_executor X M node l')
          (Started node (length (X.handles.items l.world.kernel.alarms.callbacks)))
  unfolding Executor.new
  start-allocate node m l positive room byte inserted =
      let n = length (handles_of X l.world.kernel) in
      let (k, allocated, pushed) = allocate_alarm-room X l.world.kernel room byte in
      let x : BaseExecutor X = Executor.new X (interrupt_executor_pender node) (some n) in
      let w : World X F = with_executor X node x (record l.world { kernel = k }) in
      let here : w.executors node ≡ x = at_self l.world.executors node x in
      let known : get_elem? (handles_of X k) n ≡ some none =
        rw pushed (get_elem?-append_self (handles_of X l.world.kernel) none) in
      let (k', run, written) =
        start-registered X node n none w (ap (λ x. x.alarm_handle) here) known in
      let p = (w.executors node).pender in
      let own : p ≡ interrupt_executor_pender node = ap (λ x. x.pender) here in
      let w' : World X F = record w { kernel = Kernel.pend X.handles X.alarms p k' } in
      let l' : ExecutorList X M F = record l { executors = m; world = w } in
      let listed = M.get-insert_self l.executors m node node inserted in
      (
        record l' { world = w' },
        rw
            (
              allocate-room node m l k n positive allocated inserted,
              start_interrupt_executor-listed node l' w' listed run,
            )
            refl,
        (
          listed,
          ap (λ x. x.alarm_handle) here,
          own,
          rw (alarms-pend X.handles X.alarms p k') written,
          pended-pend X.handles X.alarms (interrupt_executor_pender node) p k'
              ∙ own_first node p _ own,
        ),
      )
