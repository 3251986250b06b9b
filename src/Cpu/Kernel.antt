-- ===== src/Cpu/Kernel.antt =====
-- cpu/cpu0.rs and executor/pender.rs: the ticks of core 0, the event that its thread executor waits for, the
-- requests of its software interrupts, and its alarms. The only callback that the program registers is
-- `alarm_callback`, which pends the executor that its context points to: the context is kept as that
-- executor's pender, which never changes.
pub mod Interrupt
pub mod Due
mod Tests
use aurix_tc365_async_rust.Prelude.{
  ℕ, ◌+◌, ◌%◌, ◌^◌, Bool, true, false, Option, none, some, List, [], ◌∷◌, ◌==◌, ◌||◌, if◌then◌else◌,
  Outcome, ret, panic, ◌>>=◌,
}
use aurix_tc365_async_rust.Heapless.{Vec}
use aurix_tc365_async_rust.Heapless.Heap.{BinaryHeap}
use aurix_tc365_async_rust.Cpu.Alarm
use aurix_tc365_async_rust.Cpu.Alarm.{AlarmItem, before, AlarmQueue}

-- A software interrupt is the number of its node.
pub data Pender : Type 0 where
  thread_executor_pender : Pender
  interrupt_executor_pender : ℕ → Pender

module _ (V : Vec (Option Pender)) (H : BinaryHeap AlarmItem before) where
  pub record Kernel : Type 0 where
    pub ticks : ℕ
    pub local_event : Bool
    pub requested : ℕ → Bool
    pub alarms : AlarmQueue V H

  -- The statics as they are before the first executor starts.
  unfoldable pub init : Kernel
  init = record { ticks = 0; local_event = true; requested = λ node. false; alarms = Alarm.new V H }

  unfoldable pub signal_event_local : Kernel → Kernel
  signal_event_local k = record k { local_event = true }

  unfoldable pub event_fetch_and_clear_local : Kernel → Kernel × Bool
  event_fetch_and_clear_local k = let old = k.local_event in (record k { local_event = false }, old)

  abbrev pub set_request : ℕ → Kernel → Kernel
  set_request node k = record k { requested = λ n. (n == node) || k.requested n }

  unfoldable pub pend : Pender → Kernel → Kernel
  unfolding signal_event_local
  pend thread_executor_pender k = signal_event_local k
  pend (interrupt_executor_pender sw_interrupt) k = set_request sw_interrupt k

  unfoldable pub now : Kernel → ℕ
  now k = k.ticks

  unfoldable pub current_tick : Kernel → ℕ
  current_tick k = k.ticks

  -- The callbacks that ran, in order.
  abbrev pub pend_all : List Pender → Kernel → Kernel
  pend_all [] k = k
  pend_all (p ∷ ps) k = pend_all ps (pend p k)

  unfoldable pub on_timer_interrupt : Kernel → Outcome Kernel
  on_timer_interrupt k =
      let ticked : Kernel = record k { ticks = (k.ticks + 1) % 2 ^ 32 } in
      Alarm.call_all_expired V H k.ticks k.alarms >>= λ (q, ran, n).
      ret (pend_all ran (record ticked { alarms = q }))

  unfoldable pub allocate_alarm : Kernel → Kernel × Option ℕ
  allocate_alarm k =
      let (q, handle) = Alarm.try_allocate_handle V H k.alarms in (record k { alarms = q }, handle)

  unfoldable pub set_alarm_callback : ℕ → Pender → Kernel → Outcome Kernel
  set_alarm_callback handle context k =
      Alarm.register_callback V H handle context k.alarms >>= λ q. ret (record k { alarms = q })

  unfoldable pub set_alarm : ℕ → ℕ → Kernel → Kernel × Option (Unit {0})
  set_alarm handle expires_at k =
      let (q, r) = Alarm.set_alarm V H handle expires_at k.alarms in (record k { alarms = q }, r)
