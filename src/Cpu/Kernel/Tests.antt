-- ===== src/Cpu/Kernel/Tests.antt =====
-- A kernel with eight handles and 64 alarms: the thread executor has the handle 0, the executor of node 3 the handle 1.
use aurix_tc365_async_rust.Prelude.{false, some, Option, [], ◌∷◌, arith, Returns}
use aurix_tc365_async_rust.Heapless.{Vec}
use aurix_tc365_async_rust.Heapless.Model.{bounded_vec}
use aurix_tc365_async_rust.Cpu.Alarm.Tests.{alarms, alarm}
use aurix_tc365_async_rust.Cpu.Kernel.{
  Pender, thread_executor_pender, interrupt_executor_pender, Kernel, on_timer_interrupt,
}
use aurix_tc365_async_rust.Cpu.Kernel.Interrupt.{Ticked, on_timer_interrupt-Ticked}

abbrev penders : Vec (Option Pender)
penders = bounded_vec 8

abbrev two_executors : Kernel penders alarms
two_executors = record {
  ticks = 20;
  local_event = false;
  requested = λ node. false;
  alarms = record {
    callbacks = some thread_executor_pender ∷ some (interrupt_executor_pender 3) ∷ [];
    queue = let q = (alarms.push alarms.new (alarm 30 0)).0 in (alarms.push q (alarm 20 1)).0;
  };
}

on_timer_interrupt-Ticked_example :
    Returns (on_timer_interrupt penders alarms two_executors) (Ticked penders alarms two_executors)
on_timer_interrupt-Ticked_example =
    on_timer_interrupt-Ticked penders alarms two_executors (omega arith, (omega arith, tt))
      (omega arith)
