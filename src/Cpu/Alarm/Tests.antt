-- ===== src/Cpu/Alarm/Tests.antt =====
-- cpu/alarm.rs with eight handles and 64 alarms. A callback is a number here.
use aurix_tc365_async_rust.Prelude.{
  ℕ, ◌<◌, ◌≡◌, true, false, Option, none, some, [], ◌∷◌, arith, ret,
}
use aurix_tc365_async_rust.Heapless.{Vec}
use aurix_tc365_async_rust.Heapless.Model.{bounded_vec}
use aurix_tc365_async_rust.Heapless.Heap.{BinaryHeap}
use aurix_tc365_async_rust.Heapless.Sorted.{sorted_heap}
use aurix_tc365_async_rust.Cpu.Alarm.{
  AlarmItem, before, AlarmQueue, try_allocate_handle, register_callback, call,
}
use aurix_tc365_async_rust.Cpu.Alarm.Handles.{call-register_callback}

pub before_total : (a b : AlarmItem) → before a b ≡ false → before b a ≡ true
before_total a b h = ground arith

pub before_trans : (a b c : AlarmItem) → before a b ≡ true → before b c ≡ true → before a c ≡ true
before_trans a b c h k = ground arith

abbrev handles : Vec (Option ℕ)
handles = bounded_vec 8

abbrev pub alarms : BinaryHeap AlarmItem before
alarms = sorted_heap 64 before before_total before_trans

abbrev pub alarm : ℕ → ℕ → AlarmItem
alarm at h = record { expires_at = at; handle = h }

-- Two handles, the first with a callback, and three alarms.
abbrev three_alarms : AlarmQueue handles alarms
three_alarms = record {
  callbacks = some 70 ∷ none ∷ [];
  queue =
      let q = (alarms.push alarms.new (alarm 30 0)).0 in
      let q = (alarms.push q (alarm 10 1)).0 in (alarms.push q (alarm 20 0)).0;
}

call-register_callback_example :
    (q₁ : AlarmQueue handles alarms) × (q₂ : AlarmQueue handles alarms) × (try_allocate_handle
        handles alarms three_alarms
      ≡ (q₁, some 2))
    × (register_callback handles alarms 2 71 q₁ ≡ ret q₂)
    × (call handles alarms 2 q₂ ≡ ret (some 71))
    × ((i : ℕ) → i < 2 → call handles alarms i q₂ ≡ call handles alarms i three_alarms)
    × (q₂.queue ≡ three_alarms.queue)
call-register_callback_example =
    call-register_callback handles alarms three_alarms 71 (omega arith) (omega arith)
