-- ===== src/Executor/Sleep.antt =====
-- An executor that sleeps for its earliest timer: the alarm that `renew_alarm` of executor/base_executor.rs sets,
-- and the interrupts of cpu/cpu0.rs until it goes off.
use aurix_tc365_async_rust.Prelude.{
  ℕ, zero, suc, ◌+◌, ◌-◌, ◌^◌, ◌≤◌, ◌<◌, ◌≡◌, refl, ◌∙◌, true, some, ◌∷◌, leb, length, get_elem?,
  inl, inr, arith, Outcome, ret, ◌>>=◌, Returns,
}
use aurix_tc365_async_rust.Heapless.Due.{due}
use aurix_tc365_async_rust.Time
use aurix_tc365_async_rust.Cpu.Alarm.{AlarmItem}
use aurix_tc365_async_rust.Cpu.Alarm.Calls.{IsValid}
use aurix_tc365_async_rust.Cpu.Kernel.{Pender}
use aurix_tc365_async_rust.Cpu.Kernel.Interrupt.{pended, on_timer_interrupt-Ticked}
use aurix_tc365_async_rust.Cpu.Kernel.Due.{All-any, goes_off, any-All, get_elem?-lt}
use aurix_tc365_async_rust.Executor.{Containers, World, on_timer_interrupt}
use aurix_tc365_async_rust.Executor.Run.{set_alarm, renew_alarm}
use aurix_tc365_async_rust.Executor.Armed.{
  IsArmed, Ticked-IsValid, Ticked-IsDue, with_item, set_alarm-accepted, any-with_item,
}

module _ (X : Containers) {F : Type 0} where
  -- The timer interrupt, `n` times.
  abbrev pub interrupts : ℕ → World X F → Outcome (World X F)
  interrupts zero w = ret w
  interrupts (suc n) w = on_timer_interrupt X w >>= λ w'. interrupts n w'

  interrupt-IsArmed :
      (p : Pender) (handle until : ℕ) (w : World X F)
      → X.alarms.cap < 2 ^ 32
      → w.kernel.ticks < 2 ^ 32 - 1
      → IsArmed X p handle until w.kernel
      → Returns
          (on_timer_interrupt X w)
          (λ w'. (w'.kernel.ticks ≡ w.kernel.ticks + 1) × IsArmed X p handle until w'.kernel)
  unfolding on_timer_interrupt
  interrupt-IsArmed p handle until w word small (v, k, due) =
      let (core, runs, after) = on_timer_interrupt-Ticked X.handles X.alarms w.kernel v word in
      let kept = after.3 in
      let ticked : core.ticks ≡ w.kernel.ticks + 1 = omega (arith, after.0) in
      (
        record w { kernel = core },
        rw runs refl,
        (
          ticked,
          (
            Ticked-IsValid X w.kernel core after v,
            rw kept k,
            Ticked-IsDue X p handle until w.kernel core after ticked k due,
          ),
        ),
      )

  interrupts-pended :
      (n : ℕ) (p : Pender) (handle until : ℕ) (w : World X F)
      → X.alarms.cap < 2 ^ 32
      → until < 2 ^ 32 - 1
      → w.kernel.ticks + n ≡ until + 1
      → IsArmed X p handle until w.kernel
      → Returns (interrupts n w) (λ w'. pended X.handles X.alarms p w'.kernel ≡ true)
  interrupts-pended zero p handle until w word small t (v, k, inl set) = (w, refl, set)
  interrupts-pended zero p handle until w word small t (v, k, inr (due, early)) =
      absurd (omega arith)
  interrupts-pended (suc n) p handle until w word small t armed =
      let (w', run, (ticked, armed')) =
        interrupt-IsArmed p handle until w word (omega arith) armed in
      let (w'', run', set) =
        interrupts-pended n p handle until w' word small (omega (arith, ticked)) armed' in
      (w'', rw (run, run') refl, set)

  pub renew_alarm-with_item :
      (e handle next_tick : ℕ) (w : World X F)
      → (w.executors e).alarm_handle ≡ some handle
      → Time.next_expiration X.timers (w.executors e).timer_queue ≡ some next_tick
      → length (X.alarms.items w.kernel.alarms.queue) < X.alarms.cap
      → renew_alarm X e w ≡ ret (record w { kernel = with_item X handle next_tick w.kernel })
  unfolding renew_alarm set_alarm
  renew_alarm-with_item e handle next_tick w own next room =
      let accepted = set_alarm-accepted X handle next_tick w.kernel room in
      rw (renew_alarm, next, set_alarm, own, accepted) refl

  with_item-IsArmed :
      (p : Pender) (handle next_tick : ℕ) (w : World X F)
      → IsValid X.handles X.alarms w.kernel.alarms
      → get_elem? (X.handles.items w.kernel.alarms.callbacks) handle ≡ some (some p)
      → length (X.alarms.items w.kernel.alarms.queue) < X.alarms.cap
      → w.kernel.ticks ≤ next_tick
      → IsArmed X p handle next_tick (with_item X handle next_tick w.kernel)
  with_item-IsArmed p handle next_tick w v k room early =
      let q = w.kernel.alarms.queue in
      let n = length (X.handles.items w.kernel.alarms.callbacks) in
      let item : AlarmItem = record { expires_at = next_tick; handle = handle } in
      let after = any-with_item X handle next_tick w.kernel room in
      let known = get_elem?-lt (X.handles.items w.kernel.alarms.callbacks) handle (some p) k in
      (
        All-any n _ (after (λ t. leb n t.handle) ∙ any-All n (item ∷ X.alarms.items q) (known, v)),
        k,
        inr (after (goes_off next_tick handle) ∙ ground arith, early),
      )

  -- If an executor has an alarm handle for which its pender is registered, its earliest timer expires at
  -- `next_tick`, not before the current tick nor at the last two of the 2 ^ 32, and the alarm queue is valid and has room, then
  -- `renew_alarm` and the `next_tick + 1 - ticks` timer interrupts after it do not panic, and leave the executor pended.
  pub renew_alarm-pended :
      (e handle next_tick : ℕ) (w : World X F)
      → X.alarms.cap < 2 ^ 32
      → next_tick < 2 ^ 32 - 1
      → w.kernel.ticks ≤ next_tick
      → IsValid X.handles X.alarms w.kernel.alarms
      → (w.executors e).alarm_handle ≡ some handle
      → get_elem? (X.handles.items w.kernel.alarms.callbacks) handle
        ≡ some (some (w.executors e).pender)
      → Time.next_expiration X.timers (w.executors e).timer_queue ≡ some next_tick
      → length (X.alarms.items w.kernel.alarms.queue) < X.alarms.cap
      → Returns
          (renew_alarm X e w >>= λ w'. interrupts (next_tick + 1 - w.kernel.ticks) w')
          (λ w'. pended X.handles X.alarms (w.executors e).pender w'.kernel ≡ true)
  renew_alarm-pended e handle next_tick w word small early v own k next room =
      let p = (w.executors e).pender in
      let (w', run, set) =
        interrupts-pended (next_tick + 1 - w.kernel.ticks) p handle next_tick
          (record w { kernel = with_item X handle next_tick w.kernel }) word small (omega arith)
          (with_item-IsArmed p handle next_tick w v k room early) in
      (w', rw (renew_alarm-with_item e handle next_tick w own next room) run, set)
