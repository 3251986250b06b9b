-- ===== src/Executor/Once.antt =====
-- A whole run of `exec_once` of executor/base_executor.rs.
use aurix_tc365_async_rust.Prelude.{
  ℕ, suc, ◌+◌, ◌^◌, ◌≤◌, ◌<◌, ◌≡◌, refl, ap, ◌∙◌, sym, subst, Bool, true, some, [], ◌++◌, length,
  leb, ◌==◌, ◌&&◌, ◌||◌, inl, inr, Option-cases, arith, ret, Returns,
}
use aurix_tc365_async_rust.Heapless.Any.{any}
use aurix_tc365_async_rust.Time
use aurix_tc365_async_rust.Cpu.Kernel.Due.{goes_off}
use aurix_tc365_async_rust.Executor.{Containers, BaseExecutor, World, at_self}
use aurix_tc365_async_rust.Executor.Tasks.{Body}
use aurix_tc365_async_rust.Executor.Run.{
  check_timer_queue, advance_runnable_tasks, renew_alarm, exec_once,
}
use aurix_tc365_async_rust.Executor.Expired.{expired_tasks, check_timer_queue-Moved}
use aurix_tc365_async_rust.Executor.Advance.{IsQuiet, queued, advance-Drained}
use aurix_tc365_async_rust.Executor.Armed.{with_item, any-with_item}
use aurix_tc365_async_rust.Executor.Sleep.{renew_alarm-with_item}

goes_off_self : (at handle : ℕ) (b : Bool) → ((leb at at && (handle == handle)) || b) ≡ true
goes_off_self at handle b = ground arith

module _ (X : Containers) {F : Type 0} where
  -- An alarm of `handle` is set for the earliest timer, if there is one.
  abbrev pub HasAlarm : ℕ → ℕ → World X F → Type 0
  HasAlarm e handle w =
      (next : ℕ)
      → Time.next_expiration X.timers (w.executors e).timer_queue ≡ some next
      → any (X.alarms.items w.kernel.alarms.queue) (goes_off next handle) ≡ true

  renew_alarm-HasAlarm :
      (e handle : ℕ) (w : World X F)
      → (w.executors e).alarm_handle ≡ some handle
      → length (X.alarms.items w.kernel.alarms.queue) < X.alarms.cap
      → Returns (renew_alarm X e w) (λ w'. (w'.executors ≡ w.executors) × HasAlarm e handle w')
  unfolding renew_alarm
  renew_alarm-HasAlarm e handle w own room =
      elim (Option-cases (Time.next_expiration X.timers (w.executors e).timer_queue)) [
        | inl nothing ↦ (
          w,
          rw (renew_alarm, nothing) refl,
          (refl, λ next at. absurd (ground (arith, sym at ∙ nothing))),
        )
        | inr (at, earliest) ↦ (
          record w { kernel = with_item X handle at w.kernel },
          renew_alarm-with_item X e handle at w own earliest room,
          (
            refl,
            λ next here.
                let same : at ≡ next = ground (arith, sym earliest ∙ here) in
                subst
                  (λ n.
                    any (X.alarms.items (with_item X handle at w.kernel).alarms.queue)
                      (goes_off n handle)
                    ≡ true)
                  same
                  (any-with_item X handle at w.kernel room (goes_off at handle)
                    ∙ goes_off_self at handle
                        (any (X.alarms.items w.kernel.alarms.queue) (goes_off at handle))),
          ),
        )
      ]

module _ (X : Containers) {F : Type 0} (behave : F → Body F) (e : ℕ)
    (quiet : (f : F) → IsQuiet (behave f)) where
  abbrev pub Slept : ℕ → World X F × Bool → Type 0
  Slept handle (w', done) = (done ≡ true) × (queued X e w' ≡ []) × HasAlarm X e handle w'

  exec_once-runs :
      (rounds : ℕ) (w w₁ w₂ w₃ : World X F)
      → check_timer_queue X e w ≡ ret w₁
      → advance_runnable_tasks X behave rounds e w₁ ≡ ret (w₂, true)
      → renew_alarm X e w₂ ≡ ret w₃
      → exec_once X behave rounds e w ≡ ret (w₃, true)
  unfolding exec_once
  exec_once-runs rounds w w₁ w₂ w₃ checks advances renews =
      rw (exec_once, checks, advances, renews) refl

  -- If no poll of a task wakes a task, ends or yields, `ready` and the run queue have room for the tasks whose
  -- timers have expired, the executor has an alarm handle, and there is room for an alarm, then `exec_once` does not panic and comes to its end:
  -- after one round for each task that was queued or expired and one more, the run queue is empty, and if
  -- a timer is left, an alarm of the handle is set for the earliest timer at the latest.
  pub exec_once-Slept :
      (handle : ℕ) (w : World X F)
      → X.timers.cap < 2 ^ 32
      → length (expired_tasks X e w) ≤ X.ready_tasks.cap
      → length (queued X e w) + length (expired_tasks X e w) ≤ X.run_queues.cap
      → (w.executors e).alarm_handle ≡ some handle
      → length (X.alarms.items w.kernel.alarms.queue) < X.alarms.cap
      → Returns
          (exec_once X behave (suc (length (queued X e w ++ expired_tasks X e w))) e w)
          (Slept handle)
  exec_once-Slept handle w word fits room own free =
      let (w₁, checks, (q, timers, same, are, left)) =
        check_timer_queue-Moved X e w word fits room in
      let x₁ : BaseExecutor X = record (w.executors e) { run_queue = q; timer_queue = timers } in
      let here : w₁.executors e ≡ x₁ = ap (λ w. w.executors e) same ∙ at_self w.executors e x₁ in
      let ((w₂, done), advances, (d, empty, k, a)) =
        advance-Drained X behave e quiet (queued X e w ++ expired_tasks X e w) w₁
          (ap (λ x. X.run_queues.items x.run_queue) here ∙ are) in
      let own₂ : (w₂.executors e).alarm_handle ≡ some handle =
        a ∙ ap (λ x. x.alarm_handle) here ∙ own in
      let k₂ : w₂.kernel ≡ w.kernel = k ∙ ap (λ w. w.kernel) same in
      let free₂ : length (X.alarms.items w₂.kernel.alarms.queue) < X.alarms.cap =
        subst (λ k. length (X.alarms.items k.alarms.queue) < X.alarms.cap) (sym k₂) free in
      let (w₃, renews, (x, set)) = renew_alarm-HasAlarm X e handle w₂ own₂ free₂ in
      (
        (w₃, true),
        exec_once-runs _ w w₁ w₂ w₃ checks (advances ∙ ap (λ b. ret (w₂, b)) d) renews,
        (refl, ap (λ xs. X.run_queues.items (xs e).run_queue) x ∙ empty, set),
      )
