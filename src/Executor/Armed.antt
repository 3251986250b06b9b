-- ===== src/Executor/Armed.antt =====
-- A kernel in which an executor is pended, or an alarm for it is still to go off.
use aurix_tc365_async_rust.Prelude.{
  ◌||◌, ℕ, ◌+◌, ◌≤◌, ◌<◌, ◌≡◌, refl, subst, Bool, true, none, some, ◌∷◌, ltb, ◌==◌, if◌then◌else◌,
  length, get_elem?, Bool-cases, inl, inr, ◌⊎◌, arith,
}
use mathlib.Core.List.{Perm}
use aurix_tc365_async_rust.Heapless.Due.{due}
use aurix_tc365_async_rust.Heapless.Any.{any, Perm-any, any-due}
use aurix_tc365_async_rust.Cpu.Alarm
use aurix_tc365_async_rust.Cpu.Alarm.{AlarmItem, callback_of}
use aurix_tc365_async_rust.Cpu.Alarm.Calls.{IsValid, expired, waiting}
use aurix_tc365_async_rust.Cpu.Kernel
use aurix_tc365_async_rust.Cpu.Kernel.{
  Pender, Kernel, thread_executor_pender, interrupt_executor_pender,
}
use aurix_tc365_async_rust.Cpu.Kernel.Interrupt.{pended, Ticked}
use aurix_tc365_async_rust.Cpu.Kernel.Due.{
  All-not_due, or_true, goes_off, among-callbacks_for, none-waiting,
}
use aurix_tc365_async_rust.Executor.{Containers}

module _ (X : Containers) where
  abbrev pub Core : Type 0
  Core = Kernel X.handles X.alarms

  -- The pender `p` is pended, or an alarm of `handle` is set for `until` at the latest, which is not over.
  abbrev pub IsDue : Pender → ℕ → ℕ → Core → Type 0
  IsDue p handle until k =
      (pended X.handles X.alarms p k ≡ true)
      ⊎ ((any (X.alarms.items k.alarms.queue) (goes_off until handle) ≡ true) × (k.ticks ≤ until))

  abbrev pub IsArmed : Pender → ℕ → ℕ → Core → Type 0
  IsArmed p handle until k =
      IsValid X.handles X.alarms k.alarms
      × (get_elem? (X.handles.items k.alarms.callbacks) handle ≡ some (some p))
      × IsDue p handle until k

  -- Of the kernels before and after an interrupt.
  pub Ticked-IsValid :
      (k k' : Core)
      → Ticked X.handles X.alarms k k'
      → IsValid X.handles X.alarms k.alarms
      → IsValid X.handles X.alarms k'.alarms
  Ticked-IsValid k k' (t, ps, left, kept) v =
      rw (left, kept)
        (All-not_due (λ t. t.handle < length (X.handles.items k.alarms.callbacks)) k.ticks
          (X.alarms.items k.alarms.queue) v)

  pub Ticked-IsDue :
      (p : Pender) (handle until : ℕ) (k k' : Core)
      → Ticked X.handles X.alarms k k'
      → k'.ticks ≡ k.ticks + 1
      → get_elem? (X.handles.items k.alarms.callbacks) handle ≡ some (some p)
      → IsDue p handle until k
      → IsDue p handle until k'
  Ticked-IsDue p handle until k k' (t, ps, left, kept) ticked own (inl set) =
      inl (rw (ps p, set) (or_true _))
  Ticked-IsDue p handle until k k' (t, ps, left, kept) ticked own (inr (due, early)) =
      let items = X.alarms.items k.alarms.queue in
      let f = goes_off until handle in
      elim (Bool-cases (any (expired k.ticks items) f)) [
        | inl fires ↦
            let fired =
              among-callbacks_for (X.handles.items k.alarms.callbacks) handle until p
                (expired k.ticks items) own fires in
            inl (rw (ps p, fired) refl)
        | inr not_yet ↦
            let rest : any (waiting k.ticks items) f ≡ true =
              ground (arith, any-due (λ t. t.expires_at) k.ticks f items) in
            elim (Bool-cases (k.ticks == until)) [
              | inl last ↦
                  let now_is : k.ticks ≡ until = ground arith in
                  let nothing = none-waiting until handle items in
                  absurd
                    (ground (arith, subst (λ now. any (waiting now items) f ≡ true) now_is rest))
              | inr more ↦ inr (rw left rest, ground arith)
            ]
      ]

  -- The kernel with one more alarm.
  abbrev pub with_item : ℕ → ℕ → Core → Core
  with_item handle expires_at k =
      let alarms = k.alarms in
      let item : AlarmItem = record { expires_at = expires_at; handle = handle } in
      record k { alarms = record alarms { queue = (X.alarms.push alarms.queue item).0 } }

  pub set_alarm-accepted :
      (handle expires_at : ℕ) (k : Core)
      → length (X.alarms.items k.alarms.queue) < X.alarms.cap
      → Kernel.set_alarm X.handles X.alarms handle expires_at k
        ≡ (with_item handle expires_at k, some tt)
  unfolding Kernel.set_alarm Alarm.set_alarm
  set_alarm-accepted handle expires_at k room =
      let q = k.alarms.queue in
      let item : AlarmItem = record { expires_at = expires_at; handle = handle } in
      let fits : ltb (length (X.alarms.items q)) X.alarms.cap ≡ true = ground arith in
      let accepted : (X.alarms.push q item).1 ≡ none =
        rw (X.alarms.push-refuses q item, fits) refl in
      rw (Kernel.set_alarm, Alarm.set_alarm, accepted) refl

  pub any-with_item :
      (handle expires_at : ℕ) (k : Core)
      → length (X.alarms.items k.alarms.queue) < X.alarms.cap
      → (f : AlarmItem → Bool)
      → any (X.alarms.items (with_item handle expires_at k).alarms.queue) f ≡ (
          f (record { expires_at = expires_at; handle = handle })
          || any (X.alarms.items k.alarms.queue) f)
  any-with_item handle expires_at k room f =
      let q = k.alarms.queue in
      let item : AlarmItem = record { expires_at = expires_at; handle = handle } in
      let fits : ltb (length (X.alarms.items q)) X.alarms.cap ≡ true = ground arith in
      let pushed : Perm (X.alarms.items (X.alarms.push q item).0) (item ∷ X.alarms.items q) =
        subst
          (λ b.
            Perm (X.alarms.items (X.alarms.push q item).0)
              (if b then item ∷ X.alarms.items q else X.alarms.items q))
          fits (X.alarms.items-push q item) in
      Perm-any f (X.alarms.items (X.alarms.push q item).0) (item ∷ X.alarms.items q) pushed
