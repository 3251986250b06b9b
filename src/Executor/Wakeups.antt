-- ===== src/Executor/Wakeups.antt =====
-- The wake-ups of an executor: no task stays in its run queue while it waits to be pended.
use aurix_tc365_async_rust.Prelude.{
  ℕ, ◌≢◌, ◌≡◌, refl, sym, subst, ap, ◌∙◌, ◌==◌, Bool, true, none, List, [], ◌∷◌, Outcome, ret,
  ◌>>=◌, if◌then◌else◌, ◌⊎◌, inl, inr, Bool-cases, drop, Ensures, Ensures->>=, Option-cases, arith,
}
use aurix_tc365_async_rust.Heapless.{head?}
use aurix_tc365_async_rust.Cpu.Kernel
use aurix_tc365_async_rust.Cpu.Kernel.{
  Pender, thread_executor_pender, interrupt_executor_pender, Kernel,
}
use aurix_tc365_async_rust.Cpu.Kernel.Interrupt.{pended}
use aurix_tc365_async_rust.Executor.{Containers, World, at_self, wake_by_ref}
use aurix_tc365_async_rust.Executor.Tasks.{Body}
use aurix_tc365_async_rust.Executor.Run.{check_timer_queue, renew_alarm, poll_task}
use aurix_tc365_async_rust.Executor.Loop.{
  fetch, Turn, waiting, checking, advancing, renewing, turn, Step, own, timer_interrupt,
  handler_wakes, other_fetches, other_checks, other_runs, other_renews, Steps, stay, and_then,
}
use aurix_tc365_async_rust.Executor.Calls.{
  IsPended, popped, run_one-none, run_one-some, Replaced, check_timer_queue-Replaced,
}
use aurix_tc365_async_rust.Executor.Grows.{
  HasPender, Grows, wake_by_ref-Grows, on_timer_interrupt-Grows, renew_alarm-Grows,
  check_timer_queue-Grows, poll_task-Grows, run_one-Grows, own-HasPender,
}

head?-none : {T : Type 0} (xs : List T) → head? xs ≡ none → xs ≡ []
head?-none [] h = refl
head?-none (x ∷ xs) h = absurd (ground (arith, h))

module _ (X : Containers) where
  fetch-pended :
      (p : Pender) (k : Kernel X.handles X.alarms) → (fetch X p k).1 ≡ pended X.handles X.alarms p k
  unfolding fetch Kernel.event_fetch_and_clear_local
  fetch-pended thread_executor_pender k = refl
  fetch-pended (interrupt_executor_pender node) k = refl

  -- A fetch for one executor leaves the others pended.
  fetch_other :
      (x p : Pender) (k : Kernel X.handles X.alarms)
      → x ≢ p
      → IsPended X p k
      → IsPended X p (fetch X x k).0
  unfolding fetch Kernel.event_fetch_and_clear_local
  fetch_other thread_executor_pender thread_executor_pender k other h = absurd (other refl)
  fetch_other thread_executor_pender (interrupt_executor_pender b) k other h = h
  fetch_other (interrupt_executor_pender a) thread_executor_pender k other h = h
  fetch_other (interrupt_executor_pender a) (interrupt_executor_pender b) k other h =
      elim (Bool-cases (b == a)) [
        | inl here ↦ absurd (other (ap interrupt_executor_pender {x = a} {y = b} (ground arith)))
        | inr elsewhere ↦ rw elsewhere h
      ]

module _ (X : Containers) {F : Type 0} (behave : F → Body F) (e : ℕ) (p : Pender) where
  abbrev queued : World X F → List ℕ
  queued w = X.run_queues.items (w.executors e).run_queue

  -- Between the end of a turn's work and the next fetch, a queued task comes with the executor pended.
  abbrev IsCovered : Turn × World X F → Type 0
  IsCovered (waiting, w) = HasPender X e p w × ((queued w ≡ []) ⊎ (IsPended X p w.kernel))
  IsCovered (renewing, w) = HasPender X e p w × ((queued w ≡ []) ⊎ (IsPended X p w.kernel))
  IsCovered (checking, w) = HasPender X e p w
  IsCovered (advancing, w) = HasPender X e p w

  IsCovered-HasPender : (pc : Turn) (w : World X F) → IsCovered (pc, w) → HasPender X e p w
  IsCovered-HasPender waiting w c = c.0
  IsCovered-HasPender checking w c = c
  IsCovered-HasPender advancing w c = c
  IsCovered-HasPender renewing w c = c.0

  Grows-queued :
      (w w' : World X F)
      → Grows X e p w w'
      → (queued w ≡ []) ⊎ (IsPended X p w.kernel)
      → (queued w' ≡ []) ⊎ (IsPended X p w'.kernel)
  Grows-queued w w' (th, keeps, q) (inr set) = inr (keeps set)
  Grows-queued w w' (th, keeps, inr set) (inl empty) = inr set
  Grows-queued w w' (th, keeps, inl same) (inl empty) = inl (ap X.run_queues.items same ∙ empty)

  Grows-IsCovered :
      (pc : Turn) (w w' : World X F) → Grows X e p w w' → IsCovered (pc, w) → IsCovered (pc, w')
  Grows-IsCovered waiting w w' g c = (g.0, Grows-queued w w' g c.1)
  Grows-IsCovered checking w w' g c = g.0
  Grows-IsCovered advancing w w' g c = g.0
  Grows-IsCovered renewing w w' g c = (g.0, Grows-queued w w' g c.1)

  -- The thread's own parts.
  fetched :
      (w : World X F)
      → HasPender X e p w
      → (fetch X (w.executors e).pender w.kernel).1 ≡ pended X.handles X.alarms p w.kernel
  fetched w th =
      fetch-pended X (w.executors e).pender w.kernel
      ∙ ap (λ x. pended X.handles X.alarms x w.kernel) th

  waits-IsCovered :
      (w : World X F) → IsCovered (waiting, w) → Ensures (turn X behave e waiting w) IsCovered
  unfolding turn
  waits-IsCovered w (th, inr set) = rw (turn, fetched w th, set) th
  waits-IsCovered w (th, inl empty) = elim (Bool-cases (pended X.handles X.alarms p w.kernel)) [
    | inl set ↦ rw (turn, fetched w th, set) th
    | inr clear ↦ rw (turn, fetched w th, clear) (th, inl empty)
  ]

  checks-IsCovered :
      (w : World X F) → HasPender X e p w → Ensures (turn X behave e checking w) IsCovered
  unfolding turn
  checks-IsCovered w th =
      Ensures->>= (Replaced X e w) IsCovered (check_timer_queue X e w) (λ w'. ret (advancing, w'))
        (check_timer_queue-Replaced X e w)
        (λ w' (q, timers, same). rw same (
          own-HasPender X e p (record (w.executors e) { run_queue = q; timer_queue = timers }) w
            refl th))

  -- Nothing is queued where `pop_front` returned nothing.
  popped-empty :
      (w : World X F)
      → (X.run_queues.pop_front (w.executors e).run_queue).1 ≡ none
      → queued (popped X e w) ≡ []
  popped-empty w nothing =
      let q = (w.executors e).run_queue in
      let x = record (w.executors e) { run_queue = (X.run_queues.pop_front q).0 } in
      let empty =
        head?-none (X.run_queues.items q) (sym (X.run_queues.pop_front-head? q) ∙ nothing) in
      ap (λ x. X.run_queues.items x.run_queue) (at_self w.executors e x)
      ∙ X.run_queues.items-pop_front q
      ∙ ap (drop 1) empty

  abbrev Runs : World X F × Bool → Type 0
  Runs (w, more) = HasPender X e p w × (more ≡ true)

  advances-IsCovered :
      (w : World X F) → HasPender X e p w → Ensures (turn X behave e advancing w) IsCovered
  unfolding turn
  advances-IsCovered w th =
      let q = (w.executors e).run_queue in
      let th' : HasPender X e p (popped X e w) =
        own-HasPender X e p (record (w.executors e) { run_queue = (X.run_queues.pop_front q).0 }) w
          refl th in
      elim (Option-cases (X.run_queues.pop_front q).1) [
        | inl nothing ↦
            rw (turn, run_one-none X behave e w nothing) (th', inl (popped-empty w nothing))
        | inr (t, front) ↦
            rw (turn, run_one-some X behave e t w front)
              (Ensures->>= Runs IsCovered
                (poll_task X behave e t (popped X e w) >>= λ w''. ret (w'', true))
                (λ (w', more). ret ((if more then advancing else renewing), w'))
                (Ensures->>= (Grows X e p (popped X e w)) Runs
                  (poll_task X behave e t (popped X e w)) (λ w''. ret (w'', true))
                  (poll_task-Grows X e p behave e t (popped X e w) th') (λ w'' g. (g.0, refl)))
                (λ (w', more) (th'', m). rw m th''))
      ]

  renews-IsCovered :
      (w : World X F) → IsCovered (renewing, w) → Ensures (turn X behave e renewing w) IsCovered
  unfolding turn
  renews-IsCovered w c =
      Ensures->>= (Grows X e p w) IsCovered (renew_alarm X e w) (λ w'. ret (waiting, w'))
        (renew_alarm-Grows X e p e w c.0) (λ w' g. (g.0, Grows-queued w w' g c.1))

  turn-IsCovered :
      (pc : Turn) (w : World X F) → IsCovered (pc, w) → Ensures (turn X behave e pc w) IsCovered
  turn-IsCovered waiting w c = waits-IsCovered w c
  turn-IsCovered checking w c = checks-IsCovered w c
  turn-IsCovered advancing w c = advances-IsCovered w c
  turn-IsCovered renewing w c = renews-IsCovered w c

  -- What a step's equation says of its result.
  ensured : {A : Type 0} (P : A → Type 0) (m : Outcome A) (a : A) → Ensures m P → m ≡ ret a → P a
  ensured P m a h e = subst (λ m. Ensures m P) e h

  Step-IsCovered : (s s' : Turn × World X F) → Step X behave e s s' → IsCovered s → IsCovered s'
  Step-IsCovered _ s (own pc w _ e) c =
      ensured IsCovered (turn X behave _ pc w) s (turn-IsCovered pc w c) e
  Step-IsCovered _ _ (timer_interrupt pc w w' e) c =
      Grows-IsCovered pc w w'
        (ensured (Grows X _ p w) _ w'
          (on_timer_interrupt-Grows X _ p w (IsCovered-HasPender pc w c)) e)
        c
  Step-IsCovered _ _ (handler_wakes pc w t) c =
      Grows-IsCovered pc w (wake_by_ref X t w)
        (wake_by_ref-Grows X _ p t w (IsCovered-HasPender pc w c)) c
  Step-IsCovered _ _ (other_fetches pc w e' other) c =
      let th = IsCovered-HasPender pc w c in
      let x = (w.executors e').pender in
      Grows-IsCovered pc w (record w { kernel = (fetch X x w.kernel).0 })
        (th, fetch_other X x p w.kernel (λ same. other (same ∙ sym th)), inl refl) c
  Step-IsCovered _ _ (other_checks pc w w' e' other e) c =
      Grows-IsCovered pc w w'
        (ensured (Grows X _ p w) _ w'
          (check_timer_queue-Grows X _ p e' w other (IsCovered-HasPender pc w c)) e)
        c
  Step-IsCovered _ _ (other_runs pc w w' e' more other e) c =
      Grows-IsCovered pc w w'
        (ensured (λ (w', more). Grows X _ p w w') _ (w', more)
          (run_one-Grows X _ p behave e' w other (IsCovered-HasPender pc w c)) e)
        c
  Step-IsCovered _ _ (other_renews pc w w' e' other e) c =
      Grows-IsCovered pc w w'
        (ensured (Grows X _ p w) _ w' (renew_alarm-Grows X _ p e' w (IsCovered-HasPender pc w c)) e)
        c

  Steps-IsCovered : (s s' : Turn × World X F) → Steps X behave e s s' → IsCovered s → IsCovered s'
  Steps-IsCovered _ _ (stay s) c = c
  Steps-IsCovered _ _ (and_then s s' s'' steps step) c =
      Step-IsCovered s' s'' step (Steps-IsCovered s s' steps c)

  -- If an executor starts pended, then after any number of steps of its own, of timer interrupts, of wakes from handlers
  -- and of the other executors, which have other penders: when it is about to look whether it is pended
  -- and a task is in its run queue, it finds that it is, and goes on to `exec_once`.
  pub no_lost_wakeup :
      (w w' : World X F)
      → (w.executors e).pender ≡ p
      → pended X.handles X.alarms p w.kernel ≡ true
      → Steps X behave e (waiting, w) (waiting, w')
      → X.run_queues.items (w'.executors e).run_queue ≢ []
      → (w'' : World X F) × (turn X behave e waiting w' ≡ ret (checking, w''))
  unfolding turn
  no_lost_wakeup w w' th set steps some_queued =
      let (th', covered) = Steps-IsCovered (waiting, w) (waiting, w') steps (th, inr set) in
      elim covered [
        | inl empty ↦ absurd (some_queued empty)
        | inr set' ↦
            let w'' = record w' { kernel = (fetch X (w'.executors e).pender w'.kernel).0 } in
            (w'', rw (turn, fetched w' th', set') refl)
      ]
