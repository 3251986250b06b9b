-- ===== src/Executor/Expired.antt =====
-- What `check_timer_queue` of executor/base_executor.rs moves to the run queue.
use aurix_tc365_async_rust.Prelude.{
  ℕ, Bool-cases, leb, leb→le, ◌+◌, ◌^◌, ◌≤◌, ◌<◌, ◌≡◌, refl, ap, List, [], ◌∷◌, ◌++◌, map, length,
  arith, panic, Returns, inl, inr, ◌⊎◌,
}
use aurix_tc365_async_rust.Heapless.Pushes.{push_each, push_each-append, push_each-panics}
use aurix_tc365_async_rust.Time.Expiry.{expired, waiting, dequeue_expired-Expired}
use aurix_tc365_async_rust.Executor.{Containers, World, with_executor}
use aurix_tc365_async_rust.Executor.Tasks.{current}
use aurix_tc365_async_rust.Executor.Run.{get_task_ref, check_timer_queue}

length-map : {A B : Type 0} (f : A → B) (xs : List A) → length (map f xs) ≡ length xs
length-map f [] = refl
length-map f (x ∷ xs) = omega (arith, length-map f xs)

module _ (X : Containers) where
  collected :
      (tasks : List ℕ)
      → length tasks ≤ X.ready_tasks.cap
      → Returns
          (push_each X.ready_tasks.push tasks X.ready_tasks.new)
          (λ ready. X.ready_tasks.items ready ≡ tasks)
  collected tasks fits =
      let empty : length (X.ready_tasks.items X.ready_tasks.new) ≡ 0 =
        ap length X.ready_tasks.items-new in
      let (ready, run, same) =
        push_each-append X.ready_tasks.cap X.ready_tasks.items X.ready_tasks.push
          X.ready_tasks.items-push X.ready_tasks.push-refuses tasks X.ready_tasks.new
          (omega (arith, empty)) in
      (ready, run, rw (same, X.ready_tasks.items-new) refl)

module _ (X : Containers) {F : Type 0} where
  -- The tasks whose timers have expired.
  abbrev pub expired_tasks : ℕ → World X F → List ℕ
  expired_tasks e w =
      map get_task_ref (expired (current X w) (X.timers.items (w.executors e).timer_queue))

  abbrev pub Moved : ℕ → World X F → World X F → Type 0
  Moved e w w' =
      (q : X.run_queues.Carrier) × (timers : X.timers.Carrier) × (w'
        ≡ with_executor X e (record (w.executors e) { run_queue = q; timer_queue = timers }) w)
      × (X.run_queues.items q ≡ X.run_queues.items (w.executors e).run_queue ++ expired_tasks e w)
      × (X.timers.items timers ≡ waiting (current X w) (X.timers.items (w.executors e).timer_queue))

  -- With less than 2 ^ 32 places for timers, if `ready` and the run queue have room for all the tasks whose
  -- timers have expired, `check_timer_queue` does not panic, puts exactly these tasks at the end of the run queue, the one that expired
  -- first before the others, keeps exactly the other timers, and changes nothing else.
  pub check_timer_queue-Moved :
      (e : ℕ) (w : World X F)
      → X.timers.cap < 2 ^ 32
      → length (expired_tasks e w) ≤ X.ready_tasks.cap
      → length (X.run_queues.items (w.executors e).run_queue) + length (expired_tasks e w)
        ≤ X.run_queues.cap
      → Returns (check_timer_queue X e w) (Moved e w)
  unfolding check_timer_queue
  check_timer_queue-Moved e w word fits room =
      let x = w.executors e in
      let ((timers, items, n), run, (c, left, m, l)) =
        dequeue_expired-Expired X.timers (current X w) x.timer_queue word in
      let (ready, run', all) = collected X (expired_tasks e w) fits in
      let (q, run'', same') =
        push_each-append X.run_queues.cap X.run_queues.items X.run_queues.push_back
          X.run_queues.items-push_back X.run_queues.push_back-refuses (expired_tasks e w)
          x.run_queue room in
      (
        with_executor X e (record x { run_queue = q; timer_queue = timers }) w,
        rw (run, c, run', all, run'') refl,
        (q, timers, refl, same', left),
      )

  ready_panics :
      (e : ℕ) (w : World X F)
      → X.timers.cap < 2 ^ 32
      → X.ready_tasks.cap < length (expired_tasks e w)
      → check_timer_queue X e w ≡ panic
  unfolding check_timer_queue
  ready_panics e w word over =
      let (found, run, (c, left, m, l)) =
        dequeue_expired-Expired X.timers (current X w) (w.executors e).timer_queue word in
      let empty : length (X.ready_tasks.items X.ready_tasks.new) ≡ 0 =
        ap length X.ready_tasks.items-new in
      let fails =
        push_each-panics X.ready_tasks.cap X.ready_tasks.items X.ready_tasks.push
          X.ready_tasks.items-push X.ready_tasks.push-refuses (expired_tasks e w) X.ready_tasks.new
          (omega (arith, empty)) (omega (arith, empty)) in
      rw (run, c, fails) refl

  queue_panics :
      (e : ℕ) (w : World X F)
      → X.timers.cap < 2 ^ 32
      → length (expired_tasks e w) ≤ X.ready_tasks.cap
      → X.run_queues.cap
        < length (X.run_queues.items (w.executors e).run_queue) + length (expired_tasks e w)
      → check_timer_queue X e w ≡ panic
  unfolding check_timer_queue
  queue_panics e w word fits over =
      let q = (w.executors e).run_queue in
      let (found, run, (c, left, m, l)) =
        dequeue_expired-Expired X.timers (current X w) (w.executors e).timer_queue word in
      let (ready, run', all) = collected X (expired_tasks e w) fits in
      let fails =
        push_each-panics X.run_queues.cap X.run_queues.items X.run_queues.push_back
          X.run_queues.items-push_back X.run_queues.push_back-refuses (expired_tasks e w) q
          (X.run_queues.length-le-cap q) over in
      rw (run, c, run', all, fails) refl

  -- With less than 2 ^ 32 places for timers, if more timers have expired than `ready` or the run queue has room
  -- for, `check_timer_queue` panics.
  pub check_timer_queue-panics :
      (e : ℕ) (w : World X F)
      → X.timers.cap < 2 ^ 32
      → (X.ready_tasks.cap < length (expired_tasks e w))
        ⊎ (X.run_queues.cap
            < length (X.run_queues.items (w.executors e).run_queue) + length (expired_tasks e w))
      → check_timer_queue X e w ≡ panic
  check_timer_queue-panics e w word (inl over) = ready_panics e w word over
  check_timer_queue-panics e w word (inr over) =
      elim (Bool-cases (leb (length (expired_tasks e w)) X.ready_tasks.cap)) [
        | inl fits ↦ queue_panics e w word (leb→le _ _ fits) over
        | inr more ↦ ready_panics e w word (ground arith)
      ]
