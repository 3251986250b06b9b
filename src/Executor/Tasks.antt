-- ===== src/Executor/Tasks.antt =====
-- What a task does when it is polled: executor/yields.rs, time/timer_fut.rs, and the calls in a task's body.
-- The futures are the program's, and a parameter: `behave f` is the run of one poll of `f`.
use aurix_tc365_async_rust.Prelude.{
  ℕ, ◌+◌, ◌%◌, ◌^◌, Bool, true, false, some, leb, if◌then◌else◌, Outcome, ret, panic, Poll, ready,
  pending,
}
use aurix_tc365_async_rust.Cpu.Kernel
use aurix_tc365_async_rust.Executor.{Containers, World, with_task, wake_by_ref}

-- Up to the end of the poll. `suspends f` is `Pending`, to be polled as `f` from then on; `exits` is `Ready`.
-- A poll of a timer or of a yielder goes on with whether it was ready.
pub data Body (F : Type 0) : Type 0 where
  suspends : F → Body F
  exits : Body F
  wakes : ℕ → Body F → Body F
  reads_now : (ℕ → Body F) → Body F
  polls_timer : ℕ → (Bool → Body F) → Body F
  polls_yielder : Bool → (Bool → Body F) → Body F

abbrev pub is_ready : Poll (Unit {0}) → Bool
is_ready (ready _) = true
is_ready pending = false

module _ (X : Containers) {F : Type 0} where
  abbrev pub current : World X F → ℕ
  current w = Kernel.now X.handles X.alarms w.kernel

  -- A `Timer` is its `expires_at`.
  unfoldable pub after_ticks : ℕ → World X F → ℕ
  after_ticks ticks w = (current w + ticks) % 2 ^ 64

  unfoldable pub poll_timer : ℕ → ℕ → World X F → World X F × Poll (Unit {0})
  poll_timer expires_at t w =
      if leb expires_at (current w)
      then (w, ready tt)
      else (with_task X t (record (w.tasks t) { expires_at = some expires_at }) w, pending)

  -- A `Yielder` is its `yielded`, and is true after each poll.
  unfoldable pub poll_yielder : Bool → ℕ → World X F → World X F × Poll (Unit {0})
  unfolding wake_by_ref
  poll_yielder true t w = (w, ready tt)
  poll_yielder false t w = (wake_by_ref X t w, pending)

  -- The future of a header panics when the task is done.
  unfoldable pub run : Body F → ℕ → World X F → Outcome (World X F × F)
  run (suspends f) t w = ret (w, f)
  run exits t w = panic
  run (wakes u b) t w = run b t (wake_by_ref X u w)
  run (reads_now k) t w = run (k (current w)) t w
  run (polls_timer expires_at k) t w =
      let (w', p) = poll_timer expires_at t w in run (k (is_ready p)) t w'
  run (polls_yielder yielded k) t w =
      let (w', p) = poll_yielder yielded t w in run (k (is_ready p)) t w'
