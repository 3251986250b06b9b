-- ===== src/Sync/Signal/Wakeups.antt =====
-- Who sleeps on the signal of sync/signal.rs, and whom `reset` forgets.
use aurix_tc365_async_rust.Prelude.{
  ◌≡◌, refl, true, false, Bool, Option, List, [], ◌∷◌, Poll, ready, pending, arith,
}
use aurix_tc365_async_rust.Sync.Waitqueue.{Waker}
use aurix_tc365_async_rust.Sync.Waitqueue.Sleep.{sleeps}
use aurix_tc365_async_rust.Sync.Signal.{
  State, none, waiting, signaled, signal, reset, poll_wait, try_take,
}
use aurix_tc365_async_rust.Sync.Signal.Latest.{Call, signals, resets, polls, takes}

abbrev is_pending {ℓ} : {A : Type ℓ} → Poll A → Bool
is_pending (ready a) = false
is_pending pending = true

module _ {T : Type 0} (w : Waker) where
  -- The state after a call, and whether the task `w` then sleeps.
  unfoldable pub observe : Call T → State T → Bool → State T × Bool
  observe (signals v) s a = let (s', woken) = signal v s in (s', sleeps w a Option.none false woken)
  observe resets s a = (reset s, a)
  observe (polls cx) s a =
      let (s', woken, r) = poll_wait cx s in (s', sleeps w a (Option.some cx) (is_pending r) woken)
  observe takes s a = ((try_take s).0, a)

  unfoldable pub trace : List (Call T) → State T → Bool → State T × Bool
  trace [] s a = (s, a)
  trace (c ∷ cs) s a = let (s', a') = observe c s a in trace cs s' a'

  abbrev is_reset : Call T → Bool
  is_reset resets = true
  is_reset _ = false

  abbrev pub NoReset : List (Call T) → Type 0
  NoReset [] = Unit
  NoReset (c ∷ cs) = (is_reset c ≡ false) × NoReset cs

  observe-waiting :
      (c : Call T) (s : State T) (a : Bool)
      → is_reset c ≡ false
      → (a ≡ true → s ≡ waiting w)
      → let (s', a') = observe c s a in a' ≡ true → s' ≡ waiting w
  unfolding observe signal poll_wait try_take
  observe-waiting (signals v) none a n h = ground arith
  observe-waiting (signals v) (waiting x) a n h = ground arith
  observe-waiting (signals v) (signaled x) a n h = ground arith
  observe-waiting resets s a n h = cc
  observe-waiting (polls cx) none a n h = ground arith
  observe-waiting (polls cx) (waiting x) a n h = ground arith
  observe-waiting (polls cx) (signaled x) a n h = ground arith
  observe-waiting takes none a n h = h
  observe-waiting takes (waiting x) a n h = h
  observe-waiting takes (signaled x) a n h = ground arith

  trace-waiting :
      (cs : List (Call T)) (s : State T) (a : Bool)
      → NoReset cs
      → (a ≡ true → s ≡ waiting w)
      → let (s', a') = trace cs s a in a' ≡ true → s' ≡ waiting w
  unfolding trace
  trace-waiting [] s a n h = h
  trace-waiting (c ∷ cs) s a n h =
      let (s', a') = observe c s a in trace-waiting cs s' a' n.1 (observe-waiting c s a n.0 h)

  -- Any sequence of signals, polls of `wait` and takes, with no `reset`, from any state in which the
  -- task `w` does not sleep: in the end it sleeps only if the signal holds its waker.
  pub sleeping_on_signal :
      (cs : List (Call T)) (s : State T)
      → NoReset cs
      → let (s', a') = trace cs s false in a' ≡ true → s' ≡ waiting w
  sleeping_on_signal cs s n = trace-waiting cs s false n (λ e. cc)

  -- After a `reset` while the task `w` waits, a signal of any value wakes nobody: the value is there,
  -- and `w` sleeps on.
  pub reset_strands_waiter :
      (v : T)
      → (trace (resets ∷ signals v ∷ []) (waiting w) true ≡ (signaled v, true))
        × ((signal v (reset (waiting w))).1 ≡ [])
  unfolding trace observe reset signal
  reset_strands_waiter v = (refl, refl)
