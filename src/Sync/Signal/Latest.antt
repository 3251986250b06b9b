-- ===== src/Sync/Signal/Latest.antt =====
-- The signal of sync/signal.rs is a cell that holds at most the latest value.
use aurix_tc365_async_rust.Prelude.{
  ◌≡◌, refl, ap, ap₂, ◌∙◌, Option, List, [], ◌∷◌, Poll, ready, pending, arith,
}
use aurix_tc365_async_rust.Sync.Waitqueue.{Waker}
use aurix_tc365_async_rust.Sync.Signal.{
  State, none, waiting, signaled, signal, reset, poll_wait, try_take,
}

pub data Call (T : Type 0) : Type 0 where
  signals : T → Call T
  resets : Call T
  polls : Waker → Call T
  takes : Call T

module _ {T : Type 0} where
  abbrev pub value : State T → Option T
  value (signaled v) = Option.some v
  value _ = Option.none

  abbrev got : Poll T → Option T
  got (ready v) = Option.some v
  got pending = Option.none

  -- The state after a call, and the value that it gave.
  unfoldable pub step : Call T → State T → State T × Option T
  step (signals v) s = ((signal v s).0, Option.none)
  step resets s = (reset s, Option.none)
  step (polls cx) s = let (s', woken, r) = poll_wait cx s in (s', got r)
  step takes s = try_take s

  unfoldable pub run : List (Call T) → State T → List (Option T)
  run [] s = []
  run (c ∷ cs) s = let (s', r) = step c s in r ∷ run cs s'

  -- The cell: a signal overwrites, and a poll and a take empty it and give what was there.
  unfoldable pub cell : Call T → Option T → Option T × Option T
  cell (signals v) x = (Option.some v, Option.none)
  cell resets x = (Option.none, Option.none)
  cell (polls cx) x = (Option.none, x)
  cell takes x = (Option.none, x)

  unfoldable pub run_cell : List (Call T) → Option T → List (Option T)
  run_cell [] x = []
  run_cell (c ∷ cs) x = let (x', r) = cell c x in r ∷ run_cell cs x'

  step-cell :
      (c : Call T) (s : State T) → let (s', r) = step c s in (value s', r) ≡ cell c (value s)
  unfolding step cell signal reset poll_wait try_take
  step-cell (signals v) none = refl
  step-cell (signals v) (waiting w) = refl
  step-cell (signals v) (signaled x) = refl
  step-cell resets s = refl
  step-cell (polls cx) none = refl
  step-cell (polls cx) (waiting w) = ground arith
  step-cell (polls cx) (signaled x) = refl
  step-cell takes none = refl
  step-cell takes (waiting w) = refl
  step-cell takes (signaled x) = refl

  -- Any sequence of signals, resets, polls of `wait` by any tasks and takes gives, call by call, what
  -- the cell gives that starts with the signal's value: each value is given once, and only the latest.
  pub run-cell : (cs : List (Call T)) (s : State T) → run cs s ≡ run_cell cs (value s)
  unfolding run run_cell
  run-cell [] s = refl
  run-cell (c ∷ cs) s =
      let e = step-cell c s in
      ap₂ ◌∷◌ (ap (λ p. p.1) e) (run-cell cs (step c s).0 ∙ ap (λ p. run_cell cs p.0) e)
