-- ===== src/Sync/Signal/Tests.antt =====
-- Runs of the signal of sync/signal.rs.
use aurix_tc365_async_rust.Prelude.{ℕ, ◌≡◌, true, List, [], ◌∷◌}
use aurix_tc365_async_rust.Sync.Signal.{waiting, signaled, signal, reset}
use aurix_tc365_async_rust.Sync.Signal.Latest.{
  Call, signals, resets, polls, takes, run, run_cell, value, run-cell,
}
use aurix_tc365_async_rust.Sync.Signal.Wakeups.{trace, reset_strands_waiter}

abbrev signal_calls : List (Call ℕ)
signal_calls = polls 3 ∷ signals 40 ∷ signals 41 ∷ polls 3 ∷ polls 3 ∷ takes ∷ []

run-cell_example : run signal_calls (signaled 39) ≡ run_cell signal_calls (value (signaled 39))
run-cell_example = run-cell signal_calls (signaled 39)

-- The task 3 is served once, and then waits again.
abbrev served_once : List (Call ℕ)
served_once = polls 3 ∷ signals 40 ∷ polls 3 ∷ polls 3 ∷ []

reset_strands_waiter_example :
    (trace {T = ℕ} 3 (resets ∷ signals 40 ∷ []) (waiting 3) true ≡ (signaled 40, true))
    × ((signal {T = ℕ} 40 (reset (waiting 3))).1 ≡ [])
reset_strands_waiter_example = reset_strands_waiter 3 40
