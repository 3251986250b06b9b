-- ===== src/Sync/Pipe/Client.antt =====
-- What a client may call on a pipe of sync/pipe.rs, and runs of its calls.
use aurix_tc365_async_rust.Prelude.{
  ℕ, ◌≡◌, Option, List, [], ◌∷◌, ◌++◌, Bool, false, not, ◌&&◌, ltb, ◌==◌, length, take, Outcome,
  ret, ◌>>=◌, Result, ok, err,
}
use aurix_tc365_async_rust.Sync.Waitqueue.{Waker}
use aurix_tc365_async_rust.Sync.Pipe.{
  Pipe, TryReadError, TryWriteError, try_read_with_context, try_fill_buf_with_context, consume,
  try_write_with_context, clear,
}
use aurix_tc365_async_rust.Sync.Pipe.Contents.{IsValid, contents}
use aurix_tc365_async_rust.Sync.Pipe.Calls.{offered}

-- What a client of the pipe does. `take_filled` is a fill whose bytes the client takes, and consumes
-- `amt` of them at once; `consumes` is a `consume` at any time.
pub data Call : Type 0 where
  read_to : Option Waker → List ℕ → Call
  fills : Option Waker → Call
  take_filled : Option Waker → ℕ → Call
  consumes : ℕ → Call
  write_from : Option Waker → List ℕ → Call
  clears : Call

-- Bytes that left the pipe, and how.
pub data Leaving : Type 0 where
  delivered consumed cleared : List ℕ → Leaving

abbrev pub bytes : List Leaving → List ℕ
bytes [] = []
bytes (delivered bs ∷ ls) = bs ++ bytes ls
bytes (consumed bs ∷ ls) = bs ++ bytes ls
bytes (cleared bs ∷ ls) = bs ++ bytes ls

abbrev pub got : Result (ℕ × List ℕ) TryReadError → List ℕ
got (ok (n, out)) = take n out
got (err e) = []

abbrev pub put : List ℕ → Result ℕ TryWriteError → List ℕ
put src (ok n) = take n src
put src (err e) = []

module _ (cap : ℕ) where
  unfoldable pub consume_filled :
      ℕ → Pipe → Result (List ℕ) TryReadError → Outcome (Pipe × List Leaving)
  consume_filled amt p (err e) = ret (p, [])
  consume_filled amt p (ok bs) = do p' ← consume cap amt p; ret (p', delivered (take amt bs) ∷ [])

  -- The pipe after the call, the bytes that left it and the bytes that it accepted.
  unfoldable pub step : Call → Pipe → Outcome (Pipe × List Leaving × List ℕ)
  unfolding consume_filled
  step (read_to cx out) p = do
    (p', woken, r) ← try_read_with_context cap cx out p
    ret (p', delivered (got r) ∷ [], [])
  step (fills cx) p = let (s, woken, r) = try_fill_buf_with_context cap cx p in ret (s, [], [])
  step (take_filled cx amt) p =
      let (s, woken, r) = try_fill_buf_with_context cap cx p in
      do (p', ls) ← consume_filled amt s r; ret (p', ls, [])
  step (consumes amt) p = do
    p' ← consume cap amt p
    ret (p', consumed (take amt (offered cap p)) ∷ [], [])
  step (write_from cx src) p = do
    (p', woken, r) ← try_write_with_context cap cx src p
    ret (p', [], put src r)
  step clears p = let (p', woken) = clear p in ret (p', cleared (contents cap p) ∷ [], [])

  unfoldable pub run : List Call → Pipe → Outcome (Pipe × List Leaving × List ℕ)
  run [] p = ret (p, [], [])
  run (c ∷ cs) p = do
    (p', ls, as') ← step c p
    (p'', more_ls, more_as) ← run cs p'
    ret (p'', ls ++ more_ls, as' ++ more_as)

  -- The call consumes more bytes than `pop_buf` offers.
  abbrev pub overdraws : Call → Pipe → Bool
  overdraws (read_to cx out) p = false
  overdraws (fills cx) p = false
  overdraws (take_filled cx amt) p =
      not (length (offered cap p) == 0) && ltb (length (offered cap p)) amt
  overdraws (consumes amt) p = ltb (length (offered cap p)) amt
  overdraws (write_from cx src) p = false
  overdraws clears p = false

-- The pipe is valid after the call, and the bytes moved as those of a queue.
abbrev pub Moves : ℕ → Pipe → Pipe × List Leaving × List ℕ → Type 0
Moves cap p (p', ls, accepted) =
    IsValid cap p' × (bytes ls ++ contents cap p' ≡ contents cap p ++ accepted)
