-- ===== src/Sync/Pipe/Futures.antt =====
-- The futures of sync/pipe.rs: what one poll of each does.
use aurix_tc365_async_rust.Prelude.{
  ℕ, ◌≡◌, ◌≢◌, refl, true, false, Bool, some, List, [], arith, ◌==◌, if◌then◌else◌, length, Outcome,
  ret, panic, ◌>>=◌, Result, ok, err, Poll, poll_of, ap, sym, ◌∙◌, ready, pending, Returns,
}
use aurix_tc365_async_rust.Sync.Waitqueue.{Waker}
use aurix_tc365_async_rust.Sync.Pipe.{
  TryReadError, empty, Pipe, try_read_with_context, try_write_with_context,
  try_fill_buf_with_context,
}
use aurix_tc365_async_rust.Sync.Pipe.Contents.{IsValid, contents}
use aurix_tc365_async_rust.Sync.Pipe.Calls.{offered}
use aurix_tc365_async_rust.Sync.Pipe.Stream.{offered_lem}
use aurix_tc365_async_rust.Sync.Pipe.Filling.{fill-parts, same-IsValid}

-- Does a fill future hold its reference to the pipe after a poll?
unfoldable pub still_held : Result (List ℕ) TryReadError → Bool
still_held (ok bytes) = false
still_held (err e) = true

module _ (cap : ℕ) (cx : Waker) where
  -- `WriteFuture::poll`
  unfoldable pub poll_write : List ℕ → Pipe → Outcome (Pipe × List Waker × Poll ℕ)
  poll_write buf p =
      try_write_with_context cap (some cx) buf p >>= λ (p', woken, r). ret (p', woken, poll_of r)

  -- `ReadFuture::poll`
  unfoldable pub poll_read : List ℕ → Pipe → Outcome (Pipe × List Waker × Poll (ℕ × List ℕ))
  poll_read buf p =
      try_read_with_context cap (some cx) buf p >>= λ (p', woken, r). ret (p', woken, poll_of r)

  -- `FillBufFuture::poll`: the flag says that the future still holds its reference to the pipe, which
  -- it gives up when it is ready.
  unfoldable pub poll_fill_buf : Bool → Pipe → Outcome (Pipe × Bool × List Waker × Poll (List ℕ))
  poll_fill_buf false p = panic
  poll_fill_buf true p =
      let (p', woken, r) = try_fill_buf_with_context cap (some cx) p in
      ret (p', still_held r, woken, poll_of r)

  abbrev pub Filled : Pipe → Pipe × Bool × List Waker × Poll (List ℕ) → Type 0
  Filled p (p', held, woken, ready bytes) =
      (held ≡ false) × (bytes ≢ []) × (bytes ≡ offered cap p) × (contents cap p' ≡ contents cap p)
  Filled p (p', held, woken, pending) = (held ≡ true) × (contents cap p ≡ [])

  Filled-of :
      {p : Pipe}
      → IsValid cap p
      → (p' : Pipe) (woken : List Waker) (r : Result (List ℕ) TryReadError)
      → r ≡ (if length (offered cap p) == 0 then err empty else ok (offered cap p))
      → contents cap p' ≡ contents cap p
      → Filled p (p', still_held r, woken, poll_of r)
  unfolding still_held
  Filled-of {p} v p' woken (ok bytes) e same =
      let shown : bytes ≡ offered cap p = ground arith in
      let some_bytes : length (offered cap p) ≢ 0 = ground arith in
      (refl, (λ none. some_bytes (ap length (sym shown ∙ none))), shown, same)
  Filled-of {p} v p' woken (err x) e same = (refl, (offered_lem cap v).1 (ground arith))

  -- On a valid pipe a fill future shows a prefix of the contents, which is not empty, or is pending on
  -- an empty pipe. Polled again after it was ready, it panics.
  pub poll_fill_buf_lem :
      {p : Pipe}
      → IsValid cap p
      → Returns (poll_fill_buf true p) (Filled p) × (poll_fill_buf false p ≡ panic)
  unfolding poll_fill_buf
  poll_fill_buf_lem {p} v =
      let (p', woken, r) = try_fill_buf_with_context cap (some cx) p in
      let (b, r', x) = fill-parts cap v (some cx) in
      (
        (
          (p', still_held r, woken, poll_of r),
          refl,
          Filled-of v p' woken r x (same-IsValid cap p p' b r' v).1,
        ),
        refl,
      )
