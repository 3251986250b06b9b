-- ===== src/Sync/Pipe/Filling.antt =====
-- What a fill of sync/pipe.rs shows, and what `consume` does with it.
use aurix_tc365_async_rust.Prelude.{
  ℕ, ◌≤◌, ◌<◌, ◌≡◌, Option, arith, ◌==◌, if◌then◌else◌, length, take, drop, Returns, ret, panic, ok,
  err,
}
use aurix_tc365_async_rust.Sync.RingBuffer.Inv.{popped, pop-IsValid}
use aurix_tc365_async_rust.Sync.Waitqueue.{Waker}
use aurix_tc365_async_rust.Sync.Pipe.{
  Pipe, empty, wait_for_bytes, try_fill_buf_with_context, consume,
}
use aurix_tc365_async_rust.Sync.Pipe.Contents.{
  IsValid, contents, length-get-pop_buf, take-get-pop_buf, contents-popped,
}
use aurix_tc365_async_rust.Sync.Pipe.Calls.{wake_writer_ring, offered, consume-ret}

pub same-IsValid :
    (cap : ℕ) (p p' : Pipe)
    → p'.buf ≡ p.buf
    → p'.buffer ≡ p.buffer
    → IsValid cap p
    → IsValid cap p' × (contents cap p' ≡ contents cap p) × (offered cap p' ≡ offered cap p)
same-IsValid cap p p' e f v =
    (record { ring = rw f v.ring; storage = rw e v.storage }, rw (e, f), rw (e, f))

module _ (cap : ℕ) {p : Pipe} (v : IsValid cap p) where
  pub fill-parts :
      (cx : Option Waker)
      → ((try_fill_buf_with_context cap cx p).0.buf ≡ p.buf)
        × ((try_fill_buf_with_context cap cx p).0.buffer ≡ p.buffer)
        × ((try_fill_buf_with_context cap cx p).2
            ≡ (if length (offered cap p) == 0 then err empty else ok (offered cap p)))
  unfolding try_fill_buf_with_context wait_for_bytes
  fill-parts cx = ground (arith, wake_writer_ring p)

  pub consume_within :
      (amt : ℕ)
      → amt ≤ length (offered cap p)
      → (consume cap amt p ≡ ret (record p { buffer = popped cap p.buffer amt }))
        × (IsValid cap (record p { buffer = popped cap p.buffer amt })
            × (contents cap (record p { buffer = popped cap p.buffer amt })
                ≡ drop amt (contents cap p))
            × (take amt (offered cap p) ≡ take amt (contents cap p)))
  consume_within amt h = (
    ground (arith, consume-ret cap v amt),
    ground (
      arith,
      length-get-pop_buf cap v.ring p.buf v.storage,
      pop-IsValid cap v.ring amt,
      contents-popped cap v.ring p.buf v.storage amt,
      take-get-pop_buf cap v.ring p.buf v.storage amt,
    ),
  )

  -- A valid pipe of capacity `cap`: `consume` of at most what `pop_buf` offers does not panic, keeps
  -- the pipe valid and drops the `amt` oldest bytes, the first `amt` of the offered ones; any more
  -- panics.
  pub consume_lem :
      (amt : ℕ)
      → (amt ≤ length (offered cap p)
          → Returns (consume cap amt p) λ p'.
            IsValid cap p'
            × (contents cap p' ≡ drop amt (contents cap p))
            × (take amt (offered cap p) ≡ take amt (contents cap p)))
        × (length (offered cap p) < amt → consume cap amt p ≡ panic)
  consume_lem amt = (
    λ h. let (run, after) = consume_within amt h in (_, run, after),
    λ h. ground (arith, consume-ret cap v amt),
  )
