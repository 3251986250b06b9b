-- ===== src/Sync/Pipe/Calls.antt =====
-- On a valid pipe the calls of sync/pipe.rs do not panic: what each returns, and that it is valid.
use aurix_tc365_async_rust.Prelude.{
  ℕ, ◌≡◌, Option, List, arith, ◌==◌, leb, if◌then◌else◌, length, take, min, ret, panic, Result, ok,
}
use aurix_tc365_async_rust.Prelude.Slices.{copy_at}
use aurix_tc365_async_rust.Sync.RingBuffer
use aurix_tc365_async_rust.Sync.RingBuffer.Inv.{popped, pushed, pop-ret, push-ret}
use aurix_tc365_async_rust.Sync.Waitqueue.{Waker}
use aurix_tc365_async_rust.Sync.Pipe.{
  Pipe, TryReadError, TryWriteError, get, get_mut_copy, wake_writer_if_full, wake_reader_if_empty,
  wait_for_bytes, wait_for_room, try_read_with_context, consume, try_write_with_context,
}
use aurix_tc365_async_rust.Sync.Pipe.Contents.{IsValid, length-get-pop_buf, length-get-push_buf}

-- The wake-up with which a call begins leaves the storage and the ring alone.
pub wake_writer_ring :
    (p : Pipe)
    → ((wake_writer_if_full p).0.buf ≡ p.buf) × ((wake_writer_if_full p).0.buffer ≡ p.buffer)
unfolding wake_writer_if_full
wake_writer_ring p = ground arith

pub wake_reader_ring :
    (p : Pipe)
    → ((wake_reader_if_empty p).0.buf ≡ p.buf) × ((wake_reader_if_empty p).0.buffer ≡ p.buffer)
unfolding wake_reader_if_empty
wake_reader_ring p = ground arith

module _ (cap : ℕ) where
  abbrev pub offered : Pipe → List ℕ
  offered p = get p.buf (RingBuffer.pop_buf cap p.buffer)

  abbrev pub room : Pipe → ℕ
  room p = length (get p.buf (RingBuffer.push_buf cap p.buffer))

  -- What `try_read_with_context` returns when no `assert!` fails.
  unfoldable pub read :
      Option Waker → List ℕ → Pipe → Pipe × List Waker × Result (ℕ × List ℕ) TryReadError
  read cx out p =
      let (s, woken) = wake_writer_if_full p in
      let n = min (length (offered p)) (length out) in
      if length (offered p) == 0 then wait_for_bytes cx s woken else (
        record s { buffer = popped cap p.buffer n },
        woken,
        ok (n, copy_at 0 (take n (offered p)) out),
      )

  unfoldable pub write : Option Waker → List ℕ → Pipe → Pipe × List Waker × Result ℕ TryWriteError
  write cx src p =
      let (s, woken) = wake_reader_if_empty p in
      let n = min (room p) (length src) in
      if room p == 0 then wait_for_room cx s woken else (
        record s {
          buf = get_mut_copy p.buf (RingBuffer.push_buf cap p.buffer) (take n src);
          buffer = pushed cap p.buffer n;
        },
        woken,
        ok n,
      )

  module _ {p : Pipe} (v : IsValid cap p) where
    pub try_read-ret :
        (cx : Option Waker) (out : List ℕ)
        → try_read_with_context cap cx out p ≡ ret (read cx out p)
    unfolding try_read_with_context read
    try_read-ret cx out = ground (
      arith,
      wake_writer_ring p,
      length-get-pop_buf cap v.ring p.buf v.storage,
      pop-ret cap v.ring (min (length (offered p)) (length out)),
    )

    pub try_write-ret :
        (cx : Option Waker) (src : List ℕ)
        → try_write_with_context cap cx src p ≡ ret (write cx src p)
    unfolding try_write_with_context write
    try_write-ret cx src = ground (
      arith,
      wake_reader_ring p,
      length-get-push_buf cap v.ring p.buf v.storage,
      push-ret cap v.ring (min (room p) (length src)),
    )

    pub consume-ret :
        (amt : ℕ)
        → consume cap amt p ≡ (
            if leb amt (length (offered p))
            then ret (record p { buffer = popped cap p.buffer amt })
            else panic)
    unfolding consume
    consume-ret amt =
        ground (arith, length-get-pop_buf cap v.ring p.buf v.storage, pop-ret cap v.ring amt)
