-- ===== src/Sync/Pipe/Wakeups.antt =====
-- Who sleeps on a pipe of sync/pipe.rs, and whether the call that ends the wait wakes it.
use aurix_tc365_async_rust.Prelude.{
  ℕ, ◌≡◌, true, false, Bool, Option, some, none, List, ◌≤◌, arith, length, Result, ok, err,
}
use aurix_tc365_async_rust.Sync.RingBuffer
use aurix_tc365_async_rust.Sync.RingBuffer.Inv.{popped, pop_buf_lem, push_buf_lem}
use aurix_tc365_async_rust.Sync.Waitqueue
use aurix_tc365_async_rust.Sync.Waitqueue.{Waker}
use aurix_tc365_async_rust.Sync.Waitqueue.Sleep.{sleeps}
use aurix_tc365_async_rust.Sync.Pipe.{
  Pipe, wake_writer_if_full, wake_reader_if_empty, wait_for_bytes, wait_for_room,
  try_fill_buf_with_context, clear,
}
use aurix_tc365_async_rust.Sync.Pipe.Contents.{IsValid, length-get-pop_buf, length-get-push_buf}
use aurix_tc365_async_rust.Sync.Pipe.Calls.{offered, read, write}

-- Does a task sleep as a reader, and as a writer?
pub record Asleep : Type 0 where
  pub reader : Bool
  pub writer : Bool

-- A task that sleeps is registered, and what it waits for has not come.
pub record Waits (w : Waker) (p : Pipe) (a : Asleep) : Type 0 where
  pub reads :
      a.reader ≡ true → (p.read_waker.waker ≡ some w) × (RingBuffer.is_empty p.buffer ≡ true)
  pub writes :
      a.writer ≡ true → (p.write_waker.waker ≡ some w) × (RingBuffer.is_full p.buffer ≡ true)

abbrev pub refused {ℓ κ} : {A : Type ℓ} {E : Type κ} → Result A E → Bool
refused (ok a) = false
refused (err e) = true

-- What a task is after a call, for the reader or the writer, that was or was not refused.
module _ (w : Waker) (a : Asleep) (cx : Option Waker) (is_refused : Bool) (woken : List Waker) where
  abbrev pub after_reader_call : Asleep
  after_reader_call = record {
    reader = sleeps w a.reader cx is_refused woken;
    writer = sleeps w a.writer none false woken;
  }

  abbrev pub after_writer_call : Asleep
  after_writer_call = record {
    reader = sleeps w a.reader none false woken;
    writer = sleeps w a.writer cx is_refused woken;
  }

module _ (w : Waker) (cap : ℕ) {p : Pipe} (v : IsValid cap p) (a : Asleep) (h : Waits w p a) where
  pub read-Waits :
      (cx : Option Waker) (out : List ℕ)
      → let (p', woken, r) = read cap cx out p in
        Waits w p' (after_reader_call w a cx (refused r) woken)
  unfolding read wake_writer_if_full wait_for_bytes Waitqueue.wake Waitqueue.register_context
      RingBuffer.is_empty
  read-Waits none out =
      ground (arith, length-get-pop_buf cap v.ring p.buf v.storage, pop_buf_lem cap v.ring)
  read-Waits (some x) out =
      ground (arith, length-get-pop_buf cap v.ring p.buf v.storage, pop_buf_lem cap v.ring)

  pub fill-Waits :
      (cx : Option Waker)
      → let (p', woken, r) = try_fill_buf_with_context cap cx p in
        Waits w p' (after_reader_call w a cx (refused r) woken)
  unfolding try_fill_buf_with_context wake_writer_if_full wait_for_bytes Waitqueue.wake
      Waitqueue.register_context RingBuffer.is_empty
  fill-Waits none =
      ground (arith, length-get-pop_buf cap v.ring p.buf v.storage, pop_buf_lem cap v.ring)
  fill-Waits (some x) =
      ground (arith, length-get-pop_buf cap v.ring p.buf v.storage, pop_buf_lem cap v.ring)

  pub write-Waits :
      (cx : Option Waker) (src : List ℕ)
      → let (p', woken, r) = write cap cx src p in
        Waits w p' (after_writer_call w a cx (refused r) woken)
  unfolding write wake_reader_if_empty wait_for_room Waitqueue.wake Waitqueue.register_context
      RingBuffer.is_full RingBuffer.is_empty
  write-Waits none src =
      ground (arith, length-get-push_buf cap v.ring p.buf v.storage, push_buf_lem cap v.ring)
  write-Waits (some x) src =
      ground (arith, length-get-push_buf cap v.ring p.buf v.storage, push_buf_lem cap v.ring)

  pub clear-Waits : let (p', woken) = clear p in Waits w p' (after_reader_call w a none false woken)
  unfolding clear Waitqueue.wake RingBuffer.is_empty RingBuffer.clear
  clear-Waits = ground arith

  -- `consume` wakes nobody: only a writer that does not sleep is safe with it.
  pub consume-Waits :
      (amt : ℕ)
      → amt ≤ length (offered cap p)
      → a.writer ≡ false
      → Waits w (record p { buffer = popped cap p.buffer amt }) a
  unfolding RingBuffer.is_empty
  consume-Waits amt k no_writer =
      ground (arith, length-get-pop_buf cap v.ring p.buf v.storage, pop_buf_lem cap v.ring)
