-- ===== src/Sync/Pipe.antt =====
-- sync/pipe.rs: a byte stream between tasks over the ring of sync/ring_buffer.rs.
-- A call holds the blocking mutex throughout, so it is one step. It returns the pipe, the wakers
-- that it woke, and its result.
pub mod Contents
pub mod Calls
pub mod Stream
pub mod Filling
pub mod Client
pub mod Steps
pub mod Runs
pub mod Wakeups
pub mod Traces
pub mod Stranded
pub mod Futures
pub mod WriteAll
mod Tests
use aurix_tc365_async_rust.Prelude.{
  ℕ, ◌-◌, Bool, Option, none, some, List, [], ◌∷◌, ◌++◌, Outcome, ret, panic, ◌>>=◌, ◌>>◌, assert,
  Result, ok, err, Poll, ready, pending, leb, ◌==◌, if◌then◌else◌, length, take, min, sub_usize,
}
use aurix_tc365_async_rust.Prelude.Slices.{slice, copy_at}
use aurix_tc365_async_rust.Sync.RingBuffer
use aurix_tc365_async_rust.Sync.RingBuffer.{RingBuffer, Range}
use aurix_tc365_async_rust.Sync.Waitqueue
use aurix_tc365_async_rust.Sync.Waitqueue.{Waker, WakerRegistration}

pub data TryReadError : Type 0 where
  empty : TryReadError

pub data TryWriteError : Type 0 where
  full : TryWriteError

-- `Pipe` with its `PipeState`.
pub record Pipe : Type 0 where
  pub buf : List ℕ
  pub buffer : RingBuffer
  pub read_waker : WakerRegistration
  pub write_waker : WakerRegistration

abbrev zeros : ℕ → List ℕ
zeros = elim [ ℕ.zero ↦ [] | ℕ.suc (n → rest) ↦ 0 ∷ rest ]

-- `Buffer::get`
unfoldable pub get : List ℕ → Range → List ℕ
get buf r = slice r.start r.end buf

-- `Buffer::get_mut`, with what the caller copies to the front of the slice.
unfoldable pub get_mut_copy : List ℕ → Range → List ℕ → List ℕ
get_mut_copy buf r bytes = copy_at r.start bytes buf

-- `if s.buffer.is_full() { s.write_waker.wake() }`
unfoldable pub wake_writer_if_full : Pipe → Pipe × List Waker
unfolding RingBuffer.is_full
wake_writer_if_full p =
    let (w, woken) = Waitqueue.wake p.write_waker in
    if RingBuffer.is_full p.buffer then (record p { write_waker = w }, woken) else (p, [])

-- `if s.buffer.is_empty() { s.read_waker.wake() }`
unfoldable pub wake_reader_if_empty : Pipe → Pipe × List Waker
unfolding RingBuffer.is_empty
wake_reader_if_empty p =
    let (w, woken) = Waitqueue.wake p.read_waker in
    if RingBuffer.is_empty p.buffer then (record p { read_waker = w }, woken) else (p, [])

-- `if let Some(cx) = cx { s.read_waker.register(cx.waker()) }`, and the error that follows it.
unfoldable pub wait_for_bytes {ℓ} :
    {A : Type ℓ} → Option Waker → Pipe → List Waker → Pipe × List Waker × Result A TryReadError
wait_for_bytes cx p woken =
    let (w, more) = Waitqueue.register_context p.read_waker cx in
    (record p { read_waker = w }, woken ++ more, err empty)

unfoldable pub wait_for_room :
    Option Waker → Pipe → List Waker → Pipe × List Waker × Result ℕ TryWriteError
wait_for_room cx p woken =
    let (w, more) = Waitqueue.register_context p.write_waker cx in
    (record p { write_waker = w }, woken ++ more, err full)

unfoldable pub clear : Pipe → Pipe × List Waker
clear p =
    let (w, woken) = Waitqueue.wake p.write_waker in
    (record p { buffer = RingBuffer.clear p.buffer; write_waker = w }, woken)

-- `cap` is the const parameter `N`.
module _ (cap : ℕ) where
  unfoldable pub new : Pipe
  new = record {
    buf = zeros cap;
    buffer = RingBuffer.new;
    read_waker = Waitqueue.new;
    write_waker = Waitqueue.new;
  }

  -- `out` is the caller's `buf`: on success it comes back with the count of bytes copied to it.
  unfoldable pub try_read_with_context :
      Option Waker → List ℕ → Pipe → Outcome (Pipe × List Waker × Result (ℕ × List ℕ) TryReadError)
  unfolding get
  try_read_with_context cx out p =
      let (s, woken) = wake_writer_if_full p in
      let available = get s.buf (RingBuffer.pop_buf cap s.buffer) in
      let n = min (length available) (length out) in
      if length available == 0 then ret (wait_for_bytes cx s woken) else do
        b ← RingBuffer.pop cap s.buffer n
        ret (record s { buffer = b }, woken, ok (n, copy_at 0 (take n available) out))

  unfoldable pub try_fill_buf_with_context :
      Option Waker → Pipe → Pipe × List Waker × Result (List ℕ) TryReadError
  unfolding get
  try_fill_buf_with_context cx p =
      let (s, woken) = wake_writer_if_full p in
      let available = get s.buf (RingBuffer.pop_buf cap s.buffer) in
      if length available == 0 then wait_for_bytes cx s woken else (s, woken, ok available)

  unfoldable pub consume : ℕ → Pipe → Outcome Pipe
  consume amt p =
      let available = RingBuffer.pop_buf cap p.buffer in
      do
        assert (leb amt (available.end - available.start))
        b ← RingBuffer.pop cap p.buffer amt
        ret (record p { buffer = b })

  unfoldable pub try_write_with_context :
      Option Waker → List ℕ → Pipe → Outcome (Pipe × List Waker × Result ℕ TryWriteError)
  unfolding get get_mut_copy
  try_write_with_context cx src p =
      let (s, woken) = wake_reader_if_empty p in
      let slots = RingBuffer.push_buf cap s.buffer in
      let available = get s.buf slots in
      let n = min (length available) (length src) in
      if length available == 0 then ret (wait_for_room cx s woken) else do
        b ← RingBuffer.push cap s.buffer n
        ret (record s { buf = get_mut_copy s.buf slots (take n src); buffer = b }, woken, ok n)

  unfoldable pub len : Pipe → ℕ
  len p = RingBuffer.len cap p.buffer

  unfoldable pub is_full : Pipe → Bool
  unfolding len
  is_full p = len p == cap

  unfoldable pub is_empty : Pipe → Bool
  unfolding len
  is_empty p = len p == 0

  unfoldable pub free_capacity : Pipe → ℕ
  unfolding len
  free_capacity p = sub_usize cap (len p)
