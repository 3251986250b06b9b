-- ===== src/Sync/Pipe/Stranded.antt =====
-- `Pipe::consume` of sync/pipe.rs wakes no writer, and what that does to one that waits.
use aurix_tc365_async_rust.Prelude.{
  ℕ, ◌≡◌, ◌≤◌, ◌<◌, refl, true, false, Bool, Option, some, List, [], ◌∷◌, arith, length, min,
  Returns, ◌>>=◌,
}
use aurix_tc365_async_rust.Sync.RingBuffer
use aurix_tc365_async_rust.Sync.RingBuffer.Inv.{popped}
use aurix_tc365_async_rust.Sync.Waitqueue.{Waker}
use aurix_tc365_async_rust.Sync.Pipe.{
  Pipe, wake_writer_if_full, wait_for_bytes, try_fill_buf_with_context, consume,
}
use aurix_tc365_async_rust.Sync.Pipe.Contents.{IsValid, contents, length-contents_of}
use aurix_tc365_async_rust.Sync.Pipe.Calls.{offered, read, try_read-ret}
use aurix_tc365_async_rust.Sync.Pipe.Stream.{read_lem}
use aurix_tc365_async_rust.Sync.Pipe.Filling.{fill-parts, same-IsValid, consume_within}
use aurix_tc365_async_rust.Sync.Pipe.Wakeups.{Asleep, refused}
use aurix_tc365_async_rust.Sync.Pipe.Traces.{
  Event, reads, fills, consumes, writes, clears, perform, observe, trace,
}

-- The writer is registered, and there is room.
record Stranded (w : Waker) (p : Pipe) : Type 0 where
  registered : p.write_waker.waker ≡ some w
  has_room : RingBuffer.is_full p.buffer ≡ false

abbrev is_readers : Event → Bool
is_readers (writes cx src) = false
is_readers clears = false
is_readers _ = true

abbrev pub ReadersOnly : List Event → Type 0
ReadersOnly [] = Unit
ReadersOnly (e ∷ es) = (is_readers e ≡ true) × ReadersOnly es

module _ (w : Waker) (cap : ℕ) {p : Pipe} where
  read-Stranded :
      (cx : Option Waker) (out : List ℕ) → Stranded w p → Stranded w (read cap cx out p).0
  unfolding read wake_writer_if_full wait_for_bytes RingBuffer.is_full
  read-Stranded cx out h = ground arith

  fill-Stranded :
      (cx : Option Waker) → Stranded w p → Stranded w (try_fill_buf_with_context cap cx p).0
  unfolding try_fill_buf_with_context wake_writer_if_full wait_for_bytes RingBuffer.is_full
  fill-Stranded cx h = ground arith

  consume-Stranded :
      (amt : ℕ) → Stranded w p → Stranded w (record p { buffer = popped cap p.buffer amt })
  unfolding RingBuffer.is_full
  consume-Stranded amt h = ground arith

  perform-Stranded :
      IsValid cap p
      → Stranded w p
      → (e : Event) → is_readers e ≡ true
      → Returns (perform cap e p) λ (p', woken, r). IsValid cap p' × Stranded w p'
  unfolding perform
  perform-Stranded v h (reads cx out) k =
      let (p', woken, r) = read cap cx out p in
      (
        (p', woken, refused r),
        rw (try_read-ret cap v cx out),
        ((read_lem cap v cx out).0, read-Stranded cx out h),
      )
  perform-Stranded v h (fills cx) k =
      let (p', woken, r) = try_fill_buf_with_context cap cx p in
      let (b, r', x) = fill-parts cap v cx in
      ((p', woken, refused r), refl, ((same-IsValid cap p p' b r' v).0, fill-Stranded cx h))
  perform-Stranded v h (consumes amt) k =
      let n = min amt (length (offered cap p)) in
      let (run, (v', left, prefix)) = consume_within cap v n (omega arith) in
      ((record p { buffer = popped cap p.buffer n }, [], false), rw run, (v', consume-Stranded n h))
  perform-Stranded v h (writes cx src) k = cc
  perform-Stranded v h clears k = cc

trace-Stranded :
    (w : Waker) (cap : ℕ) (es : List Event) (p : Pipe) (a : Asleep)
    → ReadersOnly es
    → IsValid cap p
    → Stranded w p
    → Returns (trace cap w es p a) λ (p', a'). IsValid cap p' × Stranded w p'
unfolding trace
trace-Stranded w cap [] p a n v h = ((p, a), refl, (v, h))
trace-Stranded w cap (e ∷ es) p a n v h =
    let ((p', woken, r), run, (v', h')) = perform-Stranded w cap v h e n.0 in
    let (x, run', d) = trace-Stranded w cap es p' (observe cap w e a r woken) n.1 v' h' in
    (x, rw run run', d)

-- What `consume` of something leaves on a full pipe.
freed :
    (w : Waker) (cap : ℕ) (p : Pipe) (amt : ℕ)
    → 0 < amt
    → p.write_waker.waker ≡ some w
    → Stranded w (record p { buffer = popped cap p.buffer amt })
unfolding RingBuffer.is_full
freed w cap p amt h e = ground arith

room_left :
    (w : Waker) (cap : ℕ) {p : Pipe} → IsValid cap p → Stranded w p → length (contents cap p) < cap
unfolding RingBuffer.is_full
room_left w cap {p} v h = ground (arith, length-contents_of cap v.ring p.buf v.storage, h.has_room)

-- A full pipe on which the writer `w` waits: after a `consume` of one byte or more, none of which
-- panics, there is room, and `w` is still registered, so it was not woken. It stays so, with room,
-- through any number of reads, fills and consumes.
pub consume_strands_writer :
    (w : Waker) (cap : ℕ) {p : Pipe}
    → IsValid cap p
    → length (contents cap p) ≡ cap
    → p.write_waker.waker ≡ some w
    → (amt : ℕ) → 0 < amt
    → amt ≤ length (offered cap p)
    → (es : List Event) (a : Asleep) → ReadersOnly es
    → Returns
        (consume cap amt p >>= λ p'. trace cap w es p' a)
        λ (p', a'). (p'.write_waker.waker ≡ some w) × (length (contents cap p') < cap)
consume_strands_writer w cap {p} v f e amt pos within es a n =
    let (run, (v', left, prefix)) = consume_within cap v amt within in
    let q = record p { buffer = popped cap p.buffer amt } in
    let (x, run', (v'', h)) = trace-Stranded w cap es q a n v' (freed w cap p amt pos e) in
    (x, rw run run', (h.registered, room_left w cap v'' h))
