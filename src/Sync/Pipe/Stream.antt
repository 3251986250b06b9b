-- ===== src/Sync/Pipe/Stream.antt =====
-- sync/pipe.rs moves bytes as a queue does: each call against the contents, and any run of calls.
use aurix_tc365_async_rust.Prelude.{
  ℕ, ◌≤◌, ◌<◌, ◌≡◌, ◌≢◌, Option, List, [], ◌++◌, arith, ◌==◌, if◌then◌else◌, length, take, drop,
  min, Returns, Result, ok, err, Bool-cases, inl, inr, length-take,
}
use aurix_tc365_async_rust.Prelude.Slices.{copy_at, length-copy_at}
use aurix_tc365_async_rust.Sync.RingBuffer
use aurix_tc365_async_rust.Sync.RingBuffer.Inv.{
  popped, pushed, pop-IsValid, push-IsValid, pop_buf_lem, push_buf_lem, is_full_iff, is_empty_iff,
}
use aurix_tc365_async_rust.Sync.Waitqueue.{Waker}
use aurix_tc365_async_rust.Sync.Pipe.{
  Pipe, TryReadError, TryWriteError, empty, full, get_mut_copy, wait_for_bytes, wait_for_room,
  try_read_with_context, try_write_with_context,
}
use aurix_tc365_async_rust.Sync.Pipe.Contents.{
  IsValid, contents, length-contents_of, length-get-pop_buf, length-get-push_buf, take-get-pop_buf,
  contents-popped, contents-pushed,
}
use aurix_tc365_async_rust.Sync.Pipe.Calls.{
  wake_writer_ring, wake_reader_ring, offered, room, read, write, try_read-ret, try_write-ret,
}

-- A read of `out` took the queue from `q` to `q'`.
abbrev pub Delivers : List ℕ → List ℕ → Result (ℕ × List ℕ) TryReadError → List ℕ → Type 0
Delivers q out (err e) q' = (q ≡ []) × (q' ≡ [])
Delivers q out (ok (n, out')) q' =
    (q ≢ [])
    × (n ≤ length q)
    × (n ≤ length out)
    × (n ≡ 0 → length out ≡ 0)
    × (out' ≡ copy_at 0 (take n q) out)
    × (q' ≡ drop n q)

-- A write of `src` took the queue from `q` to `q'`.
abbrev pub Accepts : ℕ → List ℕ → List ℕ → Result ℕ TryWriteError → List ℕ → Type 0
Accepts cap q src (err e) q' = (length q ≡ cap) × (q' ≡ q)
Accepts cap q src (ok n) q' =
    (length q < cap) × (n ≤ length src) × (n ≡ 0 → length src ≡ 0) × (q' ≡ q ++ take n src)

module _ (cap : ℕ) {p : Pipe} (v : IsValid cap p) where
  -- The numbers that the calls compute with, in terms of the contents.
  pub offered_lem :
      (length (offered cap p) ≤ length (contents cap p))
      × (length (offered cap p) ≡ 0 → contents cap p ≡ [])
  offered_lem = ground (
    arith,
    length-get-pop_buf cap v.ring p.buf v.storage,
    length-contents_of cap v.ring p.buf v.storage,
    pop_buf_lem cap v.ring,
    is_empty_iff cap v.ring,
  )

  read-parts :
      (cx : Option Waker) (out : List ℕ)
      → let n = min (length (offered cap p)) (length out) in
        ((read cap cx out p).0.buf ≡ p.buf)
        × ((read cap cx out p).0.buffer
            ≡ (if length (offered cap p) == 0 then p.buffer else popped cap p.buffer n))
        × ((read cap cx out p).2 ≡ (
            if length (offered cap p) == 0
            then err empty
            else ok (n, copy_at 0 (take n (offered cap p)) out)))
  unfolding read wait_for_bytes
  read-parts cx out = ground (arith, wake_writer_ring p)

  pub read_lem :
      (cx : Option Waker) (out : List ℕ)
      → let (p', woken, r) = read cap cx out p in
        IsValid cap p' × Delivers (contents cap p) out r (contents cap p')
  read_lem cx out =
      let n = min (length (offered cap p)) (length out) in
      let (b, r, x) = read-parts cx out in
      elim (Bool-cases (length (offered cap p) == 0)) [
        | inl e ↦ rw (b, r, x, e) (ground (arith, offered_lem))
        | inr e ↦
            rw (b, r, x, e)
              (ground (
                arith,
                length-get-pop_buf cap v.ring p.buf v.storage,
                offered_lem,
                pop-IsValid cap v.ring n,
                contents-popped cap v.ring p.buf v.storage n,
                take-get-pop_buf cap v.ring p.buf v.storage n,
                length-contents_of cap v.ring p.buf v.storage,
                pop_buf_lem cap v.ring,
              ))
      ]

  write-parts :
      (cx : Option Waker) (src : List ℕ)
      → let n = min (room cap p) (length src) in
        ((write cap cx src p).0.buf ≡ (
          if room cap p == 0
          then p.buf
          else get_mut_copy p.buf (RingBuffer.push_buf cap p.buffer) (take n src)))
        × ((write cap cx src p).0.buffer
            ≡ (if room cap p == 0 then p.buffer else pushed cap p.buffer n))
        × ((write cap cx src p).2 ≡ (if room cap p == 0 then err full else ok n))
  unfolding write wait_for_room
  write-parts cx src = ground (arith, wake_reader_ring p)

  length-written :
      (buf ys : List ℕ) (w : RingBuffer.Range) → length (get_mut_copy buf w ys) ≡ length buf
  unfolding get_mut_copy
  length-written buf ys w = length-copy_at w.start ys buf

  pub write_lem :
      (cx : Option Waker) (src : List ℕ)
      → let (p', woken, r) = write cap cx src p in
        IsValid cap p' × Accepts cap (contents cap p) src r (contents cap p')
  write_lem cx src =
      let n = min (room cap p) (length src) in
      let (b, r, x) = write-parts cx src in
      let room_lem = length-get-push_buf cap v.ring p.buf v.storage in
      let count : length (take n src) ≡ n = omega (arith, length-take n src) in
      elim (Bool-cases (room cap p == 0)) [
        | inl e ↦
            rw (b, r, x, e)
              (ground (
                arith,
                room_lem,
                length-contents_of cap v.ring p.buf v.storage,
                push_buf_lem cap v.ring,
                is_full_iff cap v.ring,
              ))
        | inr e ↦
            rw (b, r, x, e)
              (ground (
                arith,
                room_lem,
                count,
                length-written p.buf (take n src) (RingBuffer.push_buf cap p.buffer),
                push-IsValid cap v.ring n,
                contents-pushed cap v.ring p.buf v.storage (take n src),
                length-contents_of cap v.ring p.buf v.storage,
                push_buf_lem cap v.ring,
              ))
      ]

-- A valid pipe of capacity `cap`: `try_read_with_context` does not panic, keeps the pipe valid, and
-- is refused exactly when no byte is held. Otherwise it moves the `n` oldest bytes to the front of
-- `out`, where `n` is 0 only for an empty `out`, and drops them from the pipe.
pub try_read-Delivers :
    (cap : ℕ) {p : Pipe}
    → IsValid cap p
    → (cx : Option Waker) (out : List ℕ)
    → Returns
        (try_read_with_context cap cx out p)
        λ (p', woken, r). IsValid cap p' × Delivers (contents cap p) out r (contents cap p')
try_read-Delivers cap {p} v cx out =
    (read cap cx out p, try_read-ret cap v cx out, read_lem cap v cx out)

-- A valid pipe of capacity `cap`: `try_write_with_context` does not panic, keeps the pipe valid, and
-- is refused exactly when `cap` bytes are held, with nothing changed in them. Otherwise it appends
-- the first `n` bytes of `src`, where `n` is 0 only for an empty `src`.
pub try_write-Accepts :
    (cap : ℕ) {p : Pipe}
    → IsValid cap p
    → (cx : Option Waker) (src : List ℕ)
    → Returns
        (try_write_with_context cap cx src p)
        λ (p', woken, r). IsValid cap p' × Accepts cap (contents cap p) src r (contents cap p')
try_write-Accepts cap {p} v cx src =
    (write cap cx src p, try_write-ret cap v cx src, write_lem cap v cx src)
