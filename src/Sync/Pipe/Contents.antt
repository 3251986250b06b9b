-- ===== src/Sync/Pipe/Contents.antt =====
-- The bytes that a pipe of sync/pipe.rs holds, oldest first, and how a read and a write move them.
use aurix_tc365_async_rust.Prelude.{
  ℕ, ◌+◌, ◌≤◌, ◌≡◌, List, [], ◌∷◌, ◌++◌, arith, leb, if◌then◌else◌, length, take, drop,
  length-append, take-append_of_le, drop-append_of_le, append-nil, append_assoc,
}
use aurix_tc365_async_rust.Prelude.Slices.{
  slice, copy_at, length-slice, slice_empty, drop-slice, slice-copy_at_behind, slice-copy_at,
  copy_at-nil,
}
use aurix_tc365_async_rust.Sync.RingBuffer
use aurix_tc365_async_rust.Sync.RingBuffer.{RingBuffer}
use aurix_tc365_async_rust.Sync.RingBuffer.Inv.{used, width, popped, pushed}
use aurix_tc365_async_rust.Sync.RingBuffer.Inv
use aurix_tc365_async_rust.Sync.Pipe.{Pipe, get, get_mut_copy}

unfoldable pub contents_of : ℕ → RingBuffer → List ℕ → List ℕ
contents_of cap r buf =
    if r.full
    then slice r.start cap buf ++ slice 0 r.end buf
    else if leb r.start r.end
    then slice r.start r.end buf
    else slice r.start cap buf ++ slice 0 r.end buf

abbrev pub contents : ℕ → Pipe → List ℕ
contents cap p = contents_of cap p.buffer p.buf

pub record IsValid (cap : ℕ) (p : Pipe) : Type 0 where
  pub ring : Inv.IsValid cap p.buffer
  pub storage : length p.buf ≡ cap

module _ (cap : ℕ) {r : RingBuffer} (v : Inv.IsValid cap r) (buf : List ℕ)
    (s : length buf ≡ cap) where
  pub length-contents_of : length (contents_of cap r buf) ≡ used cap r
  unfolding contents_of
  length-contents_of = ground (
    arith,
    length-append (slice r.start cap buf) (slice 0 r.end buf),
    length-slice r.start cap buf,
    length-slice 0 r.end buf,
    length-slice r.start r.end buf,
  )

  -- What `pop_buf` offers is a prefix of the contents.
  pub length-get-pop_buf :
      length (get buf (RingBuffer.pop_buf cap r)) ≡ width (RingBuffer.pop_buf cap r)
  unfolding get RingBuffer.pop_buf
  length-get-pop_buf =
      ground
        (arith, length-slice r.start cap buf, length-slice 0 0 buf, length-slice r.start r.end buf)

  pub length-get-push_buf :
      length (get buf (RingBuffer.push_buf cap r)) ≡ width (RingBuffer.push_buf cap r)
  unfolding get RingBuffer.push_buf
  length-get-push_buf =
      ground
        (arith, length-slice r.end cap buf, length-slice 0 0 buf, length-slice r.end r.start buf)

  pub take-get-pop_buf :
      (n : ℕ)
      → n ≤ width (RingBuffer.pop_buf cap r)
      → take n (get buf (RingBuffer.pop_buf cap r)) ≡ take n (contents_of cap r buf)
  unfolding contents_of get RingBuffer.pop_buf
  take-get-pop_buf n h = ground (
    arith,
    take-append_of_le n (slice r.start cap buf) (slice 0 r.end buf),
    length-slice r.start cap buf,
    length-slice 0 0 buf,
  )

  -- Emptying `n` slots drops the `n` oldest bytes.
  pub contents-popped :
      (n : ℕ)
      → n ≤ width (RingBuffer.pop_buf cap r)
      → contents_of cap (popped cap r n) buf ≡ drop n (contents_of cap r buf)
  unfolding contents_of RingBuffer.pop_buf
  contents-popped n h = ground (
    arith,
    drop-append_of_le n (slice r.start cap buf) (slice 0 r.end buf),
    length-slice r.start cap buf,
    drop-slice n r.start cap buf,
    drop-slice n r.start r.end buf,
    slice_empty (r.start + n) cap buf,
  )

  -- Filling the first slots that `push_buf` offers appends the bytes written to them.
  pub contents-pushed :
      (ys : List ℕ)
      → length ys ≤ width (RingBuffer.push_buf cap r)
      → contents_of cap (pushed cap r (length ys)) (get_mut_copy buf (RingBuffer.push_buf cap r) ys)
        ≡ contents_of cap r buf ++ ys
  unfolding contents_of get_mut_copy RingBuffer.push_buf
  contents-pushed [] h = rw (copy_at-nil, append-nil)
  contents-pushed (y ∷ zs) h =
      let ys : List ℕ = y ∷ zs in
      let buf' = copy_at r.end ys buf in
      ground (
        arith,
        slice-copy_at r.start r.end (r.end + length ys) ys buf,
        slice-copy_at r.start r.end cap ys buf,
        append-nil (slice r.start cap buf'),
        slice-copy_at_behind r.start cap r.end ys buf,
        slice-copy_at 0 r.end (r.end + length ys) ys buf,
        append_assoc (slice r.start cap buf) (slice 0 r.end buf) ys,
      )
