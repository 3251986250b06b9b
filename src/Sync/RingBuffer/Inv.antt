-- ===== src/Sync/RingBuffer/Inv.antt =====
-- The invariant of the ring of sync/ring_buffer.rs, and what each operation does to the occupancy.
use aurix_tc365_async_rust.Prelude.{
  ℕ, ◌+◌, ◌-◌, ◌^◌, ◌≤◌, ◌<◌, ◌≡◌, ◌↔◌, true, false, ret, arith, leb, ◌==◌, if◌then◌else◌,
}
use aurix_tc365_async_rust.Sync.RingBuffer.{
  RingBuffer, Range, new, is_full, is_empty, push_buf, push, pop_buf, pop, len, clear,
}

-- An array has at most `isize::MAX` bytes, and the indices are those of slots.
pub record IsValid (cap : ℕ) (r : RingBuffer) : Type 0 where
  pub small : cap < 2 ^ 31
  pub start_in : r.start < cap
  pub end_in : r.end < cap
  pub full_at : r.full ≡ true → r.start ≡ r.end

-- The slots in use, by the definition that the code's `len` avoids: no modular arithmetic.
abbrev pub used : ℕ → RingBuffer → ℕ
used cap r =
    if r.full then cap else if leb r.start r.end then r.end - r.start else cap - r.start + r.end

abbrev pub width : Range → ℕ
width w = w.end - w.start

module _ (cap : ℕ) {r : RingBuffer} (v : IsValid cap r) where
  pub len-eq-used : len cap r ≡ used cap r
  unfolding len
  len-eq-used = ground arith

  pub is_full_iff : (is_full r ≡ true) ↔ (used cap r ≡ cap)
  unfolding is_full
  is_full_iff = ground arith

  pub is_empty_iff : (is_empty r ≡ true) ↔ (used cap r ≡ 0)
  unfolding is_empty
  is_empty_iff = ground arith

  -- The slots offered for writing begin at `end`, are inside the array and free; there are some
  -- unless the ring is full.
  pub push_buf_lem :
      (is_full r ≡ false → (push_buf cap r).start ≡ r.end)
      × (width (push_buf cap r) + used cap r ≤ cap)
      × ((push_buf cap r).start + width (push_buf cap r) ≡ (push_buf cap r).end)
      × ((push_buf cap r).end ≤ cap)
      × ((width (push_buf cap r) ≡ 0) ↔ (is_full r ≡ true))
  unfolding push_buf
  push_buf_lem = ground arith

  pub pop_buf_lem :
      (is_empty r ≡ false → (pop_buf cap r).start ≡ r.start)
      × (width (pop_buf cap r) ≤ used cap r)
      × ((pop_buf cap r).start + width (pop_buf cap r) ≡ (pop_buf cap r).end)
      × ((pop_buf cap r).end ≤ cap)
      × ((width (pop_buf cap r) ≡ 0) ↔ (is_empty r ≡ true))
  unfolding pop_buf
  pop_buf_lem = ground arith

-- The ring after `n` slots at `end` were filled, or `n` slots at `start` emptied.
abbrev pub advanced : ℕ → ℕ → ℕ
advanced cap i = if i == cap then 0 else i

abbrev pub pushed : ℕ → RingBuffer → ℕ → RingBuffer
pushed cap r n =
    if n == 0
    then r
    else record r { end = advanced cap (r.end + n); full = r.start == advanced cap (r.end + n) }

abbrev pub popped : ℕ → RingBuffer → ℕ → RingBuffer
popped cap r n = if n == 0 then r else record r { start = advanced cap (r.start + n); full = false }

module _ (cap : ℕ) {r : RingBuffer} (v : IsValid cap r) (n : ℕ) where
  -- Filling slots that `push_buf` offers does not panic.
  pub push-ret : n ≤ width (push_buf cap r) → push cap r n ≡ ret (pushed cap r n)
  unfolding push push_buf
  push-ret h = ground arith

  pub pop-ret : n ≤ width (pop_buf cap r) → pop cap r n ≡ ret (popped cap r n)
  unfolding pop pop_buf
  pop-ret h = ground arith

  pub push-IsValid :
      n ≤ width (push_buf cap r)
      → IsValid cap (pushed cap r n) × (used cap (pushed cap r n) ≡ used cap r + n)
  unfolding push_buf
  push-IsValid h = ground arith

  pub pop-IsValid :
      n ≤ width (pop_buf cap r)
      → IsValid cap (popped cap r n) × (used cap (popped cap r n) + n ≡ used cap r)
  unfolding pop_buf
  pop-IsValid h = ground arith

pub new-IsValid : (cap : ℕ) → 0 < cap → cap < 2 ^ 31 → IsValid cap new × (used cap new ≡ 0)
unfolding new
new-IsValid cap h k = ground arith

pub clear-IsValid :
    (cap : ℕ) {r : RingBuffer} → IsValid cap r → IsValid cap (clear r) × (used cap (clear r) ≡ 0)
unfolding clear
clear-IsValid cap v = ground arith
