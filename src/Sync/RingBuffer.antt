-- ===== src/Sync/RingBuffer.antt =====
-- sync/ring_buffer.rs: the index arithmetic of a ring of `N` slots.
pub mod Inv
mod Tests
use aurix_tc365_async_rust.Prelude.{
  ℕ, Bool, false, not, ◌&&◌, Outcome, ret, ◌>>=◌, ◌>>◌, assert, add_usize, sub_usize, ltb, leb,
  ◌==◌, if◌then◌else◌,
}

pub record RingBuffer : Type 0 where
  pub start : ℕ
  pub end : ℕ
  pub full : Bool

-- `Range<usize>`
pub record Range : Type 0 where
  pub start : ℕ
  pub end : ℕ

unfoldable pub new : RingBuffer
new = record { start = 0; end = 0; full = false }

unfoldable pub is_full : RingBuffer → Bool
is_full r = r.full

unfoldable pub is_empty : RingBuffer → Bool
is_empty r = r.start == r.end && not r.full

unfoldable pub clear : RingBuffer → RingBuffer
clear r = record { start = 0; end = 0; full = false }

abbrev no_slots : Range
no_slots = record { start = 0; end = 0 }

-- `cap` is the const parameter `N`.
module _ (cap : ℕ) where
  unfoldable pub wrap : ℕ → Outcome ℕ
  wrap n = do assert (leb n cap); ret (if n == cap then 0 else n)

  unfoldable pub push_buf : RingBuffer → Range
  unfolding is_full
  push_buf r =
      if is_full r
      then no_slots
      else let n : ℕ = if leb r.start r.end then sub_usize cap r.end else sub_usize r.start r.end in
        record { start = r.end; end = add_usize r.end n }

  unfoldable pub push : RingBuffer → ℕ → Outcome RingBuffer
  unfolding wrap
  push r n =
      if n == 0
      then ret r
      else do e ← wrap (add_usize r.end n); ret (record r { end = e; full = r.start == e })

  unfoldable pub pop_buf : RingBuffer → Range
  unfolding is_empty
  pop_buf r =
      if is_empty r
      then no_slots
      else let n : ℕ =
          if leb r.end r.start then sub_usize cap r.start else sub_usize r.end r.start in
        record { start = r.start; end = add_usize r.start n }

  unfoldable pub pop : RingBuffer → ℕ → Outcome RingBuffer
  unfolding wrap
  pop r n =
      if n == 0
      then ret r
      else do s ← wrap (add_usize r.start n); ret (record r { start = s; full = false })

  unfoldable pub len : RingBuffer → ℕ
  unfolding is_empty
  len r =
      if is_empty r
      then 0
      else if ltb r.start r.end
      then sub_usize r.end r.start
      else sub_usize (add_usize cap r.end) r.start
