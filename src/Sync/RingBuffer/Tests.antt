-- ===== src/Sync/RingBuffer/Tests.antt =====
-- Tests of the ring.
use aurix_tc365_async_rust.Prelude.{◌≡◌, refl, false}
use aurix_tc365_async_rust.Sync.RingBuffer.{RingBuffer, len}

abbrev wrapped : RingBuffer
wrapped = record { start = 6; end = 2; full = false }

len-wrapped : len 8 wrapped ≡ 4
unfolding len
len-wrapped = refl
