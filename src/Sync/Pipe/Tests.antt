-- ===== src/Sync/Pipe/Tests.antt =====
-- Runs of the pipe of sync/pipe.rs, of four bytes.
use aurix_tc365_async_rust.Prelude.{
  ◌≡◌, ◌⊎◌, ◌<◌, refl, true, false, some, none, List, [], ◌∷◌, arith, length, Returns, ◌>>=◌,
}
use aurix_tc365_async_rust.Sync.RingBuffer
use aurix_tc365_async_rust.Sync.Pipe.Contents
use aurix_tc365_async_rust.Sync.Pipe.{Pipe, get, consume}
use aurix_tc365_async_rust.Sync.Pipe.Contents.{IsValid, contents}
use aurix_tc365_async_rust.Sync.Pipe.Client.{Call, read_to, take_filled, write_from, run, Moves}
use aurix_tc365_async_rust.Sync.Pipe.Client.{
  clears as clears_pipe, consumes as consumes_bytes, fills as fills_bytes,
}
use aurix_tc365_async_rust.Sync.Pipe.Runs.{Overdrawn, run-Moves}
use aurix_tc365_async_rust.Sync.Pipe.Traces.{
  Event, reads, fills, consumes, writes, clears, trace, awake, sleeping_reader, sleeping_writer,
}
use aurix_tc365_async_rust.Sync.Pipe.WriteAll.{poll_write_all, Written, poll_write_all-Written}
use aurix_tc365_async_rust.Sync.Pipe.Stranded.{consume_strands_writer}

-- It holds 4 and 1.
abbrev wrapped : Pipe
wrapped = record {
  buf = 1 ∷ 2 ∷ 3 ∷ 4 ∷ [];
  buffer = record { start = 3; end = 1; full = false };
  read_waker = record { waker = none };
  write_waker = record { waker = none };
}

wrapped-IsValid : IsValid 4 wrapped
wrapped-IsValid = record {
  ring = record {
    small = omega arith;
    start_in = omega arith;
    end_in = omega arith;
    full_at = λ e. cc;
  };
  storage = refl;
}

-- It holds 3, 4, 1 and 2, and the task 7 waits to write.
abbrev blocked : Pipe
blocked = record {
  buf = 1 ∷ 2 ∷ 3 ∷ 4 ∷ [];
  buffer = record { start = 2; end = 2; full = true };
  read_waker = record { waker = none };
  write_waker = record { waker = some 7 };
}

blocked-IsValid : IsValid 4 blocked
blocked-IsValid = record {
  ring = record {
    small = omega arith;
    start_in = omega arith;
    end_in = omega arith;
    full_at = λ e. refl;
  };
  storage = refl;
}

abbrev client_calls : List Call
client_calls =
    write_from none (5 ∷ 6 ∷ 7 ∷ [])
    ∷ take_filled (some 2) 1
    ∷ fills_bytes (some 2)
    ∷ consumes_bytes 1
    ∷ clears_pipe
    ∷ write_from none (8 ∷ 9 ∷ [])
    ∷ read_to (some 2) (0 ∷ 0 ∷ 0 ∷ [])
    ∷ []

run-Moves_example :
    Returns (run 4 client_calls wrapped) (Moves 4 wrapped) ⊎ Overdrawn 4 client_calls wrapped
run-Moves_example = run-Moves 4 wrapped-IsValid client_calls

abbrev mixed_events : List Event
mixed_events =
    reads (some 7) (0 ∷ 0 ∷ 0 ∷ []) ∷ writes (some 8) (5 ∷ 6 ∷ []) ∷ clears ∷ fills (some 7) ∷ []

sleeping_reader_example :
    Returns
      (trace 4 7 mixed_events wrapped awake)
      λ (p', a'). a'.reader ≡ true → (p'.read_waker.waker ≡ some 7) × (length (contents 4 p') ≡ 0)
sleeping_reader_example = sleeping_reader 7 4 wrapped-IsValid mixed_events

sleeping_writer_example :
    Returns
      (trace 4 8 mixed_events wrapped awake)
      λ (p', a'). a'.writer ≡ true → (p'.write_waker.waker ≡ some 8) × (length (contents 4 p') ≡ 4)
sleeping_writer_example =
    sleeping_writer 8 4 wrapped-IsValid mixed_events (refl, (refl, (refl, (refl, tt))))

consume_strands_writer_example :
    Returns
      (consume 4 1 blocked >>= λ p'. trace 4 7 (fills (some 3) ∷ consumes 1 ∷ []) p' awake)
      λ (p', a'). (p'.write_waker.waker ≡ some 7) × (length (contents 4 p') < 4)
unfolding Contents.contents_of get RingBuffer.pop_buf
consume_strands_writer_example =
    consume_strands_writer 7 4 blocked-IsValid refl refl 1 (omega arith) (omega arith)
      (fills (some 3) ∷ consumes 1 ∷ []) awake (refl, (refl, tt))

-- Two of the five bytes fit, and the task 7 waits with the other three.
poll_write_all-Written_example :
    Returns
      (poll_write_all 4 7 (5 ∷ 6 ∷ 7 ∷ 8 ∷ 9 ∷ []) wrapped)
      (Written 4 7 (5 ∷ 6 ∷ 7 ∷ 8 ∷ 9 ∷ []) wrapped)
poll_write_all-Written_example = poll_write_all-Written 4 7 (5 ∷ 6 ∷ 7 ∷ 8 ∷ 9 ∷ []) wrapped-IsValid
