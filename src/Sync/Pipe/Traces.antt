-- ===== src/Sync/Pipe/Traces.antt =====
-- Any interleaving of calls on a pipe of sync/pipe.rs, and the sleep of one task along it.
use aurix_tc365_async_rust.Prelude.{
  ℕ, ◌≡◌, ◌≤◌, refl, true, false, Bool, Option, some, none, List, [], ◌∷◌, arith, length, min,
  Returns, Outcome, ret, ◌>>=◌,
}
use aurix_tc365_async_rust.Sync.RingBuffer.Inv.{popped, clear-IsValid, is_empty_iff, is_full_iff}
use aurix_tc365_async_rust.Sync.Waitqueue.{Waker}
use aurix_tc365_async_rust.Sync.Pipe.{
  Pipe, try_read_with_context, try_fill_buf_with_context, consume, try_write_with_context, clear,
}
use aurix_tc365_async_rust.Sync.Pipe.Contents.{IsValid, contents, length-contents_of}
use aurix_tc365_async_rust.Sync.Pipe.Calls.{offered, read, write, try_read-ret, try_write-ret}
use aurix_tc365_async_rust.Sync.Pipe.Stream.{read_lem, write_lem}
use aurix_tc365_async_rust.Sync.Pipe.Filling.{fill-parts, same-IsValid, consume_within}
use aurix_tc365_async_rust.Sync.Pipe.Wakeups.{
  Asleep, Waits, refused, after_reader_call, after_writer_call, read-Waits, fill-Waits, write-Waits,
  clear-Waits, consume-Waits,
}

-- A reader consumes at most what the pipe offers, as `Reader::consume` asks of it.
pub data Event : Type 0 where
  reads : Option Waker → List ℕ → Event
  fills : Option Waker → Event
  consumes : ℕ → Event
  writes : Option Waker → List ℕ → Event
  clears : Event

abbrev pub is_consume : Event → Bool
is_consume (consumes amt) = true
is_consume _ = false

module _ (cap : ℕ) where
  -- The pipe after the event, what it woke, and whether it was refused.
  unfoldable pub perform : Event → Pipe → Outcome (Pipe × List Waker × Bool)
  perform (reads cx out) p = do
    (p', woken, r) ← try_read_with_context cap cx out p
    ret (p', woken, refused r)
  perform (fills cx) p =
      let (p', woken, r) = try_fill_buf_with_context cap cx p in ret (p', woken, refused r)
  perform (consumes amt) p = do
    p' ← consume cap (min amt (length (offered cap p))) p
    ret (p', [], false)
  perform (writes cx src) p = do
    (p', woken, r) ← try_write_with_context cap cx src p
    ret (p', woken, refused r)
  perform clears p = let (p', woken) = clear p in ret (p', woken, false)

  module _ (w : Waker) where
    unfoldable pub observe : Event → Asleep → Bool → List Waker → Asleep
    observe (reads cx out) a r woken = after_reader_call w a cx r woken
    observe (fills cx) a r woken = after_reader_call w a cx r woken
    observe (consumes amt) a r woken = a
    observe (writes cx src) a r woken = after_writer_call w a cx r woken
    observe clears a r woken = after_reader_call w a none r woken

    unfoldable pub trace : List Event → Pipe → Asleep → Outcome (Pipe × Asleep)
    trace [] p a = ret (p, a)
    trace (e ∷ es) p a = do (p', woken, r) ← perform e p; trace es p' (observe e a r woken)

module _ (w : Waker) (cap : ℕ) {p : Pipe} (v : IsValid cap p) (a : Asleep) (h : Waits w p a) where
  perform-Waits :
      (e : Event)
      → (is_consume e ≡ true → a.writer ≡ false)
      → Returns
          (perform cap e p)
          λ (p', woken, r). IsValid cap p' × Waits w p' (observe cap w e a r woken)
  unfolding perform observe clear
  perform-Waits (reads cx out) k =
      let (p', woken, r) = read cap cx out p in
      (
        (p', woken, refused r),
        rw (try_read-ret cap v cx out),
        ((read_lem cap v cx out).0, read-Waits w cap v a h cx out),
      )
  perform-Waits (fills cx) k =
      let (p', woken, r) = try_fill_buf_with_context cap cx p in
      let (b, r', x) = fill-parts cap v cx in
      ((p', woken, refused r), refl, ((same-IsValid cap p p' b r' v).0, fill-Waits w cap v a h cx))
  perform-Waits (consumes amt) k =
      let n = min amt (length (offered cap p)) in
      let within : n ≤ length (offered cap p) = omega arith in
      let (run, (v', left, prefix)) = consume_within cap v n within in
      (
        (record p { buffer = popped cap p.buffer n }, [], false),
        rw run,
        (v', consume-Waits w cap v a h n within (k refl)),
      )
  perform-Waits (writes cx src) k =
      let (p', woken, r) = write cap cx src p in
      (
        (p', woken, refused r),
        rw (try_write-ret cap v cx src),
        ((write_lem cap v cx src).0, write-Waits w cap v a h cx src),
      )
  perform-Waits clears k =
      let (p', woken) = clear p in
      (
        (p', woken, false),
        refl,
        (
          record { ring = (clear-IsValid cap v.ring).0; storage = v.storage },
          clear-Waits w cap v a h,
        ),
      )

-- What a sleeping task finds, by the contents.
waiting :
    (w : Waker) (cap : ℕ) (p : Pipe) (a : Asleep)
    → IsValid cap p
    → Waits w p a
    → (a.reader ≡ true → (p.read_waker.waker ≡ some w) × (length (contents cap p) ≡ 0))
      × (a.writer ≡ true → (p.write_waker.waker ≡ some w) × (length (contents cap p) ≡ cap))
waiting w cap p a v h = ground (
  arith,
  length-contents_of cap v.ring p.buf v.storage,
  is_empty_iff cap v.ring,
  is_full_iff cap v.ring,
)

-- A task that runs.
abbrev pub awake : Asleep
awake = record { reader = false; writer = false }

abbrev pub NoConsume : List Event → Type 0
NoConsume [] = Unit
NoConsume (e ∷ es) = (is_consume e ≡ false) × NoConsume es

module _ (w : Waker) (cap : ℕ) where
  trace-Waits :
      (es : List Event) (p : Pipe) (a : Asleep)
      → NoConsume es
      → IsValid cap p
      → Waits w p a
      → Returns (trace cap w es p a) λ (p', a'). IsValid cap p' × Waits w p' a'
  unfolding trace
  trace-Waits [] p a n v h = ((p, a), refl, (v, h))
  trace-Waits (e ∷ es) p a n v h =
      let ((p', woken, r), run, (v', h')) = perform-Waits w cap v a h e (λ c. cc n.0) in
      let (x, run', d) = trace-Waits es p' (observe cap w e a r woken) n.1 v' h' in
      (x, rw run run', d)

  only_reader : Asleep → Asleep
  only_reader a = record a { writer = false }

  observe-only_reader :
      (e : Event) (a : Asleep) (r : Bool) (woken : List Waker)
      → only_reader (observe cap w e (only_reader a) r woken)
        ≡ only_reader (observe cap w e a r woken)
  unfolding only_reader observe
  observe-only_reader (reads cx out) a r woken = refl
  observe-only_reader (fills cx) a r woken = refl
  observe-only_reader (consumes amt) a r woken = refl
  observe-only_reader (writes cx src) a r woken = refl
  observe-only_reader clears a r woken = refl

  forget_writer : (p : Pipe) (a : Asleep) → Waits w p a → Waits w p (only_reader a)
  unfolding only_reader
  forget_writer p a h = record { reads = h.reads; writes = λ e. cc }

  trace-Waits_reader :
      (es : List Event) (p : Pipe) (a : Asleep)
      → IsValid cap p
      → Waits w p (only_reader a)
      → Returns (trace cap w es p a) λ (p', a'). IsValid cap p' × Waits w p' (only_reader a')
  unfolding trace
  trace-Waits_reader [] p a v h = ((p, a), refl, (v, h))
  trace-Waits_reader (e ∷ es) p a v h =
      let ((p', woken, r), run, (v', h')) =
        perform-Waits w cap v (only_reader a) h e (λ c. unfold only_reader in refl) in
      let kept = rw (observe-only_reader e a r woken) at (forget_writer p' _ h') in
      let (x, run', d) = trace-Waits_reader es p' (observe cap w e a r woken) v' kept in
      (x, rw run run', d)

  -- A valid pipe of capacity `cap` and a task that does not sleep on it: after any interleaving of
  -- reads, fills, consumes, writes and clears by any tasks, none of which panics, the task sleeps as a
  -- reader (its last read was refused, and no call has woken it since) only if it is still the one
  -- registered for the next write to wake, and the pipe is empty.
  pub sleeping_reader :
      {p : Pipe}
      → IsValid cap p
      → (es : List Event)
      → Returns (trace cap w es p awake) λ (p', a').
        a'.reader ≡ true → (p'.read_waker.waker ≡ some w) × (length (contents cap p') ≡ 0)
  unfolding only_reader
  sleeping_reader {p} v es =
      let (x, run, (v', h)) =
        trace-Waits_reader es p awake v (record { reads = λ e. cc; writes = λ e. cc }) in
      (x, run, (waiting w cap x.0 (only_reader x.1) v' h).0)

  -- A valid pipe of capacity `cap` and a task that does not sleep on it: after any interleaving of
  -- reads, fills, writes and clears by any tasks, without a `consume`, the task sleeps as a writer
  -- (its last write was refused, and no call has woken it since) only if it is still the one registered
  -- for the next read to wake, and the pipe is full.
  pub sleeping_writer :
      {p : Pipe}
      → IsValid cap p
      → (es : List Event) → NoConsume es
      → Returns (trace cap w es p awake) λ (p', a').
        a'.writer ≡ true → (p'.write_waker.waker ≡ some w) × (length (contents cap p') ≡ cap)
  sleeping_writer {p} v es n =
      let (x, run, (v', h)) =
        trace-Waits es p awake n v (record { reads = λ e. cc; writes = λ e. cc }) in
      (x, run, (waiting w cap x.0 x.1 v' h).1)
