-- ===== src/Sync/Pipe/WriteAll.antt =====
-- `write_all` of sync/pipe.rs, one poll at a time. Between polls the future holds the bytes that it
-- has still to write.
use aurix_tc365_async_rust.Prelude.{
  ℕ, suc, ◌≤◌, ◌≡◌, ◌≢◌, refl, ap, sym, ◌∙◌, some, List, [], ◌∷◌, ◌++◌, arith, leb, length, drop,
  take, Outcome, ret, panic, ◌>>=◌, ◌>>◌, assert, Returns, Result, ok, err, Poll, poll_of, ready,
  pending, append_assoc, append-nil, length-drop, take-append-drop, true,
}
use aurix_tc365_async_rust.Sync.Waitqueue
use aurix_tc365_async_rust.Sync.Waitqueue.{Waker}
use aurix_tc365_async_rust.Sync.Pipe.{Pipe, TryWriteError, wait_for_room}
use aurix_tc365_async_rust.Sync.Pipe.Contents.{IsValid, contents}
use aurix_tc365_async_rust.Sync.Pipe.Calls.{write, try_write-ret}
use aurix_tc365_async_rust.Sync.Pipe.Stream.{Accepts, write_lem}
use aurix_tc365_async_rust.Sync.Pipe.Futures.{poll_write}

cons_not_nil : (b : ℕ) (buf : List ℕ) → (b ∷ buf) ≢ []
cons_not_nil b buf e = omega (arith, ap length e)

module _ (cap : ℕ) (cx : Waker) where
  -- The loop, of at most `fuel` calls of `write`; with no fuel left it does not return. The slice
  -- `&buf[n..]` panics if `n` is out of range.
  unfoldable pub write_rest :
      ℕ → List ℕ → Pipe → Outcome (Pipe × List Waker × List ℕ × Poll (Unit {0}))
  write_rest fuel [] p = ret (p, [], [], ready tt)
  write_rest ℕ.zero (b ∷ buf) p = panic
  write_rest (suc fuel) (b ∷ buf) p = poll_write cap cx (b ∷ buf) p >>= λ (p', woken, r). elim r [
    | pending ↦ ret (p', woken, b ∷ buf, pending)
    | ready n ↦
        assert (leb n (length (b ∷ buf)))
        >> (write_rest fuel (drop n (b ∷ buf)) p' >>= λ (p'', more, rest, done).
            ret (p'', woken ++ more, rest, done))
  ]

  -- One poll of the future of `write_all`, which has `buf` still to write.
  unfoldable pub poll_write_all :
      List ℕ → Pipe → Outcome (Pipe × List Waker × List ℕ × Poll (Unit {0}))
  unfolding write_rest
  poll_write_all buf p = write_rest (length buf) buf p

  -- The bytes of `buf` that are not in the pipe are held back in order. The future is done when there
  -- are none, or else waits in the registration of a full pipe.
  abbrev pub Written : List ℕ → Pipe → Pipe × List Waker × List ℕ × Poll (Unit {0}) → Type 0
  Written buf p (p', woken, rest, ready t) =
      IsValid cap p' × (contents cap p' ≡ contents cap p ++ buf) × (rest ≡ [])
  Written buf p (p', woken, rest, pending) =
      IsValid cap p'
      × (contents cap p' ++ rest ≡ contents cap p ++ buf)
      × (rest ≢ [])
      × (length (contents cap p') ≡ cap)
      × (p'.write_waker.waker ≡ some cx)

  module _ {p : Pipe} (v : IsValid cap p) where
    write-awaits :
        (src : List ℕ)
        → let (p', woken, r) = write cap (some cx) src p in
          ((e : TryWriteError) → r ≡ err e → p'.write_waker.waker ≡ some cx)
    unfolding write wait_for_room Waitqueue.register_context
    write-awaits src e refused = ground arith

  joined : (n : ℕ) (src xs ys : List ℕ) → ys ≡ xs ++ take n src → ys ++ drop n src ≡ xs ++ src
  joined n src xs ys e =
      ap (λ zs. zs ++ drop n src) e
      ∙ append_assoc xs (take n src) (drop n src)
      ∙ ap (λ zs. xs ++ zs) (take-append-drop n src)

  -- What is done after a call that wrote `n` bytes, from what was done before it.
  Written-after :
      (n : ℕ) (src : List ℕ) (p p' : Pipe)
      → contents cap p' ≡ contents cap p ++ take n src
      → (p'' : Pipe) (woken more : List Waker) (rest : List ℕ) (done : Poll (Unit {0}))
      → Written (drop n src) p' (p'', more, rest, done)
      → Written src p (p'', woken ++ more, rest, done)
  Written-after n src p p' e p'' woken more rest (ready t) (v, kept, none) =
      (v, kept ∙ joined n src (contents cap p) (contents cap p') e, none)
  Written-after n src p p' e p'' woken more rest pending (v, kept, some_rest, full_up, waits) =
      (v, kept ∙ joined n src (contents cap p) (contents cap p') e, some_rest, full_up, waits)

  -- The rest of the loop after one call of `write`, by what the call returned.
  after_write :
      (fuel b : ℕ) (buf : List ℕ) (p p' : Pipe) (woken : List Waker) (r : Result ℕ TryWriteError)
      → length buf ≤ fuel
      → IsValid cap p'
      → Accepts cap (contents cap p) (b ∷ buf) r (contents cap p')
      → ((e : TryWriteError) → r ≡ err e → p'.write_waker.waker ≡ some cx)
      → ((n : ℕ)
          → length (drop n (b ∷ buf)) ≤ fuel
          → Returns (write_rest fuel (drop n (b ∷ buf)) p') (Written (drop n (b ∷ buf)) p'))
      → Returns
          (elim (poll_of r) [
            | pending ↦ ret (p', woken, b ∷ buf, pending)
            | ready n ↦
                assert (leb n (length (b ∷ buf)))
                >> (write_rest fuel (drop n (b ∷ buf)) p' >>= λ (p'', more, rest, done).
                    ret (p'', woken ++ more, rest, done))
          ])
          (Written (b ∷ buf) p)
  after_write fuel b buf p p' woken (err e) few v (full_up, kept) waits ih = (
    (p', woken, b ∷ buf, pending),
    refl,
    (
      v,
      ap (λ q. q ++ (b ∷ buf)) kept,
      (λ none. cons_not_nil b buf none),
      omega (arith, ap length kept),
      waits e refl,
    ),
  )
  after_write fuel b buf p p' woken (ok n) few v (room, bound, some_room, kept) waits ih =
      let within : leb n (length (b ∷ buf)) ≡ true = ground arith in
      let ((p'', more, rest, done), e, x) = ih n (ground (arith, length-drop n (b ∷ buf))) in
      (
        (p'', woken ++ more, rest, done),
        rw (within, e) refl,
        Written-after n (b ∷ buf) p p' kept p'' woken more rest done x,
      )

  write_rest-Written :
      (fuel : ℕ) (buf : List ℕ) {p : Pipe}
      → IsValid cap p
      → length buf ≤ fuel
      → Returns (write_rest fuel buf p) (Written buf p)
  unfolding write_rest poll_write
  write_rest-Written fuel [] {p} v few =
      ((p, [], [], ready tt), refl, (v, sym (append-nil (contents cap p)), refl))
  write_rest-Written ℕ.zero (b ∷ buf) v few = absurd (omega arith)
  write_rest-Written (suc fuel) (b ∷ buf) {p} v few =
      let (p', woken, r) = write cap (some cx) (b ∷ buf) p in
      let (v', moved) = write_lem cap v (some cx) (b ∷ buf) in
      rw (try_write-ret cap v (some cx) (b ∷ buf)) (
        after_write fuel b buf p p' woken r (omega arith) v' moved (write-awaits v (b ∷ buf))
          (λ n less. write_rest-Written fuel (drop n (b ∷ buf)) v' less))

-- On a valid pipe of capacity `cap`, one poll of the future of `write_all`, with `buf` still to write,
-- returns within `length buf` calls of `write`, without a panic, and keeps the pipe valid. If it is
-- ready, all of `buf` was appended to the contents, in order. If it is pending, the bytes that it
-- still holds are the rest of `buf`, at least one, the pipe is full, and its waker is registered for
-- the next read to wake.
pub poll_write_all-Written :
    (cap : ℕ) (cx : Waker) (buf : List ℕ) {p : Pipe}
    → IsValid cap p
    → Returns (poll_write_all cap cx buf p) (Written cap cx buf p)
unfolding poll_write_all
poll_write_all-Written cap cx buf v = write_rest-Written cap cx (length buf) buf v (omega arith)
