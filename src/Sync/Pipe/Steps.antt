-- ===== src/Sync/Pipe/Steps.antt =====
-- What each call of a client does to the bytes in a pipe of sync/pipe.rs.
use aurix_tc365_async_rust.Prelude.{
  ℕ, ◌≤◌, ◌≡◌, inl, inr, refl, sym, ap, ◌∙◌, List, [], ◌∷◌, ◌++◌, Bool, true, false, not, ◌&&◌, ltb,
  ◌==◌, if◌then◌else◌, Bool-cases, arith, length, length-take, take, drop, Returns, Outcome, ret,
  panic, ◌>>=◌, Result, ok, err, take-append-drop, append-nil,
}
use aurix_tc365_async_rust.Prelude.Slices.{copy_at, slice-copy_at}
use aurix_tc365_async_rust.Sync.RingBuffer.Inv.{clear-IsValid}
use aurix_tc365_async_rust.Sync.Pipe.{
  Pipe, TryReadError, TryWriteError, empty, try_fill_buf_with_context, clear,
}
use aurix_tc365_async_rust.Sync.Pipe.Contents.{IsValid, contents, length-contents_of}
use aurix_tc365_async_rust.Sync.Pipe.Calls.{offered}
use aurix_tc365_async_rust.Sync.Pipe.Filling.{same-IsValid, fill-parts, consume_lem}
use aurix_tc365_async_rust.Sync.Pipe.Client.{
  Moves, Call, read_to, fills, take_filled, consumes, write_from, clears, Leaving, delivered,
  consumed, cleared, bytes, got, put, consume_filled, step, overdraws,
}
use aurix_tc365_async_rust.Sync.Pipe.Stream.{
  Delivers, Accepts, try_read-Delivers, try_write-Accepts,
}

take-copy_at :
    (n : ℕ) (q out : List ℕ)
    → n ≤ length q
    → n ≤ length out
    → take n (copy_at 0 (take n q) out) ≡ take n q
take-copy_at n q out h k =
    slice-copy_at 0 0 n (take n q) out (omega (arith, length-take n q)) (omega arith) k

-- What a read delivered and what is left make up what was there.
got-Delivers :
    (q out q' : List ℕ) (r : Result (ℕ × List ℕ) TryReadError)
    → Delivers q out r q'
    → got r ++ q' ≡ q
got-Delivers q out q' (err e) d = rw (d.0, d.1)
got-Delivers q out q' (ok (n, out')) d =
    rw (d.4, d.5, take-copy_at n q out d.1 d.2) (take-append-drop n q)

put-Accepts :
    (cap : ℕ) (q src q' : List ℕ) (r : Result ℕ TryWriteError)
    → Accepts cap q src r q'
    → q' ≡ q ++ put src r
put-Accepts cap q src q' (err e) a = rw (append-nil, a.1)
put-Accepts cap q src q' (ok n) a = a.3

no_bytes : (xs : List ℕ) → length xs ≡ 0 → xs ≡ []
no_bytes [] e = refl
no_bytes (x ∷ xs) e = absurd (omega (arith, e))

-- A call moves bytes, or it panics.
abbrev pub Goes : ℕ → Pipe → Bool → Outcome (Pipe × List Leaving × List ℕ) → Type 0
Goes cap p true o = o ≡ panic
Goes cap p false o = Returns o (Moves cap p)

Goes-same :
    (cap : ℕ) (s p : Pipe) (b : Bool) (o : Outcome (Pipe × List Leaving × List ℕ))
    → contents cap s ≡ contents cap p
    → Goes cap s b o
    → Goes cap p b o
Goes-same cap s p true o e g = g
Goes-same cap s p false o e (x, run', (v, m)) = (x, run', (v, m ∙ ap (λ t. t ++ x.2) e))

module _ (cap : ℕ) {p : Pipe} (v : IsValid cap p) where
  -- Some of the oldest bytes leave, and the rest stays.
  front_leaves :
      (amt : ℕ) (q : List ℕ) (ls : List Leaving)
      → bytes ls ≡ take amt (offered cap p)
      → take amt (offered cap p) ≡ take amt (contents cap p)
      → q ≡ drop amt (contents cap p)
      → bytes ls ++ q ≡ contents cap p ++ []
  front_leaves amt q ls e prefix left =
      rw (e, prefix, left, append-nil (contents cap p)) (take-append-drop amt (contents cap p))

  consumes-Goes :
      (amt : ℕ) → Goes cap p (ltb (length (offered cap p)) amt) (step cap (consumes amt) p)
  unfolding step
  consumes-Goes amt = elim (Bool-cases (ltb (length (offered cap p)) amt)) [
    | inl over ↦ rw (over, (consume_lem cap v amt).1 (ground arith)) refl
    | inr within ↦
        let (p', run', (v', left, prefix)) = (consume_lem cap v amt).0 (ground arith) in
        rw (within, run')
          (
            _,
            refl,
            (
              v',
              front_leaves amt (contents cap p') (consumed (take amt (offered cap p)) ∷ [])
                  (append-nil _) prefix left,
            ),
          )
  ]

  -- What a client does with the bytes that a fill shows.
  consume_filled-Goes :
      (amt : ℕ)
      → Goes cap p (not (length (offered cap p) == 0) && ltb (length (offered cap p)) amt) (
          consume_filled cap amt p
            (if length (offered cap p) == 0 then err empty else ok (offered cap p))
          >>= λ (p', ls). ret (p', ls, []))
  unfolding consume_filled
  consume_filled-Goes amt = elim (Bool-cases (length (offered cap p) == 0)) [
    | inl nothing ↦ rw nothing (_, refl, (v, sym (append-nil _)))
    | inr some_shown ↦ elim (Bool-cases (ltb (length (offered cap p)) amt)) [
      | inl over ↦ rw (some_shown, over, (consume_lem cap v amt).1 (ground arith)) refl
      | inr within ↦
          let (p', run', (v', left, prefix)) = (consume_lem cap v amt).0 (ground arith) in
          rw (some_shown, within, run')
            (
              _,
              refl,
              (
                v',
                front_leaves amt (contents cap p') (delivered (take amt (offered cap p)) ∷ [])
                    (append-nil _) prefix left,
              ),
            )
    ]
  ]

  clear-Moves : Moves cap p ((clear p).0, cleared (contents cap p) ∷ [], [])
  unfolding clear
  clear-Moves =
      let (ring, none_left) = clear-IsValid cap v.ring in
      (
        record { ring = ring; storage = v.storage },
        rw
            (
              no_bytes (contents cap (clear p).0)
                  (length-contents_of cap ring p.buf v.storage ∙ none_left),
              append-nil (contents cap p),
              append-nil (contents cap p),
            )
            refl,
      )

module _ (cap : ℕ) {p : Pipe} (v : IsValid cap p) where
  pub step-Goes : (c : Call) → Goes cap p (overdraws cap c p) (step cap c p)
  unfolding step
  step-Goes (read_to cx out) =
      let (x, e, (v', d)) = try_read-Delivers cap v cx out in
      (
        (x.0, delivered (got x.2) ∷ [], []),
        rw e,
        (
          v',
          ap (λ t. t ++ contents cap x.0) (append-nil (got x.2))
              ∙ got-Delivers (contents cap p) out (contents cap x.0) x.2 d
              ∙ sym (append-nil _),
        ),
      )
  step-Goes (fills cx) =
      let s = (try_fill_buf_with_context cap cx p).0 in
      let (b, r, f) = fill-parts cap v cx in
      let (v_s, same, shown) = same-IsValid cap p s b r v in
      (_, refl, (v_s, same ∙ sym (append-nil _)))
  step-Goes (take_filled cx amt) =
      let s = (try_fill_buf_with_context cap cx p).0 in
      let (b, r, f) = fill-parts cap v cx in
      let (v_s, same, shown) = same-IsValid cap p s b r v in
      rw (f, sym shown) (Goes-same cap s p _ _ same (consume_filled-Goes cap v_s amt))
  step-Goes (consumes amt) = consumes-Goes cap v amt
  step-Goes (write_from cx src) =
      let (x, e, (v', a)) = try_write-Accepts cap v cx src in
      (
        (x.0, [], put src x.2),
        rw e,
        (v', put-Accepts cap (contents cap p) src (contents cap x.0) x.2 a),
      )
  step-Goes clears = (_, refl, clear-Moves cap v)
