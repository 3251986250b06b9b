-- ===== src/Sync/Pipe/Runs.antt =====
-- Any sequence of client calls on a pipe of sync/pipe.rs: the bytes that go in come out in order.
use aurix_tc365_async_rust.Prelude.{
  ℕ, ◌≡◌, ◌⊎◌, inl, inr, refl, sym, ap, ◌∙◌, List, [], ◌∷◌, ◌++◌, Bool, true, false, Returns, panic,
  append-nil, append_assoc,
}
use aurix_tc365_async_rust.Sync.Pipe.{Pipe}
use aurix_tc365_async_rust.Sync.Pipe.Contents.{IsValid, contents}
use aurix_tc365_async_rust.Sync.Pipe.Client.{
  Moves, Call, Leaving, delivered, consumed, cleared, bytes, step, run, overdraws,
}
use aurix_tc365_async_rust.Sync.Pipe.Steps.{Goes, step-Goes}

bytes-append : (ls more : List Leaving) → bytes (ls ++ more) ≡ bytes ls ++ bytes more
bytes-append [] more = refl
bytes-append (delivered bs ∷ ls) more =
    ap (◌++◌ bs) (bytes-append ls more) ∙ sym (append_assoc bs (bytes ls) (bytes more))
bytes-append (consumed bs ∷ ls) more =
    ap (◌++◌ bs) (bytes-append ls more) ∙ sym (append_assoc bs (bytes ls) (bytes more))
bytes-append (cleared bs ∷ ls) more =
    ap (◌++◌ bs) (bytes-append ls more) ∙ sym (append_assoc bs (bytes ls) (bytes more))

-- The run panics, at the first call that consumes more bytes than `pop_buf` offers.
abbrev pub Overdrawn : ℕ → List Call → Pipe → Type 0
Overdrawn cap cs p =
    (pre : List Call) × (c : Call) × (post : List Call) × (cs ≡ pre ++ (c ∷ post))
    × Returns (run cap pre p)
        (λ (p', ls, accepted). Moves cap p (p', ls, accepted) × (overdraws cap c p' ≡ true))
    × (run cap cs p ≡ panic)

Moves-append :
    (cap : ℕ) (p p' p'' : Pipe) (ls more : List Leaving) (accepted also : List ℕ)
    → Moves cap p (p', ls, accepted)
    → Moves cap p' (p'', more, also)
    → Moves cap p (p'', ls ++ more, accepted ++ also)
Moves-append cap p p' p'' ls more accepted also (v', m) (v'', m') = (
  v'',
  ap (λ t. t ++ contents cap p'') (bytes-append ls more)
      ∙ append_assoc (bytes ls) (bytes more) (contents cap p'')
      ∙ ap (◌++◌ (bytes ls)) m'
      ∙ sym (append_assoc (bytes ls) (contents cap p') also)
      ∙ ap (λ t. t ++ also) m
      ∙ append_assoc (contents cap p) accepted also,
)

abbrev Runs : ℕ → List Call → Pipe → Type 0
Runs cap cs p = Returns (run cap cs p) (Moves cap p) ⊎ Overdrawn cap cs p

-- A run from its first call and from what the others do.
run_after :
    (cap : ℕ) {p : Pipe} (v : IsValid cap p) (c : Call) (cs : List Call) (b : Bool)
    → overdraws cap c p ≡ b
    → Goes cap p b (step cap c p)
    → ((p' : Pipe) → IsValid cap p' → Runs cap cs p')
    → Runs cap (c ∷ cs) p
unfolding run
run_after cap v c cs true over panics rest =
    inr ([], c, cs, refl, (_, refl, ((v, sym (append-nil _)), over)), rw panics refl)
run_after cap {p} v c cs false within ((p', ls, accepted), e, (v', m)) rest = elim (rest p' v') [
  | inl ((p'', more, also), f, m') ↦ inl (
    (p'', ls ++ more, accepted ++ also),
    rw (e, f) refl,
    Moves-append cap p p' p'' ls more accepted also (v', m) m',
  )
  | inr (pre, c', post, split, ((p'', more, also), f, (m', over)), panics) ↦ inr (
    c ∷ pre,
    c',
    post,
    ap (◌∷◌ c) split,
    (
      (p'', ls ++ more, accepted ++ also),
      rw (e, f) refl,
      (Moves-append cap p p' p'' ls more accepted also (v', m) m', over),
    ),
    rw (e, panics) refl,
  )
]

-- A valid pipe of capacity `cap`, and any reads, fills, consumes, writes and clears, with and
-- without a waker, in any order. Either no call panics, the pipe is valid in the end, and the bytes
-- that left it, by reads, by fills whose bytes were taken, by other consumes and by clears, each of
-- which discards all that the pipe holds, followed by the bytes that it then holds, are those that
-- it held at first followed by those that writes accepted: but for what clears and such consumes
-- discard, none is lost, repeated or reordered. Or the run panics, and this is at a call that
-- consumes more bytes than `pop_buf` then offers, after calls that moved their bytes so.
pub run-Moves :
    (cap : ℕ) {p : Pipe}
    → IsValid cap p
    → (cs : List Call) → Returns (run cap cs p) (Moves cap p) ⊎ Overdrawn cap cs p
unfolding run
run-Moves cap v [] = inl (_, refl, (v, sym (append-nil _)))
run-Moves cap {p} v (c ∷ cs) =
    run_after cap v c cs (overdraws cap c p) refl (step-Goes cap v c) (λ p' v'. run-Moves cap v' cs)
