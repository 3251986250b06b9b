-- ===== src/Sync/Waitqueue/AtomicWaker.antt =====
-- sync/waitqueue/atomic_waker.rs: the waker of one task, which `wake` keeps.
use aurix_tc365_async_rust.Prelude.{
  ◌≡◌, refl, Option, none, some, List, [], ◌∷◌, if◌then◌else◌, arith, Bool-cases, Option-cases, inl,
  inr, ap, sym, ◌∙◌,
}
use aurix_tc365_async_rust.Sync.Waitqueue.{Waker, will_wake}

pub record AtomicWaker : Type 0 where
  pub waker : Option Waker

unfoldable pub new : AtomicWaker
new = record { waker = none }

unfoldable pub register : AtomicWaker → Waker → AtomicWaker
register r w = elim (r.waker) [
  | none ↦ record { waker = some w }
  | some w2 ↦ if will_wake w2 w then record { waker = some w2 } else record { waker = some w }
]

unfoldable pub wake : AtomicWaker → AtomicWaker × List Waker
wake r = elim (r.waker) [
  | none ↦ (record { waker = none }, [])
  | some w ↦ (record { waker = some w }, w ∷ [])
]

registered : (r : AtomicWaker) (w : Waker) → (register r w).waker ≡ some w
unfolding register
registered r w = elim (Option-cases (r.waker)) [
  | inl none_yet ↦ rw (register, none_yet) refl
  | inr (w2, old) ↦ elim (Bool-cases (will_wake w2 w)) [
    | inl same ↦ let e : w2 ≡ w = ground arith in rw (register, old, same) (ap some e)
    | inr other ↦ rw (register, old, other) refl
  ]
]

wakes : (r : AtomicWaker) (w : Waker) → r.waker ≡ some w → wake r ≡ (r, w ∷ [])
unfolding wake
wakes r w e =
    let of : Option Waker → AtomicWaker = λ o. record { waker = o } in
    let kept : wake r ≡ (of (some w), w ∷ []) = rw (wake, e) refl in
    kept ∙ ap (λ o. (of o, w ∷ [])) (sym e)

-- Whatever was registered before, each `wake` after a registration wakes its task, and keeps it registered.
wake-register : (r : AtomicWaker) (w : Waker) → wake (register r w) ≡ (register r w, w ∷ [])
wake-register r w = wakes (register r w) w (registered r w)
