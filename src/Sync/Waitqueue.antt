-- ===== src/Sync/Waitqueue.antt =====
-- sync/waitqueue/: where a primitive keeps the wakers of the tasks that wait on it.
-- A waker is the address of its task's header, since every waker of this program has the executor's
-- vtable; two wakers wake the same task exactly if the addresses agree. What a call wakes is the
-- list of wakers beside its result, in order.
pub mod Sleep
pub mod MultiWaker
pub mod AtomicWaker
mod Tests
use aurix_tc365_async_rust.Prelude.{
  ℕ, Bool, true, false, Option, none, some, List, [], ◌∷◌, ◌==◌, ◌||◌, if◌then◌else◌,
}

abbrev pub Waker : Type 0
Waker = ℕ

-- `Waker::will_wake`
abbrev pub will_wake : Waker → Waker → Bool
will_wake a b = a == b

pub record WakerRegistration : Type 0 where
  pub waker : Option Waker

unfoldable pub new : WakerRegistration
new = record { waker = none }

unfoldable pub register : WakerRegistration → Waker → WakerRegistration × List Waker
register r w = elim (r.waker) [
  | none ↦ (record { waker = some w }, [])
  | some w2 ↦ if will_wake w2 w then (r, []) else (record { waker = some w }, w2 ∷ [])
]

unfoldable pub wake : WakerRegistration → WakerRegistration × List Waker
wake r = elim (r.waker) [ none ↦ (r, []) | some w ↦ (record { waker = none }, w ∷ []) ]

unfoldable pub occupied : WakerRegistration → Bool
occupied r = elim (r.waker) [ none ↦ false | some w ↦ true ]

-- `if let Some(cx) = cx { r.register(cx.waker()) }`
unfoldable pub register_context : WakerRegistration → Option Waker → WakerRegistration × List Waker
unfolding register
register_context r none = (r, [])
register_context r (some w) = register r w
