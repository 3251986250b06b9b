-- ===== src/Sync/Signal.antt =====
-- sync/signal.rs: the latest value for one task that waits for it.
pub mod Latest
pub mod Wakeups
mod Tests
use aurix_tc365_async_rust.Prelude.{
  Bool, true, false, Option, List, [], ◌∷◌, Poll, ready, pending, if◌then◌else◌,
}
use aurix_tc365_async_rust.Sync.Waitqueue.{Waker, will_wake}

pub data State (T : Type 0) : Type 0 where
  none : State T
  waiting : Waker → State T
  signaled : T → State T

module _ {T : Type 0} where
  unfoldable pub new : State T
  new = none

  -- Each returns the state and the wakers that it woke; the value that a call replaces comes first.
  unfoldable pub signal : T → State T → State T × List Waker
  signal val (waiting waker) = (signaled val, waker ∷ [])
  signal val _ = (signaled val, [])

  unfoldable pub reset : State T → State T
  reset s = none

  unfoldable pub poll_wait : Waker → State T → State T × List Waker × Poll T
  poll_wait cx none = (waiting cx, [], pending)
  poll_wait cx (waiting w) =
      if will_wake w cx then (waiting w, [], pending) else (waiting cx, w ∷ [], pending)
  poll_wait cx (signaled res) = (none, [], ready res)

  unfoldable pub try_take : State T → State T × Option T
  try_take (signaled res) = (none, Option.some res)
  try_take s = (s, Option.none)

  unfoldable pub is_signaled : State T → Bool
  is_signaled (signaled res) = true
  is_signaled _ = false
