-- ===== src/Sync/Mutex.antt =====
-- sync/mutex.rs: an async mutex. The blocking mutex around its `State` makes each access one step.
-- Guards has the value behind it and both kinds of guard, Exclusion and Sections the interleavings of tasks.
pub mod Exclusion
pub mod Guards
pub mod Sections
mod Tests
use aurix_tc365_async_rust.Prelude.{
  Bool, true, false, List, [], Result, ok, err, Poll, ready, pending, if◌then◌else◌,
}
use aurix_tc365_async_rust.Sync.Waitqueue
use aurix_tc365_async_rust.Sync.Waitqueue.{Waker, WakerRegistration}

pub record State : Type 0 where
  pub locked : Bool
  pub waker : WakerRegistration

pub data TryLockError : Type 0 where
  try_lock_error : TryLockError

-- The right to the value.
pub data MutexGuard : Type 0 where
  guard : MutexGuard

unfoldable pub new : State
new = record { locked = false; waker = Waitqueue.new }

-- One poll of `lock`.
unfoldable pub poll_lock : Waker → State → State × List Waker × Poll MutexGuard
poll_lock cx s =
    let (w, woken) = Waitqueue.register s.waker cx in
    if s.locked
    then (record s { waker = w }, woken, pending)
    else (record s { locked = true }, [], ready guard)

unfoldable pub try_lock : State → State × Result MutexGuard TryLockError
try_lock s = if s.locked then (s, err try_lock_error) else (record s { locked = true }, ok guard)

-- `drop` of a `MutexGuard`.
unfoldable pub drop : State → State × List Waker
drop s = let (w, woken) = Waitqueue.wake s.waker in (record s { locked = false; waker = w }, woken)
