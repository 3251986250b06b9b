-- ===== src/Sync/Zerocopy.antt =====
-- sync/zerocopy_channel.rs: a channel whose messages stay in the caller's buffer. Sender and receiver
-- are given the index of a slot, work in it, and say when they are done.
-- A call holds the blocking mutex, so it is one step on the `State`. The slots themselves are the
-- caller's: the model has the index that a call hands out.
pub mod Slots
pub mod Wakeups
mod Tests
use aurix_tc365_async_rust.Prelude.{
  ℕ, Bool, true, false, not, ◌&&◌, Option, none, some, List, [], ◌∷◌, Outcome, ret, panic, ◌>>=◌,
  ◌>>◌, assert, Poll, ready, pending, ◌==◌, if◌then◌else◌, add_usize,
}
use aurix_tc365_async_rust.Sync.Waitqueue
use aurix_tc365_async_rust.Sync.Waitqueue.{Waker, WakerRegistration}

pub record State : Type 0 where
  pub len : ℕ
  pub front : ℕ
  pub back : ℕ
  pub full : Bool
  pub send_waker : WakerRegistration
  pub receive_waker : WakerRegistration

-- `Channel::new`, over the length of `buf`.
unfoldable pub new : ℕ → Outcome State
new len = do
  assert (not (len == 0))
  ret (record {
    len = len;
    front = 0;
    back = 0;
    full = false;
    send_waker = Waitqueue.new;
    receive_waker = Waitqueue.new;
  })

unfoldable pub increment : State → ℕ → ℕ
increment s i = if add_usize i 1 == s.len then 0 else add_usize i 1

unfoldable pub is_full : State → Bool
is_full s = s.full

unfoldable pub is_empty : State → Bool
is_empty s = s.front == s.back && not s.full

unfoldable pub push_index : State → Option ℕ
unfolding is_full
push_index s = if is_full s then none else some s.back

-- Returns the state and the wakers that were woken.
unfoldable pub push_done : State → Outcome (State × List Waker)
unfolding is_full increment
push_done s = do
  assert (not (is_full s))
  let back = increment s s.back
  let (w, woken) = Waitqueue.wake s.send_waker
  ret (
    record s { back = back; full = if back == s.front then true else s.full; send_waker = w },
    woken,
  )

unfoldable pub pop_index : State → Option ℕ
unfolding is_empty
pop_index s = if is_empty s then none else some s.front

unfoldable pub pop_done : State → Outcome (State × List Waker)
unfolding is_empty increment
pop_done s = do
  assert (not (is_empty s))
  let (w, woken) = Waitqueue.wake s.receive_waker
  ret (record s { front = increment s s.front; full = false; receive_waker = w }, woken)

-- `Sender::try_send`: the slot to write, if there is one.
unfoldable pub try_send : State → Option ℕ
unfolding push_index
try_send s = push_index s

-- `Sender::poll_send`, and one poll of `Sender::send`.
unfoldable pub poll_send : Waker → State → State × List Waker × Poll ℕ
unfolding push_index
poll_send cx s =
    let (w, woken) = Waitqueue.register s.receive_waker cx in
    elim (push_index s) [
      | some i ↦ (s, [], ready i)
      | none ↦ (record s { receive_waker = w }, woken, pending)
    ]

-- `Receiver::try_receive`
unfoldable pub try_receive : State → Option ℕ
unfolding pop_index
try_receive s = pop_index s

-- `Receiver::poll_receive`, and one poll of `Receiver::receive`.
unfoldable pub poll_receive : Waker → State → State × List Waker × Poll ℕ
unfolding pop_index
poll_receive cx s =
    let (w, woken) = Waitqueue.register s.send_waker cx in
    elim (pop_index s) [
      | some i ↦ (s, [], ready i)
      | none ↦ (record s { send_waker = w }, woken, pending)
    ]
