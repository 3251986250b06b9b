-- ===== src/Sync/Pubsub.antt =====
-- sync/pubsub/: a queue whose messages go to every subscriber.
-- A call holds the blocking mutex and the `RefCell`, so it is one step on the `PubSubState`. It returns
-- the state, the wakers that it woke, and its result. A subscriber is its `next_message_id`, as in `Sub`.
pub mod Counters
pub mod Invariant
pub mod Read
pub mod Calls
pub mod Popping
pub mod Leave
pub mod Leak
pub mod Handles
pub mod Log
pub mod System
pub mod Heard
pub mod Publishing
pub mod Runs
mod Tests
use aurix_tc365_async_rust.Prelude.{
  ℕ, zero, suc, ◌+◌, ◌-◌, ◌%◌, ◌^◌, Bool, true, false, ◌&&◌, Option, none, some, List, [], ◌∷◌,
  ◌++◌, Outcome, ret, panic, ◌>>=◌, ◌>>◌, Result, ok, err, Poll, ready, pending, ltb, leb, ◌==◌,
  if◌then◌else◌, length, get_elem?, sub_usize, add_usize,
}
use aurix_tc365_async_rust.Heapless.{Deque, Vec, head?}
use aurix_tc365_async_rust.Sync.Waitqueue.{Waker}
use aurix_tc365_async_rust.Sync.Waitqueue.MultiWaker

pub data Error : Type 0 where
  maximum_subscribers_reached maximum_publishers_reached : Error

pub data WaitResult (T : Type 0) : Type 0 where
  lagged : ℕ → WaitResult T
  message : T → WaitResult T

-- `u64` arithmetic.
abbrev pub add_u64 : ℕ → ℕ → ℕ
add_u64 a b = (a + b) % 2 ^ 64

abbrev pub sub_u64 : ℕ → ℕ → ℕ
sub_u64 a b = (a + 2 ^ 64 - b) % 2 ^ 64

-- `(id - start_id) as usize`
abbrev pub index_from : ℕ → ℕ → ℕ
index_from start_id id = sub_u64 id start_id % 2 ^ 32

-- One reader less for the message of an item.
abbrev pub read_once : {T : Type 0} → T × ℕ → T × ℕ
read_once (m, counter) = (m, sub_usize counter 1)

-- `unwrap`
abbrev pub unwrap {ℓ} : {A : Type ℓ} → Option A → Outcome A
unwrap none = panic
unwrap (some a) = ret a

module _ {T : Type 0} (D : Deque (T × ℕ)) (S P : Vec Waker) where
  pub record PubSubState : Type 0 where
    pub queue : D.Carrier
    pub next_message_id : ℕ
    pub subscriber_wakers : S.Carrier
    pub publisher_wakers : P.Carrier
    pub subscriber_count : ℕ
    pub publisher_count : ℕ

  unfoldable pub new : PubSubState
  new = record {
    queue = D.new;
    next_message_id = 0;
    subscriber_wakers = S.new;
    publisher_wakers = P.new;
    subscriber_count = 0;
    publisher_count = 0;
  }

  unfoldable pub subscriber : PubSubState → PubSubState × Result ℕ Error
  subscriber s =
      if leb S.cap s.subscriber_count
      then (s, err maximum_subscribers_reached)
      else (record s { subscriber_count = add_usize s.subscriber_count 1 }, ok s.next_message_id)

  unfoldable pub publisher : PubSubState → PubSubState × Result (Unit {0}) Error
  publisher s =
      if leb P.cap s.publisher_count
      then (s, err maximum_publishers_reached)
      else (record s { publisher_count = add_usize s.publisher_count 1 }, ok tt)

  -- `self.queue.push_back(…).ok().unwrap()`, and what follows it.
  unfoldable pub enqueue :
      T → PubSubState → Outcome (PubSubState × List Waker × Result (Unit {0}) T)
  enqueue m s =
      let (q, refused) = D.push_back s.queue (m, s.subscriber_count) in
      let (w, woken) = MultiWaker.wake S s.subscriber_wakers in
      elim refused [
        | some _ ↦ panic
        | none ↦ ret (
          record s {
            queue = q;
            next_message_id = add_u64 s.next_message_id 1;
            subscriber_wakers = w;
          },
          woken,
          ok tt,
        )
      ]

  unfoldable pub try_publish :
      T → PubSubState → Outcome (PubSubState × List Waker × Result (Unit {0}) T)
  unfolding enqueue
  try_publish m s =
      if s.subscriber_count == 0
      then ret (s, [], ok tt)
      else if D.is_full s.queue
      then ret (s, [], err m)
      else enqueue m s

  -- `.ok().unwrap()` on what `try_publish` returned.
  abbrev published :
      PubSubState × List Waker × Result (Unit {0}) T → Outcome (PubSubState × List Waker)
  published (s, woken, ok u) = ret (s, woken)
  published (s, woken, err m) = panic

  unfoldable pub publish_immediate : T → PubSubState → Outcome (PubSubState × List Waker)
  publish_immediate m s =
      try_publish m (if D.is_full s.queue then record s { queue = (D.pop_front s.queue).0 } else s)
      >>= published

  unfoldable pub start_id : PubSubState → ℕ
  start_id s = sub_u64 s.next_message_id (D.len s.queue)

  -- `get_message` from where it holds the item: `q` is the queue with the item's counter lowered.
  unfoldable pub deliver :
      ℕ → T × ℕ → D.Carrier → PubSubState → Outcome (PubSubState × List Waker × T)
  deliver index (m, counter) q s =
      let (w, woken) = MultiWaker.wake P s.publisher_wakers in
      if index == 0 && counter == 0
      then (unwrap (D.pop_front q).1 >>= λ (m', _).
          ret (record s { queue = (D.pop_front q).0; publisher_wakers = w }, woken, m'))
      else ret (record s { queue = q }, [], m)

  unfoldable pub get_message :
      ℕ → PubSubState → Outcome (PubSubState × List Waker × Option (WaitResult T))
  unfolding start_id
  get_message message_id s =
      let index = index_from (start_id s) message_id in
      if ltb message_id (start_id s)
      then ret (s, [], some (lagged (sub_u64 (start_id s) message_id)))
      else if leb (D.len s.queue) index
      then ret (s, [], none)
      else do
        item ← unwrap (get_elem? (D.items s.queue) index)
        let q = D.iter_mut (λ j x. if j == index then read_once x else x) s.queue
        (s', woken, m) ← deliver index (read_once item) q s
        ret (s', woken, some (message m))

  -- `while let Some((_, count)) = self.queue.front()`: one round for each item at most. The flag is
  -- `wake_publishers`.
  unfoldable pub pop_read : ℕ → D.Carrier → Bool → D.Carrier × Bool
  pop_read zero q wakes = (q, wakes)
  pop_read (suc rounds) q wakes =
      let rest = pop_read rounds (D.pop_front q).0 true in
      elim (head? (D.items q)) [
        | none ↦ (q, wakes)
        | some (m, count) ↦ if count == 0 then rest else (q, wakes)
      ]

  unfoldable pub unregister_subscriber : ℕ → PubSubState → PubSubState × List Waker
  unfolding start_id
  unregister_subscriber subscriber_next_message_id s =
      let index = index_from (start_id s) subscriber_next_message_id in
      let lowered = D.iter_mut (λ j x. if leb index j then read_once x else x) s.queue in
      let (q, wake_publishers) = pop_read (D.len lowered) lowered false in
      let (w, woken) = MultiWaker.wake P s.publisher_wakers in
      let left = record s { subscriber_count = sub_usize s.subscriber_count 1 } in
      if leb (start_id s) subscriber_next_message_id
      then (if wake_publishers
          then (record left { queue = q; publisher_wakers = w }, woken)
          else (record left { queue = q }, []))
      else (left, [])

  unfoldable pub unregister_publisher : PubSubState → PubSubState
  unregister_publisher s = record s { publisher_count = sub_usize s.publisher_count 1 }

  -- `if let Some(cx) = cx { s.subscriber_wakers.register(cx.waker()) }`
  unfoldable pub register_subscriber :
      Option Waker → PubSubState → Outcome (PubSubState × List Waker)
  register_subscriber none s = ret (s, [])
  register_subscriber (some cx) s = do
    (w, woken) ← MultiWaker.register S s.subscriber_wakers cx
    ret (record s { subscriber_wakers = w }, woken)

  unfoldable pub register_publisher :
      Option Waker → PubSubState → Outcome (PubSubState × List Waker)
  register_publisher none s = ret (s, [])
  register_publisher (some cx) s = do
    (w, woken) ← MultiWaker.register P s.publisher_wakers cx
    ret (record s { publisher_wakers = w }, woken)

  -- What `get_message_with_context` makes of the result of `get_message`.
  unfoldable pub advance :
      Option Waker
      → ℕ
      → PubSubState × List Waker × Option (WaitResult T)
      → Outcome (PubSubState × ℕ × List Waker × Poll (WaitResult T))
  unfolding register_subscriber
  advance cx next (s, woken, some (message m)) = ret (s, add_u64 next 1, woken, ready (message m))
  advance cx next (s, woken, some (lagged amount)) =
      ret (s, add_u64 next amount, woken, ready (lagged amount))
  advance cx next (s, woken, none) = do
    (s', more) ← register_subscriber cx s
    ret (s', next, woken ++ more, pending)

  -- Over the subscriber's `next_message_id`, which it returns anew.
  unfoldable pub get_message_with_context :
      ℕ → Option Waker → PubSubState → Outcome (PubSubState × ℕ × List Waker × Poll (WaitResult T))
  get_message_with_context next cx s = get_message next s >>= advance cx next

  unfoldable pub available : ℕ → PubSubState → ℕ
  available next s = sub_u64 s.next_message_id next

  unfoldable pub space : PubSubState → ℕ
  space s = sub_usize D.cap (D.len s.queue)

  -- What `publish_with_context` makes of the result of `try_publish`.
  unfoldable pub wait_if_full :
      Option Waker
      → PubSubState × List Waker × Result (Unit {0}) T
      → Outcome (PubSubState × List Waker × Result (Unit {0}) T)
  unfolding register_publisher
  wait_if_full cx (s, woken, ok u) = ret (s, woken, ok u)
  wait_if_full cx (s, woken, err m) = do
    (s', more) ← register_publisher cx s
    ret (s', woken ++ more, err m)

  unfoldable pub publish_with_context :
      T → Option Waker → PubSubState → Outcome (PubSubState × List Waker × Result (Unit {0}) T)
  publish_with_context m cx s = try_publish m s >>= wait_if_full cx
