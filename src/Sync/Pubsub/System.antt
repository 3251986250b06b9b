-- ===== src/Sync/Pubsub/System.antt =====
-- Publishers and subscribers of sync/pubsub/ that work on one channel: their calls in any order, what
-- each subscriber has heard, and the log of the messages that were given an id.
use aurix_tc365_async_rust.Prelude.{
  ℕ, suc, Option, none, some, List, [], ◌∷◌, ◌++◌, Outcome, ret, ◌>>=◌, Result, ok, err, Poll,
  ready, pending, ◌==◌, if◌then◌else◌,
}
use aurix_tc365_async_rust.Heapless.{Deque, Vec}
use aurix_tc365_async_rust.Sync.Waitqueue.{Waker}
use aurix_tc365_async_rust.Sync.Pubsub.{
  PubSubState, WaitResult, new, subscriber, publish_with_context, publish_immediate,
  get_message_with_context,
}

-- A `Sub`, with the id at which it came and the results that it was given since.
pub record Listener (T : Type 0) : Type 0 where
  pub start : ℕ
  pub next_message_id : ℕ
  pub heard : List (WaitResult T)

-- The element at a place, with those before and behind it.
abbrev pub split {ℓ} : {A : Type ℓ} → ℕ → List A → Option (List A × A × List A)
split k [] = none
split ℕ.zero (x ∷ xs) = some ([], x, xs)
split (suc k) (x ∷ xs) = elim (split k xs) [
  | none ↦ none
  | some (pre, y, post) ↦ some (x ∷ pre, y, post)
]

abbrev pub results : {T : Type 0} → Poll (WaitResult T) → List (WaitResult T)
results (ready r) = r ∷ []
results pending = []

module _ {T : Type 0} (D : Deque (T × ℕ)) (S P : Vec Waker) where
  pub record System : Type 0 where
    pub state : PubSubState D S P
    pub listeners : List (Listener T)
    pub log : List T

  pub data Event : Type 0 where
    subscribes : Event
    publishes : T → Option Waker → Event
    publishes_immediate : T → Event
    receives : ℕ → Option Waker → Event

  abbrev pub start : System
  start = record { state = new D S P; listeners = []; log = [] }

  -- The message is in the log, if it was given an id.
  unfoldable pub logged : T → PubSubState D S P → System → System
  logged m s sys = record sys {
    state = s;
    log = if s.next_message_id == sys.state.next_message_id then sys.log else sys.log ++ (m ∷ []);
  }

  unfoldable pub came : PubSubState D S P → Option ℕ → System → System
  came s none sys = record sys { state = s }
  came s (some id) sys = record sys {
    state = s;
    listeners = (record { start = id; next_message_id = id; heard = [] }) ∷ sys.listeners;
  }

  abbrev pub told : Listener T → ℕ → Poll (WaitResult T) → Listener T
  told l next r = record l { next_message_id = next; heard = l.heard ++ results r }

  abbrev pub given : {A E : Type 0} → Result A E → Option A
  given (ok a) = some a
  given (err e) = none

  -- A call of `subscriber`, of `publish` with or without a context, of `publish_immediate`, or of the
  -- subscriber at a place for its next message.
  unfoldable pub step : Event → System → Outcome System
  unfolding logged came
  step subscribes sys = let (s, r) = subscriber D S P sys.state in ret (came s (given r) sys)
  step (publishes m cx) sys =
      publish_with_context D S P m cx sys.state >>= λ (s, woken, r). ret (logged m s sys)
  step (publishes_immediate m) sys =
      publish_immediate D S P m sys.state >>= λ (s, woken). ret (logged m s sys)
  step (receives k cx) sys = elim (split k sys.listeners) [
    | none ↦ ret sys
    | some (pre, l, post) ↦
        get_message_with_context D S P l.next_message_id cx sys.state >>= λ (s, next, woken, r).
        ret (record sys { state = s; listeners = pre ++ (told l next r ∷ post) })
  ]

  unfoldable pub run : List Event → System → Outcome System
  run [] sys = ret sys
  run (event ∷ events) sys = step event sys >>= run events
