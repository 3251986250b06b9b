-- ===== src/Sync/Zerocopy/Wakeups.antt =====
-- Who sleeps on the channel of sync/zerocopy_channel.rs.
use aurix_tc365_async_rust.Prelude.{
  ◌≡◌, refl, true, false, not, ◌&&◌, Bool, Option, some, none, List, [], ◌∷◌, arith, ◌==◌,
  if◌then◌else◌, Outcome, ret, ◌>>=◌, Returns, Poll, ready, pending, Bool-cases, inl, inr,
}
use aurix_tc365_async_rust.Sync.Waitqueue
use aurix_tc365_async_rust.Sync.Waitqueue.{Waker}
use aurix_tc365_async_rust.Sync.Waitqueue.Sleep.{sleeps}
use aurix_tc365_async_rust.Sync.Zerocopy.{
  State, is_full, is_empty, push_done, pop_done, poll_send, poll_receive,
}
use aurix_tc365_async_rust.Sync.Zerocopy.Slots.{IsValid, used, handed_on, released, waker_of}

-- Does a task sleep as the sender, and as the receiver?
pub record Asleep : Type 0 where
  pub sender : Bool
  pub receiver : Bool

abbrev pub awake : Asleep
awake = record { sender = false; receiver = false }

-- A task says that it is done only with a slot that it was given, so with a full channel there is no
-- `send_done`, and with an empty one no `receive_done`.
pub data Event : Type 0 where
  polls_send polls_receive : Waker → Event
  send_done receive_done : Event

abbrev is_pending {ℓ} : {A : Type ℓ} → Poll A → Bool
is_pending (ready a) = false
is_pending pending = true

module _ (w : Waker) where
  abbrev sent : Asleep → Option Waker → Bool → List Waker → Asleep
  sent a cx waits woken = record {
    sender = sleeps w a.sender cx waits woken;
    receiver = sleeps w a.receiver none false woken;
  }

  abbrev received : Asleep → Option Waker → Bool → List Waker → Asleep
  received a cx waits woken = record {
    sender = sleeps w a.sender none false woken;
    receiver = sleeps w a.receiver cx waits woken;
  }

  unfoldable pub observe : Event → State → Asleep → Outcome (State × Asleep)
  observe (polls_send cx) s a =
      let (s', woken, r) = poll_send cx s in ret (s', sent a (some cx) (is_pending r) woken)
  observe (polls_receive cx) s a =
      let (s', woken, r) = poll_receive cx s in ret (s', received a (some cx) (is_pending r) woken)
  observe send_done s a =
      if is_full s
      then ret (s, a)
      else (push_done s >>= λ (s', woken). ret (s', sent a none false woken))
  observe receive_done s a =
      if is_empty s
      then ret (s, a)
      else (pop_done s >>= λ (s', woken). ret (s', received a none false woken))

  unfoldable pub trace : List Event → State → Asleep → Outcome (State × Asleep)
  trace [] s a = ret (s, a)
  trace (e ∷ es) s a = observe e s a >>= λ (s', a'). trace es s' a'

  -- A sender waits in `receive_waker`, and a receiver in `send_waker`.
  record Waits (s : State) (a : Asleep) : Type 0 where
    sends : a.sender ≡ true → (s.receive_waker.waker ≡ some w) × (used s ≡ s.len)
    receives : a.receiver ≡ true → (s.send_waker.waker ≡ some w) × (used s ≡ 0)

  module _ (s : State) (v : IsValid s) (a : Asleep) (h : Waits s a) where
    abbrev Kept : State × Asleep → Type 0
    Kept (s', a') = IsValid s' × Waits s' a'

    observe-Waits : (e : Event) → Returns (observe e s a) Kept
    unfolding observe poll_send poll_receive Waitqueue.register is_full is_empty push_done pop_done
        Waitqueue.wake
    observe-Waits (polls_send cx) = (_, refl, (ground arith, ground arith))
    observe-Waits (polls_receive cx) = (_, refl, (ground arith, ground arith))
    observe-Waits send_done = elim (Bool-cases s.full) [
      | inl e ↦ ((s, a), ground arith, (v, h))
      | inr e ↦ (
        (handed_on s, sent a none false (waker_of s.send_waker)),
        ground arith,
        (ground arith, ground arith),
      )
    ]
    observe-Waits receive_done = elim (Bool-cases (s.front == s.back && not s.full)) [
      | inl e ↦ ((s, a), ground arith, (v, h))
      | inr e ↦ (
        (released s, received a none false (waker_of s.receive_waker)),
        ground arith,
        (ground arith, ground arith),
      )
    ]

  trace-Waits :
      (es : List Event) (s : State)
      → IsValid s
      → (a : Asleep) → Waits s a
      → Returns (trace es s a) λ (s', a'). IsValid s' × Waits s' a'
  unfolding trace
  trace-Waits [] s v a h = ((s, a), refl, (v, h))
  trace-Waits (e ∷ es) s v a h =
      let ((s', a'), run, (v', h')) = observe-Waits s v a h e in
      let (x, run', d) = trace-Waits es s' v' a' h' in (x, rw run run', d)

  -- A valid channel and a task that does not sleep on it: after any sequence of polls and completed
  -- slots, none of which panics, the task sleeps as a sender only if it is the registered sender and all
  -- slots are occupied, and as a receiver only if it is the registered receiver and none is.
  pub sleeping_on_slots :
      {s : State}
      → IsValid s
      → (es : List Event)
      → Returns (trace es s awake) λ (s', a').
        (a'.sender ≡ true → (s'.receive_waker.waker ≡ some w) × (used s' ≡ s'.len))
        × (a'.receiver ≡ true → (s'.send_waker.waker ≡ some w) × (used s' ≡ 0))
  sleeping_on_slots {s} v es =
      let (x, run, (v', h)) =
        trace-Waits es s v awake (record { sends = λ e. cc; receives = λ e. cc }) in
      (x, run, (h.sends, h.receives))
