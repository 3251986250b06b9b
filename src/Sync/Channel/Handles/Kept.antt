-- ===== src/Sync/Channel/Handles/Kept.antt =====
-- That each of several channels of sync/channel.rs keeps its messages under each of its calls.
use aurix_tc365_async_rust.Prelude.{
  ℕ, ◌≡◌, refl, sym, ◌∙◌, ◌==◌, Bool-cases, ==_iff, inl, inr, if◌then◌else◌, Option, some, List, [],
  ◌∷◌, ◌++◌, append-nil, Result, ok, err, poll_of,
}
use aurix_tc365_async_rust.Heapless.{Deque}
use aurix_tc365_async_rust.Sync.Waitqueue.{Waker}
use aurix_tc365_async_rust.Sync.Channel as States
use aurix_tc365_async_rust.Sync.Channel.{ChannelState, TryReceiveError, TrySendError, full}
use aurix_tc365_async_rust.Sync.Channel.Order as Order
use aurix_tc365_async_rust.Sync.Channel.Handles.{Channel, Channels, put, lock}
use aurix_tc365_async_rust.Sync.Channel.Handles.Uses.{
  Log, on, tag, messages, taken, polled, given, sent, logs,
}

module _ {T : Type 0} where
  -- On each channel, what was delivered was there or accepted first, in order, and the rest is left.
  abbrev pub Kept : Channels T → Channels T × Log T × Log T → Type 0
  Kept cs (cs', ds, accepted) =
      (a : ℕ) → on a ds ++ messages (cs' a) ≡ messages (cs a) ++ on a accepted

  on-tag : (a b : ℕ) (ms : List T) → on a (tag b ms) ≡ (if a == b then ms else [])
  on-tag a b [] = elim (Bool-cases (a == b)) [ inl e ↦ rw e refl | inr e ↦ rw e refl ]
  on-tag a b (m ∷ ms) = elim (Bool-cases (a == b)) [
    | inl e ↦ rw (on-tag a b ms, e) refl
    | inr e ↦ rw (on-tag a b ms, e) refl
  ]

  pub on-append : (a : ℕ) (xs ys : Log T) → on a (xs ++ ys) ≡ on a xs ++ on a ys
  on-append a [] ys = refl
  on-append a ((b, m) ∷ xs) ys = elim (Bool-cases (a == b)) [
    | inl e ↦ rw (e, on-append a xs ys) refl
    | inr e ↦ rw (e, on-append a xs ys) refl
  ]

  pub put-Kept :
      (b : ℕ) (c : Channel T) (cs : Channels T) (ds accepted : List T)
      → ds ++ messages c ≡ messages (cs b) ++ accepted
      → Kept cs (put b c cs, tag b ds, tag b accepted)
  put-Kept b c cs ds accepted e a = elim (Bool-cases (a == b)) [
    | inl h ↦ rw (on-tag a b ds, on-tag a b accepted, h, (==_iff a b).0 h) e
    | inr h ↦ rw (on-tag a b ds, on-tag a b accepted, h) (sym (append-nil _))
  ]

  pub lock-Kept :
      {R : Type 0} (a : ℕ) (f : (D : Deque T) → ChannelState D → ChannelState D × List Waker × R)
      (cs : Channels T) (delivered accepted : R → List T)
      → ((D : Deque T) (c : ChannelState D)
          → let (c', woken, r) = f D c in
            delivered r ++ Order.messages D c' ≡ Order.messages D c ++ accepted r)
      → Kept cs (logs a delivered accepted (lock a f cs))
  unfolding lock
  lock-Kept a f cs delivered accepted h =
      let c = cs a in
      let (s, woken, r) = f c.queue_type c.inner in
      put-Kept a (record { queue_type = c.queue_type; inner = s }) cs (delivered r) (accepted r)
        (h c.queue_type c.inner)

  taken-Received :
      (D : Deque T) (q : List T) (r : Result T TryReceiveError) (q' : List T)
      → Order.Received D q r q'
      → taken r ++ q' ≡ q ++ []
  taken-Received D q (ok m) q' h = sym h ∙ sym (append-nil q)
  taken-Received D q (err e) q' (h, h') = rw (h, h') refl

  given-Sent :
      (D : Deque T) (q : List T) (m : T) (r : Result (Unit {0}) (TrySendError T)) (q' : List T)
      → Order.Sent D q m r q'
      → q' ≡ q ++ given m r
  given-Sent D q m (ok u) q' h = h.1
  given-Sent D q m (err (full m')) q' h = h.1 ∙ sym (append-nil q)

  pub polled-poll_of : (r : Result T TryReceiveError) → polled (poll_of r) ≡ taken r
  polled-poll_of (ok m) = refl
  polled-poll_of (err e) = refl

  module _ (D : Deque T) (c : ChannelState D) where
    pub taken-try_receive :
        (cx : Option Waker)
        → let (c', woken, r) = States.try_receive_with_context D cx c in
          taken r ++ Order.messages D c' ≡ Order.messages D c ++ []
    taken-try_receive cx =
        taken-Received D (Order.messages D c) _ _ (Order.try_receive-Received D cx c)

    pub polled-poll_receive :
        (cx : Waker)
        → let (c', woken, r) = States.poll_receive D cx c in
          polled r ++ Order.messages D c' ≡ Order.messages D c ++ []
    polled-poll_receive cx =
        rw
          (
            Order.poll_receive-eq D cx c,
            polled-poll_of (States.try_receive_with_context D (some cx) c).2,
          )
          (taken-try_receive (some cx))

    pub given-try_send :
        (m : T) (cx : Option Waker)
        → let (c', woken, r) = States.try_send_with_context D m cx c in
          Order.messages D c' ≡ Order.messages D c ++ given m r
    given-try_send m cx = given-Sent D (Order.messages D c) m _ _ (Order.try_send-Sent D m cx c)

    sent-keep_refused :
        (m : T) (q : List T) (x : ChannelState D × List Waker × Result (Unit {0}) (TrySendError T))
        → Order.messages D x.0 ≡ q ++ given m x.2
        → let (c', m', woken, r) = States.keep_refused D x in Order.messages D c' ≡ q ++ sent m r
    unfolding States.keep_refused
    sent-keep_refused m q (c', woken, ok u) e = e
    sent-keep_refused m q (c', woken, err (full m')) e = e

    pub sent-try_send :
        (m : T) (cx : Waker)
        → let (c', m', woken, r) =
            States.keep_refused D (States.try_send_with_context D m (some cx) c) in
          Order.messages D c' ≡ Order.messages D c ++ sent m r
    sent-try_send m cx =
        sent-keep_refused m (Order.messages D c) (States.try_send_with_context D m (some cx) c)
          (given-try_send m (some cx))
