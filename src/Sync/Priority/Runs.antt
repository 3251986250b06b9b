-- ===== src/Sync/Priority/Runs.antt =====
-- Messages through the channel of sync/priority_channel.rs: any run of calls delivers what it accepts, the
-- most urgent message of those that are there first.
use aurix_tc365_async_rust.Prelude.{
  ◌≡◌, refl, sym, ap, true, Bool, Option, some, List, [], ◌∷◌, ◌++◌, All, arith, Result, ok, err,
  Poll, ready, pending, poll_of, append-nil, append_assoc,
}
use mathlib.Core.List.{Perm, perm_append_singleton}
use mathlib.Core.List.Perm
use aurix_tc365_async_rust.Heapless.Heap.{BinaryHeap}
use aurix_tc365_async_rust.Sync.Waitqueue
use aurix_tc365_async_rust.Sync.Waitqueue.{Waker}
use aurix_tc365_async_rust.Sync.Channel.{TryReceiveError, TrySendError, full}
use aurix_tc365_async_rust.Sync.Priority.{
  ChannelState, wake_senders_if_full, try_receive_with_context, poll_receive, poll_ready_to_receive,
  try_send_with_context,
}
use aurix_tc365_async_rust.Sync.Priority.Service.{Served, Sent, try_receive-Served, try_send-Sent}
use aurix_tc365_async_rust.Sync.Priority.Wakeups.{
  Call, receives, polls_receive, asks_to_receive, sends,
}

module _ {T : Type 0} where
  abbrev pub messages_of : List (T × List T) → List T
  messages_of [] = []
  messages_of ((m, left) ∷ ds) = m ∷ messages_of ds

  messages_of-append :
      (ds more : List (T × List T)) → messages_of (ds ++ more) ≡ messages_of ds ++ messages_of more
  messages_of-append [] more = refl
  messages_of-append ((m, left) ∷ ds) more = ap (◌∷◌ m) (messages_of-append ds more)

  All-append :
      (P : T × List T → Type 0) (ds more : List (T × List T))
      → All P ds
      → All P more
      → All P (ds ++ more)
  All-append P [] more h k = k
  All-append P (d ∷ ds) more (p, h) k = (p, All-append P ds more h k)

module _ {T : Type 0} {le : T → T → Bool} (H : BinaryHeap T le) where
  -- A message that is delivered, with those that it leaves in the channel.
  abbrev pub taken : ChannelState H → Result T TryReceiveError → List (T × List T)
  taken c (ok m) = (m, H.items c.queue) ∷ []
  taken c (err e) = []

  abbrev pub polled : ChannelState H → Poll T → List (T × List T)
  polled c (ready m) = (m, H.items c.queue) ∷ []
  polled c pending = []

  abbrev pub given : T → Result (Unit {0}) (TrySendError T) → List T
  given m (ok u) = m ∷ []
  given m (err e) = []

  -- The state after a call, the messages that it delivered and those that it accepted.
  unfoldable pub step : Call H → ChannelState H → ChannelState H × List (T × List T) × List T
  step (receives cx) c =
      let (c', woken, r) = try_receive_with_context H cx c in (c', taken c' r, [])
  step (polls_receive cx) c = let (c', woken, r) = poll_receive H cx c in (c', polled c' r, [])
  step (asks_to_receive cx) c = let (c', woken, r) = poll_ready_to_receive H cx c in (c', [], [])
  step (sends m cx) c = let (c', woken, r) = try_send_with_context H m cx c in (c', [], given m r)

  unfoldable pub run : List (Call H) → ChannelState H → ChannelState H × List (T × List T) × List T
  run [] c = (c, [], [])
  run (call ∷ calls) c =
      let (c', ds, accepted) = step call c in
      let (c'', more, also) = run calls c' in (c'', ds ++ more, accepted ++ also)

  abbrev pub IsUrgent : T × List T → Type 0
  IsUrgent (m, left) = All (λ y. le m y ≡ true) left

  abbrev Kept : ChannelState H → ChannelState H × List (T × List T) × List T → Type 0
  Kept c (c', ds, accepted) =
      Perm (messages_of ds ++ H.items c'.queue) (H.items c.queue ++ accepted) × All IsUrgent ds

  -- `poll_receive` is `try_receive_with_context` with a waker, the error being pending.
  poll_receive-eq :
      (cx : Waker) (c : ChannelState H)
      → poll_receive H cx c
        ≡ (let (c', woken, r) = try_receive_with_context H (some cx) c in (c', woken, poll_of r))
  unfolding try_receive_with_context poll_receive Waitqueue.register_context wake_senders_if_full
  poll_receive-eq cx c = ground arith

  polled-poll_of :
      (c : ChannelState H) (r : Result T TryReceiveError) → polled c (poll_of r) ≡ taken c r
  polled-poll_of c (ok m) = refl
  polled-poll_of c (err e) = refl

  taken-Kept :
      (c c' : ChannelState H) (senders woken : List Waker) (r : Result T TryReceiveError)
      → Served H (H.items c.queue) senders (H.items c'.queue) woken r
      → Kept c (c', taken c' r, [])
  taken-Kept c c' senders woken (ok m) (e, urgent, _) =
      (rw (e, append-nil (m ∷ H.items c'.queue)) (Perm.refl _), (urgent, tt))
  taken-Kept c c' senders woken (err e) (h, h') = (rw (h, h') (Perm.refl []), tt)

  given-Kept :
      (m : T) (c : ChannelState H)
      (x : ChannelState H × List Waker × Result (Unit {0}) (TrySendError T))
      → Sent H m c x
      → Kept c (x.0, [], given m x.2)
  given-Kept m c (c', woken, ok u) (_, p, _) =
      (Perm.trans p (Perm.symm (perm_append_singleton m (H.items c.queue))), tt)
  given-Kept m c (c', woken, err (full m')) (_, _, p) = (rw (append-nil (H.items c.queue)) p, tt)

  receive-Kept :
      (cx : Option Waker) (c : ChannelState H)
      → let (c', woken, r) = try_receive_with_context H cx c in Kept c (c', taken c' r, [])
  receive-Kept cx c =
      let (c', woken, r) = try_receive_with_context H cx c in
      taken-Kept c c' (Waitqueue.wake c.senders_waker).1 woken r (try_receive-Served H cx c)

  step-Kept : (call : Call H) (c : ChannelState H) → Kept c (step call c)
  unfolding step poll_ready_to_receive
  step-Kept (receives cx) c = receive-Kept cx c
  step-Kept (polls_receive cx) c =
      let (c', woken, r) = try_receive_with_context H (some cx) c in
      rw (poll_receive-eq cx c, polled-poll_of c' r) (receive-Kept (some cx) c)
  step-Kept (asks_to_receive cx) c = (rw (append-nil (H.items c.queue)) (Perm.refl _), tt)
  step-Kept (sends m cx) c =
      given-Kept m c (try_send_with_context H m cx c) (try_send-Sent H m cx c)

  Kept-append :
      (c c' c'' : ChannelState H) (ds more : List (T × List T)) (accepted also : List T)
      → Kept c (c', ds, accepted)
      → Kept c' (c'', more, also)
      → Kept c (c'', ds ++ more, accepted ++ also)
  Kept-append c c' c'' ds more accepted also (p, u) (p', u') = (
    rw
        (
          messages_of-append ds more,
          append_assoc (messages_of ds) (messages_of more) (H.items c''.queue),
          sym (append_assoc (H.items c.queue) accepted also),
        )
        (Perm.trans (Perm.append_left (messages_of ds) p') (
          rw (sym (append_assoc (messages_of ds) (H.items c'.queue) also))
            (Perm.append_right also p))),
    All-append IsUrgent ds more u u',
  )

  -- Any run of receives, of polls until a message is there, and of sends, by any tasks: the messages
  -- delivered together with those that are queued in the end are, up to their order, those queued at
  -- first together with those that sends accepted. So each accepted message is delivered once at most,
  -- and none is lost. No message is delivered while one that has to come before it stays in the queue.
  pub run-IsUrgent :
      (calls : List (Call H)) (c : ChannelState H)
      → let (c', ds, accepted) = run calls c in
        Perm (messages_of ds ++ H.items c'.queue) (H.items c.queue ++ accepted) × All IsUrgent ds
  unfolding run
  run-IsUrgent [] c = (rw (append-nil (H.items c.queue)) (Perm.refl _), tt)
  run-IsUrgent (call ∷ calls) c =
      let (c', ds, accepted) = step call c in
      let (c'', more, also) = run calls c' in
      Kept-append c c' c'' ds more accepted also (step-Kept call c) (run-IsUrgent calls c')
