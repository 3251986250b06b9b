-- ===== src/Sync/Priority/Service.antt =====
-- What the calls of sync/priority_channel.rs give and keep.
use aurix_tc365_async_rust.Prelude.{
  subst, ◌^◌, ◌<◌, ◌≡◌, refl, Bool, true, false, inl, inr, Option, none, some, List, [], ◌∷◌, ◌++◌,
  Result, ok, err, pending, if◌then◌else◌, ◌==◌, ltb, length, drop, All, arith, Bool-cases,
}
use mathlib.Core.List.{Perm}
use aurix_tc365_async_rust.Heapless.{head?}
use aurix_tc365_async_rust.Heapless.Heap.{BinaryHeap, IsSorted}
use aurix_tc365_async_rust.Sync.Waitqueue
use aurix_tc365_async_rust.Sync.Waitqueue.{Waker}
use aurix_tc365_async_rust.Sync.Channel.{TryReceiveError, TrySendError, empty, full}
use aurix_tc365_async_rust.Sync.Priority.{
  ChannelState, not_usize, wake_senders_if_full, try_receive_with_context, try_send_with_context,
  poll_ready_to_send,
}

module _ {T : Type 0} {le : T → T → Bool} (H : BinaryHeap T le) where
  -- `m` is the message of a channel with the messages `before`, and `q` what is left.
  abbrev pub Served : List T → List Waker → List T → List Waker → Result T TryReceiveError → Type 0
  Served before senders q woken (ok m) =
      (before ≡ m ∷ q)
      × All (λ y. le m y ≡ true) q
      × (woken ≡ (if length before == H.cap then senders else []))
  Served before senders q woken (err e) = (before ≡ []) × (q ≡ [])

  wake_senders-queue : (c : ChannelState H) → (wake_senders_if_full H c).0.queue ≡ c.queue
  unfolding wake_senders_if_full
  wake_senders-queue c = elim (Bool-cases (H.len c.queue == H.cap)) [
    | inl all ↦ rw all refl
    | inr room ↦ rw room refl
  ]

  wake_senders-woken :
      (c : ChannelState H)
      → (wake_senders_if_full H c).1
        ≡ (if length (H.items c.queue) == H.cap then (Waitqueue.wake c.senders_waker).1 else [])
  unfolding wake_senders_if_full
  wake_senders-woken c = elim (Bool-cases (H.len c.queue == H.cap)) [
    | inl all ↦
        let at : (length (H.items c.queue) == H.cap) ≡ true = ground (arith, H.len_lem c.queue) in
        rw (all, at) refl
    | inr room ↦
        let at : (length (H.items c.queue) == H.cap) ≡ false = ground (arith, H.len_lem c.queue) in
        rw (room, at) refl
  ]

  module _ (cx : Option Waker) (c : ChannelState H) where
    -- The queue with its front taken.
    abbrev popped : ChannelState H
    popped = let s = (wake_senders_if_full H c).0 in record s { queue = (H.pop s.queue).0 }

    popped-queue : H.items popped.queue ≡ drop 1 (H.items c.queue)
    popped-queue = rw (wake_senders-queue c, H.items-pop c.queue) refl

    front : (H.pop (wake_senders_if_full H c).0.queue).1 ≡ head? (H.items c.queue)
    front = rw (wake_senders-queue c, H.pop-head? c.queue) refl

    receive_front :
        (m : T)
        → (H.pop (wake_senders_if_full H c).0.queue).1 ≡ some m
        → try_receive_with_context H cx c ≡ (popped, (wake_senders_if_full H c).1, ok m)
    unfolding try_receive_with_context
    receive_front m e = rw (e, try_receive_with_context) refl

    receive_nothing :
        (H.pop (wake_senders_if_full H c).0.queue).1 ≡ none
        → try_receive_with_context H cx c ≡ (
          record popped {
            receiver_waker = (Waitqueue.register_context popped.receiver_waker cx).0;
          },
          (wake_senders_if_full H c).1 ++ (Waitqueue.register_context popped.receiver_waker cx).1,
          err empty,
        )
    unfolding try_receive_with_context
    receive_nothing e = rw (e, try_receive_with_context) refl

    served :
        (ts : List T)
        → H.items c.queue ≡ ts
        → IsSorted le ts
        → let (c', woken, r) = try_receive_with_context H cx c in
          Served ts (Waitqueue.wake c.senders_waker).1 (H.items c'.queue) woken r
    served [] e s = rw (receive_nothing (rw (front, e) refl)) (refl, rw (popped-queue, e) refl)
    served (m ∷ ts) e s =
        let left : H.items popped.queue ≡ ts = rw (popped-queue, e) refl in
        rw (receive_front m (rw (front, e) refl))
          (rw left refl, rw left s.0, rw (wake_senders-woken c, e) refl)

  -- A message received is one that nothing left in the channel comes before, and it is the only one to
  -- go. The waiting sender is woken exactly when the channel was full. The call fails only on an
  -- empty channel, which stays so.
  pub try_receive-Served :
      (cx : Option Waker) (c : ChannelState H)
      → let (c', woken, r) = try_receive_with_context H cx c in
        Served (H.items c.queue) (Waitqueue.wake c.senders_waker).1 (H.items c'.queue) woken r
  try_receive-Served cx c = served cx c (H.items c.queue) refl (H.items-IsSorted c.queue)

  abbrev pub Sent :
      T → ChannelState H → ChannelState H × List Waker × Result (Unit {0}) (TrySendError T) → Type 0
  Sent m c (c', woken, ok u) =
      (length (H.items c.queue) < H.cap)
      × Perm (H.items c'.queue) (m ∷ H.items c.queue)
      × (woken ≡ (Waitqueue.wake c.receiver_waker).1)
  Sent m c (c', woken, err (full m')) =
      (length (H.items c.queue) ≡ H.cap) × (m' ≡ m) × Perm (H.items c'.queue) (H.items c.queue)

  send_fits :
      (m : T) (cx : Option Waker) (c : ChannelState H)
      → (H.push c.queue m).1 ≡ none
      → try_send_with_context H m cx c ≡ (
        record c {
          queue = (H.push c.queue m).0;
          receiver_waker = (Waitqueue.wake c.receiver_waker).0;
        },
        (Waitqueue.wake c.receiver_waker).1,
        ok tt,
      )
  unfolding try_send_with_context
  send_fits m cx c e = rw (e, try_send_with_context) refl

  send_back :
      (m : T) (cx : Option Waker) (c : ChannelState H)
      → (H.push c.queue m).1 ≡ some m
      → try_send_with_context H m cx c ≡ (
        record c {
          queue = (H.push c.queue m).0;
          senders_waker = (Waitqueue.register_context c.senders_waker cx).0;
        },
        (Waitqueue.register_context c.senders_waker cx).1,
        err (full m),
      )
  unfolding try_send_with_context
  send_back m cx c e = rw (e, try_send_with_context) refl

  -- A message is accepted exactly when there is room. The channel then has it beside what it had, and
  -- the waiting receiver is woken. Else the caller has it back and the channel keeps what it had.
  pub try_send-Sent :
      (m : T) (cx : Option Waker) (c : ChannelState H) → Sent m c (try_send_with_context H m cx c)
  try_send-Sent m cx c = elim (Bool-cases (ltb (length (H.items c.queue)) H.cap)) [
    | inl room ↦
        let fits : (H.push c.queue m).1 ≡ none = rw (H.push-refuses c.queue m, room) refl in
        let kept : Perm (H.items (H.push c.queue m).0)
            (if true then m ∷ H.items c.queue else H.items c.queue) =
          subst
            (λ b.
              Perm (H.items (H.push c.queue m).0)
                (if b then m ∷ H.items c.queue else H.items c.queue))
            room (H.items-push c.queue m) in
        rw (send_fits m cx c fits) (ground arith, kept, refl)
    | inr no_room ↦
        let back : (H.push c.queue m).1 ≡ some m = rw (H.push-refuses c.queue m, no_room) refl in
        let kept : Perm (H.items (H.push c.queue m).0)
            (if false then m ∷ H.items c.queue else H.items c.queue) =
          subst
            (λ b.
              Perm (H.items (H.push c.queue m).0)
                (if b then m ∷ H.items c.queue else H.items c.queue))
            no_room (H.items-push c.queue m) in
        rw (send_back m cx c back) (ground (arith, H.length-le-cap c.queue), refl, kept)
  ]

  -- A channel of less than 2 ^ 31 places tells a task that polls until it can send to wait, whatever it
  -- holds, nothing at all too: `!len == capacity` compares the complement of the length.
  pub poll_ready_to_send-pending :
      (cx : Waker) (c : ChannelState H) → H.cap < 2 ^ 31 → (poll_ready_to_send H cx c).2 ≡ pending
  unfolding poll_ready_to_send
  poll_ready_to_send-pending cx c small =
      let differ : (not_usize (H.len c.queue) == H.cap) ≡ false =
        ground (arith, H.len_lem c.queue, H.length-le-cap c.queue) in
      rw differ refl
