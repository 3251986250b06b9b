-- ===== src/Sync/Pubsub/Publishing.antt =====
-- A publisher's call on the channel of sync/pubsub/, among several publishers and subscribers.
use aurix_tc365_async_rust.Prelude.{
  ℕ, ◌+◌, ◌^◌, ◌≤◌, ◌<◌, ◌≡◌, refl, ap, Option, none, some, List, [], ◌∷◌, ◌++◌, drop, length,
  length-append, All, Returns, Result, ok, err, ◌==◌, if◌then◌else◌, arith, inl, inr, ◌⊎◌,
  Bool-cases, true, false,
}
use aurix_tc365_async_rust.Heapless.{Deque, Vec}
use aurix_tc365_async_rust.Sync.Waitqueue.{Waker}
use aurix_tc365_async_rust.Sync.Waitqueue.MultiWaker.{register-Registered}
use aurix_tc365_async_rust.Sync.Pubsub.{
  PubSubState, publish_with_context, register_publisher, wait_if_full,
}
use aurix_tc365_async_rust.Sync.Pubsub.Invariant.{items, Inv}
use aurix_tc365_async_rust.Sync.Pubsub.Calls.{
  Published, try_publish-Published, publish_immediate-Published,
}
use aurix_tc365_async_rust.Sync.Pubsub.Log.{
  IsLog, messages, messages-drop, queued-IsLog, Shrinks-IsLog,
}
use aurix_tc365_async_rust.Sync.Pubsub.System.{
  System, publishes, publishes_immediate, logged, step, run,
}
use aurix_tc365_async_rust.Sync.Pubsub.Heard.{Followed, All-logged, ids}

module _ {T : Type 0} (D : Deque (T × ℕ)) (S P : Vec Waker) where
  pub record IsSound (sys : System D S P) : Type 0 where
    pub inv : Inv D S P (ids sys.listeners) sys.state
    pub ids_of : IsLog D S P sys.log sys.state
    pub heard : All (Followed sys.log) sys.listeners

  -- What a step leaves: the log has grown by one message at most.
  abbrev pub Next : System D S P → System D S P → Type 0
  Next sys sys' = IsSound sys' × (length sys'.log ≤ length sys.log + 1)

  with_publishers :
      (subs : List ℕ) (s : PubSubState D S P) (w : P.Carrier)
      → Inv D S P subs s
      → Inv D S P subs (record s { publisher_wakers = w })
  with_publishers subs s w v = record {
    subscribers = v.subscribers;
    few = v.few;
    word = v.word;
    queued = v.queued;
    no_wrap = v.no_wrap;
    positions = v.positions;
    counted = v.counted;
    unread = v.unread;
  }

  pub with_subscribers :
      (subs : List ℕ) (s : PubSubState D S P) (w : S.Carrier)
      → Inv D S P subs s
      → Inv D S P subs (record s { subscriber_wakers = w })
  with_subscribers subs s w v = record {
    subscribers = v.subscribers;
    few = v.few;
    word = v.word;
    queued = v.queued;
    no_wrap = v.no_wrap;
    positions = v.positions;
    counted = v.counted;
    unread = v.unread;
  }

  -- What a call of a publisher leaves: the log is as before, or has the message.
  abbrev Logs : T → System D S P → PubSubState D S P → Type 0
  Logs m sys s =
      Inv D S P (ids sys.listeners) s
      × ((s.next_message_id ≡ sys.state.next_message_id) × IsLog D S P sys.log s
          ⊎ (s.next_message_id ≡ sys.state.next_message_id + 1)
            × IsLog D S P (sys.log ++ (m ∷ [])) s)

  logged-IsSound :
      (m : T) (sys : System D S P) (s : PubSubState D S P)
      → All (Followed sys.log) sys.listeners
      → Logs m sys s
      → Next sys (logged D S P m s sys)
  unfolding logged
  logged-IsSound m sys s h (v, inl (next, at)) =
      let same : (s.next_message_id == sys.state.next_message_id) ≡ true = ground arith in
      (record { inv = v; ids_of = rw same at; heard = rw same h }, rw same (omega arith))
  logged-IsSound m sys s h (v, inr (next, at)) =
      let more : (s.next_message_id == sys.state.next_message_id) ≡ false = ground arith in
      (
        record {
          inv = v;
          ids_of = rw more at;
          heard = rw more (All-logged sys.log m sys.listeners h);
        },
        rw more (omega (arith, length-append sys.log (m ∷ []))),
      )

  -- A publisher that is refused registers itself; the queue is as before.
  wait_if_full-Logs :
      (m : T) (cx : Option Waker) (sys : System D S P) (s : PubSubState D S P) (woken : List Waker)
      (r : Result (Unit {0}) T)
      → 0 < P.cap
      → Logs m sys s
      → Returns (wait_if_full D S P cx (s, woken, r)) (λ (s', woken', r'). Logs m sys s')
  unfolding wait_if_full register_publisher
  wait_if_full-Logs m cx sys s woken (ok u) room h = ((s, woken, ok u), refl, h)
  wait_if_full-Logs m none sys s woken (err x) room h = (_, refl, h)
  wait_if_full-Logs m (some w) sys s woken (err x) room (v, at) =
      let ((ws, more), run, _) = register-Registered P s.publisher_wakers w room in
      (
        (record s { publisher_wakers = ws }, woken ++ more, err x),
        rw run refl,
        (with_publishers (ids sys.listeners) s ws v, at),
      )

  Published-Logs :
      (m : T) (sys : System D S P) (h : IsSound sys) (s : PubSubState D S P) (woken : List Waker)
      (r : Result (Unit {0}) T)
      → Published D S P (ids sys.listeners) sys.state h.inv m (s, woken, r)
      → Logs m sys s
  Published-Logs m sys h s woken r (inl (_, same, _, _)) = rw same (h.inv, inl (refl, h.ids_of))
  Published-Logs m sys h s woken r (inr (inl (_, _, same, _, _))) =
      rw same (h.inv, inl (refl, h.ids_of))
  Published-Logs m sys h s woken r (inr (inr (_, _, pushed, next, _, _, v))) = (
    v,
    inr (
      next,
      queued-IsLog D S P sys.log m (length (ids sys.listeners)) (items D S P sys.state) sys.state s
          h.ids_of h.inv.queued next pushed (inl refl),
    ),
  )

  pub publishes-IsSound :
      (m : T) (cx : Option Waker) (sys : System D S P)
      → IsSound sys
      → 0 < P.cap
      → sys.state.next_message_id + 1 < 2 ^ 63
      → Returns (step D S P (publishes m cx) sys) (Next sys)
  unfolding step publish_with_context
  publishes-IsSound m cx sys h room no_wrap =
      let ((s, woken, r), run, done) =
        try_publish-Published D S P (ids sys.listeners) sys.state h.inv m no_wrap in
      let ((s', woken', r'), run', logs) =
        wait_if_full-Logs m cx sys s woken r room (Published-Logs m sys h s woken r done) in
      (logged D S P m s' sys, rw (run, run') refl, logged-IsSound m sys s' h.heard logs)

  pub immediate-IsSound :
      (m : T) (sys : System D S P)
      → IsSound sys
      → 0 < D.cap
      → sys.state.next_message_id + 1 < 2 ^ 63
      → Returns (step D S P (publishes_immediate m) sys) (Next sys)
  unfolding step
  immediate-IsSound m sys h room no_wrap =
      let subs = ids sys.listeners in
      let ((s, woken), run, (v, pushed, next)) =
        publish_immediate-Published D S P subs sys.state h.inv m room no_wrap in
      let old = items D S P sys.state in
      (
        logged D S P m s sys,
        rw run refl,
        logged-IsSound m sys s h.heard (
          v,
          elim (Bool-cases (length subs == 0)) [
            | inl nobody ↦
                let same : s.next_message_id ≡ sys.state.next_message_id = rw nobody at next in
                let kept : items D S P s ≡ old = rw nobody at pushed in
                inl (
                  same,
                  Shrinks-IsLog D S P sys.log sys.state s h.inv.queued
                      (same, inl (ap messages kept)) h.ids_of,
                )
            | inr somebody ↦
                let more : s.next_message_id ≡ sys.state.next_message_id + 1 =
                  rw somebody at next in
                let last : items D S P s
                    ≡ (if length old == D.cap then drop 1 old else old) ++ ((m, length subs) ∷ []) =
                  rw somebody at pushed in
                inr (
                  more,
                  queued-IsLog D S P sys.log m (length subs)
                      (if length old == D.cap then drop 1 old else old) sys.state s h.ids_of
                      h.inv.queued more last
                      (elim (Bool-cases (length old == D.cap)) [
                        | inl full ↦ rw full (inr (messages-drop old, ground arith))
                        | inr fits ↦ rw fits (inl refl)
                      ]),
                )
          ],
        ),
      )
