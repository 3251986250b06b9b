-- ===== src/Sync/Pubsub/Runs.antt =====
-- Every run of sync/pubsub/ with several publishers and subscribers: a subscriber hears the messages in the order of
-- their ids, each once, but for those that it is told it lost.
use aurix_tc365_async_rust.Prelude.{
  ℕ, ◌+◌, ◌^◌, ◌≤◌, ◌<◌, ◌≡◌, refl, sym, ap, subst, ◌∙◌, Option, none, some, List, [], ◌∷◌, ◌++◌,
  ◌-◌, length, get_elem?, All, All-middle, All-replace, Ensures, Outcome, ret, ◌>>=◌, Returns,
  Result, ok, err, Poll, ready, pending, leb, arith, inl, inr, ◌⊎◌, Bool-cases,
}
use aurix_tc365_async_rust.Heapless.{Deque, Vec}
use aurix_tc365_async_rust.Sync.Waitqueue.{Waker}
use aurix_tc365_async_rust.Sync.Waitqueue.MultiWaker.{register-Registered}
use aurix_tc365_async_rust.Sync.Pubsub.{
  PubSubState, WaitResult, lagged, message, new, subscriber, Error, maximum_subscribers_reached,
  get_message_with_context, advance, register_subscriber, add_u64,
}
use aurix_tc365_async_rust.Sync.Pubsub.Invariant.{items, oldest, Inv}
use aurix_tc365_async_rust.Sync.Pubsub.Read.{Got, get_message-Got}
use aurix_tc365_async_rust.Sync.Pubsub.Calls.{subscriber-Inv}
use aurix_tc365_async_rust.Sync.Pubsub.Log.{
  IsLog, get_elem?-messages, get_elem?-drop, get_message-Shrinks, Shrinks, Shrinks-IsLog,
}
use aurix_tc365_async_rust.Sync.Pubsub.System.{
  Listener, results, System, Event, subscribes, publishes, publishes_immediate, receives, start,
  came, given, told, step, run,
}
use aurix_tc365_async_rust.Sync.Pubsub.Heard.{
  Heard, Heard-append, Followed, ids, ids-append, split-cases,
}
use aurix_tc365_async_rust.Sync.Pubsub.Publishing.{
  IsSound, Next, with_subscribers, publishes-IsSound, immediate-IsSound,
}

module _ {T : Type 0} (D : Deque (T × ℕ)) (S P : Vec Waker) where
  told-IsSound :
      (sys : System D S P) (pre : List (Listener T)) (l : Listener T) (post : List (Listener T))
      (s : PubSubState D S P) (next : ℕ) (r : Poll (WaitResult T))
      → All (Followed sys.log) (pre ++ (l ∷ post))
      → Inv D S P (ids pre ++ (next ∷ ids post)) s
      → IsLog D S P sys.log s
      → Heard sys.log l.next_message_id (results r) next
      → IsSound D S P (record sys { state = s; listeners = pre ++ (told D S P l next r ∷ post) })
  told-IsSound sys pre l post s next r h v at hears = record {
    inv = subst (λ ns. Inv D S P ns s) (sym (ids-append pre (told D S P l next r ∷ post))) v;
    ids_of = at;
    heard =
        All-replace (Followed sys.log) pre l (told D S P l next r) post
          (Heard-append sys.log l.start l.next_message_id next l.heard (results r)
            (All-middle (Followed sys.log) pre l post h) hears)
          h;
  }

  module _ (sys : System D S P) (pre : List (Listener T)) (l : Listener T)
      (post : List (Listener T))
      (v : Inv D S P (ids pre ++ (l.next_message_id ∷ ids post)) sys.state)
      (at : IsLog D S P sys.log sys.state) (h : All (Followed sys.log) (pre ++ (l ∷ post))) where
    -- A message with the id `next_message_id` of the subscriber is the one of the log.
    in_log :
        (m : T) (counter : ℕ)
        → oldest D S P sys.state ≤ l.next_message_id
        → get_elem? (items D S P sys.state) (l.next_message_id - oldest D S P sys.state)
          ≡ some (m, counter)
        → get_elem? sys.log l.next_message_id ≡ some m
    in_log m counter ahead e =
        let k = l.next_message_id - oldest D S P sys.state in
        let place : oldest D S P sys.state + k ≡ l.next_message_id = omega arith in
        sym (ap (get_elem? sys.log) place)
        ∙ sym (get_elem?-drop (oldest D S P sys.state) sys.log k)
        ∙ ap (λ q. get_elem? q k) (sym at.1)
        ∙ get_elem?-messages (items D S P sys.state) k m counter e

    -- What is made of the result of `get_message`.
    take_result : PubSubState D S P × ℕ × List Waker × Poll (WaitResult T) → Outcome (System D S P)
    take_result (s, next, woken, r) =
        ret (record sys { state = s; listeners = pre ++ (told D S P l next r ∷ post) })

    advance-IsSound :
        (cx : Option Waker) (s : PubSubState D S P) (woken : List Waker) (r : Option (WaitResult T))
        → 0 < S.cap
        → Got D S P (ids pre) (ids post) l.next_message_id v (s, woken, r)
        → IsLog D S P sys.log s
        → Returns
            (advance D S P cx l.next_message_id (s, woken, r) >>= take_result)
            (Next D S P sys)
    unfolding advance register_subscriber take_result
    advance-IsSound cx s woken (some (message m)) room (ahead, k, here, v') at' =
        let next : add_u64 l.next_message_id 1 ≡ l.next_message_id + 1 = omega (arith, v.no_wrap) in
        (
          _,
          refl,
          (
            told-IsSound sys pre l post s (add_u64 l.next_message_id 1) (ready (message m)) h
                (rw next v') at' (in_log m _ ahead here, next),
            omega arith,
          ),
        )
    advance-IsSound cx s woken (some (lagged k)) room (e, pos, v') at' =
        let next : add_u64 l.next_message_id k ≡ l.next_message_id + k =
          omega (arith, e, v.no_wrap) in
        (
          _,
          refl,
          (
            told-IsSound sys pre l post s (add_u64 l.next_message_id k) (ready (lagged k)) h
                (rw next v') at' next,
            omega arith,
          ),
        )
    advance-IsSound none s woken none room (e, v') at' = (
      _,
      refl,
      (told-IsSound sys pre l post s l.next_message_id pending h v' at' refl, omega arith),
    )
    advance-IsSound (some w) s woken none room (e, v') at' =
        let ((ws, more), run, _) = register-Registered S s.subscriber_wakers w room in
        (
          _,
          rw run refl,
          (
            told-IsSound sys pre l post (record s { subscriber_wakers = ws }) l.next_message_id
                pending h
                (with_subscribers D S P (ids pre ++ (l.next_message_id ∷ ids post)) s ws v') at'
                refl,
            omega arith,
          ),
        )

  receives-IsSound :
      (k : ℕ) (cx : Option Waker) (sys : System D S P)
      → IsSound D S P sys
      → 0 < S.cap
      → Returns (step D S P (receives k cx) sys) (Next D S P sys)
  unfolding step get_message_with_context take_result
  receives-IsSound k cx sys h room = elim (split-cases k sys.listeners) [
    | inl nobody ↦ (sys, rw (step, nobody) refl, (h, omega arith))
    | inr ((pre, l, post), there, e) ↦
        let v : Inv D S P (ids pre ++ (l.next_message_id ∷ ids post)) sys.state =
          subst (λ ns. Inv D S P ns sys.state) (ap ids e ∙ ids-append pre (l ∷ post)) h.inv in
        let heard : All (Followed sys.log) (pre ++ (l ∷ post)) =
          subst (All (Followed sys.log)) e h.heard in
        let ((s, woken, r), run, got) =
          get_message-Got D S P (ids pre) (ids post) l.next_message_id v in
        let shrinks =
          subst (λ o. Ensures o (λ (s', woken', r'). Shrinks D S P sys.state s')) run
            (get_message-Shrinks D S P l.next_message_id sys.state) in
        let at = Shrinks-IsLog D S P sys.log sys.state s h.inv.queued shrinks h.ids_of in
        let (sys', run', done) =
          advance-IsSound sys pre l post v h.ids_of heard cx s woken r room got at in
        (sys', rw (step, there, get_message_with_context, run) run', done)
  ]

  subscriber-IsLog :
      (log : List T) (s : PubSubState D S P)
      → IsLog D S P log s
      → IsLog D S P log (subscriber D S P s).0
  unfolding subscriber
  subscriber-IsLog log s h = elim (Bool-cases (leb S.cap s.subscriber_count)) [
    | inl full ↦ rw full h
    | inr room ↦ rw room h
  ]

  came-IsSound :
      (sys : System D S P) (s : PubSubState D S P) (r : Result ℕ Error)
      → IsSound D S P sys
      → IsLog D S P sys.log s
      → (s ≡ sys.state) × (r ≡ err maximum_subscribers_reached)
        ⊎ (r ≡ ok sys.state.next_message_id)
          × Inv D S P (sys.state.next_message_id ∷ ids sys.listeners) s
      → Next D S P sys (came D S P s (given D S P r) sys)
  unfolding came
  came-IsSound sys s r h at (inl (same, refused)) = rw refused (
    record {
      inv = subst (Inv D S P (ids sys.listeners)) (sym same) h.inv;
      ids_of = at;
      heard = h.heard;
    },
    omega arith,
  )
  came-IsSound sys s r h at (inr (fine, v)) =
      rw fine (record { inv = v; ids_of = at; heard = (refl, h.heard) }, omega arith)

  subscribes-IsSound :
      (sys : System D S P)
      → IsSound D S P sys
      → Returns (step D S P subscribes sys) (Next D S P sys)
  unfolding step
  subscribes-IsSound sys h =
      let s = (subscriber D S P sys.state).0 in
      let r = (subscriber D S P sys.state).1 in
      (
        came D S P s (given D S P r) sys,
        refl,
        came-IsSound sys s r h (subscriber-IsLog sys.log sys.state h.ids_of)
            (elim (subscriber-Inv D S P (ids sys.listeners) sys.state h.inv) [
              | inl (e, full) ↦ inl (ap (λ x. x.0) e, ap (λ x. x.1) e)
              | inr done ↦ inr done
            ]),
      )

  step-IsSound :
      (event : Event D S P) (sys : System D S P)
      → 0 < S.cap
      → 0 < P.cap
      → 0 < D.cap
      → IsSound D S P sys
      → sys.state.next_message_id + 1 < 2 ^ 63
      → Returns (step D S P event sys) (Next D S P sys)
  step-IsSound subscribes sys s p d h few = subscribes-IsSound sys h
  step-IsSound (publishes m cx) sys s p d h few = publishes-IsSound D S P m cx sys h p few
  step-IsSound (publishes_immediate m) sys s p d h few = immediate-IsSound D S P m sys h d few
  step-IsSound (receives k cx) sys s p d h few = receives-IsSound k cx sys h s

  -- Room for a waker of each kind and for a message, and ids for all the events: then no call panics.
  run-IsSound :
      (events : List (Event D S P)) (sys : System D S P)
      → 0 < S.cap
      → 0 < P.cap
      → 0 < D.cap
      → IsSound D S P sys
      → length sys.log + length events < 2 ^ 63
      → Returns (run D S P events sys) (IsSound D S P)
  unfolding run
  run-IsSound [] sys s p d h few = (sys, refl, h)
  run-IsSound (event ∷ events) sys s p d h few =
      let (sys', one, (h', grown)) = step-IsSound event sys s p d h (omega (arith, h.ids_of)) in
      let (sys'', rest, done) = run-IsSound events sys' s p d h' (omega arith) in
      (sys'', rw one rest, done)

  start-IsSound : S.cap < 2 ^ 31 → IsSound D S P (start D S P)
  unfolding new
  start-IsSound word = record {
    inv = record {
      subscribers = refl;
      few = omega arith;
      word = word;
      queued = rw D.items-new (omega arith);
      no_wrap = omega arith;
      positions = tt;
      counted = rw D.items-new tt;
      unread = rw D.items-new (λ p. absurd (omega arith));
    };
    ids_of = (refl, rw D.items-new refl);
    heard = tt;
  }

-- Any number of publishers and subscribers, from a new channel with room for a message and for a waker of
-- each kind, and fewer than 2 ^ 63 calls: whatever they call, in whatever order, no call panics. In the
-- end each subscriber has heard, since it came, the messages that were given an id, in the order of
-- their ids and each once, but for those that it was told it lost; and the queue holds the last of
-- these messages.
pub run-Heard :
    {T : Type 0} (D : Deque (T × ℕ)) (S P : Vec Waker) (events : List (Event D S P))
    → 0 < D.cap
    → 0 < S.cap
    → S.cap < 2 ^ 31
    → 0 < P.cap
    → length events < 2 ^ 63
    → Returns
        (run D S P events (start D S P))
        (λ sys. All (Followed sys.log) sys.listeners × IsLog D S P sys.log sys.state)
run-Heard D S P events d s word p few =
    let (sys, done, h) =
      run-IsSound D S P events (start D S P) s p d (start-IsSound D S P word) (omega arith) in
    (sys, done, (h.heard, h.ids_of))
