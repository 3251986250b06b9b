-- ===== src/Sync/Zerocopy/Tests.antt =====
-- Runs of the channel of sync/zerocopy_channel.rs, of three slots.
use aurix_tc365_async_rust.Prelude.{
  ◌≡◌, ◌≢◌, ◌<◌, true, false, some, none, List, [], ◌∷◌, ◌++◌, arith, All, Returns, panic,
}
use aurix_tc365_async_rust.Sync.Zerocopy.{State, push_index, push_done}
use aurix_tc365_async_rust.Sync.Zerocopy.Slots.{IsValid, used, occupied, waker_of, push-occupied}
use aurix_tc365_async_rust.Sync.Zerocopy.Wakeups.{
  Event, polls_send, polls_receive, send_done, receive_done, trace, awake, sleeping_on_slots,
}

-- The slots 2 and 0 are occupied.
abbrev wrapped : State
wrapped = record {
  len = 3;
  front = 2;
  back = 1;
  full = false;
  send_waker = record { waker = none };
  receive_waker = record { waker = some 6 };
}

wrapped-IsValid : IsValid wrapped
wrapped-IsValid = record {
  small = omega arith;
  front_in = omega arith;
  back_in = omega arith;
  full_at = λ e. cc;
}

push-occupied_example :
    (used wrapped < 3
      → (push_index wrapped ≡ some 1)
        × All (λ i. i ≢ 1) (occupied wrapped)
        × Returns (push_done wrapped) λ (s', woken).
          IsValid s'
          × (occupied s' ≡ occupied wrapped ++ (1 ∷ []))
          × (woken ≡ waker_of wrapped.send_waker))
    × (used wrapped ≡ 3 → (push_index wrapped ≡ none) × (push_done wrapped ≡ panic))
push-occupied_example = push-occupied wrapped-IsValid

abbrev slot_events : List Event
slot_events = polls_send 6 ∷ send_done ∷ polls_send 6 ∷ polls_receive 8 ∷ receive_done ∷ []

sleeping_on_slots_example : Returns (trace 6 slot_events wrapped awake) λ (s', a').
    (a'.sender ≡ true → (s'.receive_waker.waker ≡ some 6) × (used s' ≡ s'.len))
    × (a'.receiver ≡ true → (s'.send_waker.waker ≡ some 6) × (used s' ≡ 0))
sleeping_on_slots_example = sleeping_on_slots 6 wrapped-IsValid slot_events
