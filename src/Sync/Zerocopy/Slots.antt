-- ===== src/Sync/Zerocopy/Slots.antt =====
-- Which slots the channel of sync/zerocopy_channel.rs has handed on to the receiver, oldest first.
use aurix_tc365_async_rust.Prelude.{
  ℕ, zero, suc, ◌+◌, ◌-◌, ◌^◌, ◌≤◌, ◌<◌, ◌≡◌, ◌≢◌, refl, sym, ap, ◌∙◌, true, false, none, some,
  List, [], ◌∷◌, ◌++◌, panic, Returns, ◌==◌, leb, ltb, if◌then◌else◌, arith, All,
}
use aurix_tc365_async_rust.Sync.Waitqueue
use aurix_tc365_async_rust.Sync.Waitqueue.{Waker}
use aurix_tc365_async_rust.Sync.Zerocopy.{State, push_index, push_done, pop_index, pop_done}

pub record IsValid (s : State) : Type 0 where
  pub small : s.len < 2 ^ 32
  pub front_in : s.front < s.len
  pub back_in : s.back < s.len
  pub full_at : s.full ≡ true → s.front ≡ s.back

abbrev pub next : ℕ → ℕ → ℕ
next len i = if i + 1 == len then 0 else i + 1

-- `n` slots from `i` on.
abbrev pub slots : ℕ → ℕ → ℕ → List ℕ
slots len i zero = []
slots len i (suc n) = i ∷ slots len (next len i) n

abbrev pub used : State → ℕ
used s =
    if s.full
    then s.len
    else if leb s.front s.back
    then s.back - s.front
    else s.len - s.front + s.back

abbrev pub occupied : State → List ℕ
occupied s = slots s.len s.front (used s)

abbrev at : ℕ → ℕ → ℕ → ℕ
at len i n = if ltb (i + n) len then i + n else i + n - len

slots_snoc :
    (len i n : ℕ) → i < len → n ≤ len → slots len i (suc n) ≡ slots len i n ++ (at len i n ∷ [])
slots_snoc len i zero h k = ground arith
slots_snoc len i (suc n) h k =
    ap (◌∷◌ i) (slots_snoc len (next len i) n (ground arith) (omega arith) ∙ same)
  where
    same :
        slots len (next len i) n ++ (at len (next len i) n ∷ [])
        ≡ slots len (next len i) n ++ (at len i (suc n) ∷ [])
    same = ap (λ t. slots len (next len i) n ++ (t ∷ [])) (ground arith)

slots-ne : (len i n b : ℕ) → b ≡ at len i n → i < len → n < len → All (λ j. j ≢ b) (slots len i n)
slots-ne len i zero b e h k = tt
slots-ne len i (suc n) b e h k =
    (ground arith, slots-ne len (next len i) n b (ground arith) (ground arith) (omega arith))

-- The states behind `push_done` and `pop_done`.
abbrev pub handed_on : State → State
handed_on s = record s {
  back = next s.len s.back;
  full = if next s.len s.back == s.front then true else s.full;
  send_waker = record { waker = none };
}

abbrev pub released : State → State
released s = record s {
  front = next s.len s.front;
  full = false;
  receive_waker = record { waker = none };
}

abbrev pub waker_of : Waitqueue.WakerRegistration → List Waker
waker_of r = elim (r.waker) [ none ↦ [] | some w ↦ w ∷ [] ]

module _ {s : State} (v : IsValid s) where
  pub handed_on-IsValid :
      used s < s.len → IsValid (handed_on s) × (used (handed_on s) ≡ suc (used s))
  handed_on-IsValid h = ground arith

  pub released-IsValid : 0 < used s → IsValid (released s) × (used s ≡ suc (used (released s)))
  released-IsValid h = ground arith

  at-used : used s < s.len → s.back ≡ at s.len s.front (used s)
  at-used h = ground arith

  occupied-handed_on : used s < s.len → occupied (handed_on s) ≡ occupied s ++ (s.back ∷ [])
  occupied-handed_on h =
      ap (slots s.len s.front) (handed_on-IsValid h).1
      ∙ slots_snoc s.len s.front (used s) v.front_in (omega arith)
      ∙ ap (λ t. occupied s ++ (t ∷ [])) (sym (at-used h))

  occupied-released : 0 < used s → occupied s ≡ s.front ∷ occupied (released s)
  occupied-released h = ap (slots s.len s.front) (released-IsValid h).1

  -- A valid channel of `len` slots: while not all are occupied, `push_index` gives a slot that is not,
  -- and `push_done` does not panic, hands that slot on behind the occupied ones, keeps the channel
  -- valid and wakes the registered receiver. When all are occupied there is no slot, and `push_done`
  -- panics.
  pub push-occupied :
      (used s < s.len
        → (push_index s ≡ some s.back)
          × All (λ i. i ≢ s.back) (occupied s)
          × Returns (push_done s) λ (s', woken).
            IsValid s'
            × (occupied s' ≡ occupied s ++ (s.back ∷ []))
            × (woken ≡ waker_of s.send_waker))
      × (used s ≡ s.len → (push_index s ≡ none) × (push_done s ≡ panic))
  unfolding push_index push_done Waitqueue.wake
  push-occupied = (
    λ room. (
      ground arith,
      slots-ne s.len s.front (used s) s.back (at-used room) v.front_in room,
      (
        (handed_on s, waker_of s.send_waker),
        ground arith,
        ((handed_on-IsValid room).0, occupied-handed_on room, refl),
      ),
    ),
    λ h. ground arith,
  )

  -- A valid channel: while some slot is occupied, `pop_index` gives the one handed on first, and
  -- `pop_done` does not panic, frees that slot alone, keeps the channel valid and wakes the registered
  -- sender. When none is occupied there is no slot, and `pop_done` panics.
  pub pop-occupied :
      (0 < used s
        → (pop_index s ≡ some s.front)
          × Returns (pop_done s) λ (s', woken).
            IsValid s' × (occupied s ≡ s.front ∷ occupied s') × (woken ≡ waker_of s.receive_waker))
      × (used s ≡ 0 → (pop_index s ≡ none) × (pop_done s ≡ panic))
  unfolding pop_index pop_done Waitqueue.wake
  pop-occupied = (
    λ h. (
      ground arith,
      (
        (released s, waker_of s.receive_waker),
        ground arith,
        ((released-IsValid h).0, occupied-released h, refl),
      ),
    ),
    λ h. ground arith,
  )
