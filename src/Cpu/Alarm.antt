-- ===== src/Cpu/Alarm.antt =====
-- cpu/alarm.rs: the alarms of the core. A handle is its `id`. What a callback does is up to the caller: a
-- call returns the callbacks that it ran, in order. `C` is a function with its context.
pub mod Handles
pub mod Calls
pub mod Tests
use aurix_tc365_async_rust.Prelude.{
  ℕ, zero, suc, ◌-◌, ◌%◌, ◌^◌, Bool, true, false, Option, none, some, List, [], ◌∷◌, ◌++◌, leb, ltb,
  ◌==◌, if◌then◌else◌, length, get_elem?, add_usize, Outcome, ret, panic, ◌>>=◌,
}
use aurix_tc365_async_rust.Heapless.{Vec}
use aurix_tc365_async_rust.Heapless.Heap.{BinaryHeap}

pub record AlarmItem : Type 0 where
  pub expires_at : ℕ
  pub handle : ℕ

-- The derived `Ord`: `expires_at` is compared first.
abbrev pub before : AlarmItem → AlarmItem → Bool
before a b =
    if a.expires_at == b.expires_at then leb a.handle b.handle else ltb a.expires_at b.expires_at

abbrev pub callback_of {ℓ} : {C : Type ℓ} → Option C → List C
callback_of none = []
callback_of (some f) = f ∷ []

module _ {C : Type 0} (V : Vec (Option C)) (H : BinaryHeap AlarmItem before) where
  pub record AlarmQueue : Type 0 where
    pub callbacks : V.Carrier
    pub queue : H.Carrier

  unfoldable pub new : AlarmQueue
  new = record { callbacks = V.new; queue = H.new }

  unfoldable pub try_allocate_handle : AlarmQueue → AlarmQueue × Option ℕ
  try_allocate_handle q =
      let (x, refused) = V.push q.callbacks none in
      elim refused [
        | some _ ↦ (q, none)
        | none ↦ (record q { callbacks = x }, some ((length (V.items x) - 1) % 2 ^ 8))
      ]

  unfoldable pub register_callback : ℕ → C → AlarmQueue → Outcome AlarmQueue
  register_callback handle f q = elim (get_elem? (V.items q.callbacks) handle) [
    | none ↦ panic
    | some _ ↦ ret (record q { callbacks = V.write q.callbacks handle (some f) })
  ]

  -- The callback that ran, if one is registered.
  unfoldable pub call : ℕ → AlarmQueue → Outcome (Option C)
  call handle q = elim (get_elem? (V.items q.callbacks) handle) [ none ↦ panic | some f ↦ ret f ]

  unfoldable pub set_alarm : ℕ → ℕ → AlarmQueue → AlarmQueue × Option (Unit {0})
  set_alarm handle expires_at q =
      let (x, refused) = H.push q.queue (record { expires_at = expires_at; handle = handle }) in
      elim refused [ none ↦ (record q { queue = x }, some tt) | some _ ↦ (q, none) ]

  unfoldable pub get_one_expired_item : ℕ → AlarmQueue → AlarmQueue × Option AlarmItem
  get_one_expired_item now q = elim (H.peek q.queue) [
    | none ↦ (q, none)
    | some item ↦
        if leb item.expires_at now
        then (record q { queue = (H.pop q.queue).0 }, (H.pop q.queue).1)
        else (q, none)
  ]

  -- The `while let`, over the callbacks that ran and the `count`. A round takes an item out of the queue,
  -- so `len` rounds and one more are enough.
  unfoldable pub call_expired : ℕ → ℕ → AlarmQueue → ℕ → Outcome (AlarmQueue × List C × ℕ)
  unfolding call get_one_expired_item
  call_expired zero now q count = panic
  call_expired (suc rounds) now q count =
      let (q', item) = get_one_expired_item now q in
      let rest = call_expired rounds now q' (add_usize count 1) in
      elim item [
        | none ↦ ret (q', [], count)
        | some item ↦
            if leb item.expires_at now
            then (call item.handle q' >>= λ f.
                rest >>= λ (q'', ran, n). ret (q'', callback_of f ++ ran, n))
            else ret (q', [], count)
      ]

  unfoldable pub call_all_expired : ℕ → AlarmQueue → Outcome (AlarmQueue × List C × ℕ)
  call_all_expired now q = call_expired (suc (H.len q.queue)) now q 0
