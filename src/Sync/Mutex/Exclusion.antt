-- ===== src/Sync/Mutex/Exclusion.antt =====
-- Any interleaving of tasks on the mutex of sync/mutex.rs: who holds it, and who sleeps on it.
use aurix_tc365_async_rust.Prelude.{
  ℕ, ◌+◌, ◌-◌, ◌≡◌, ◌≤◌, ◌<◌, ◌↔◌, refl, true, false, Bool, some, none, arith, if◌then◌else◌,
  Result, ok, err, Poll, ready, pending,
}
use aurix_tc365_async_rust.Sync.Waitqueue
use aurix_tc365_async_rust.Sync.Waitqueue.{Waker}
use aurix_tc365_async_rust.Sync.Waitqueue.Sleep.{sleeps}
use aurix_tc365_async_rust.Sync.Mutex.{State, new, poll_lock, try_lock, drop}

-- The mutex, how many guards exist, and whether the task under watch sleeps.
pub record System : Type 0 where
  pub state : State
  pub guards : ℕ
  pub asleep : Bool

abbrev handed {ℓ} : {A : Type ℓ} → Poll A → ℕ
handed (ready g) = 1
handed pending = 0

abbrev handed_at_once {ℓ κ} : {A : Type ℓ} {E : Type κ} → Result A E → ℕ
handed_at_once (ok g) = 1
handed_at_once (err e) = 0

abbrev is_pending {ℓ} : {A : Type ℓ} → Poll A → Bool
is_pending (ready a) = false
is_pending pending = true

-- A step of some task; only a guard that exists can be dropped.
pub data Step (w : Waker) (s : System) : System → Type 0 where
  locks :
      (cx : Waker)
      → Step w s (
          let (s', woken, r) = poll_lock cx s.state in
          record {
            state = s';
            guards = s.guards + handed r;
            asleep = sleeps w s.asleep (some cx) (is_pending r) woken;
          })
  tries : Step w s (
      let (s', r) = try_lock s.state in
      record { state = s'; guards = s.guards + handed_at_once r; asleep = s.asleep })
  drops :
      0 < s.guards
      → Step w s (
          let (s', woken) = drop s.state in
          record { state = s'; guards = s.guards - 1; asleep = sleeps w s.asleep none false woken })

pub data Reach (w : Waker) : System → Type 0 where
  start : Reach w (record { state = new; guards = 0; asleep = false })
  later : {s t : System} → Reach w s → Step w s t → Reach w t

record Inv (w : Waker) (s : System) : Type 0 where
  one : s.guards ≡ (if s.state.locked then 1 else 0)
  waits : s.asleep ≡ true → (s.state.waker.waker ≡ some w) × (s.state.locked ≡ true)

Step-Inv : {w : Waker} {s t : System} → Step w s t → Inv w s → Inv w t
unfolding poll_lock try_lock drop Waitqueue.register Waitqueue.wake
Step-Inv (locks cx) h = ground arith
Step-Inv tries h = ground arith
Step-Inv (drops g) h = ground arith

Reach-Inv : {w : Waker} {s : System} → Reach w s → Inv w s
unfolding new
Reach-Inv start = record { one = refl; waits = λ e. cc }
Reach-Inv (later r st) = Step-Inv st (Reach-Inv r)

-- In every state that tasks can reach by polling `lock`, by `try_lock` and by dropping guards that
-- exist, there is at most one guard, there is one exactly if the mutex is locked, and a task that sleeps
-- on the mutex is the one registered for the drop of that guard to wake.
pub mutual_exclusion :
    {w : Waker} {s : System}
    → Reach w s
    → (s.guards ≤ 1)
      × ((s.guards ≡ 1) ↔ (s.state.locked ≡ true))
      × (s.asleep ≡ true → (s.guards ≡ 1) × (s.state.waker.waker ≡ some w))
mutual_exclusion r = ground (arith, Reach-Inv r)
