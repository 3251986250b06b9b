-- ===== src/Cpu/Kernel/Due.antt =====
-- Which alarms of cpu/alarm.rs go off by a time, and whom they pend.
use aurix_tc365_async_rust.Prelude.{
  ℕ, zero, suc, ◌<◌, ◌≡◌, refl, ap, ◌∙◌, Bool, true, false, ◌&&◌, ◌||◌, Option, some, List, [], ◌∷◌,
  ◌++◌, leb, ◌==◌, ==_refl, length, get_elem?, All, Bool-cases, Option-cases, inl, inr, arith,
}
use aurix_tc365_async_rust.Heapless.Any.{any}
use aurix_tc365_async_rust.Cpu.Alarm.{AlarmItem, callback_of}
use aurix_tc365_async_rust.Cpu.Alarm.Calls.{callbacks_for, callbacks_for-cons, waiting}
use aurix_tc365_async_rust.Cpu.Kernel.{Pender, thread_executor_pender, interrupt_executor_pender}
use aurix_tc365_async_rust.Cpu.Kernel.Interrupt.{same, among}

pub same_refl : (p : Pender) → same p p ≡ true
same_refl thread_executor_pender = refl
same_refl (interrupt_executor_pender node) = ==_refl node

pub or_true : (a : Bool) → (a || true) ≡ true
or_true a = ground arith

pub among-append :
    (p : Pender) (xs ys : List Pender) → among p (xs ++ ys) ≡ (among p xs || among p ys)
among-append p [] ys = refl
among-append p (x ∷ xs) ys = ground (arith, among-append p xs ys)

-- The alarms of a handle that have gone off by `at`.
abbrev pub goes_off : ℕ → ℕ → AlarmItem → Bool
goes_off at handle t = leb t.expires_at at && (t.handle == handle)

pub among-cons :
    (table : List (Option Pender)) (p : Pender) (t : AlarmItem) (ts : List AlarmItem)
    → among p (callbacks_for table ts) ≡ true
    → among p (callbacks_for table (t ∷ ts)) ≡ true
among-cons table p t ts h = elim (Option-cases (get_elem? table t.handle)) [
  | inl missing ↦ rw (callbacks_for, missing) h
  | inr (f, found) ↦
      rw
        (
          callbacks_for-cons table t ts f found,
          among-append p (callback_of f) (callbacks_for table ts),
          h,
        )
        (or_true (among p (callback_of f)))
]

pub among-callbacks_for :
    (table : List (Option Pender)) (handle at : ℕ) (p : Pender) (ts : List AlarmItem)
    → get_elem? table handle ≡ some (some p)
    → any ts (goes_off at handle) ≡ true
    → among p (callbacks_for table ts) ≡ true
among-callbacks_for table handle at p [] k h = absurd (ground (arith, h))
among-callbacks_for table handle at p (t ∷ ts) k h = elim (Bool-cases (goes_off at handle t)) [
  | inl here ↦
      let its : get_elem? table t.handle ≡ some (some p) =
        ap (get_elem? table) {x = t.handle} {y = handle} (ground arith) ∙ k in
      let own = same_refl p in rw (callbacks_for-cons table t ts (some p) its, own) refl
  | inr elsewhere ↦
      among-cons table p t ts (among-callbacks_for table handle at p ts k (ground (arith, h)))
]

-- None of the alarms that wait goes off by the time that they wait behind.
pub none-waiting :
    (at handle : ℕ) (ts : List AlarmItem) → any (waiting at ts) (goes_off at handle) ≡ false
none-waiting at handle [] = refl
none-waiting at handle (t ∷ ts) = elim (Bool-cases (leb t.expires_at at)) [
  | inl past ↦ rw past (none-waiting at handle ts)
  | inr later ↦ rw later (ground (arith, none-waiting at handle ts))
]

pub All-not_due :
    (P : AlarmItem → Type 0) (now : ℕ) (ts : List AlarmItem) → All P ts → All P (waiting now ts)
All-not_due P now [] a = tt
All-not_due P now (t ∷ ts) a = elim (Bool-cases (leb t.expires_at now)) [
  | inl past ↦ rw past (All-not_due P now ts a.1)
  | inr later ↦ rw later (a.0, All-not_due P now ts a.1)
]

-- Validity as a test, which does not depend on the order.
pub All-any :
    (n : ℕ) (ts : List AlarmItem)
    → any ts (λ t. leb n t.handle) ≡ false
    → All (λ t. t.handle < n) ts
All-any n [] h = tt
All-any n (t ∷ ts) h = (ground (arith, h), All-any n ts (ground (arith, h)))

pub any-All :
    (n : ℕ) (ts : List AlarmItem)
    → All (λ t. t.handle < n) ts
    → any ts (λ t. leb n t.handle) ≡ false
any-All n [] a = refl
any-All n (t ∷ ts) a = ground (arith, a.0, any-All n ts a.1)

pub get_elem?-lt :
    {A : Type 0} (xs : List A) (i : ℕ) (a : A) → get_elem? xs i ≡ some a → i < length xs
get_elem?-lt [] i a h = absurd (ground (arith, h))
get_elem?-lt (x ∷ xs) zero a h = omega arith
get_elem?-lt (x ∷ xs) (suc i) a h = omega (arith, get_elem?-lt xs i a h)
