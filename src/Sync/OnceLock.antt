-- ===== src/Sync/OnceLock.antt =====
-- sync/once_lock.rs: a value that is set once.
-- `data` is nothing while it is uninitialised; to read it then is undefined behaviour, and a panic of the model.
-- Each call is a critical section, or one load of the flag and a read, so it is one step.
pub mod Refine
mod Tests
use aurix_tc365_async_rust.Prelude.{
  Bool, true, false, Option, none, some, Outcome, ret, panic, ◌>>=◌, Result, ok, err, Poll, ready,
  pending, List, [], ◌∷◌, if◌then◌else◌,
}
use aurix_tc365_async_rust.Sync.Waitqueue.{Waker}

pub record OnceLock (T : Type 0) : Type 0 where
  pub init : Bool
  pub data_cell : Option T

module _ {T : Type 0} where
  unfoldable pub new : OnceLock T
  new = record { init = false; data_cell = none }

  -- `assume_init` and `assume_init_ref`
  abbrev pub assume_init : Option T → Outcome T
  assume_init none = panic
  assume_init (some a) = ret a

  unfoldable pub get_ref_unchecked : OnceLock T → Outcome T
  get_ref_unchecked s = assume_init s.data_cell

  unfoldable pub try_get : OnceLock T → Outcome (Option T)
  unfolding get_ref_unchecked
  try_get s = if s.init then (get_ref_unchecked s >>= λ a. ret (some a)) else ret none

  -- The closure that `get` polls, for the task `cx`.
  unfoldable pub poll_get : Waker → OnceLock T → Outcome (List Waker × Poll T)
  unfolding try_get
  poll_get cx s =
      try_get s >>= λ got. elim got [ some a ↦ ret ([], ready a) | none ↦ ret (cx ∷ [], pending) ]

  unfoldable pub init_value : T → OnceLock T → OnceLock T × Result (Unit {0}) T
  init_value value s =
      if s.init then (s, err value) else (record s { data_cell = some value; init = true }, ok tt)

  unfoldable pub get_or_init : T → OnceLock T → OnceLock T × Outcome T
  unfolding get_ref_unchecked
  get_or_init f s =
      let s' = if s.init then s else record s { data_cell = some f; init = true } in
      (s', get_ref_unchecked s')

  unfoldable pub into_inner : OnceLock T → Outcome (Option T)
  into_inner s = if s.init then (assume_init s.data_cell >>= λ a. ret (some a)) else ret none

  unfoldable pub take : OnceLock T → OnceLock T × Outcome (Option T)
  take s =
      if s.init
      then (
        record s { data_cell = none; init = false },
        assume_init s.data_cell >>= λ a. ret (some a),
      )
      else (s, ret none)

  unfoldable pub is_set : OnceLock T → Bool
  is_set s = s.init
