-- ===== src/SrpMutex.antt =====
-- srp_mutex.rs: a mutex by the stack resource policy, which raises the core's ceiling while it is held.
-- The current priority number `ccpn` of the register ICR is the ceiling; a call that runs `f` takes it and
-- returns it. `lock` and `lock_mut` are `do_srp` with their access to the value as `f`.
pub mod Ceiling
mod Tests
use aurix_tc365_async_rust.Prelude.{ℕ, max, ltb, ◌==◌, if◌then◌else◌}

pub data State : Type 0 where
  owned co_owned contended : ℕ → State

unfoldable pub new : ℕ → State
new prio = owned prio

unfoldable pub register_access : ℕ → State → State
register_access prio (owned p) = if p == prio then co_owned p else contended (max p prio)
register_access prio (co_owned p) = if p == prio then co_owned p else contended (max p prio)
register_access prio (contended p) = if p == prio then contended p else contended (max p prio)

-- `f` runs at a ceiling, and leaves one beside its result.
unfoldable pub do_srp : {U : Type 0} → State → (ℕ → ℕ × U) → ℕ → ℕ × U
do_srp (owned p) f ccpn = f ccpn
do_srp (co_owned p) f ccpn = f ccpn
do_srp (contended p) f previous_ceiling =
    let (_, x) = f (if ltb previous_ceiling p then p else previous_ceiling) in (previous_ceiling, x)

-- The mutex's value under the ceiling: `f` reads it.
unfoldable pub lock : {T U : Type 0} → State → (T → ℕ → ℕ × U) → T → ℕ → ℕ × U
unfolding do_srp
lock state f value ccpn = do_srp state (f value) ccpn

-- The mutex's value under the ceiling: `f` has it alone, and returns the new one.
unfoldable pub lock_mut : {T U : Type 0} → State → (T → ℕ → ℕ × (T × U)) → T → ℕ → ℕ × (T × U)
unfolding do_srp
lock_mut state f value ccpn = do_srp state (f value) ccpn
