-- ===== src/SrpMutex/Tests.antt =====
-- A mutex that tasks of the priorities 3, 3, 8 and 5 share.
use aurix_tc365_async_rust.Prelude.{ℕ, ◌≡◌, ◌+◌, refl, max, [], ◌∷◌}
use aurix_tc365_async_rust.SrpMutex.{new, lock_mut}
use aurix_tc365_async_rust.SrpMutex.Ceiling.{register_all, highest, lock_mut-ceiling}

abbrev swap_in : ℕ → ℕ → ℕ × (ℕ × ℕ)
swap_in value ccpn = (1, (value + 1, ccpn))

lock_mut-ceiling_example :
    lock_mut (register_all (3 ∷ 8 ∷ 5 ∷ []) (new 3)) swap_in 6 2
    ≡ (2, (7, max 2 (highest 3 (3 ∷ 8 ∷ 5 ∷ []))))
lock_mut-ceiling_example = lock_mut-ceiling 3 (8 ∷ 5 ∷ []) 3 swap_in 6 2 refl
