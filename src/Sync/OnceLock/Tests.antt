-- ===== src/Sync/OnceLock/Tests.antt =====
-- A lock that is set.
use aurix_tc365_async_rust.Prelude.{ℕ, refl, true, some}
use aurix_tc365_async_rust.Sync.OnceLock.{OnceLock}
use aurix_tc365_async_rust.Sync.OnceLock.Refine.{Behaves, once_lock-Behaves}

abbrev is_five : OnceLock ℕ
is_five = record { init = true; data_cell = some 5 }

once_lock-Behaves_example : Behaves 2 6 (some 5) is_five
once_lock-Behaves_example = once_lock-Behaves 2 6 (some 5) is_five (refl, refl)
