-- ===== src/Sync/Waitqueue/Sleep.antt =====
-- When a task sleeps, as the caller of a primitive of sync/ sees it: its last poll was pending and
-- nothing has woken it since.
use aurix_tc365_async_rust.Prelude.{
  ℕ, Bool, false, Option, none, some, List, [], ◌∷◌, ◌==◌, ◌||◌, if◌then◌else◌,
}

abbrev pub woken : ℕ → List ℕ → Bool
woken w [] = false
woken w (v ∷ vs) = v == w || woken w vs

-- `polled` is the task that the call polls for, and `is_pending` what it was told.
abbrev pub sleeps : ℕ → Bool → Option ℕ → Bool → List ℕ → Bool
sleeps w before none is_pending vs = if woken w vs then false else before
sleeps w before (some p) is_pending vs =
    if woken w vs then false else if p == w then is_pending else before
