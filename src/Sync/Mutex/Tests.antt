-- ===== src/Sync/Mutex/Tests.antt =====
-- Runs of the mutex of sync/mutex.rs: one task holds it while the task 2 waits, and two tasks write in turn.
use aurix_tc365_async_rust.Prelude.{
  ℕ, ◌+◌, ◌*◌, ◌≡◌, ◌≤◌, ◌↔◌, ◌⊎◌, refl, true, false, some, none, [], ◌∷◌,
}
use aurix_tc365_async_rust.Sync.Waitqueue
use aurix_tc365_async_rust.Sync.Mutex.{new, poll_lock}
use aurix_tc365_async_rust.Sync.Mutex.Exclusion.{
  System, Reach, start, later, locks, mutual_exclusion,
}
use aurix_tc365_async_rust.Sync.Mutex.{try_lock, drop}
use aurix_tc365_async_rust.Sync.Mutex.Guards.{Part, into_inner, deref_guard}
use aurix_tc365_async_rust.Sync.Mutex.Guards
use aurix_tc365_async_rust.Sync.Mutex.Sections.{replay, AreSections, critical_sections}
use aurix_tc365_async_rust.Sync.Mutex.Sections

abbrev two_waits : System
two_waits = record {
  state = record { locked = true; waker = record { waker = some 2 } };
  guards = 1;
  asleep = true;
}

two_waits-Reach : Reach 2 two_waits
unfolding poll_lock new Waitqueue.register Waitqueue.new
two_waits-Reach = later (later start (locks 1)) (locks 2)

mutual_exclusion_example :
    (two_waits.guards ≤ 1)
    × ((two_waits.guards ≡ 1) ↔ (two_waits.state.locked ≡ true))
    × (two_waits.asleep ≡ true → (two_waits.guards ≡ 1) × (two_waits.state.waker.waker ≡ some 2))
mutual_exclusion_example = mutual_exclusion two_waits-Reach

abbrev first_of : Part (ℕ × ℕ) ℕ
first_of = record {
  get = λ t. t.0;
  put = λ u t. (u, t.1);
  get-put = λ u t. refl;
  put-get = λ t. refl;
  put-put = λ u u' t. refl;
}

-- A guard is mapped to the first number and adds to it, and is dropped; another doubles both.
abbrev both_wrote : Sections.System (ℕ × ℕ)
both_wrote = record {
  mutex = record {
    state = record { locked = true; waker = record { waker = none } };
    inner = (20, 14);
  };
  held = 1 ∷ [];
  given = 2;
  writes = (1, λ t. (t.0 * 2, t.1 * 2)) ∷ (0, λ t. (t.0 + 3, t.1)) ∷ [];
}

both_wrote-Reach : Sections.Reach (7, 7) both_wrote
unfolding poll_lock try_lock drop new Waitqueue.register Waitqueue.new Waitqueue.wake Guards.new
    Guards.deref_mut Guards.deref_mut_guard Guards.drop_mapped
both_wrote-Reach =
    Sections.later
      (Sections.later
        (Sections.later
          (Sections.later (Sections.later Sections.start (Sections.locks 1))
            (Sections.writes_part [] [] 0 refl first_of (λ n. n + 3)))
          (Sections.drops_mapped [] [] 0 refl))
        Sections.tries)
      (Sections.writes_value [] [] 1 refl (λ t. (t.0 * 2, t.1 * 2)))

critical_sections_example :
    (deref_guard both_wrote.mutex ≡ replay (7, 7) both_wrote.writes)
    × (into_inner both_wrote.mutex ≡ replay (7, 7) both_wrote.writes)
    × AreSections both_wrote.writes
    × ((both_wrote.mutex.state.locked ≡ false) × (both_wrote.held ≡ [])
        ⊎ (both_wrote.mutex.state.locked ≡ true)
          × ((g : ℕ) × (both_wrote.held ≡ g ∷ []) × (g + 1 ≡ both_wrote.given)))
critical_sections_example = critical_sections (7, 7) both_wrote-Reach
