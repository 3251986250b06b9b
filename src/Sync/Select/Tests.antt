-- ===== src/Sync/Select/Tests.antt =====
-- Futures that count down: each poll of one counts the polls, and a future at 0 is ready with their number.
use aurix_tc365_async_rust.Prelude.{ℕ, zero, suc, ◌+◌, ◌≡◌, [], ◌∷◌, Poll, ready, pending}
use aurix_tc365_async_rust.Sync.Select.{
  Future, select, select3, select4, poll_select, poll_select3, poll_select4, poll_select_array,
  poll_select_slice,
}
use aurix_tc365_async_rust.Sync.Select.First.{Selected, poll_select_array-Selected}
use aurix_tc365_async_rust.Sync.Select.Forms.{as_array, as_array3, as_array4, select-select_array}

abbrev poll_countdown : ℕ → ℕ → ℕ × ℕ × Poll ℕ
poll_countdown zero polls = (polls + 1, 0, ready polls)
poll_countdown (suc n) polls = (polls + 1, n, pending)

abbrev countdown : Future ℕ ℕ ℕ
countdown = record { poll = poll_countdown }

poll_select_array-Selected_example :
    Selected countdown (2 ∷ 0 ∷ 1 ∷ []) 5 (poll_select_array countdown (2 ∷ 0 ∷ 1 ∷ []) 5)
poll_select_array-Selected_example = poll_select_array-Selected countdown (2 ∷ 0 ∷ 1 ∷ []) 5

select-select_array_example :
    (as_array countdown (poll_select countdown countdown (select 2 0) 5)
      ≡ poll_select_array countdown (2 ∷ 0 ∷ []) 5)
    × (as_array3 countdown (poll_select3 countdown countdown countdown (select3 2 0 1) 5)
        ≡ poll_select_array countdown (2 ∷ 0 ∷ 1 ∷ []) 5)
    × (as_array4 countdown
          (poll_select4 countdown countdown countdown countdown (select4 2 0 1 0) 5)
        ≡ poll_select_array countdown (2 ∷ 0 ∷ 1 ∷ 0 ∷ []) 5)
    × (poll_select_slice countdown (1 ∷ 0 ∷ []) 5 ≡ poll_select_array countdown (1 ∷ 0 ∷ []) 5)
select-select_array_example = select-select_array countdown 2 0 1 0 (1 ∷ 0 ∷ []) 5
