-- ===== src/Sync/Select/Forms.antt =====
-- select, select3 and select4 of sync/select.rs on futures of one type, as arrays.
use aurix_tc365_async_rust.Prelude.{ℕ, ◌≡◌, refl, List, [], ◌∷◌, Poll, ready, pending, inl, inr}
use aurix_tc365_async_rust.Sync.Select.{
  Future, Either, Either3, Either4, Select, Select3, Select4, select, select3, select4, poll_select,
  poll_select3, poll_select4, find_ready, poll_select_array, poll_select_slice,
}
use aurix_tc365_async_rust.Sync.Select.First.{Poll-cases}

module _ {W S Out : Type 0} (F : Future W S Out) where
  abbrev pub of_either : Poll (Either Out Out) → Poll (Out × ℕ)
  of_either (ready (Either.first x)) = ready (x, 0)
  of_either (ready (Either.second x)) = ready (x, 1)
  of_either pending = pending

  abbrev pub of_either3 : Poll (Either3 Out Out Out) → Poll (Out × ℕ)
  of_either3 (ready (Either3.first x)) = ready (x, 0)
  of_either3 (ready (Either3.second x)) = ready (x, 1)
  of_either3 (ready (Either3.third x)) = ready (x, 2)
  of_either3 pending = pending

  abbrev pub of_either4 : Poll (Either4 Out Out Out Out) → Poll (Out × ℕ)
  of_either4 (ready (Either4.first x)) = ready (x, 0)
  of_either4 (ready (Either4.second x)) = ready (x, 1)
  of_either4 (ready (Either4.third x)) = ready (x, 2)
  of_either4 (ready (Either4.fourth x)) = ready (x, 3)
  of_either4 pending = pending

  abbrev pub as_array : W × Select S S × Poll (Either Out Out) → W × List S × Poll (Out × ℕ)
  as_array (w, s, p) = (w, s.a ∷ s.b ∷ [], of_either p)

  abbrev pub as_array3 :
      W × Select3 S S S × Poll (Either3 Out Out Out) → W × List S × Poll (Out × ℕ)
  as_array3 (w, s, p) = (w, s.a ∷ s.b ∷ s.c ∷ [], of_either3 p)

  abbrev pub as_array4 :
      W × Select4 S S S S × Poll (Either4 Out Out Out Out) → W × List S × Poll (Out × ℕ)
  as_array4 (w, s, p) = (w, s.a ∷ s.b ∷ s.c ∷ s.d ∷ [], of_either4 p)

  two :
      (a b : S) (w : W)
      → as_array (poll_select F F (select a b) w) ≡ poll_select_array F (a ∷ b ∷ []) w
  unfolding select poll_select poll_select_array find_ready
  two a b w =
      let (wa, a', pa) = F.poll a w in
      elim (Poll-cases F pa) [
        | inl (x, ea) ↦ rw (poll_select, find_ready, ea) refl
        | inr ea ↦
            let (wb, b', pb) = F.poll b wa in
            elim (Poll-cases F pb) [
              | inl (x, eb) ↦ rw (poll_select, find_ready, ea, eb) refl
              | inr eb ↦ rw (poll_select, find_ready, ea, eb) refl
            ]
      ]

  three :
      (a b c : S) (w : W)
      → as_array3 (poll_select3 F F F (select3 a b c) w) ≡ poll_select_array F (a ∷ b ∷ c ∷ []) w
  unfolding select3 poll_select3 poll_select_array find_ready
  three a b c w =
      let (wa, a', pa) = F.poll a w in
      elim (Poll-cases F pa) [
        | inl (x, ea) ↦ rw (poll_select3, find_ready, ea) refl
        | inr ea ↦
            let (wb, b', pb) = F.poll b wa in
            elim (Poll-cases F pb) [
              | inl (x, eb) ↦ rw (poll_select3, find_ready, ea, eb) refl
              | inr eb ↦
                  let (wc, c', pc) = F.poll c wb in
                  elim (Poll-cases F pc) [
                    | inl (x, ec) ↦ rw (poll_select3, find_ready, ea, eb, ec) refl
                    | inr ec ↦ rw (poll_select3, find_ready, ea, eb, ec) refl
                  ]
            ]
      ]

  four :
      (a b c d : S) (w : W)
      → as_array4 (poll_select4 F F F F (select4 a b c d) w)
        ≡ poll_select_array F (a ∷ b ∷ c ∷ d ∷ []) w
  unfolding select4 poll_select4 poll_select_array find_ready
  four a b c d w =
      let (wa, a', pa) = F.poll a w in
      elim (Poll-cases F pa) [
        | inl (x, ea) ↦ rw (poll_select4, find_ready, ea) refl
        | inr ea ↦
            let (wb, b', pb) = F.poll b wa in
            elim (Poll-cases F pb) [
              | inl (x, eb) ↦ rw (poll_select4, find_ready, ea, eb) refl
              | inr eb ↦
                  let (wc, c', pc) = F.poll c wb in
                  elim (Poll-cases F pc) [
                    | inl (x, ec) ↦ rw (poll_select4, find_ready, ea, eb, ec) refl
                    | inr ec ↦
                        let (wd, d', pd) = F.poll d wc in
                        elim (Poll-cases F pd) [
                          | inl (x, ed) ↦ rw (poll_select4, find_ready, ea, eb, ec, ed) refl
                          | inr ed ↦ rw (poll_select4, find_ready, ea, eb, ec, ed) refl
                        ]
                  ]
            ]
      ]

  -- On futures of one type, `select`, `select3`, `select4` and `select_slice` poll the same futures, leave
  -- them in the same states, and come to the same result as `select_array`.
  pub select-select_array :
      (a b c d : S) (fs : List S) (w : W)
      → (as_array (poll_select F F (select a b) w) ≡ poll_select_array F (a ∷ b ∷ []) w)
        × (as_array3 (poll_select3 F F F (select3 a b c) w)
            ≡ poll_select_array F (a ∷ b ∷ c ∷ []) w)
        × (as_array4 (poll_select4 F F F F (select4 a b c d) w)
            ≡ poll_select_array F (a ∷ b ∷ c ∷ d ∷ []) w)
        × (poll_select_slice F fs w ≡ poll_select_array F fs w)
  unfolding poll_select poll_select3 poll_select4 poll_select_array poll_select_slice find_ready
  select-select_array a b c d fs w = (two a b w, three a b c w, four a b c d w, refl)
