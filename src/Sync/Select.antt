-- ===== src/Sync/Select.antt =====
-- sync/select.rs: the first of several futures to complete. A future is a parameter: its state, and what a poll
-- does to it and to the rest of the world `W`, which the wakers in the context are part of.
pub mod First
pub mod Forms
mod Tests
use aurix_tc365_async_rust.Prelude.{ℕ, ◌+◌, Option, none, some, List, [], ◌∷◌, Poll, ready, pending}

pub record Future (W : Type 0) (S Out : Type 0) : Type 0 where
  pub poll : S → W → W × S × Poll Out

pub data Either (A B : Type 0) : Type 0 where
  first : A → Either A B
  second : B → Either A B

pub data Either3 (A B C : Type 0) : Type 0 where
  first : A → Either3 A B C
  second : B → Either3 A B C
  third : C → Either3 A B C

pub data Either4 (A B C D : Type 0) : Type 0 where
  first : A → Either4 A B C D
  second : B → Either4 A B C D
  third : C → Either4 A B C D
  fourth : D → Either4 A B C D

pub record Select (A B : Type 0) : Type 0 where
  pub a : A
  pub b : B

pub record Select3 (A B C : Type 0) : Type 0 where
  pub a : A
  pub b : B
  pub c : C

pub record Select4 (A B C D : Type 0) : Type 0 where
  pub a : A
  pub b : B
  pub c : C
  pub d : D

unfoldable pub select : {A B : Type 0} → A → B → Select A B
select a b = record { a = a; b = b }

unfoldable pub select3 : {A B C : Type 0} → A → B → C → Select3 A B C
select3 a b c = record { a = a; b = b; c = c }

unfoldable pub select4 : {A B C D : Type 0} → A → B → C → D → Select4 A B C D
select4 a b c d = record { a = a; b = b; c = c; d = d }

module _ {W A B X Y : Type 0} (F : Future W A X) (G : Future W B Y) where
  unfoldable pub poll_select : Select A B → W → W × Select A B × Poll (Either X Y)
  poll_select s w =
      let (wa, a, pa) = F.poll s.a w in
      let (wb, b, pb) = G.poll s.b wa in
      elim pa [
        | ready x ↦ (wa, record s { a = a }, ready (Either.first x))
        | pending ↦ elim pb [
          | ready y ↦ (wb, record { a = a; b = b }, ready (Either.second y))
          | pending ↦ (wb, record { a = a; b = b }, pending)
        ]
      ]

module _ {W A B C X Y Z : Type 0} (F : Future W A X) (G : Future W B Y) (H : Future W C Z) where
  unfoldable pub poll_select3 : Select3 A B C → W → W × Select3 A B C × Poll (Either3 X Y Z)
  poll_select3 s w =
      let (wa, a, pa) = F.poll s.a w in
      let (wb, b, pb) = G.poll s.b wa in
      let (wc, c, pc) = H.poll s.c wb in
      elim pa [
        | ready x ↦ (wa, record s { a = a }, ready (Either3.first x))
        | pending ↦ elim pb [
          | ready y ↦ (wb, record s { a = a; b = b }, ready (Either3.second y))
          | pending ↦ elim pc [
            | ready z ↦ (wc, record { a = a; b = b; c = c }, ready (Either3.third z))
            | pending ↦ (wc, record { a = a; b = b; c = c }, pending)
          ]
        ]
      ]

module _ {W A B C D X Y Z U : Type 0} (F : Future W A X) (G : Future W B Y) (H : Future W C Z)
    (I : Future W D U) where
  unfoldable pub poll_select4 : Select4 A B C D → W → W × Select4 A B C D × Poll (Either4 X Y Z U)
  poll_select4 s w =
      let (wa, a, pa) = F.poll s.a w in
      let (wb, b, pb) = G.poll s.b wa in
      let (wc, c, pc) = H.poll s.c wb in
      let (wd, d, pd) = I.poll s.d wc in
      elim pa [
        | ready x ↦ (wa, record s { a = a }, ready (Either4.first x))
        | pending ↦ elim pb [
          | ready y ↦ (wb, record s { a = a; b = b }, ready (Either4.second y))
          | pending ↦ elim pc [
            | ready z ↦ (wc, record s { a = a; b = b; c = c }, ready (Either4.third z))
            | pending ↦ elim pd [
              | ready u ↦ (wd, record { a = a; b = b; c = c; d = d }, ready (Either4.fourth u))
              | pending ↦ (wd, record { a = a; b = b; c = c; d = d }, pending)
            ]
          ]
        ]
      ]

-- `iter_mut().enumerate().find_map(…)`: polls the futures from the front until one is ready.
module _ {W S Out : Type 0} (F : Future W S Out) where
  unfoldable pub find_ready : ℕ → List S → W → W × List S × Option (ℕ × Out)
  find_ready i [] w = (w, [], none)
  find_ready i (f ∷ fs) w =
      let (w', f', p) = F.poll f w in
      let (w'', fs', found) = find_ready (i + 1) fs w' in
      elim p [ ready e ↦ (w', f' ∷ fs, some (i, e)) | pending ↦ (w'', f' ∷ fs', found) ]

  abbrev pub as_poll : Option (ℕ × Out) → Poll (Out × ℕ)
  as_poll (some (idx, res)) = ready (res, idx)
  as_poll none = pending

  unfoldable pub poll_select_array : List S → W → W × List S × Poll (Out × ℕ)
  unfolding find_ready
  poll_select_array inner w =
      let (w', inner', item) = find_ready 0 inner w in (w', inner', as_poll item)

  unfoldable pub poll_select_slice : List S → W → W × List S × Poll (Out × ℕ)
  unfolding find_ready
  poll_select_slice inner w =
      let (w', inner', item) = find_ready 0 inner w in (w', inner', as_poll item)
