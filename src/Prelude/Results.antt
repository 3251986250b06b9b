-- ===== src/Prelude/Results.antt =====
-- `Result` and `Poll` of the Rust core library.
pub data Result {ℓ κ} (A : Type ℓ) (E : Type κ) : Type (ℓ ⊔ κ) where
  ok : A → Result A E
  err : E → Result A E

pub data Poll {ℓ} (A : Type ℓ) : Type ℓ where
  ready : A → Poll A
  pending : Poll A

-- `Ok` is ready, and an error that says to wait is pending.
abbrev pub poll_of {ℓ κ} : {A : Type ℓ} {E : Type κ} → Result A E → Poll A
poll_of (ok a) = ready a
poll_of (err e) = pending
