-- ===== src/Runtime/Words.antt =====
-- Loads and stores of TriCore, by which runtime.rs works: bytes, little-endian words, and the double word 0.
use aurix_tc365_async_rust.Prelude.{
  ℕ, ◌+◌, ◌*◌, ◌/◌, ◌%◌, ◌^◌, ◌≤◌, ◌<◌, ◌≡◌, ◌⊎◌, leb, ltb, ◌==◌, ◌&&◌, if◌then◌else◌, arith, refl,
}

abbrev pub Ram : Type 0
Ram = ℕ → ℕ

unfoldable pub ld_w : ℕ → Ram → ℕ
ld_w a m = m a + m (a + 1) * 2 ^ 8 + m (a + 2) * 2 ^ 16 + m (a + 3) * 2 ^ 24

unfoldable pub st_b : ℕ → ℕ → Ram → Ram
st_b a v m b = if b == a then v % 2 ^ 8 else m b

unfoldable pub st_w : ℕ → ℕ → Ram → Ram
unfolding st_b
st_w a v m =
    st_b (a + 3) (v / 2 ^ 24) (st_b (a + 2) (v / 2 ^ 16) (st_b (a + 1) (v / 2 ^ 8) (st_b a v m)))

unfoldable pub st_d_zero : ℕ → Ram → Ram
st_d_zero a m b = if leb a b && ltb b (a + 8) then 0 else m b

pub ld_w-st_w : (a v : ℕ) (m : Ram) → v < 2 ^ 32 → ld_w a (st_w a v m) ≡ v
unfolding ld_w st_w
ld_w-st_w a v m small = ground arith

pub st_w_outside : (a v : ℕ) (m : Ram) (b : ℕ) → (b < a) ⊎ (a + 4 ≤ b) → st_w a v m b ≡ m b
unfolding st_w
st_w_outside a v m b out = ground arith

-- A word is read as before, if its bytes are.
pub ld_w_same :
    (a : ℕ) (m m' : Ram) → ((b : ℕ) → a ≤ b → b < a + 4 → m' b ≡ m b) → ld_w a m' ≡ ld_w a m
unfolding ld_w
ld_w_same a m m' same =
    rw
      (
        same a (omega arith) (omega arith),
        same (a + 1) (omega arith) (omega arith),
        same (a + 2) (omega arith) (omega arith),
        same (a + 3) (omega arith) (omega arith),
      )
      refl
