-- ===== src/Runtime/Clear.antt =====
-- What `clear_exec` and `Crt0BssInit` of runtime.rs do to the memory.
use aurix_tc365_async_rust.Prelude.{
  ℕ, zero, suc, ◌+◌, ◌*◌, ◌/◌, ◌%◌, ◌^◌, ◌≤◌, ◌<◌, ◌≡◌, ◌≢◌, ◌⊎◌, refl, leb, ltb, ◌==◌, ◌&&◌, ◌||◌,
  Bool, false, ◌-◌, if◌then◌else◌, arith, List, [], ◌∷◌, length, Returns, Bool-cases, inl, inr, ◌∙◌,
}
use aurix_tc365_async_rust.Runtime.Words.{Ram, ld_w, st_d_zero, ld_w_same}
use aurix_tc365_async_rust.Runtime.{minus_one, clear_loop, clear_exec, bss_init}

-- Is the address `b` one of the `size` bytes from `start`?
abbrev pub inside : ℕ → ℕ → ℕ → Bool
inside start size b = leb start b && ltb b (start + size)

-- The bytes of the double words that `size` bytes begin.
abbrev pub double_words : ℕ → ℕ
double_words size = (size + 7) / 8 * 8

clear_loop_lem :
    (n a : ℕ) (m : Ram) (b : ℕ)
    → a + 8 * suc n ≤ 2 ^ 32
    → clear_loop n a m b ≡ (if inside a (8 * suc n) b then 0 else m b)
unfolding clear_loop st_d_zero
clear_loop_lem zero a m b fits = ground arith
clear_loop_lem (suc n) a m b fits =
    let next : (a + 8) % 2 ^ 32 ≡ a + 8 = omega arith in
    rw next (ground (arith, clear_loop_lem n (a + 8) (st_d_zero a m) b (omega arith)))

pub clear_exec_lem :
    (start size : ℕ) (m : Ram) (b : ℕ)
    → size < 2 ^ 32
    → start + double_words size ≤ 2 ^ 32
    → clear_exec start size m b ≡ (if inside start (double_words size) b then 0 else m b)
unfolding clear_exec
clear_exec_lem start size m b small fits = elim (Bool-cases (size == 0)) [
  | inl none ↦ rw none (ground arith)
  | inr some ↦
      let rounds : (size + minus_one) % 2 ^ 32 / 2 ^ 3 ≡ (size + 7) / 8 - 1 = ground arith in
      rw (some, rounds)
        (ground (arith, clear_loop_lem ((size + 7) / 8 - 1) start m b (ground arith)))
]

-- The memory holds the rows of a table from the address `a` on, and the mark of its end.
abbrev pub HasRows : List (ℕ × ℕ) → ℕ → Ram → Type 0
HasRows [] a m = ld_w a m ≡ minus_one
HasRows ((start, size) ∷ rows) a m =
    (ld_w a m ≡ start) × (ld_w (a + 4) m ≡ size) × (start ≢ minus_one) × HasRows rows (a + 8) m

-- The areas fit into the memory, and no byte of the table, from `lo` to `hi`, is in one.
abbrev pub AreApart : ℕ → ℕ → List (ℕ × ℕ) → Type 0
AreApart lo hi [] = Unit
AreApart lo hi ((start, size) ∷ rows) =
    (size < 2 ^ 32)
    × (start + double_words size ≤ 2 ^ 32)
    × ((start + double_words size ≤ lo) ⊎ (hi ≤ start))
    × AreApart lo hi rows

abbrev pub cleared : List (ℕ × ℕ) → ℕ → Bool
cleared [] b = false
cleared ((start, size) ∷ rows) b = inside start (double_words size) b || cleared rows b

module _ (lo hi : ℕ) where
  HasRows-same :
      (rows : List (ℕ × ℕ)) (a : ℕ) (m m' : Ram)
      → ((b : ℕ) → lo ≤ b → b < hi → m' b ≡ m b)
      → lo ≤ a
      → a + (8 * length rows + 4) ≤ hi
      → HasRows rows a m
      → HasRows rows a m'
  HasRows-same [] a m m' same low high h =
      ld_w_same a m m' (λ b p q. same b (omega arith) (omega arith)) ∙ h
  HasRows-same ((start, size) ∷ rows) a m m' same low high (h, k, l, rest) = (
    ld_w_same a m m' (λ b p q. same b (omega arith) (omega arith)) ∙ h,
    ld_w_same (a + 4) m m' (λ b p q. same b (omega arith) (omega arith)) ∙ k,
    l,
    HasRows-same rows (a + 8) m m' same (omega arith) (omega arith) rest,
  )

  bss_next :
      (fuel a start size : ℕ) (m : Ram)
      → ld_w a m ≡ start
      → ld_w (a + 4) m ≡ size
      → start ≢ minus_one
      → a + 8 < 2 ^ 32
      → bss_init (suc fuel) a m ≡ bss_init fuel (a + 8) (clear_exec start size m)
  unfolding bss_init
  bss_next fuel a start size m h k l small =
      let next : (a + 8) % 2 ^ 32 ≡ a + 8 = omega arith in
      let more : (ld_w a m == minus_one) ≡ false = ground arith in
      rw (bss_init, more, h, k, next) refl

  bss_rows :
      (rows : List (ℕ × ℕ)) (a : ℕ) (m : Ram)
      → HasRows rows a m
      → AreApart lo hi rows
      → lo ≤ a
      → a + (8 * length rows + 4) ≤ hi
      → hi ≤ 2 ^ 32
      → Returns
          (bss_init (suc (length rows)) a m)
          (λ m'. (b : ℕ) → m' b ≡ (if cleared rows b then 0 else m b))
  unfolding bss_init
  bss_rows [] a m h apart low high small = (m, rw (h, bss_init) refl, λ b. refl)
  bss_rows ((start, size) ∷ rows) a m (h, k, l, rest) (s, fits, off, apart) low high small =
      let m₁ = clear_exec start size m in
      let by = λ (b : ℕ). clear_exec_lem start size m b s fits in
      let (m', e, x) =
        bss_rows rows (a + 8) m₁
          (HasRows-same rows (a + 8) m m₁ (λ b p q. ground (arith, by b)) (omega arith)
            (omega arith) rest)
          apart (omega arith) (omega arith) small in
      (
        m',
        bss_next (suc (length rows)) a start size m h k l (omega arith) ∙ e,
        λ b. ground (arith, x b, by b),
      )

-- A table in memory, whose areas fit into the memory and hold no byte of it: `Crt0BssInit` comes to the end
-- of the table, and has put 0 into each byte of the areas and of the double words in which they
-- end, and into no other.
pub bss_init-cleared :
    (rows : List (ℕ × ℕ)) (a : ℕ) (m : Ram)
    → HasRows rows a m
    → AreApart a (a + (8 * length rows + 4)) rows
    → a + (8 * length rows + 4) ≤ 2 ^ 32
    → Returns
        (bss_init (suc (length rows)) a m)
        (λ m'. (b : ℕ) → m' b ≡ (if cleared rows b then 0 else m b))
bss_init-cleared rows a m h apart small =
    bss_rows a (a + (8 * length rows + 4)) rows a m h apart (omega arith) (omega arith) small
