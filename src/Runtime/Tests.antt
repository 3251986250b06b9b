-- ===== src/Runtime/Tests.antt =====
-- Runs of the start-up code of runtime.rs, on a memory that is 0 but for one table.
use aurix_tc365_async_rust.Prelude.{
  ℕ, ◌+◌, ◌*◌, ◌≤◌, ◌<◌, ◌≡◌, ◌⊎◌, refl, List, [], ◌∷◌, Returns, if◌then◌else◌, arith, ◌==◌, inr,
}
use aurix_tc365_async_rust.Runtime.Words.{Ram, ld_w, st_w}
use aurix_tc365_async_rust.Runtime.{bss_init, data_init, ctor_init, csa_init}
use aurix_tc365_async_rust.Runtime.Clear.{cleared, bss_init-cleared}
use aurix_tc365_async_rust.Runtime.Tables.{
  Row, copied, run_all, data_init-copied, ctor_init-run_all,
}
use aurix_tc365_async_rust.Runtime.Csa.{address, follow, csa_init-list}

-- Words from an address on, and 0 elsewhere.
abbrev words : ℕ → List ℕ → Ram
unfolding st_w
words a [] = λ b. 0
words a (w ∷ ws) = st_w a w (words (a + 4) ws)

abbrev clear_rows : List (ℕ × ℕ)
clear_rows = (0x7000, 12) ∷ (0x7100, 8) ∷ []

abbrev clear_table : Ram
clear_table = words 0x100 (0x7000 ∷ 12 ∷ 0x7100 ∷ 8 ∷ 0xffff_ffff ∷ [])

bss_init-cleared_example :
    Returns
      (bss_init 3 0x100 clear_table)
      (λ m'. (b : ℕ) → m' b ≡ (if cleared clear_rows b then 0 else clear_table b))
unfolding ld_w st_w
bss_init-cleared_example =
    bss_init-cleared clear_rows 0x100 clear_table
      (refl, refl, omega arith, (refl, refl, omega arith, refl))
      (
        omega arith,
        omega arith,
        inr (omega arith),
        (omega arith, omega arith, inr (omega arith), tt),
      )
      (omega arith)

abbrev copy_rows : List Row
copy_rows = (0x200, 0x7000, 3) ∷ (0x202, 0x7002, 2) ∷ []

abbrev copy_table : Ram
copy_table = words 0x100 (0x200 ∷ 0x7000 ∷ 3 ∷ 0x202 ∷ 0x7002 ∷ 2 ∷ 0 ∷ 0xffff_ffff ∷ [])

data_init-copied_example :
    Returns
      (data_init 3 0x100 copy_table)
      (λ m'. (b : ℕ) → m' b ≡ copied copy_rows copy_table b (copy_table b))
unfolding ld_w st_w
data_init-copied_example =
    data_init-copied copy_rows 0x100 copy_table
      (refl, refl, refl, omega arith, (refl, refl, refl, omega arith, refl))
      (
        omega arith,
        omega arith,
        omega arith,
        inr (omega arith),
        inr (omega arith),
        (inr (omega arith), tt),
        (omega arith, omega arith, omega arith, inr (omega arith), inr (omega arith), tt, tt),
      )
      (omega arith)

-- The function at an address counts itself in the byte at 0x8000.
abbrev counts : ℕ → Ram → Ram
counts f m b = if b == 0x8000 then m 0x8000 * 8 + f else m b

abbrev ctor_table : Ram
ctor_table = words 0x100 (2 ∷ 5 ∷ 3 ∷ [])

ctor_init-run_all_example :
    ctor_init (λ f a4 m. (a4, counts f m)) 0x100 ctor_table ≡ run_all counts (5 ∷ 3 ∷ []) ctor_table
unfolding ld_w st_w
ctor_init-run_all_example =
    ctor_init-run_all (λ f a4 m. (a4, counts f m)) counts (5 ∷ 3 ∷ []) 0x100 ctor_table
      (omega arith) refl (refl, (refl, tt))
      (((λ a m. refl), λ m b p q. ground arith), (((λ a m. refl), λ m b p q. ground arith), tt))
      (omega arith)

-- Four entries at 0x70010000.
csa_init-list_example :
    let (r, m') = csa_init 0x7001_0000 256 (λ b. 0) in
    (r.pcxi ≡ 0)
    × ((i : ℕ) → i ≤ 4 → address (follow i m' r.fcx) ≡ 0x7001_0000 + 64 * i)
    × (address r.lcx ≡ 0x7001_0000 + 64 * 4)
    × ((b : ℕ) → (b < 0x7001_0000) ⊎ (0x7001_0000 + 64 * 4 ≤ b) → m' b ≡ 0)
csa_init-list_example =
    csa_init-list 0x7001_0000 256 (λ b. 0)
      (record {
        small = omega arith;
        aligned = omega arith;
        some_entry = omega arith;
        within = omega arith;
      })
      (omega arith)
