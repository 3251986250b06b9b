-- ===== src/Runtime.antt =====
-- The start-up code of runtime.rs, which is assembly for TriCore: the list of context save areas, and
-- the tables of areas to clear and to copy. Memory is the byte at each address; a register has 32
-- bits, and addresses wrap. `loop %a15, label` jumps while the counter is not 0, then counts down, so
-- a body runs once more than its counter says.
pub mod Words
pub mod Clear
pub mod Copy
pub mod Tables
pub mod Csa
mod Tests
use aurix_tc365_async_rust.Prelude.{
  ℕ, zero, suc, ◌+◌, ◌-◌, ◌*◌, ◌/◌, ◌%◌, ◌^◌, Bool, true, false, Outcome, ret, panic, ◌>>=◌, ◌==◌,
  if◌then◌else◌,
}
use aurix_tc365_async_rust.Runtime.Words.{Ram, ld_w, st_b, st_w, st_d_zero}

-- `-1` in a register.
abbrev pub minus_one : ℕ
minus_one = 2 ^ 32 - 1

-- `_clear_exec_loop`
unfoldable pub clear_loop : ℕ → ℕ → Ram → Ram
clear_loop zero a4 m = st_d_zero a4 m
clear_loop (suc a15) a4 m = clear_loop a15 ((a4 + 8) % 2 ^ 32) (st_d_zero a4 m)

-- `clear_exec`: `size` is 32 bits wide.
unfoldable pub clear_exec : ℕ → ℕ → Ram → Ram
unfolding clear_loop
clear_exec start size m =
    if size == 0 then m else clear_loop ((size + minus_one) % 2 ^ 32 / 2 ^ 3) start m

-- `_copy_exec_loop`
unfoldable pub copy_loop : ℕ → ℕ → ℕ → Ram → Ram
copy_loop zero a4 a5 m = st_b a4 (m a5) m
copy_loop (suc a15) a4 a5 m =
    copy_loop a15 ((a4 + 1) % 2 ^ 32) ((a5 + 1) % 2 ^ 32) (st_b a4 (m a5) m)

-- `copy_exec`
unfoldable pub copy_exec : ℕ → ℕ → ℕ → Ram → Ram
unfolding copy_loop
copy_exec to from size m =
    if size == 0 then m else copy_loop ((size + minus_one) % 2 ^ 32) to from m

-- `Crt0BssInit`, over at most `fuel` rows of the table; with no fuel left it does not return.
unfoldable pub bss_init : ℕ → ℕ → Ram → Outcome Ram
bss_init zero a13 m = panic
bss_init (suc fuel) a13 m =
    let start = ld_w a13 m in
    let size = ld_w (a13 + 4) m in
    elim (start == minus_one) [
      | true ↦ ret m
      | false ↦ bss_init fuel ((a13 + 8) % 2 ^ 32) (clear_exec start size m)
    ]

-- `Crt0DataInit`, over at most `fuel` rows of the table: source, destination and size.
unfoldable pub data_init : ℕ → ℕ → Ram → Outcome Ram
data_init zero a13 m = panic
data_init (suc fuel) a13 m =
    let to = ld_w (a13 + 4) m in
    let from = ld_w a13 m in
    let size = ld_w (a13 + 8) m in
    elim (to == minus_one) [
      | true ↦ ret m
      | false ↦ data_init fuel ((a13 + 12) % 2 ^ 32) (copy_exec to from size m)
    ]

-- `_ctor_exec_loop`. `call` is what the function at an address does to `%a4`, which a call does not save,
-- and to the memory.
unfoldable pub ctor_loop : (ℕ → ℕ → Ram → ℕ × Ram) → ℕ → ℕ → Ram → Ram
ctor_loop call zero a4 m = (call (ld_w a4 m) ((a4 + 4) % 2 ^ 32) m).1
ctor_loop call (suc a15) a4 m =
    let (a4', m') = call (ld_w a4 m) ((a4 + 4) % 2 ^ 32) m in ctor_loop call a15 a4' m'

-- `Crt0CtorInit`
unfoldable pub ctor_init : (ℕ → ℕ → Ram → ℕ × Ram) → ℕ → Ram → Ram
ctor_init call a4 m =
    let size = ld_w a4 m in
    if a4 == 0
    then m
    else if size == 0
    then m
    else ctor_loop call ((size + minus_one) % 2 ^ 32) ((a4 + 4) % 2 ^ 32) m

-- The link word of the entry at an address: its segment, `>> 12` and `& 0xF0000`, beside its offset,
-- `>> 6` and `& 0xFFFF`. The two have no bit in common, so the `or` is a sum.
unfoldable pub link_word : ℕ → ℕ
link_word a = a / 2 ^ 12 / 2 ^ 16 % 2 ^ 4 * 2 ^ 16 + a / 2 ^ 6 % 2 ^ 16

-- The registers of the free context list.
pub record Contexts : Type 0 where
  pub pcxi : ℕ
  pub fcx : ℕ
  pub lcx : ℕ

-- `loop_csa`: the link word that it ends with, and the memory.
unfoldable pub csa_loop : ℕ → ℕ → ℕ → Ram → ℕ × Ram
csa_loop zero a15 d4 m = ((d4 + 1) % 2 ^ 32, st_w a15 ((d4 + 1) % 2 ^ 32) m)
csa_loop (suc a4) a15 d4 m =
    csa_loop a4 ((a15 + 64) % 2 ^ 32) ((d4 + 1) % 2 ^ 32) (st_w a15 ((d4 + 1) % 2 ^ 32) m)

-- The start-up of the list in an area of `size` bytes from `csa`.
unfoldable pub csa_init : ℕ → ℕ → Ram → Contexts × Ram
csa_init csa size m =
    let (last, m') = csa_loop ((size / 2 ^ 6 + minus_one) % 2 ^ 32) csa (link_word csa) m in
    (record { pcxi = 0; fcx = link_word csa; lcx = last }, m')
