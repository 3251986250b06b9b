-- ===== src/Memory/Bump.antt =====
-- memory/bump.rs: the allocator of memory that is never given back. A pointer is its address; a type is its size
-- and its alignment.
pub mod Blocks
mod Tests
use aurix_tc365_async_rust.Prelude.{
  ℕ, ◌+◌, ◌%◌, Bool, true, false, List, [], ◌∷◌, ltb, ◌==◌, if◌then◌else◌, add_usize, sub_usize,
  Option, some, Outcome, ret, panic, ◌>>=◌,
}

pub record BumpAllocator : Type 0 where
  pub len : ℕ
  pub pos : ℕ
  pub start : ℕ

unfoldable pub new : ℕ → ℕ → BumpAllocator
new len start = record { len = len; pos = 0; start = start }

unfoldable pub round_up : ℕ → ℕ → ℕ
round_up n m = let rem = n % m in if rem == 0 then n else sub_usize (add_usize n m) rem

unfoldable pub alloc : ℕ → ℕ → BumpAllocator → Outcome (BumpAllocator × ℕ)
unfolding round_up
alloc size align b =
    let new_pos = round_up b.pos align in
    if ltb (add_usize new_pos size) b.len
    then ret (record b { pos = add_usize new_pos size }, add_usize b.start new_pos)
    else panic

-- The values of one type in memory, by their addresses.
unfoldable pub alloc_init :
    {T : Type 0}
    → ℕ
    → ℕ
    → T
    → BumpAllocator × (ℕ → Option T)
    → Outcome ((BumpAllocator × (ℕ → Option T)) × ℕ)
unfolding alloc
alloc_init size align val (b, memory) = alloc size align b >>= λ (b', slot).
    ret ((b', λ address. if address == slot then some val else memory address), slot)

-- What the program does with the allocator: a call for one size and alignment after the other.
abbrev pub alloc_all : List (ℕ × ℕ) → BumpAllocator → Outcome (BumpAllocator × List (ℕ × ℕ))
alloc_all [] b = ret (b, [])
alloc_all ((size, align) ∷ types) b = alloc size align b >>= λ (b', address).
    alloc_all types b' >>= λ (b'', blocks). ret (b'', (address, size) ∷ blocks)
