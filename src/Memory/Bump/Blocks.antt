-- ===== src/Memory/Bump/Blocks.antt =====
-- Where the blocks of memory/bump.rs lie.
use aurix_tc365_async_rust.Prelude.{
  ℕ, ◌+◌, ◌-◌, ◌*◌, ◌/◌, ◌%◌, ◌^◌, ◌≤◌, ◌<◌, ◌≡◌, refl, sym, ◌∙◌, ap, true, false, List, [], ◌∷◌,
  ltb, ◌==◌, add_usize, sub_usize, panic, Returns, All, Bool-cases, inl, inr, arith,
}
use native.Mathlib.Nat.{
  mod-lt, mod_self, div-add-mod, mul-add-mod_self_left, add-mod, add-mod-mod, mod-eq_of_lt,
}
use aurix_tc365_async_rust.Memory.Bump.{BumpAllocator, round_up, alloc, alloc_all}

-- The next multiple, where no multiple is at hand.
round_up_sub :
    (n m : ℕ)
    → 0 < m
    → n + m < 2 ^ 32
    → 0 < n % m
    → (sub_usize (add_usize n m) (n % m) ≡ m * (n / m) + m)
      × (n ≤ m * (n / m) + m)
      × (m * (n / m) + m < n + m)
round_up_sub n m pos small some_left =
    let parts : m * (n / m) + n % m ≡ n = div-add-mod n m in
    let less : n % m < m = mod-lt n pos in
    (omega (arith, parts, less), omega (arith, parts, less), omega (arith, parts, less))

multiple : (m k d : ℕ) → d < m → k % m ≡ 0 → (k + d) % m ≡ 0 → d ≡ 0
multiple m k d less at next =
    let small : d % m ≡ d = mod-eq_of_lt less in
    let sum : k % m + d % m ≡ d = omega (arith, at, small) in
    sym small ∙ sym (ap (λ x. x % m) sum) ∙ sym (add-mod k d m) ∙ next

-- A multiple from `n` on is not below the next one, `c`.
no_less : (n m c k : ℕ) → c % m ≡ 0 → c < n + m → n ≤ k → k % m ≡ 0 → c ≤ k
no_less n m c k whole near from at = elim (Bool-cases (ltb k c)) [
  | inl below ↦
      let lt : k < c = ground arith in
      let sum : k + (c - k) ≡ c = omega (arith, lt) in
      let none_between : c - k ≡ 0 =
        multiple m k (c - k) (omega (arith, lt)) at (ap (λ x. x % m) sum ∙ whole) in
      omega (arith, lt, none_between)
  | inr over ↦ ground arith
]

abbrev pub IsNext : ℕ → ℕ → ℕ → Type 0
IsNext n m c = (c % m ≡ 0) × (n ≤ c) × (c < n + m) × ((k : ℕ) → n ≤ k → k % m ≡ 0 → c ≤ k)

-- `round_up n m` is the least multiple of `m` that is not below `n`, and less than `m` above it.
pub round_up-IsNext : (n m : ℕ) → 0 < m → n + m < 2 ^ 32 → IsNext n m (round_up n m)
unfolding round_up
round_up-IsNext n m pos small = elim (Bool-cases (n % m == 0)) [
  | inl whole ↦ rw whole (ground arith, omega arith, omega arith, λ k from at. from)
  | inr broken ↦
      let (e, above, near) = round_up_sub n m pos small (ground arith) in
      let c = m * (n / m) + m in
      let whole : c % m ≡ 0 = mul-add-mod_self_left m (n / m) m ∙ mod_self m in
      rw (broken, e) (whole, above, near, λ k from at. no_less n m c k whole near from at)
]

-- A multiple of `m` more leaves the same remainder.
add_multiple : (n k m : ℕ) → k % m ≡ 0 → (n + k) % m ≡ n % m
add_multiple n k m at =
    let sum : n + k % m ≡ n = omega (arith, at) in sym (add-mod-mod n k m) ∙ ap (λ x. x % m) sum

-- The position is inside the memory, and the addresses are below 2 ^ 32.
abbrev pub IsValid : BumpAllocator → Type 0
IsValid b = (b.pos ≤ b.len) × (b.start + b.len < 2 ^ 32)

-- The block at an address, and the allocator after it.
abbrev pub Allocated : ℕ → ℕ → BumpAllocator → BumpAllocator × ℕ → Type 0
Allocated size align b (b', address) =
    (offset : ℕ) × (address ≡ b.start + offset)
    × IsNext b.pos align offset
    × (b' ≡ record b { pos = offset + size })
    × (b'.pos < b'.len)

-- For an alignment that is not 0, and with sums below 2 ^ 32: if the block, at the next multiple of its alignment from the position on,
-- ends before the end of the memory, then `alloc` returns it, and moves the position to its end.
pub alloc-Allocated :
    (size align : ℕ) (b : BumpAllocator)
    → IsValid b
    → 0 < align
    → b.len + align + size < 2 ^ 32
    → round_up b.pos align + size < b.len
    → Returns (alloc size align b) (Allocated size align b)
unfolding alloc
alloc-Allocated size align b v pos small fits =
    let next = round_up-IsNext b.pos align pos (omega (arith, v.0)) in
    let sum : add_usize (round_up b.pos align) size ≡ round_up b.pos align + size = omega arith in
    let address : add_usize b.start (round_up b.pos align) ≡ b.start + round_up b.pos align =
      omega (arith, v.1) in
    let room : ltb (round_up b.pos align + size) b.len ≡ true = ground arith in
    (
      (record b { pos = round_up b.pos align + size }, b.start + round_up b.pos align),
      rw (alloc, sum, room, address) refl,
      (round_up b.pos align, refl, next, refl, fits),
    )

alloc-panics :
    (size align : ℕ) (b : BumpAllocator)
    → IsValid b
    → 0 < align
    → b.len + align + size < 2 ^ 32
    → b.len ≤ round_up b.pos align + size
    → alloc size align b ≡ panic
unfolding alloc
alloc-panics size align b v pos small full =
    let next = round_up-IsNext b.pos align pos (omega (arith, v.0)) in
    let sum : add_usize (round_up b.pos align) size ≡ round_up b.pos align + size =
      omega (arith, next.2, v.0) in
    let none_left : ltb (round_up b.pos align + size) b.len ≡ false = ground arith in
    rw (alloc, sum, none_left) refl

-- The blocks for some types, from an offset on. Each is behind the one before it, at a multiple of its
-- alignment from the start, so its address is as far from a multiple of the alignment as the start is.
abbrev pub Placed : ℕ → ℕ → ℕ → List (ℕ × ℕ) → List (ℕ × ℕ) → Type 0
Placed start lo hi [] [] = lo ≤ hi
Placed start lo hi ((size, align) ∷ types) ((address, n) ∷ blocks) =
    (offset : ℕ) × (address ≡ start + offset)
    × (n ≡ size)
    × (lo ≤ offset)
    × (offset % align ≡ 0)
    × (address % align ≡ start % align)
    × Placed start (offset + size) hi types blocks
Placed start lo hi _ _ = ⊥

-- Enough memory for the types, wherever the first block starts.
abbrev pub needed : List (ℕ × ℕ) → ℕ
needed [] = 0
needed ((size, align) ∷ types) = size + align + needed types

-- No alignment is 0.
abbrev pub HasAlignments : List (ℕ × ℕ) → Type 0
HasAlignments types = All (λ (size, align). 0 < align) types

-- A valid allocator, and alignments that are not 0: with less than 2 ^ 31 bytes, and enough of them for the sizes and the alignments together, a
-- sequence of calls does not panic, and its blocks are disjoint, in the order of the calls, and
-- inside the memory. Each begins at a multiple of its alignment from the start of the memory, and
-- its address leaves the same remainder by the alignment as the start does: the block is aligned
-- exactly if the start of the memory is, which the code does not see to.
pub alloc_all-Placed :
    (types : List (ℕ × ℕ)) (b : BumpAllocator)
    → IsValid b
    → b.len < 2 ^ 31
    → HasAlignments types
    → b.pos + needed types ≤ b.len
    → Returns (alloc_all types b) (λ (b', blocks). Placed b.start b.pos b.len types blocks)
alloc_all-Placed [] b v small aligned enough = ((b, []), refl, v.0)
alloc_all-Placed ((size, align) ∷ types) b v small aligned enough =
    let next = round_up-IsNext b.pos align aligned.0 (omega (arith, enough)) in
    let ((b', address), run, (offset, at, (whole, above, near, least), after, inside)) =
      alloc-Allocated size align b v aligned.0 (omega (arith, enough))
        (omega (arith, enough, next.2)) in
    let moved : BumpAllocator = record b { pos = offset + size } in
    let ((b'', blocks), run', placed) =
      alloc_all-Placed types moved (omega (arith, near, enough), v.1) small aligned.1
        (omega (arith, near, enough)) in
    (
      (b'', (address, size) ∷ blocks),
      rw (run, after, run') refl,
      (
        offset,
        at,
        refl,
        above,
        whole,
        ap (λ x. x % align) at ∙ add_multiple b.start offset align whole,
        placed,
      ),
    )
