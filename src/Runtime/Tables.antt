-- ===== src/Runtime/Tables.antt =====
-- What `Crt0DataInit` and `Crt0CtorInit` of runtime.rs do, over their tables in memory.
use aurix_tc365_async_rust.Prelude.{
  ℕ, suc, ◌+◌, ◌-◌, ◌*◌, ◌%◌, ◌^◌, ◌≤◌, ◌<◌, ◌≡◌, ◌≢◌, ◌⊎◌, refl, ap, ◌==◌, false, if◌then◌else◌,
  arith, List, [], ◌∷◌, length, Returns, Bool-cases, inl, inr, ◌∙◌, All,
}
use aurix_tc365_async_rust.Runtime.Words.{Ram, ld_w, ld_w_same}
use aurix_tc365_async_rust.Runtime.{minus_one, copy_exec, data_init, ctor_loop, ctor_init}
use aurix_tc365_async_rust.Runtime.Clear.{inside}
use aurix_tc365_async_rust.Runtime.Copy.{Apart, copy_exec_lem}

-- A row of the table: from where, to where, and how many bytes.
abbrev pub Row : Type 0
Row = ℕ × ℕ × ℕ

-- The memory holds the rows of a table from the address `a` on, and the mark of its end.
abbrev pub HasCopies : List Row → ℕ → Ram → Type 0
HasCopies [] a m = ld_w (a + 4) m ≡ minus_one
HasCopies ((from, to, size) ∷ rows) a m =
    (ld_w a m ≡ from)
    × (ld_w (a + 4) m ≡ to)
    × (ld_w (a + 8) m ≡ size)
    × (to ≢ minus_one)
    × HasCopies rows (a + 12) m

-- The areas fit into the memory. An area that is written holds no byte of the table, from `lo` to `hi`, nor
-- of an area that is read then or later.
abbrev pub AreCopies : ℕ → ℕ → List Row → Type 0
AreCopies lo hi [] = Unit
AreCopies lo hi ((from, to, size) ∷ rows) =
    (size < 2 ^ 32)
    × (to + size ≤ 2 ^ 32)
    × (from + size ≤ 2 ^ 32)
    × Apart to size from size
    × ((to + size ≤ lo) ⊎ (hi ≤ to))
    × All (λ (later : Row). Apart to size later.0 later.2) rows
    × AreCopies lo hi rows

-- The byte `b`, which was `old`, after the rows were copied from the memory `m`: the last row decides.
abbrev pub copied : List Row → Ram → ℕ → ℕ → ℕ
copied [] m b old = old
copied ((from, to, size) ∷ rows) m b old =
    copied rows m b (if inside to size b then m (from + (b - to)) % 2 ^ 8 else old)

copied_same :
    (rows : List Row) (to size : ℕ) (m m' : Ram) (b old : ℕ)
    → ((c : ℕ) → inside to size c ≡ false → m' c ≡ m c)
    → All (λ (later : Row). Apart to size later.0 later.2) rows
    → copied rows m' b old ≡ copied rows m b old
copied_same [] to size m m' b old same apart = refl
copied_same ((from, to', size') ∷ rows) to size m m' b old same (off, apart) =
    copied_same rows to size m m' b
      (if inside to' size' b then m' (from + (b - to')) % 2 ^ 8 else old) same apart
    ∙ elim (Bool-cases (inside to' size' b)) [
      | inl e ↦
          let out : inside to size (from + (b - to')) ≡ false = ground arith in
          rw (e, same (from + (b - to')) out) refl
      | inr e ↦ rw e refl
    ]

module _ (lo hi : ℕ) where
  HasCopies-same :
      (rows : List Row) (a : ℕ) (m m' : Ram)
      → ((b : ℕ) → lo ≤ b → b < hi → m' b ≡ m b)
      → lo ≤ a
      → a + (12 * length rows + 8) ≤ hi
      → HasCopies rows a m
      → HasCopies rows a m'
  HasCopies-same [] a m m' same low high h =
      ld_w_same (a + 4) m m' (λ b p q. same b (omega arith) (omega arith)) ∙ h
  HasCopies-same ((from, to, size) ∷ rows) a m m' same low high (h, k, l, n, rest) = (
    ld_w_same a m m' (λ b p q. same b (omega arith) (omega arith)) ∙ h,
    ld_w_same (a + 4) m m' (λ b p q. same b (omega arith) (omega arith)) ∙ k,
    ld_w_same (a + 8) m m' (λ b p q. same b (omega arith) (omega arith)) ∙ l,
    n,
    HasCopies-same rows (a + 12) m m' same (omega arith) (omega arith) rest,
  )

  data_next :
      (fuel a from to size : ℕ) (m : Ram)
      → ld_w a m ≡ from
      → ld_w (a + 4) m ≡ to
      → ld_w (a + 8) m ≡ size
      → to ≢ minus_one
      → a + 12 < 2 ^ 32
      → data_init (suc fuel) a m ≡ data_init fuel (a + 12) (copy_exec to from size m)
  unfolding data_init
  data_next fuel a from to size m h k l n small =
      let next : (a + 12) % 2 ^ 32 ≡ a + 12 = omega arith in
      let more : (ld_w (a + 4) m == minus_one) ≡ false = ground arith in
      rw (data_init, more, h, k, l, next) refl

  data_rows :
      (rows : List Row) (a : ℕ) (m : Ram)
      → HasCopies rows a m
      → AreCopies lo hi rows
      → lo ≤ a
      → a + (12 * length rows + 8) ≤ hi
      → hi ≤ 2 ^ 32
      → Returns (data_init (suc (length rows)) a m) (λ m'. (b : ℕ) → m' b ≡ copied rows m b (m b))
  unfolding data_init
  data_rows [] a m h apart low high small = (m, rw (h, data_init) refl, λ b. refl)
  data_rows ((from, to, size) ∷ rows) a m (h, k, l, n, rest)
        (s, fits, fits', off, table, later, apart) low high small =
      let m₁ = copy_exec to from size m in
      let by = λ (b : ℕ). copy_exec_lem to from size m b s fits fits' off in
      let (m', e, x) =
        data_rows rows (a + 12) m₁
          (HasCopies-same rows (a + 12) m m₁ (λ b p q. ground (arith, by b)) (omega arith)
            (omega arith) rest)
          apart (omega arith) (omega arith) small in
      (
        m',
        data_next (suc (length rows)) a from to size m h k l n (omega arith) ∙ e,
        λ b.
            x b
            ∙ copied_same rows to size m m₁ b (m₁ b) (λ c out. by c ∙ rw out refl) later
            ∙ ap (copied rows m b) (by b),
      )

-- A table in memory, of areas that fit into the memory: if no area that is written holds a byte of
-- the table, nor of an area read then or later, `Crt0DataInit` comes to the end of the table. Each
-- byte is then the one that the last row for it names, as it was in the memory at the start, and
-- a byte that no row names is as before.
pub data_init-copied :
    (rows : List Row) (a : ℕ) (m : Ram)
    → HasCopies rows a m
    → AreCopies a (a + (12 * length rows + 8)) rows
    → a + (12 * length rows + 8) ≤ 2 ^ 32
    → Returns (data_init (suc (length rows)) a m) (λ m'. (b : ℕ) → m' b ≡ copied rows m b (m b))
data_init-copied rows a m h apart small =
    data_rows a (a + (12 * length rows + 8)) rows a m h apart (omega arith) (omega arith) small

-- The functions of a table, called one after the other; `does` is what each does to the memory.
abbrev pub run_all : (ℕ → Ram → Ram) → List ℕ → Ram → Ram
run_all does [] m = m
run_all does (f ∷ fs) m = run_all does fs (does f m)

abbrev pub HasWords : List ℕ → ℕ → Ram → Type 0
HasWords [] a m = Unit
HasWords (f ∷ fs) a m = (ld_w a m ≡ f) × HasWords fs (a + 4) m

module _ (call : ℕ → ℕ → Ram → ℕ × Ram) (does : ℕ → Ram → Ram) (lo hi : ℕ) where
  HasWords-same :
      (fs : List ℕ) (a : ℕ) (m m' : Ram)
      → ((b : ℕ) → lo ≤ b → b < hi → m' b ≡ m b)
      → lo ≤ a
      → a + 4 * length fs ≤ hi
      → HasWords fs a m
      → HasWords fs a m'
  HasWords-same [] a m m' same low high h = tt
  HasWords-same (f ∷ fs) a m m' same low high (h, rest) = (
    ld_w_same a m m' (λ b p q. same b (omega arith) (omega arith)) ∙ h,
    HasWords-same fs (a + 4) m m' same (omega arith) (omega arith) rest,
  )

  -- A function leaves `%a4` and the table, from `lo` to `hi`, as they are.
  abbrev pub KeepsTable : ℕ → Type 0
  KeepsTable f =
      ((a : ℕ) (m : Ram) → call f a m ≡ (a, does f m))
      × ((m : Ram) (b : ℕ) → lo ≤ b → b < hi → does f m b ≡ m b)

  ctor_rows :
      (f : ℕ) (fs : List ℕ) (a : ℕ) (m : Ram)
      → HasWords (f ∷ fs) a m
      → All KeepsTable (f ∷ fs)
      → lo ≤ a
      → a + (4 * length fs + 4) ≤ hi
      → hi ≤ 2 ^ 32
      → ctor_loop call (length fs) a m ≡ run_all does (f ∷ fs) m
  unfolding ctor_loop
  ctor_rows f [] a m (h, rest) (keep, keeps) low high small =
      rw (ctor_loop, h, keep.0 ((a + 4) % 2 ^ 32) m) refl
  ctor_rows f (g ∷ fs) a m (h, rest) (keep, keeps) low high small =
      let next : (a + 4) % 2 ^ 32 ≡ a + 4 = omega arith in
      let there =
        HasWords-same (g ∷ fs) (a + 4) m (does f m) (keep.1 m) (omega arith) (omega arith) rest in
      rw (ctor_loop, h, next, keep.0 (a + 4) m)
        (ctor_rows g fs (a + 4) (does f m) there keeps (omega arith) (omega arith) small)

-- A table of functions in memory, at an address that is not 0, and functions that leave the table and
-- the register `%a4` as they are: `Crt0CtorInit` calls each of them once, in the order of the table.
pub ctor_init-run_all :
    (call : ℕ → ℕ → Ram → ℕ × Ram) (does : ℕ → Ram → Ram) (fs : List ℕ) (a : ℕ) (m : Ram)
    → a ≢ 0
    → ld_w a m ≡ length fs
    → HasWords fs (a + 4) m
    → All (KeepsTable call does (a + 4) (a + (4 * length fs + 4))) fs
    → a + (4 * length fs + 4) ≤ 2 ^ 32
    → ctor_init call a m ≡ run_all does fs m
unfolding ctor_init
ctor_init-run_all call does [] a m there h words keeps small =
    let at : (a == 0) ≡ false = ground arith in rw (at, h) refl
ctor_init-run_all call does (f ∷ fs) a m there h words keeps small =
    let at : (a == 0) ≡ false = ground arith in
    let some : (suc (length fs) == 0) ≡ false = ground arith in
    let rounds : (suc (length fs) + minus_one) % 2 ^ 32 ≡ length fs = omega arith in
    let next : (a + 4) % 2 ^ 32 ≡ a + 4 = omega arith in
    rw (at, h, some, rounds, next)
      (ctor_rows call does (a + 4) (a + (4 * length (f ∷ fs) + 4)) f fs (a + 4) m words keeps
        (omega arith) (omega arith) small)
