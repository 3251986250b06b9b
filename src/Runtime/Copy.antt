-- ===== src/Runtime/Copy.antt =====
-- What `copy_exec`, `Crt0DataInit` and `Crt0CtorInit` of runtime.rs do.
use aurix_tc365_async_rust.Prelude.{
  ℕ, zero, suc, ◌+◌, ◌-◌, ◌%◌, ◌^◌, ◌≤◌, ◌<◌, ◌≡◌, ◌⊎◌, refl, ◌==◌, true, false, if◌then◌else◌,
  arith, Bool-cases, inl, inr, ◌∙◌,
}
use aurix_tc365_async_rust.Runtime.Words.{Ram, st_b}
use aurix_tc365_async_rust.Runtime.{minus_one, copy_loop, copy_exec}
use aurix_tc365_async_rust.Runtime.Clear.{inside}

-- Two areas with no byte in common.
abbrev pub Apart : ℕ → ℕ → ℕ → ℕ → Type 0
Apart a size b size' = (a + size ≤ b) ⊎ (b + size' ≤ a)

copy_loop_lem :
    (n to from : ℕ) (m : Ram) (b : ℕ)
    → to + suc n ≤ 2 ^ 32
    → from + suc n ≤ 2 ^ 32
    → Apart to (suc n) from (suc n)
    → copy_loop n to from m b ≡ (if inside to (suc n) b then m (from + (b - to)) % 2 ^ 8 else m b)
unfolding copy_loop st_b
copy_loop_lem zero to from m b fits fits' apart = elim (Bool-cases (b == to)) [
  | inl e ↦ let at : from + (b - to) ≡ from = ground arith in rw (at, st_b, e) (ground arith)
  | inr e ↦ ground arith
]
copy_loop_lem (suc n) to from m b fits fits' apart =
    let next : (to + 1) % 2 ^ 32 ≡ to + 1 = omega arith in
    let next' : (from + 1) % 2 ^ 32 ≡ from + 1 = omega arith in
    let m₁ : Ram = st_b to (m from) m in
    let ih = copy_loop_lem n (to + 1) (from + 1) m₁ b (omega arith) (omega arith) (ground arith) in
    rw (next, next')
      (ih ∙ elim (Bool-cases (inside (to + 1) (suc n) b)) [
        | inl e ↦
            let at : from + 1 + (b - (to + 1)) ≡ from + (b - to) = ground arith in
            let whole : inside to (suc (suc n)) b ≡ true = ground arith in
            let kept : st_b to (m from) m (from + (b - to)) ≡ m (from + (b - to)) = ground arith in
            rw (e, whole, at, kept) refl
        | inr e ↦ elim (Bool-cases (b == to)) [
          | inl here ↦
              let whole : inside to (suc (suc n)) b ≡ true = ground arith in
              let at : from + (b - to) ≡ from = ground arith in rw (e, whole, at, st_b, here) refl
          | inr off ↦
              let whole : inside to (suc (suc n)) b ≡ false = ground arith in
              rw (e, whole, st_b, off) refl
        ]
      ])

pub copy_exec_lem :
    (to from size : ℕ) (m : Ram) (b : ℕ)
    → size < 2 ^ 32
    → to + size ≤ 2 ^ 32
    → from + size ≤ 2 ^ 32
    → Apart to size from size
    → copy_exec to from size m b ≡ (if inside to size b then m (from + (b - to)) % 2 ^ 8 else m b)
unfolding copy_exec
copy_exec_lem to from zero m b small fits fits' apart = ground arith
copy_exec_lem to from (suc n) m b small fits fits' apart =
    let rounds : (suc n + minus_one) % 2 ^ 32 ≡ n = omega arith in
    let some : (suc n == 0) ≡ false = ground arith in
    rw (some, rounds) (copy_loop_lem n to from m b fits fits' apart)
