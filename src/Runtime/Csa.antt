-- ===== src/Runtime/Csa.antt =====
-- The list of context save areas that the start-up code of runtime.rs builds.
use aurix_tc365_async_rust.Prelude.{
  ℕ, zero, suc, ◌+◌, ◌-◌, ◌*◌, ◌/◌, ◌%◌, ◌^◌, ◌≤◌, ◌<◌, ◌≡◌, ◌⊎◌, refl, ap, ◌∙◌, arith, inl, inr,
  subst,
}
use aurix_tc365_async_rust.Runtime.Words.{Ram, ld_w, st_w, ld_w-st_w, st_w_outside, ld_w_same}
use aurix_tc365_async_rust.Runtime.{minus_one, link_word, csa_loop, csa_init}

ℕ-cases : (n : ℕ) → (n ≡ 0) ⊎ ((k : ℕ) × (n ≡ suc k))
ℕ-cases zero = inl refl
ℕ-cases (suc k) = inr (k, refl)

-- What the loop leaves behind: each entry holds the link word of the next address.
abbrev Linked : ℕ → ℕ → ℕ → Ram → ℕ × Ram → Type 0
Linked n a d m (last, m') =
    (last ≡ d + n)
    × ((i : ℕ) → i < n → ld_w (a + 64 * i) m' ≡ d + suc i)
    × ((b : ℕ) → (b < a) ⊎ (a + 64 * n ≤ b) → m' b ≡ m b)

-- The word stored last at `a` is still there, if the bytes were left alone since.
stored :
    (a v at : ℕ) (m m' : Ram)
    → v < 2 ^ 32
    → at ≡ a
    → ((b : ℕ) → a ≤ b → b < a + 4 → m' b ≡ st_w a v m b)
    → ld_w at m' ≡ v
stored a v at m m' small here same =
    ap (λ x. ld_w x m') here ∙ ld_w_same a (st_w a v m) m' same ∙ ld_w-st_w a v m small

csa_loop-Linked :
    (n a d : ℕ) (m : Ram)
    → a + 64 * suc n ≤ 2 ^ 32
    → d + suc n < 2 ^ 32
    → Linked (suc n) a d m (csa_loop n a d m)
unfolding csa_loop
csa_loop-Linked zero a d m fits fits' =
    let next : (d + 1) % 2 ^ 32 ≡ d + 1 = omega arith in
    rw next (
      refl,
      (λ i less.
          stored a (d + 1) (a + 64 * i) m (st_w a (d + 1) m) (omega arith) (omega arith)
            (λ b p q. refl)
          ∙ omega arith),
      λ b out. st_w_outside a (d + 1) m b (ground arith),
    )
csa_loop-Linked (suc n) a d m fits fits' =
    let next : (d + 1) % 2 ^ 32 ≡ d + 1 = omega arith in
    let after : (a + 64) % 2 ^ 32 ≡ a + 64 = omega arith in
    let m₁ = st_w a (d + 1) m in
    let (last, links, same) = csa_loop-Linked n (a + 64) (d + 1) m₁ (omega arith) (omega arith) in
    let m' = (csa_loop n (a + 64) (d + 1) m₁).1 in
    rw (csa_loop, next, after)
      (
        omega (arith, last),
        (λ i less. elim (ℕ-cases i) [
          | inl none ↦
              stored a (d + 1) (a + 64 * i) m m' (omega arith) (omega arith)
                (λ b p q. same b (inl (omega arith)))
              ∙ omega arith
          | inr (j, e) ↦
              let at : a + 64 * i ≡ a + 64 + 64 * j = omega arith in
              ap (λ x. ld_w x m') at ∙ links j (omega arith) ∙ omega arith
        ]),
        λ b out. same b (ground arith) ∙ st_w_outside a (d + 1) m b (ground arith),
      )

-- The address that the hardware takes a link word for.
unfoldable pub address : ℕ → ℕ
address l = l / 2 ^ 16 % 2 ^ 4 * 2 ^ 28 + l % 2 ^ 16 * 2 ^ 6

-- The link word reached from `l` by following `i` links.
unfoldable pub follow : ℕ → Ram → ℕ → ℕ
follow zero m l = l
follow (suc i) m l = follow i m (ld_w (address l) m)

-- An area of `n` entries, of 64 bytes each, that lies in the first 4 MB of a segment, as the architecture
-- wants, but not at the end of them.
pub record IsArea (csa n : ℕ) : Type 0 where
  pub small : csa < 2 ^ 32
  pub aligned : csa % 64 ≡ 0
  pub some_entry : 0 < n
  pub within : csa % 2 ^ 28 + 64 * n < 2 ^ 22

module _ {csa n : ℕ} (v : IsArea csa n) where
  link_bounds : link_word csa + n < 2 ^ 20
  unfolding link_word
  link_bounds = omega (arith, v.small, v.aligned, v.within)

  -- The links of the area are the addresses of its entries, also that of the one behind it.
  address-link : (i : ℕ) → i ≤ n → address (link_word csa + i) ≡ csa + 64 * i
  unfolding address link_word
  address-link i less = omega (arith, v.small, v.aligned, v.within)

  follow_links :
      (m' : Ram)
      → ((i : ℕ) → i < n → ld_w (csa + 64 * i) m' ≡ link_word csa + suc i)
      → (i j : ℕ) → j + i ≤ n
      → follow i m' (link_word csa + j) ≡ link_word csa + (j + i)
  unfolding follow
  follow_links m' links zero j less = omega arith
  follow_links m' links (suc i) j less =
      rw (address-link j (omega arith), links j (omega arith))
        (follow_links m' links i (suc j) (omega arith) ∙ omega arith)

-- An area of context save areas in a segment: following the links from FCX, the entries are those of the area, one
-- after the other, in order; no byte outside of the area is changed. The link of the last entry is
-- not the mark of an end: it is the entry behind the area, and LCX is that one too.
pub csa_init-list :
    (csa size : ℕ) (m : Ram)
    → IsArea csa (size / 2 ^ 6)
    → size < 2 ^ 32
    → let (r, m') = csa_init csa size m in
      (r.pcxi ≡ 0)
      × ((i : ℕ) → i ≤ size / 2 ^ 6 → address (follow i m' r.fcx) ≡ csa + 64 * i)
      × (address r.lcx ≡ csa + 64 * (size / 2 ^ 6))
      × ((b : ℕ) → (b < csa) ⊎ (csa + 64 * (size / 2 ^ 6) ≤ b) → m' b ≡ m b)
unfolding csa_init
csa_init-list csa size m v small =
    let n = size / 2 ^ 6 in
    let l = link_word csa in
    let rounds : (n + minus_one) % 2 ^ 32 ≡ n - 1 = omega (arith, v.some_entry) in
    let count : suc (n - 1) ≡ n = omega (arith, v.some_entry) in
    let done : Linked n csa l m (csa_loop (n - 1) csa l m) =
      subst (λ k. Linked k csa l m (csa_loop (n - 1) csa l m)) count
        (csa_loop-Linked (n - 1) csa l m (omega (arith, v.within, v.some_entry, v.small))
          (omega (arith, link_bounds v, v.some_entry))) in
    let (last, links, same) = done in
    rw rounds (
      refl,
      (λ i less.
          let m' = (csa_loop (n - 1) csa l m).1 in
          let start : l ≡ l + 0 = omega arith in
          let end : l + (0 + i) ≡ l + i = omega arith in
          let walk : follow i m' l ≡ l + i =
            ap (follow i m') start ∙ follow_links v m' links i 0 (omega arith) ∙ end in
          ap address walk ∙ address-link v i less),
      ap address last ∙ address-link v n (omega arith),
      same,
    )
