-- ===== src/SrpMutex/Ceiling.antt =====
-- The ceiling of srp_mutex.rs against the priorities of the tasks that registered.
use aurix_tc365_async_rust.Prelude.{
  ℕ, max, ◌≤◌, ◌≡◌, refl, Bool, true, false, ◌&&◌, List, [], ◌∷◌, ◌++◌, ◌==◌, ltb, if◌then◌else◌,
  arith, Bool-cases, inl, inr,
}
use aurix_tc365_async_rust.SrpMutex.{
  State, co_owned, contended, new, register_access, do_srp, lock_mut,
}

-- The registrations, one after the other.
abbrev pub register_all : List ℕ → State → State
register_all [] s = s
register_all (prio ∷ prios) s = register_all prios (register_access prio s)

abbrev pub highest : ℕ → List ℕ → ℕ
highest p [] = p
highest p (q ∷ qs) = highest (max p q) qs

abbrev pub all_equal : ℕ → List ℕ → Bool
all_equal p [] = true
all_equal p (q ∷ qs) = p == q && all_equal p qs

contended-stays :
    (prios : List ℕ) (p : ℕ) → register_all prios (contended p) ≡ contended (highest p prios)
unfolding register_access
contended-stays [] p = refl
contended-stays (q ∷ qs) p = elim (Bool-cases (p == q)) [
  | inl same ↦ let m : max p q ≡ p = ground arith in rw (same, contended-stays qs p, m) refl
  | inr other ↦ rw (other, contended-stays qs (max p q)) refl
]

co_owned-all :
    (prios : List ℕ) (p : ℕ)
    → register_all prios (co_owned p)
      ≡ (if all_equal p prios then co_owned p else contended (highest p prios))
unfolding register_access
co_owned-all [] p = refl
co_owned-all (q ∷ qs) p = elim (Bool-cases (p == q)) [
  | inl same ↦ let m : max p q ≡ p = ground arith in rw (same, m) (co_owned-all qs p)
  | inr other ↦ rw (other) (contended-stays qs (max p q))
]

-- A mutex made for a task of the priority `p` stays uncontended exactly while every task that registers
-- has that priority; else its ceiling is the highest priority of them all.
pub register_all-new :
    (q : ℕ) (prios : List ℕ) (p : ℕ)
    → register_all (q ∷ prios) (new p)
      ≡ (if all_equal p (q ∷ prios) then co_owned p else contended (highest p (q ∷ prios)))
unfolding register_access new
register_all-new q prios p = elim (Bool-cases (p == q)) [
  | inl same ↦ let m : max p q ≡ p = ground arith in rw (same, m) (co_owned-all prios p)
  | inr other ↦ rw other (contended-stays prios (max p q))
]

le-highest : (p : ℕ) (qs : List ℕ) → p ≤ highest p qs
le-highest p [] = omega arith
le-highest p (q ∷ qs) = omega (arith, le-highest (max p q) qs)

le-highest_of : (pre post : List ℕ) (p q : ℕ) → q ≤ highest p (pre ++ (q ∷ post))
le-highest_of [] post p q = omega (arith, le-highest (max p q) post)
le-highest_of (r ∷ rs) post p q = le-highest_of rs post (max p r) q

-- With tasks of different priorities registered, `lock_mut` runs its function on the value at a ceiling that
-- no registered task is above, nor the one before; the value is the function's, and the ceiling
-- is the one before again, whatever the function did to it.
pub lock_mut-ceiling :
    {T U : Type 0} (q : ℕ) (prios : List ℕ) (p : ℕ) (f : T → ℕ → ℕ × (T × U)) (value : T) (ccpn : ℕ)
    → all_equal p (q ∷ prios) ≡ false
    → lock_mut (register_all (q ∷ prios) (new p)) f value ccpn
      ≡ (ccpn, (f value (max ccpn (highest p (q ∷ prios)))).1)
unfolding do_srp lock_mut
lock_mut-ceiling q prios p f value ccpn h =
    let m : (if ltb ccpn (highest p (q ∷ prios)) then highest p (q ∷ prios) else ccpn)
        ≡ max ccpn (highest p (q ∷ prios)) =
      ground arith in
    rw (register_all-new q prios p, h, m) refl
