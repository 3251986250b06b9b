-- ===== src/Heapless/Any.antt =====
-- Whether a test holds of an element of a list, whatever the order of the list.
use aurix_tc365_async_rust.Prelude.{
  ℕ, ◌≡◌, refl, ap, ap₂, ◌∙◌, Bool, false, ◌||◌, List, [], ◌∷◌, leb, Bool-cases, inl, inr, arith,
}
use mathlib.Core.Bool.{Bool-set}
use mathlib.Core.Logic.{∥∥₁_elim}
use mathlib.Core.List.{Perm, Permᴰ}
use aurix_tc365_async_rust.Heapless.Due.{due, not_due}

abbrev pub any : {T : Type 0} → List T → (T → Bool) → Bool
any [] f = false
any (x ∷ xs) f = f x || any xs f

or_swap : (a b c : Bool) → (a || (b || c)) ≡ (b || (a || c))
or_swap a b c = ground arith

Permᴰ-any : {T : Type 0} (f : T → Bool) (xs ys : List T) → Permᴰ xs ys → any xs f ≡ any ys f
Permᴰ-any f _ _ Permᴰ.nil = refl
Permᴰ-any f (x ∷ xs) (y ∷ ys) (Permᴰ.cons e p) = ap₂ ◌||◌ (ap f e) (Permᴰ-any f xs ys p)
Permᴰ-any f (a ∷ b ∷ xs) (a' ∷ b' ∷ _) (Permᴰ.swap e e') =
    ap₂ (λ u v. f u || (f v || any xs f)) e e' ∙ or_swap (f b') (f a') (any xs f)
Permᴰ-any f xs zs (Permᴰ.trans {l₂ = ys} p q) = Permᴰ-any f xs ys p ∙ Permᴰ-any f ys zs q

pub Perm-any : {T : Type 0} (f : T → Bool) (xs ys : List T) → Perm xs ys → any xs f ≡ any ys f
Perm-any f xs ys p = ∥∥₁_elim p (Bool-set _ _) (λ d. Permᴰ-any f xs ys d)

pub any-due :
    {T : Type 0} (time : T → ℕ) (now : ℕ) (f : T → Bool) (ts : List T)
    → any ts f ≡ (any (due time now ts) f || any (not_due time now ts) f)
any-due time now f [] = refl
any-due time now f (t ∷ ts) = elim (Bool-cases (leb (time t) now)) [
  | inl past ↦ rw past (ground (arith, any-due time now f ts))
  | inr later ↦ rw later (ground (arith, any-due time now f ts))
]
