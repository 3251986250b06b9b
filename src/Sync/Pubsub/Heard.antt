-- ===== src/Sync/Pubsub/Heard.antt =====
-- What a subscriber of sync/pubsub/ has heard, against the log of the messages.
use aurix_tc365_async_rust.Prelude.{
  ℕ, zero, suc, ◌+◌, ◌<◌, ◌≡◌, refl, ap, subst, ◌∙◌, none, some, List, [], ◌∷◌, ◌++◌, length,
  get_elem?, get_elem?-append_lt, All, arith, inl, inr, ◌⊎◌,
}
use aurix_tc365_async_rust.Sync.Pubsub.{WaitResult, lagged, message}
use aurix_tc365_async_rust.Sync.Pubsub.System.{Listener, split}

-- The results are the messages of the log from the id `from` on, in order; those that a lag counts are
-- left out. The next id is then `to`.
abbrev pub Heard : {T : Type 0} → List T → ℕ → List (WaitResult T) → ℕ → Type 0
Heard log from [] to = to ≡ from
Heard log from (lagged k ∷ rs) to = Heard log (from + k) rs to
Heard log from (message m ∷ rs) to = (get_elem? log from ≡ some m) × Heard log (from + 1) rs to

module _ {T : Type 0} where
  pub Heard-append :
      (log : List T) (from mid to : ℕ) (rs rs' : List (WaitResult T))
      → Heard log from rs mid
      → Heard log mid rs' to
      → Heard log from (rs ++ rs') to
  Heard-append log from mid to [] rs' h k = subst (λ n. Heard log n rs' to) h k
  Heard-append log from mid to (lagged n ∷ rs) rs' h k =
      Heard-append log (from + n) mid to rs rs' h k
  Heard-append log from mid to (message m ∷ rs) rs' (e, h) k =
      (e, Heard-append log (from + 1) mid to rs rs' h k)

  get_elem?-lt : (xs : List T) (i : ℕ) (m : T) → get_elem? xs i ≡ some m → i < length xs
  get_elem?-lt [] i m e = cc
  get_elem?-lt (x ∷ xs) zero m e = omega arith
  get_elem?-lt (x ∷ xs) (suc i) m e = omega (arith, get_elem?-lt xs i m e)

  Heard-logged :
      (log : List T) (m : T) (from to : ℕ) (rs : List (WaitResult T))
      → Heard log from rs to
      → Heard (log ++ (m ∷ [])) from rs to
  Heard-logged log m from to [] h = h
  Heard-logged log m from to (lagged k ∷ rs) h = Heard-logged log m (from + k) to rs h
  Heard-logged log m from to (message x ∷ rs) (e, h) = (
    get_elem?-append_lt log (m ∷ []) from (get_elem?-lt log from x e) ∙ e,
    Heard-logged log m (from + 1) to rs h,
  )

  abbrev pub Followed : List T → Listener T → Type 0
  Followed log l = Heard log l.start l.heard l.next_message_id

  pub All-logged :
      (log : List T) (m : T) (ls : List (Listener T))
      → All (Followed log) ls
      → All (Followed (log ++ (m ∷ []))) ls
  All-logged log m [] h = tt
  All-logged log m (l ∷ ls) (h, hs) =
      (Heard-logged log m l.start l.next_message_id l.heard h, All-logged log m ls hs)

  abbrev pub ids : List (Listener T) → List ℕ
  ids [] = []
  ids (l ∷ ls) = l.next_message_id ∷ ids ls

  pub ids-append : (pre post : List (Listener T)) → ids (pre ++ post) ≡ ids pre ++ ids post
  ids-append [] post = refl
  ids-append (l ∷ pre) post = ap (◌∷◌ l.next_message_id) (ids-append pre post)

pub split-cases {ℓ} :
    {A : Type ℓ} (k : ℕ) (xs : List A)
    → (split k xs ≡ none)
      ⊎ ((x : List A × A × List A) × (split k xs ≡ some x) × (xs ≡ x.0 ++ (x.1 ∷ x.2)))
split-cases k [] = inl refl
split-cases zero (y ∷ xs) = inr (([], y, xs), refl, refl)
split-cases (suc k) (y ∷ xs) = elim (split-cases k xs) [
  | inl e ↦ inl (rw e refl)
  | inr ((pre, x, post), e, f) ↦ inr ((y ∷ pre, x, post), rw e refl, ap (◌∷◌ y) f)
]
