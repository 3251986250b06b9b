-- ===== src/Sync/Select/First.antt =====
-- Which future of sync/select.rs completes, and which of them are polled.
use aurix_tc365_async_rust.Prelude.{
  ℕ, ◌+◌, ◌≡◌, refl, ap, subst, Option, none, some, List, [], ◌∷◌, ◌++◌, length, Poll, ready,
  pending, arith, ◌⊎◌, inl, inr,
}
use aurix_tc365_async_rust.Sync.Select.{Future, find_ready, as_poll, poll_select_array}

module _ {W S Out : Type 0} (F : Future W S Out) where
  -- Each of the futures was polled once, in turn, and was pending.
  pub data Pending : List S → W → List S → W → Type 0 where
    none_left : (w : W) → Pending [] w [] w
    polled :
        (f f' : S) (fs fs' : List S) (w w' w'' : W)
        → F.poll f w ≡ (w', f', pending)
        → Pending fs w' fs' w''
        → Pending (f ∷ fs) w (f' ∷ fs') w''

  -- The futures before the `i`-th were polled and pending, the `i`-th was ready, and the others were not polled.
  pub record First (i : ℕ) (x : Out) (fs : List S) (w : W) (fs' : List S) (w' : W) : Type 0 where
    pub before : List S
    pub chosen : S
    pub after : List S
    pub before' : List S
    pub chosen' : S
    pub between : W
    pub fs_are : fs ≡ before ++ (chosen ∷ after)
    pub ith : length before ≡ i
    pub pendings : Pending before w before' between
    pub completes : F.poll chosen between ≡ (w', chosen', ready x)
    pub fs'_are : fs' ≡ before' ++ (chosen' ∷ after)

  abbrev pub Selected : List S → W → W × List S × Poll (Out × ℕ) → Type 0
  Selected fs w (w', fs', ready (x, i)) = First i x fs w fs' w'
  Selected fs w (w', fs', pending) = Pending fs w fs' w'

  abbrev Found : ℕ → List S → W → W × List S × Option (ℕ × Out) → Type 0
  Found i fs w (w', fs', some (j, x)) = (k : ℕ) × (j ≡ i + k) × First k x fs w fs' w'
  Found i fs w (w', fs', none) = Pending fs w fs' w'

  Found-next :
      (i : ℕ) (f f' : S) (fs : List S) (w w₁ : W) (r : W × List S × Option (ℕ × Out))
      → F.poll f w ≡ (w₁, f', pending)
      → Found (i + 1) fs w₁ r
      → Found i (f ∷ fs) w (r.0, f' ∷ r.1, r.2)
  Found-next i f f' fs w w₁ (w', fs', none) e pendings = polled f f' fs fs' w w₁ w' e pendings
  Found-next i f f' fs w w₁ (w', fs', some (j, x)) e (k, at, found) = (
    k + 1,
    omega arith,
    record {
      before = f ∷ found.before;
      chosen = found.chosen;
      after = found.after;
      before' = f' ∷ found.before';
      chosen' = found.chosen';
      between = found.between;
      fs_are = ap (◌∷◌ f) found.fs_are;
      ith = omega (arith, found.ith);
      pendings = polled f f' found.before found.before' w w₁ found.between e found.pendings;
      completes = found.completes;
      fs'_are = ap (◌∷◌ f') found.fs'_are;
    },
  )

  pub Poll-cases : (p : Poll Out) → ((x : Out) × (p ≡ ready x)) ⊎ (p ≡ pending)
  Poll-cases (ready x) = inl (x, refl)
  Poll-cases pending = inr refl

  find_ready-Found : (i : ℕ) (fs : List S) (w : W) → Found i fs w (find_ready F i fs w)
  unfolding find_ready
  find_ready-Found i [] w = none_left w
  find_ready-Found i (f ∷ fs) w =
      let (w₁, f', p) = F.poll f w in
      elim (Poll-cases (F.poll f w).2) [
        | inl (x, e) ↦
            rw (find_ready, e)
              (
                0,
                omega arith,
                record {
                  before = [];
                  chosen = f;
                  after = fs;
                  before' = [];
                  chosen' = f';
                  between = w;
                  fs_are = refl;
                  ith = refl;
                  pendings = none_left w;
                  completes = ap (λ p. (w₁, f', p)) e;
                  fs'_are = refl;
                },
              )
        | inr e ↦
            rw (find_ready, e)
              (Found-next i f f' fs w w₁ (find_ready F (i + 1) fs w₁) (ap (λ p. (w₁, f', p)) e)
                (find_ready-Found (i + 1) fs w₁))
      ]

  Found-Selected :
      (fs : List S) (w : W) (r : W × List S × Option (ℕ × Out))
      → Found 0 fs w r
      → Selected fs w (r.0, r.1, as_poll F r.2)
  Found-Selected fs w (w', fs', none) pendings = pendings
  Found-Selected fs w (w', fs', some (j, x)) (k, at, found) =
      let same : k ≡ j = omega arith in subst (λ n. First n x fs w fs' w') same found

  -- A poll of `select_array` polls the futures in order up to the first that is ready, and is ready with its
  -- result and its index; the futures behind it are not polled. It is pending only if each future was polled
  -- and pending.
  pub poll_select_array-Selected : (fs : List S) (w : W) → Selected fs w (poll_select_array F fs w)
  unfolding poll_select_array
  poll_select_array-Selected fs w =
      Found-Selected fs w (find_ready F 0 fs w) (find_ready-Found 0 fs w)
