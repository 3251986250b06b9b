-- ===== src/Sync/Mutex/Sections.antt =====
-- The critical sections of the mutex of sync/mutex.rs: what any interleaving of tasks does to the value.
use aurix_tc365_async_rust.Prelude.{
  ℕ, ◌+◌, ◌≤◌, ◌<◌, ◌≡◌, ◌≢◌, refl, sym, ap, ◌∙◌, true, false, Bool, List, [], ◌∷◌, ◌++◌, All,
  length, arith, if◌then◌else◌, Result, ok, err, Poll, ready, pending, ◌⊎◌, inl, inr, Bool-cases,
}
use aurix_tc365_async_rust.Sync.Waitqueue.{Waker}
use aurix_tc365_async_rust.Sync.Mutex.{State, poll_lock, try_lock, drop}
use aurix_tc365_async_rust.Sync.Mutex.Guards.{
  Mutex, Part, new, into_inner, deref_guard, deref_mut_guard, drop_mapped, deref_mut,
}
use aurix_tc365_async_rust.Sync.Mutex.{new as unlocked}

abbrev pub is_ready {ℓ} : {A : Type ℓ} → Poll A → Bool
is_ready (ready a) = true
is_ready pending = false

abbrev pub is_ok {ℓ κ} : {A : Type ℓ} {E : Type κ} → Result A E → Bool
is_ok (ok a) = true
is_ok (err e) = false

-- The mutex with the guards that exist, by the numbers in which they were given out, and the writes so
-- far, the last one first, each with the guard that it was made through.
pub record System (T : Type 0) : Type 0 where
  pub mutex : Mutex T
  pub held : List ℕ
  pub given : ℕ
  pub writes : List (ℕ × (T → T))

module _ {T : Type 0} where
  -- A poll of `lock`, or `try_lock`, that came to a guard or not.
  abbrev pub taken : State → Bool → System T → System T
  taken s got sys = record sys {
    mutex = record sys.mutex { state = s };
    held = if got then sys.given ∷ sys.held else sys.held;
    given = if got then sys.given + 1 else sys.given;
  }

  abbrev pub written : ℕ → (T → T) → Mutex T → System T → System T
  written g f m sys = record sys { mutex = m; writes = (g, f) ∷ sys.writes }

  -- A step of some task. Only a guard that exists is dropped, or written through: itself, or the part of the value to
  -- which it was mapped.
  pub data Step (s : System T) : System T → Type 1 where
    locks :
        (cx : Waker)
        → Step s (let (s', woken, r) = poll_lock cx s.mutex.state in taken s' (is_ready r) s)
    tries : Step s (let (s', r) = try_lock s.mutex.state in taken s' (is_ok r) s)
    drops :
        (pre post : List ℕ) (g : ℕ)
        → s.held ≡ pre ++ (g ∷ post)
        → Step s (record s {
          mutex = record s.mutex { state = (drop s.mutex.state).0 };
          held = pre ++ post;
        })
    drops_mapped :
        (pre post : List ℕ) (g : ℕ)
        → s.held ≡ pre ++ (g ∷ post)
        → Step s (record s {
          mutex = record s.mutex { state = (drop_mapped s.mutex.state).0 };
          held = pre ++ post;
        })
    writes_value :
        (pre post : List ℕ) (g : ℕ)
        → s.held ≡ pre ++ (g ∷ post)
        → (f : T → T) → Step s (written g f (deref_mut_guard f s.mutex) s)
    writes_part :
        (pre post : List ℕ) (g : ℕ)
        → s.held ≡ pre ++ (g ∷ post)
        → {U : Type 0} (p : Part T U) (f : U → U)
        → Step s (written g (λ t. p.put (f (p.get t)) t) (deref_mut p f s.mutex) s)

  module _ (value : T) where
    pub data Reach : System T → Type 1 where
      start : Reach (record { mutex = new value; held = []; given = 0; writes = [] })
      later : {s t : System T} → Reach s → Step s t → Reach t

    -- The value after the writes.
    abbrev pub replay : List (ℕ × (T → T)) → T
    replay [] = value
    replay ((g, f) ∷ ws) = f (replay ws)

  -- No write through a guard comes after one through a guard that was given out later.
  abbrev pub AreSections : List (ℕ × (T → T)) → Type 0
  AreSections [] = Unit
  AreSections ((g, f) ∷ ws) = All (λ (w : ℕ × (T → T)). w.0 ≤ g) ws × AreSections ws

  abbrev AreBelow : ℕ → List (ℕ × (T → T)) → Type 0
  AreBelow n = All (λ (w : ℕ × (T → T)). w.0 < n)

  AreBelow-le : (n n' : ℕ) (ws : List (ℕ × (T → T))) → n ≤ n' → AreBelow n ws → AreBelow n' ws
  AreBelow-le n n' [] h b = tt
  AreBelow-le n n' (w ∷ ws) h (b, bs) = (omega arith, AreBelow-le n n' ws h bs)

  AreBelow-sections :
      (g : ℕ) (ws : List (ℕ × (T → T)))
      → AreBelow (g + 1) ws
      → All (λ (w : ℕ × (T → T)). w.0 ≤ g) ws
  AreBelow-sections g [] b = tt
  AreBelow-sections g (w ∷ ws) (b, bs) = (omega arith, AreBelow-sections g ws bs)

  module _ (value : T) where
    pub record Inv (s : System T) : Type 0 where
      at_value : s.mutex.inner ≡ replay value s.writes
      sections : AreSections s.writes
      below : AreBelow s.given s.writes
      holds :
          (s.mutex.state.locked ≡ false) × (s.held ≡ [])
          ⊎ (s.mutex.state.locked ≡ true) × ((g : ℕ) × (s.held ≡ g ∷ []) × (g + 1 ≡ s.given))

    single :
        (h g : ℕ) (pre post : List ℕ) → h ∷ [] ≡ pre ++ (g ∷ post) → (g ≡ h) × (pre ++ post ≡ [])
    single h g [] [] e = ground arith
    single h g [] (x ∷ post) e = absurd (omega (arith, ap length e))
    single h g (x ∷ []) post e = absurd (omega (arith, ap length e))
    single h g (x ∷ (y ∷ pre)) post e = absurd (omega (arith, ap length e))

    -- The guard that is named exists only if the mutex is locked, and then it is the last one.
    only :
        (s : System T) (g : ℕ) (pre post : List ℕ)
        → Inv s
        → s.held ≡ pre ++ (g ∷ post)
        → (s.mutex.state.locked ≡ true) × (g + 1 ≡ s.given) × (pre ++ post ≡ [])
    only s g pre post v e = elim (v.holds) [
      | inl (open_, none) ↦ absurd (nobody pre (sym none ∙ e))
      | inr (locked, (h, one, last)) ↦
          let (same, rest) = single h g pre post (sym one ∙ e) in
          (locked, omega (arith, same, last), rest)
    ]
      where
        nobody : (pre : List ℕ) → [] ≢ pre ++ (g ∷ post)
        nobody [] e = cc
        nobody (x ∷ pre) e = cc

    -- A guard is given out for a mutex that was not locked, or nothing changes.
    abbrev Locks : State → State → Bool → Type 0
    Locks s s' got =
        (got ≡ true) × (s.locked ≡ false) × (s'.locked ≡ true)
        ⊎ (got ≡ false) × (s'.locked ≡ s.locked)

    poll_lock-Locks :
        (cx : Waker) (s : State) → let (s', woken, r) = poll_lock cx s in Locks s s' (is_ready r)
    unfolding poll_lock
    poll_lock-Locks cx s = elim (Bool-cases s.locked) [
      | inl locked ↦ rw (poll_lock, locked) (inr (refl, refl))
      | inr free ↦ rw (poll_lock, free) (inl (refl, refl, refl))
    ]

    try_lock-Locks : (s : State) → let (s', r) = try_lock s in Locks s s' (is_ok r)
    unfolding try_lock
    try_lock-Locks s = elim (Bool-cases s.locked) [
      | inl locked ↦ rw (try_lock, locked) (inr (refl, refl))
      | inr free ↦ rw (try_lock, free) (inl (refl, refl, refl))
    ]

    taken-Inv :
        (s : System T) (s' : State) (got : Bool)
        → Locks s.mutex.state s' got
        → Inv s
        → Inv (taken s' got s)
    taken-Inv s s' got (inl (e, free, locked)) v = rw e (record {
      at_value = v.at_value;
      sections = v.sections;
      below = AreBelow-le s.given (s.given + 1) s.writes (omega arith) v.below;
      holds = elim (v.holds) [
        | inl (_, none) ↦ inr (locked, (s.given, ap (◌∷◌ s.given) none, refl))
        | inr (locked', _) ↦ absurd (both s.mutex.state.locked locked' free)
      ];
    })
      where
        both : (b : Bool) → b ≡ true → b ≡ false → ⊥
        both b p q = cc
    taken-Inv s s' got (inr (e, same)) v = rw e (record {
      at_value = v.at_value;
      sections = v.sections;
      below = v.below;
      holds = elim (v.holds) [
        | inl (free, none) ↦ inl (same ∙ free, none)
        | inr (locked, h) ↦ inr (same ∙ locked, h)
      ];
    })

    dropped-Inv :
        (s : System T) (s' : State) (pre post : List ℕ) (g : ℕ)
        → s'.locked ≡ false
        → s.held ≡ pre ++ (g ∷ post)
        → Inv s
        → Inv (record s { mutex = record s.mutex { state = s' }; held = pre ++ post })
    dropped-Inv s s' pre post g free e v = record {
      at_value = v.at_value;
      sections = v.sections;
      below = v.below;
      holds = inl (free, (only s g pre post v e).2);
    }

    written-Inv :
        (s : System T) (m : Mutex T) (f : T → T) (pre post : List ℕ) (g : ℕ)
        → m.state ≡ s.mutex.state
        → m.inner ≡ f s.mutex.inner
        → s.held ≡ pre ++ (g ∷ post)
        → Inv s
        → Inv (written g f m s)
    written-Inv s m f pre post g same at e v =
        let (locked, last, _) = only s g pre post v e in
        record {
          at_value = at ∙ ap f v.at_value;
          sections = (
            AreBelow-sections g s.writes
                (AreBelow-le s.given (g + 1) s.writes (omega (arith, last)) v.below),
            v.sections,
          );
          below = (omega (arith, last), v.below);
          holds = rw same v.holds;
        }

    Step-Inv : {s t : System T} → Step s t → Inv s → Inv t
    unfolding drop drop_mapped deref_mut deref_mut_guard
    Step-Inv {s} (locks cx) v =
        let (s', woken, r) = poll_lock cx s.mutex.state in
        taken-Inv s s' (is_ready r) (poll_lock-Locks cx s.mutex.state) v
    Step-Inv {s} tries v =
        let (s', r) = try_lock s.mutex.state in
        taken-Inv s s' (is_ok r) (try_lock-Locks s.mutex.state) v
    Step-Inv {s} (drops pre post g e) v = dropped-Inv s (drop s.mutex.state).0 pre post g refl e v
    Step-Inv {s} (drops_mapped pre post g e) v =
        dropped-Inv s (drop_mapped s.mutex.state).0 pre post g refl e v
    Step-Inv {s} (writes_value pre post g e f) v =
        written-Inv s (deref_mut_guard f s.mutex) f pre post g refl refl e v
    Step-Inv {s} (writes_part pre post g e p f) v =
        written-Inv s (deref_mut p f s.mutex) (λ t. p.put (f (p.get t)) t) pre post g refl refl e v

    Reach-Inv : {s : System T} → Reach value s → Inv s
    unfolding new unlocked
    Reach-Inv start = record {
      at_value = refl;
      sections = tt;
      below = tt;
      holds = inl (refl, refl);
    }
    Reach-Inv (later r st) = Step-Inv st (Reach-Inv r)

-- In every state that tasks can reach by polling `lock`, by `try_lock`, by dropping guards that exist,
-- mapped or not, and by writes through guards that exist, to the value or to a part of it: the value
-- that a guard reads, which is the one that `into_inner` would return, is what the writes make of the
-- first one, in their order; no write through one guard comes between those through another; at most
-- one guard exists, exactly when the mutex is locked, and it is the last one given out.
pub critical_sections :
    {T : Type 0} (value : T) {s : System T}
    → Reach value s
    → (deref_guard s.mutex ≡ replay value s.writes)
      × (into_inner s.mutex ≡ replay value s.writes)
      × AreSections s.writes
      × ((s.mutex.state.locked ≡ false) × (s.held ≡ [])
          ⊎ (s.mutex.state.locked ≡ true) × ((g : ℕ) × (s.held ≡ g ∷ []) × (g + 1 ≡ s.given)))
unfolding deref_guard into_inner
critical_sections value r =
    let v = Reach-Inv value r in (v.at_value, v.at_value, v.sections, v.holds)
