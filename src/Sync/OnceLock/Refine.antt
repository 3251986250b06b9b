-- ===== src/Sync/OnceLock/Refine.antt =====
-- sync/once_lock.rs against an optional value.
use aurix_tc365_async_rust.Prelude.{
  true, false, ◌≡◌, refl, Option, none, some, ret, ok, err, ready, pending, [], ◌∷◌,
}
use aurix_tc365_async_rust.Sync.Waitqueue.{Waker}
use aurix_tc365_async_rust.Sync.OnceLock.{
  OnceLock, try_get, poll_get, init_value, get_or_init, get_ref_unchecked, into_inner, take, is_set,
}

module _ {T : Type 0} where
  -- The lock holds what the specification does; so `data` is never read uninitialised.
  abbrev pub Represents : Option T → OnceLock T → Type 0
  Represents none s = s.init ≡ false
  Represents (some a) s = (s.init ≡ true) × (s.data_cell ≡ some a)

  -- The calls on an optional value. `cx` is the task that polls, and `v` the value given.
  abbrev pub Behaves : Waker → T → Option T → OnceLock T → Type 0
  Behaves cx v none s =
      (try_get s ≡ ret none)
      × (poll_get cx s ≡ ret (cx ∷ [], pending))
      × (into_inner s ≡ ret none)
      × (is_set s ≡ false)
      × ((init_value v s).1 ≡ ok tt)
      × Represents (some v) (init_value v s).0
      × ((get_or_init v s).1 ≡ ret v)
      × Represents (some v) (get_or_init v s).0
      × ((take s).1 ≡ ret none)
      × Represents none (take s).0
  Behaves cx v (some a) s =
      (try_get s ≡ ret (some a))
      × (poll_get cx s ≡ ret ([], ready a))
      × (into_inner s ≡ ret (some a))
      × (is_set s ≡ true)
      × ((init_value v s).1 ≡ err v)
      × Represents (some a) (init_value v s).0
      × ((get_or_init v s).1 ≡ ret a)
      × Represents (some a) (get_or_init v s).0
      × ((take s).1 ≡ ret (some a))
      × Represents none (take s).0

  -- Every call on a lock that represents an optional value does as the specification says: none reads
  -- uninitialised data, the first value set is the one that stays, a later one comes back as
  -- an error or is not used, a task that polls before it is set is woken at once, and `take` gives the
  -- value up.
  pub once_lock-Behaves :
      (cx : Waker) (v : T) (o : Option T) (s : OnceLock T) → Represents o s → Behaves cx v o s
  unfolding try_get poll_get into_inner is_set init_value get_or_init get_ref_unchecked take
  once_lock-Behaves cx v none s h =
      rw h (refl, refl, refl, refl, refl, (refl, refl), refl, (refl, refl), refl, refl)
  once_lock-Behaves cx v (some a) s (h, k) =
      rw (h, k) (refl, refl, refl, refl, refl, (refl, refl), refl, (refl, refl), refl, refl)
