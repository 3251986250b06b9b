-- ===== src/Sync/Mutex/Guards.antt =====
-- The value behind the mutex of sync/mutex.rs, and the guards as ways to it. A reference to a part of
-- the value, such as the result of the function that `map` is given, reads the part and writes it.
use aurix_tc365_async_rust.Prelude.{◌≡◌, ap, ◌∙◌, List, false}
use aurix_tc365_async_rust.Sync.Waitqueue
use aurix_tc365_async_rust.Sync.Waitqueue.{Waker}
use aurix_tc365_async_rust.Sync.Mutex.{State}
use aurix_tc365_async_rust.Sync.Mutex.{new as unlocked}

pub record Mutex (T : Type 0) : Type 0 where
  pub state : State
  pub inner : T

-- What `&mut U` in a `T` is: each write is read back, a write of what is there changes nothing, and a
-- later write of the part hides an earlier one.
pub record Part (T U : Type 0) : Type 0 where
  pub get : T → U
  pub put : U → T → T
  pub get-put : (u : U) (t : T) → get (put u t) ≡ u
  pub put-get : (t : T) → put (get t) t ≡ t
  pub put-put : (u u' : U) (t : T) → put u (put u' t) ≡ put u t

module _ {T : Type 0} where
  unfoldable pub new : T → Mutex T
  new value = record { state = unlocked; inner = value }

  unfoldable pub into_inner : Mutex T → T
  into_inner m = m.inner

  -- `get_mut`, with what the caller does to the value.
  unfoldable pub get_mut : (T → T) → Mutex T → Mutex T
  get_mut f m = record m { inner = f m.inner }

  -- `Deref` of a `MutexGuard`.
  unfoldable pub deref_guard : Mutex T → T
  deref_guard m = m.inner

  -- `DerefMut` of a `MutexGuard`, with what the caller does to the value.
  unfoldable pub deref_mut_guard : (T → T) → Mutex T → Mutex T
  deref_mut_guard f m = record m { inner = f m.inner }

  -- `MutexGuard::map`: the part that `fun` gives. The mutex stays locked, since the guard is forgotten, not
  -- dropped.
  unfoldable pub map_guard : {U : Type 0} → Part T U → Part T U
  map_guard fun = fun

-- `drop` of a `MappedMutexGuard`.
unfoldable pub drop_mapped : State → State × List Waker
drop_mapped s =
    let (w, woken) = Waitqueue.wake s.waker in (record s { locked = false; waker = w }, woken)

module _ {T U V : Type 0} (p : Part T U) (fun : Part U V) where
  pub map_get-put : (v : V) (t : T) → fun.get (p.get (p.put (fun.put v (p.get t)) t)) ≡ v
  map_get-put v t = ap fun.get (p.get-put (fun.put v (p.get t)) t) ∙ fun.get-put v (p.get t)

  pub map_put-get : (t : T) → p.put (fun.put (fun.get (p.get t)) (p.get t)) t ≡ t
  map_put-get t = ap (λ u. p.put u t) (fun.put-get (p.get t)) ∙ p.put-get t

  pub map_put-put :
      (v v' : V) (t : T)
      → p.put (fun.put v (p.get (p.put (fun.put v' (p.get t)) t))) (p.put (fun.put v' (p.get t)) t)
        ≡ p.put (fun.put v (p.get t)) t
  map_put-put v v' t =
      p.put-put (fun.put v (p.get (p.put (fun.put v' (p.get t)) t))) (fun.put v' (p.get t)) t
      ∙ ap (λ u. p.put (fun.put v u) t) (p.get-put (fun.put v' (p.get t)) t)
      ∙ ap (λ u. p.put u t) (fun.put-put v v' (p.get t))

  -- `MappedMutexGuard::map`: the part of the part.
  unfoldable pub map : Part T V
  map = record {
    get = λ t. fun.get (p.get t);
    put = λ v t. p.put (fun.put v (p.get t)) t;
    get-put = map_get-put;
    put-get = map_put-get;
    put-put = map_put-put;
  }

module _ {T U : Type 0} (p : Part T U) where
  -- `Deref` of a `MappedMutexGuard`.
  unfoldable pub deref : Mutex T → U
  deref m = p.get m.inner

  -- `DerefMut` of a `MappedMutexGuard`, with what the caller does to the part.
  unfoldable pub deref_mut : (U → U) → Mutex T → Mutex T
  deref_mut f m = record m { inner = p.put (f (p.get m.inner)) m.inner }
