-- ===== src/Cpu/Executors/Tests.antt =====
-- The executor of priority 7, beside the world of the executor's tests.
use aurix_tc365_async_rust.Prelude.{
  ℕ, ◌≢◌, ◌≡◌, refl, sym, ap, ◌∙◌, true, false, none, some, Option, ◌==◌, ==_refl, if◌then◌else◌,
  arith, ◌>>=◌, Returns,
}
use aurix_tc365_async_rust.Executor.Tests.{X, world}
use aurix_tc365_async_rust.Cpu.Executors.{
  LinearMap, ExecutorList, allocate, start_interrupt_executor,
}
use aurix_tc365_async_rust.Cpu.Executors.Start.{Started, start-allocate}

abbrev insert : (ℕ → Option ℕ) → ℕ → ℕ → Option (ℕ → Option ℕ)
insert m k v = some (λ j. if j == k then some v else m j)

abbrev or_empty : Option (ℕ → Option ℕ) → ℕ → Option ℕ
or_empty none j = none
or_empty (some m) j = m j

pub insert_self : (m m' : ℕ → Option ℕ) (k v : ℕ) → insert m k v ≡ some m' → m' k ≡ some v
insert_self m m' k v e =
    let here = ==_refl k in
    let kept : or_empty (insert m k v) k ≡ some v = rw here refl in
    sym (ap (λ o. or_empty o k) e) ∙ kept

pub insert_ne : (m m' : ℕ → Option ℕ) (k j v : ℕ) → insert m k v ≡ some m' → k ≢ j → m' j ≡ m j
insert_ne m m' k j v e other =
    let elsewhere : (j == k) ≡ false = ground arith in
    let kept : or_empty (insert m k v) j ≡ m j = rw elsewhere refl in
    sym (ap (λ o. or_empty o j) e) ∙ kept

-- A map without a bound.
abbrev function_map : LinearMap
function_map = record {
  Carrier = ℕ → Option ℕ;
  new = λ k. none;
  get = λ m k. m k;
  insert = insert;
  get-new = λ k. refl;
  get-insert_self = insert_self;
  get-insert_ne = insert_ne;
}

abbrev list : ExecutorList X function_map ℕ
list = record { executors = λ k. none; initialised = true; world = world }

start-allocate_example :
    Returns
      (allocate X function_map 7 list >>= λ (l, handle).
        start_interrupt_executor X function_map 7 l)
      (Started X function_map 7 1)
start-allocate_example =
    start-allocate X function_map 7 (λ j. if j == 7 then some 7 else none) list (omega arith)
      (omega arith) (omega arith) refl
