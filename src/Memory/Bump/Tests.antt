-- ===== src/Memory/Bump/Tests.antt =====
-- Three tasks in 128 bytes from the odd address 1001 on.
use aurix_tc365_async_rust.Prelude.{ℕ, List, [], ◌∷◌, arith, Returns}
use aurix_tc365_async_rust.Memory.Bump.{BumpAllocator, alloc_all}
use aurix_tc365_async_rust.Memory.Bump.Blocks.{Placed, alloc_all-Placed}

abbrev memory : BumpAllocator
memory = record { len = 128; pos = 13; start = 1001 }

abbrev three_types : List (ℕ × ℕ)
three_types = (20, 4) ∷ (7, 1) ∷ (16, 8) ∷ []

alloc_all-Placed_example :
    Returns (alloc_all three_types memory) (λ (b', blocks). Placed 1001 13 128 three_types blocks)
alloc_all-Placed_example =
    alloc_all-Placed three_types memory (omega arith, omega arith) (omega arith)
      (omega arith, (omega arith, (omega arith, tt))) (omega arith)
