-- ===== src/BumpAllocator/Tests.antt =====
-- The bump allocator at a heap at 4096.
use low_level_cpp.Base.{◌≡◌, refl, [], ◌∷◌, arith}
use low_level_cpp.BumpAllocator.{my_alloc, alloc_each}
use low_level_cpp.BumpAllocator.Blocks.{Blocks, alloc_each-Blocks}

-- The second block is too large for what is left.
three_blocks :
    alloc_each 4096 (10 ∷ 1_048_576 ∷ 5 ∷ []) 4096 ≡ (4096, 10) ∷ (0, 1_048_576) ∷ (4106, 5) ∷ []
unfolding alloc_each my_alloc
three_blocks = refl

alloc_each-Blocks_example : Blocks 4096 4096 (alloc_each 4096 (10 ∷ 1_048_576 ∷ 5 ∷ []) 4096)
alloc_each-Blocks_example =
    alloc_each-Blocks 4096 4096 (10 ∷ 1_048_576 ∷ 5 ∷ []) (omega arith) (omega arith)
      (omega arith, (omega arith, (omega arith, tt)))
