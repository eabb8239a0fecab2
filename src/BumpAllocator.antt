-- ===== src/BumpAllocator.antt =====
-- my_alloc/bump_allocator/main.cpp: an allocator that only moves a pointer through one block.
pub mod Blocks
mod Tests
use low_level_cpp.Base.{ℕ, ◌+◌, ◌*◌, ◌%◌, ◌^◌, Bool, List, [], ◌∷◌, if◌then◌else◌, ltb}
use low_level_cpp.Base.Chain.{Ptr, nullptr}

-- `sizeof(heap)`
abbrev pub heap_size : ℕ
heap_size = 1024 * 1024

-- Addresses have 64 bits. `heap` is the address of the block, which the linker chooses, and the state
-- is `heap_ptr`.
unfoldable pub my_alloc : (heap : Ptr) → (size : ℕ) → (heap_ptr : Ptr) → Ptr × Ptr
my_alloc heap size heap_ptr =
    if ltb (heap + heap_size) ((size + heap_ptr) % 2 ^ 64)
    then (heap_ptr, nullptr)
    else ((heap_ptr + size) % 2 ^ 64, heap_ptr)

-- A program that allocates blocks of the sizes, and what it got: addresses with the sizes.
unfoldable pub alloc_each : (heap : Ptr) → (sizes : List ℕ) → (heap_ptr : Ptr) → List (Ptr × ℕ)
unfolding my_alloc
alloc_each heap [] heap_ptr = []
alloc_each heap (size ∷ sizes) heap_ptr =
    let (next, p) = my_alloc heap size heap_ptr in (p, size) ∷ alloc_each heap sizes next
