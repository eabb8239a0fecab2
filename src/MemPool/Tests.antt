-- ===== src/MemPool/Tests.antt =====
-- The pool at small inputs, and its theorems at them.
use low_level_cpp.Base.{
  ◌+◌, ◌^◌, ◌≤◌, ◌<◌, ◌≡◌, ◌↔◌, refl, [], ◌∷◌, arith, ◌==◌, if◌then◌else◌, count, length,
}
use low_level_cpp.Base.Chain.{Ptr, nullptr}
use low_level_cpp.MemPool.{MemoryManager, block_size, memory_manager, allocate, deallocate}
use low_level_cpp.MemPool.Chain.{IsPool, deallocate_twice}
use low_level_cpp.MemPool.Clients.{
  World, Reach, start, later, take, opened, no_double_allocation, exhausted_only_when_full,
}

abbrev dirty : Ptr → Ptr
dirty a = 0xdead

-- three chunks for objects of four bytes
abbrev pool : MemoryManager
pool = memory_manager 0x1000 dirty 4 3

construct_runs :
    (pool.chunk_size ≡ 8)
    × (pool.free_list_head ≡ 0x1000)
    × (pool.cells 0x1000 ≡ 0x1008)
    × (pool.cells 0x1008 ≡ 0x1010)
    × (pool.cells 0x1010 ≡ nullptr)
unfolding memory_manager
construct_runs = (refl, refl, refl, refl, refl)

allocate_runs : (allocate (allocate pool).0).1 ≡ 0x1008
unfolding allocate memory_manager
allocate_runs = refl

abbrev two_free : MemoryManager
two_free = record {
  free_list_head = 0x1008;
  memory = 0x1000;
  chunk_size = 8;
  cells = λ a. if a == 0x1008 then 0x1000 else nullptr;
}

two_free-IsPool : IsPool two_free (0x1008 ∷ 0x1000 ∷ [])
two_free-IsPool = omega arith

deallocate_twice_example :
    let n = deallocate 0x1010 (deallocate 0x1010 two_free) in
    ((allocate n).1 ≡ 0x1010)
    × ((allocate (allocate n).0).1 ≡ 0x1010)
    × ((allocate (allocate n).0).0.free_list_head ≡ 0x1010)
deallocate_twice_example = deallocate_twice two_free 0x1010 (omega arith)

-- Four chunks of 2^63 bytes: the constructor asks for a block of no bytes.
block_size_wraps : block_size (2 ^ 63) 4 ≡ 0
block_size_wraps = refl

-- after one allocation
abbrev one_used : World
one_used = record { pool = (allocate pool).0; used = (allocate pool).1 ∷ [] }

one_used-Reach : Reach (opened 0x1000 dirty 4 3) one_used
unfolding allocate memory_manager
one_used-Reach = later start (take (omega arith))

one_used_first : 0 < count 0x1000 one_used.used
unfolding allocate memory_manager
one_used_first = omega arith

no_double_allocation_example :
    (count 0x1000 one_used.used ≡ 1) × (0x1000 ≤ 0x1000) × (0x1000 + 8 ≤ 0x1000 + 24)
no_double_allocation_example =
    no_double_allocation 0x1000 dirty 4 3 (omega arith) (omega arith) (omega arith) (omega arith)
      one_used-Reach 0x1000 one_used_first

exhausted_only_when_full_example :
    ((allocate one_used.pool).1 ≡ nullptr) ↔ (length one_used.used ≡ 3)
exhausted_only_when_full_example =
    exhausted_only_when_full 0x1000 dirty 4 3 (omega arith) (omega arith) (omega arith)
      (omega arith) one_used-Reach
