-- ===== src/MemPool.antt =====
-- Memory-Pool-in-CPP/MemPool/MemPool.h and MemPool.cpp: a pool of fixed-size chunks whose free
-- chunks are linked through their own first word.
pub mod Chain
pub mod Construct
mod Tests
pub mod Clients
use low_level_cpp.Base.{ℕ, zero, suc, ◌+◌, ◌-◌, ◌*◌, ◌%◌, ◌^◌, Bool, if◌then◌else◌, ◌==◌, ltb}
use low_level_cpp.Base.Chain.{Ptr, nullptr}
use low_level_cpp.Base.Store.{update}

-- `sizeof(void*)` of the 64-bit target.
abbrev pub pointer_size : ℕ
pointer_size = 8

abbrev pub size_mod : ℕ
size_mod = 2 ^ 64

-- The class with the memory that its pointers lead to: `cells a` is the word stored at `a`.
pub record MemoryManager : Type 0 where
  pub free_list_head : Ptr
  pub memory : Ptr
  pub chunk_size : ℕ
  pub cells : Ptr → Ptr

-- The `for` loop of the constructor: `current` moves on by a chunk in each round. An address has 64
-- bits.
unfoldable pub link_chunks : ℕ → ℕ → Ptr → (Ptr → Ptr) → Ptr × (Ptr → Ptr)
link_chunks chunk zero current cells = (current, cells)
link_chunks chunk (suc rounds) current cells =
    let next : ℕ = (current + chunk) % size_mod in
    link_chunks chunk rounds next (update cells current next)

abbrev pub chunk_size_of : ℕ → ℕ
chunk_size_of object_size = if ltb object_size pointer_size then pointer_size else object_size

-- The number of bytes that the constructor asks for: a product in `size_t`, which wraps.
abbrev pub block_size : (object_size amount : ℕ) → ℕ
block_size object_size amount = chunk_size_of object_size * amount % size_mod

-- `memory` is what `new char[block_size object_size amount]` returned, and `cells` what stood in the memory before.
-- `Amount - 1` is computed in `size_t`, so it wraps at 0.
unfoldable pub memory_manager :
    (memory : Ptr) (cells : Ptr → Ptr) (object_size amount : ℕ) → MemoryManager
unfolding link_chunks
memory_manager memory cells object_size amount =
    let chunk : ℕ = chunk_size_of object_size in
    let linked = link_chunks chunk ((amount + size_mod - 1) % size_mod) memory cells in
    record {
      free_list_head = memory;
      memory = memory;
      chunk_size = chunk;
      cells = update linked.1 linked.0 nullptr;
    }

unfoldable pub allocate : MemoryManager → MemoryManager × Ptr
allocate m =
    if m.free_list_head == nullptr
    then (m, nullptr)
    else (record m { free_list_head = m.cells m.free_list_head }, m.free_list_head)

unfoldable pub deallocate : Ptr → MemoryManager → MemoryManager
deallocate p m =
    if p == nullptr
    then m
    else record m { free_list_head = p; cells = update m.cells p m.free_list_head }
