-- ===== src/BumpAllocator/Blocks.antt =====
-- Where the blocks of the bump allocator lie.
use low_level_cpp.Base.{
  ℕ, ◌+◌, ◌-◌, ◌%◌, ◌^◌, ◌≤◌, ◌<◌, ◌≡◌, ◌⊎◌, inl, inr, refl, ap, ◌∙◌, Bool, false, List, [], ◌∷◌,
  arith, if◌then◌else◌, ltb, Bool-cases, All,
}
use low_level_cpp.Base.Chain.{Ptr, nullptr}
use low_level_cpp.BumpAllocator.{heap_size, my_alloc, alloc_each}

-- The blocks that are not null lie one behind the other between `from` and the end of the heap, and a
-- null stands where the rest of the heap is too small for the block.
abbrev pub Blocks : (heap : Ptr) → (from : Ptr) → List (Ptr × ℕ) → Type 0
Blocks heap from [] = Unit
Blocks heap from ((p, size) ∷ blocks) =
    ((p ≡ from) × (from + size ≤ heap + heap_size) × Blocks heap (from + size) blocks)
    ⊎ ((p ≡ nullptr) × (heap + heap_size < from + size) × Blocks heap from blocks)

-- For a heap that ends below 2^63, and sizes below 2^63, the blocks that a program gets lie one behind
-- the other inside the heap, and it gets null exactly where the rest of the heap is too small.
pub alloc_each-Blocks :
    (heap from : Ptr) (sizes : List ℕ)
    → heap + heap_size < 2 ^ 63
    → from ≤ heap + heap_size
    → All (λ size. size < 2 ^ 63) sizes
    → Blocks heap from (alloc_each heap sizes from)
unfolding alloc_each my_alloc
alloc_each-Blocks heap from [] addressed below small = tt
alloc_each-Blocks heap from (size ∷ sizes) addressed below (small_size, small) =
    let stays : (size + from) % 2 ^ 64 ≡ size + from = omega arith in
    let stays' : (from + size) % 2 ^ 64 ≡ from + size = omega arith in
    elim (Bool-cases (ltb (heap + heap_size) (size + from))) [
      | inl over ↦
          rw (stays, over)
            (inr (refl, ground arith, alloc_each-Blocks heap from sizes addressed below small))
      | inr fits ↦
          rw (stays, stays', fits)
            (inl (
              refl,
              ground arith,
              alloc_each-Blocks heap (from + size) sizes addressed (ground arith) small,
            ))
    ]

-- A size of nearly 2^64 wraps around the check: the pointer moves back by one byte, so that the next
-- block overlaps the one before.
pub huge_size_moves_back :
    (heap heap_ptr : Ptr)
    → heap + heap_size < 2 ^ 63
    → 0 < heap_ptr
    → heap_ptr ≤ heap + heap_size
    → my_alloc heap (2 ^ 64 - 1) heap_ptr ≡ (heap_ptr - 1, heap_ptr)
unfolding my_alloc
huge_size_moves_back heap heap_ptr addressed some below =
    let wraps : (2 ^ 64 - 1 + heap_ptr) % 2 ^ 64 ≡ heap_ptr - 1 = omega arith in
    let wraps' : (heap_ptr + (2 ^ 64 - 1)) % 2 ^ 64 ≡ heap_ptr - 1 = omega arith in
    let fits : ltb (heap + heap_size) ((2 ^ 64 - 1 + heap_ptr) % 2 ^ 64) ≡ false = ground arith in
    let choice : Bool → Ptr × Ptr =
      λ b. if b then (heap_ptr, nullptr) else ((heap_ptr + (2 ^ 64 - 1)) % 2 ^ 64, heap_ptr) in
    ap choice fits ∙ ap (λ n. (n, heap_ptr)) wraps'
