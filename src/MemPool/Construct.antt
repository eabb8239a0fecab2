-- ===== src/MemPool/Construct.antt =====
-- What the constructor of the pool makes of the block of memory.
use mathlib.Core.Path.{subst}
use low_level_cpp.Base.{
  ℕ, zero, suc, ◌+◌, ◌-◌, ◌*◌, ◌%◌, ◌≤◌, ◌<◌, ◌≡◌, ◌≢◌, inl, inr, refl, sym, ap, ◌∙◌, List, [], ◌∷◌,
  arith, count, length, eq-cases,
}
use low_level_cpp.Base.Store.{update, update_self}
use low_level_cpp.Base.Chain.{Ptr, nullptr, Chain}
use low_level_cpp.MemPool.{pointer_size, size_mod, link_chunks, chunk_size_of, memory_manager}
use low_level_cpp.MemPool.Chain.{IsPool}

-- The addresses of `n` chunks that stand one behind another from `base` on.
unfoldable pub chunks : (chunk n : ℕ) → Ptr → List Ptr
chunks chunk zero base = []
chunks chunk (suc n) base = base ∷ chunks chunk n (base + chunk)

pub length-chunks : (chunk n : ℕ) (base : Ptr) → length (chunks chunk n base) ≡ n
unfolding chunks
length-chunks chunk zero base = refl
length-chunks chunk (suc n) base = omega (arith, length-chunks chunk n (base + chunk))

pub count-chunks_below : (chunk n : ℕ) (base a : Ptr) → a < base → count a (chunks chunk n base) ≡ 0
unfolding chunks
count-chunks_below chunk zero base a h = refl
count-chunks_below chunk (suc n) base a h =
    ground (arith, count-chunks_below chunk n (base + chunk) a)

pub count-chunks_le : (chunk n : ℕ) (base a : Ptr) → 0 < chunk → count a (chunks chunk n base) ≤ 1
unfolding chunks
count-chunks_le chunk zero base a h = omega arith
count-chunks_le chunk (suc n) base a h = elim (eq-cases base a) [
  | inl e ↦ ground (arith, count-chunks_below chunk n (base + chunk) a)
  | inr ne ↦ ground (arith, count-chunks_le chunk n (base + chunk) a)
]

pub chunks_bounds :
    (chunk n : ℕ) (base a : Ptr)
    → 0 < count a (chunks chunk n base)
    → (base ≤ a) × (a + chunk ≤ base + n * chunk)
unfolding chunks
chunks_bounds chunk zero base a h = absurd (omega arith)
chunks_bounds chunk (suc n) base a h = elim (eq-cases base a) [
  | inl e ↦ (omega arith, grind arith)
  | inr ne ↦
      let (lo, hi) = chunks_bounds chunk n (base + chunk) a (ground arith) in
      (omega arith, grind arith)
]

-- The loop as it is where no address wraps.
unfoldable link_plain : ℕ → ℕ → Ptr → (Ptr → Ptr) → Ptr × (Ptr → Ptr)
link_plain chunk zero current cells = (current, cells)
link_plain chunk (suc rounds) current cells =
    link_plain chunk rounds (current + chunk) (update cells current (current + chunk))

link_chunks-plain :
    (chunk rounds : ℕ) (current : Ptr) (cells : Ptr → Ptr)
    → current + rounds * chunk < size_mod
    → link_chunks chunk rounds current cells ≡ link_plain chunk rounds current cells
unfolding link_chunks link_plain
link_chunks-plain chunk zero current cells inside = refl
link_chunks-plain chunk (suc rounds) current cells inside =
    let further : (current + chunk) + rounds * chunk < size_mod = grind arith in
    let exact : (current + chunk) % size_mod ≡ current + chunk = omega arith in
    ap (λ n. link_chunks chunk rounds n (update cells current n)) exact
    ∙ link_chunks-plain chunk rounds (current + chunk) (update cells current (current + chunk))
        further

-- The loop writes nothing below its start, and ends above it.
link_plain_above :
    (chunk rounds : ℕ) (current : Ptr) (cells : Ptr → Ptr)
    → (current ≤ (link_plain chunk rounds current cells).0)
      × ((a : Ptr) → a < current → (link_plain chunk rounds current cells).1 a ≡ cells a)
unfolding link_plain
link_plain_above chunk zero current cells = (omega arith, λ a h. refl)
link_plain_above chunk (suc rounds) current cells =
    let (up, same) =
      link_plain_above chunk rounds (current + chunk) (update cells current (current + chunk)) in
    (omega arith, λ a h. ground (arith, same a))

abbrev Linked : ℕ → Ptr × (Ptr → Ptr) → Ptr → ℕ → Type 0
Linked chunk linked base n = Chain (update linked.1 linked.0 nullptr) base (chunks chunk n base)

-- After the loop and the write of the last null pointer, all chunks are in the list.
link_plain-Linked :
    (chunk rounds : ℕ) (current : Ptr) (cells : Ptr → Ptr)
    → 0 < chunk
    → current ≢ nullptr
    → Linked chunk (link_plain chunk rounds current cells) current (suc rounds)
unfolding link_plain chunks
link_plain-Linked chunk zero current cells pos ne = (refl, ne, update_self cells current nullptr)
link_plain-Linked chunk (suc rounds) current cells pos ne =
    let after : ℕ → ℕ = update cells current (current + chunk) in
    let linked : Ptr × (Ptr → Ptr) = link_plain chunk rounds (current + chunk) after in
    let rest = link_plain-Linked chunk rounds (current + chunk) after pos (omega arith) in
    let (up, same) = link_plain_above chunk rounds (current + chunk) after in
    let first : update linked.1 linked.0 nullptr current ≡ current + chunk =
      ground (arith, same current) in
    let moved =
      subst
        (λ q.
          Chain (update linked.1 linked.0 nullptr) q (chunks chunk (suc rounds) (current + chunk)))
        (sym first) rest in
    (refl, ne, moved)

-- The chunks are as large as the objects and as a pointer.
pub chunk_size_bounds :
    (object_size : ℕ)
    → (object_size ≤ chunk_size_of object_size) × (pointer_size ≤ chunk_size_of object_size)
chunk_size_bounds object_size = ground arith

-- A new pool of at least one chunk has all its chunks free, from the start of the block on.
pub memory_manager-IsPool :
    (memory : Ptr) (cells : Ptr → Ptr) (object_size amount : ℕ)
    → memory ≢ nullptr
    → 0 < amount
    → amount < size_mod
    → memory + amount * chunk_size_of object_size < size_mod
    → IsPool
        (memory_manager memory cells object_size amount)
        (chunks (chunk_size_of object_size) amount memory)
unfolding memory_manager
memory_manager-IsPool memory cells object_size amount ne pos small inside =
    let rounds : (amount + size_mod - 1) % size_mod ≡ amount - 1 = omega arith in
    let back : suc (amount - 1) ≡ amount = omega arith in
    let linked =
      link_plain-Linked (chunk_size_of object_size) (amount - 1) memory cells (ground arith) ne in
    let plain =
      link_chunks-plain (chunk_size_of object_size) (amount - 1) memory cells (grind arith) in
    rw rounds (rw plain (rw back at linked))
