-- ===== src/MemPool/Clients.antt =====
-- Programs that use a pool: they allocate, give back chunks that they hold, and write to those.
use mathlib.Core.Path.{subst}
use low_level_cpp.Base.{
  ℕ, ◌+◌, ◌*◌, ◌≤◌, ◌<◌, ◌≡◌, ◌≢◌, ◌↔◌, ◌∙◌, refl, sym, ap, List, [], ◌∷◌, arith, count, length,
  erase, count-erase, length-erase,
}
use low_level_cpp.Base.Store.{update}
use low_level_cpp.Base.Chain.{Ptr, nullptr, Chain-update}
use low_level_cpp.MemPool.{
  size_mod, MemoryManager, chunk_size_of, block_size, memory_manager, allocate, deallocate,
}
use low_level_cpp.MemPool.Chain.{IsPool, allocate-IsPool, deallocate-IsPool}
use low_level_cpp.MemPool.Construct.{
  chunks, length-chunks, count-chunks_below, count-chunks_le, chunks_bounds, memory_manager-IsPool,
}

-- A pool and the chunks that its clients hold.
pub record World : Type 0 where
  pub pool : MemoryManager
  pub used : List Ptr

pub data Step (w : World) : World → Type 0 where
  take :
      (allocate w.pool).1 ≢ nullptr
      → Step w (record { pool = (allocate w.pool).0; used = (allocate w.pool).1 ∷ w.used })
  refused : (allocate w.pool).1 ≡ nullptr → Step w (record w { pool = (allocate w.pool).0 })
  give :
      (p : Ptr)
      → 0 < count p w.used
      → Step w (record { pool = deallocate p w.pool; used = erase p w.used })
  write :
      (p v : Ptr)
      → 0 < count p w.used
      → Step w (record w { pool = record (w.pool) { cells = update w.pool.cells p v } })

pub data Reach (w : World) : World → Type 0 where
  start : Reach w w
  later : {u v : World} → Reach w u → Step u v → Reach w v

-- Each chunk of the block is either free or held by one client, and never both.
pub record IsShared (all : List Ptr) (w : World) : Type 0 where
  pub free : List Ptr
  pub pool : IsPool w.pool free
  pub split : (a : Ptr) → count a free + count a w.used ≡ count a all
  pub sizes : length free + length w.used ≡ length all

module _ (all : List Ptr) (once : (a : Ptr) → count a all ≤ 1)
    (proper : count nullptr all ≡ 0) where
  take-IsShared :
      (w : World) (free : List Ptr)
      → IsPool w.pool free
      → ((a : Ptr) → count a free + count a w.used ≡ count a all)
      → length free + length w.used ≡ length all
      → (allocate w.pool).1 ≢ nullptr
      → IsShared all (record { pool = (allocate w.pool).0; used = (allocate w.pool).1 ∷ w.used })
  take-IsShared w [] pool split sizes ne =
      absurd (ne (ap (λ r. r.1) (allocate-IsPool w.pool [] pool)))
  take-IsShared w (p ∷ rest) pool split sizes ne =
      let (got, nonnull, left, same) = allocate-IsPool w.pool (p ∷ rest) pool in
      record { free = rest; pool = left; split = λ a. ground (arith, split a); sizes = omega arith }

  refused-IsShared :
      (w : World) (free : List Ptr)
      → IsPool w.pool free
      → (allocate w.pool).1 ≡ nullptr
      → (free ≡ []) × (allocate w.pool ≡ (w.pool, nullptr))
  refused-IsShared w [] pool e = (refl, allocate-IsPool w.pool [] pool)
  refused-IsShared w (p ∷ rest) pool e =
      let (got, nonnull, left, same) = allocate-IsPool w.pool (p ∷ rest) pool in
      absurd (nonnull (sym got ∙ e))

  Step-IsShared : {w u : World} → Step w u → IsShared all w → IsShared all u
  Step-IsShared (take ne) s = take-IsShared _ s.free s.pool s.split s.sizes ne
  Step-IsShared {w} (refused e) s =
      let (none_left, same) = refused-IsShared w s.free s.pool e in
      subst (λ (r : MemoryManager × Ptr). IsShared all (record w { pool = r.0 })) (sym same) s
  Step-IsShared {w} (give p held) s =
      let out : count p s.free ≡ 0 = omega (arith, s.split p, once p) in
      let nonnull : p ≢ nullptr = λ e. omega (arith, rw e at (s.split p), rw e at held, proper) in
      record {
        free = p ∷ s.free;
        pool = (deallocate-IsPool w.pool s.free p s.pool out).1 nonnull;
        split = λ a. ground (arith, s.split a, count-erase p a w.used);
        sizes = omega (arith, s.sizes, length-erase p w.used);
      }
  Step-IsShared {w} (write p v held) s = record {
    free = s.free;
    pool =
        Chain-update w.pool.cells p v w.pool.free_list_head s.free
          (omega (arith, s.split p, once p)) s.pool;
    split = s.split;
    sizes = s.sizes;
  }

  Reach-IsShared : {w u : World} → IsShared all w → Reach w u → IsShared all u
  Reach-IsShared s start = s
  Reach-IsShared s (later r st) = Step-IsShared st (Reach-IsShared s r)

allocate-null :
    (m : MemoryManager) (free : List Ptr)
    → IsPool m free
    → ((allocate m).1 ≡ nullptr) ↔ (length free ≡ 0)
allocate-null m [] pool =
    (λ _. refl, λ _. ap (λ (r : MemoryManager × Ptr). r.1) (allocate-IsPool m [] pool))
allocate-null m (p ∷ rest) pool =
    let (got, nonnull, left, same) = allocate-IsPool m (p ∷ rest) pool in
    (λ e. absurd (nonnull (sym got ∙ e)), λ e. absurd (omega arith))

-- The state right after the constructor.
abbrev pub opened : (memory : Ptr) (cells : Ptr → Ptr) (object_size amount : ℕ) → World
opened memory cells object_size amount = record {
  pool = memory_manager memory cells object_size amount;
  used = [];
}

module _ (memory : Ptr) (cells : Ptr → Ptr) (object_size amount : ℕ) (ne : memory ≢ nullptr)
    (pos : 0 < amount) (product : chunk_size_of object_size * amount < size_mod)
    (inside : memory + block_size object_size amount < size_mod) where
  abbrev all : List Ptr
  all = chunks (chunk_size_of object_size) amount memory

  abbrev size : ℕ
  size = chunk_size_of object_size

  asked : block_size object_size amount ≡ amount * size
  asked = grind arith

  small : amount < size_mod
  small = grind arith

  opened-IsShared : {w : World} → Reach (opened memory cells object_size amount) w → IsShared all w
  opened-IsShared =
      Reach-IsShared all (λ a. count-chunks_le size amount memory a (ground arith))
        (count-chunks_below size amount memory nullptr (omega arith))
        (record {
          free = all;
          pool =
              memory_manager-IsPool memory cells object_size amount ne pos small
                (omega (arith, inside, asked));
          split = λ a. omega arith;
          sizes = omega arith;
        })

  -- For a pool of at least one chunk whose size in bytes does not wrap in 64 bits, in a block that lies
  -- in the address space: whatever the clients do, no chunk is held twice, and each chunk held lies
  -- whole in the block of memory that the constructor asked for.
  pub no_double_allocation :
      {w : World}
      → Reach (opened memory cells object_size amount) w
      → (p : Ptr) → 0 < count p w.used
      → (count p w.used ≡ 1) × (memory ≤ p) × (p + size ≤ memory + block_size object_size amount)
  no_double_allocation {w} r p held =
      let s = opened-IsShared r in
      let (lo, hi) = chunks_bounds size amount memory p (omega (arith, s.split p)) in
      (
        omega (arith, s.split p, count-chunks_le size amount memory p (ground arith)),
        lo,
        omega (arith, hi, asked),
      )

  -- For a pool of at least one chunk whose size in bytes does not wrap in 64 bits, in a block that lies
  -- in the address space: `Allocate` fails exactly when all the chunks of the pool are held.
  pub exhausted_only_when_full :
      {w : World}
      → Reach (opened memory cells object_size amount) w
      → ((allocate w.pool).1 ≡ nullptr) ↔ (length w.used ≡ amount)
  exhausted_only_when_full {w} r =
      let s = opened-IsShared r in
      let (fail, full) = allocate-null w.pool s.free s.pool in
      let total = length-chunks size amount memory in
      (λ e. omega (arith, fail e, s.sizes, total), λ e. full (omega (arith, s.sizes, total)))
