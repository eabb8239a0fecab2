-- ===== src/MemPool/Chain.antt =====
-- The free list of a pool: the chunks that `free_list_head` leads to, in order.
use low_level_cpp.Base.{◌≡◌, ◌≢◌, refl, sym, false, List, [], ◌∷◌, arith, ◌==◌, count, ==-false}
use mathlib.Core.Path.{subst}
use low_level_cpp.Base.Chain.{Ptr, nullptr, Chain, Chain-update}
use low_level_cpp.Base.Store.{update, update_self}
use low_level_cpp.MemPool.{MemoryManager, allocate, deallocate}

-- What the pool promises: a stack of free chunks.
abbrev pub IsPool : MemoryManager → List Ptr → Type 0
IsPool m free = Chain m.cells m.free_list_head free

-- What `Allocate` does on a pool that holds the free chunks listed.
abbrev pub Allocates : MemoryManager → List Ptr → Type 0
Allocates m [] = allocate m ≡ (m, nullptr)
Allocates m (p ∷ rest) =
    ((allocate m).1 ≡ p)
    × (p ≢ nullptr)
    × IsPool (allocate m).0 rest
    × ((allocate m).0.cells ≡ m.cells)

-- On a pool with free chunks `Allocate` returns the first, which is not null, leaves the others
-- free and writes nothing. On a pool with none it returns null and changes nothing.
pub allocate-IsPool : (m : MemoryManager) (free : List Ptr) → IsPool m free → Allocates m free
unfolding allocate
allocate-IsPool m [] c = ground arith
allocate-IsPool m (p ∷ rest) (e, ne, c) =
    let found : (m.free_list_head == nullptr) ≡ false = ground arith in
    rw (found, e) (refl, ne, c, refl)

pub deallocate_record :
    (m : MemoryManager) (p : Ptr)
    → p ≢ nullptr
    → deallocate p m ≡ record m { free_list_head = p; cells = update m.cells p m.free_list_head }
unfolding deallocate
deallocate_record m p ne = rw (==-false p nullptr ne)

-- `Deallocate` puts a chunk that is not free in front of the free ones, and writes to that chunk
-- only. On null it does nothing.
pub deallocate-IsPool :
    (m : MemoryManager) (free : List Ptr) (p : Ptr)
    → IsPool m free
    → count p free ≡ 0
    → (deallocate nullptr m ≡ m)
      × (p ≢ nullptr → IsPool (deallocate p m) (p ∷ free))
      × ((a : Ptr) → a ≢ p → (deallocate p m).cells a ≡ m.cells a)
unfolding deallocate
deallocate-IsPool m free p c out = (
  refl,
  λ ne.
      subst (λ n. IsPool n (p ∷ free)) (sym (deallocate_record m p ne))
        (
          refl,
          ne,
          rw (update_self m.cells p m.free_list_head)
              (Chain-update m.cells p m.free_list_head m.free_list_head free out c),
        ),
  λ a ne. ground arith,
)

-- A chunk that is deallocated twice is handed out by every `Allocate` from then on.
pub deallocate_twice :
    (m : MemoryManager) (p : Ptr)
    → p ≢ nullptr
    → let n = deallocate p (deallocate p m) in
      ((allocate n).1 ≡ p)
      × ((allocate (allocate n).0).1 ≡ p)
      × ((allocate (allocate n).0).0.free_list_head ≡ p)
unfolding allocate deallocate
deallocate_twice m p ne = ground arith
