-- ===== src/MyFunction/Programs.antt =====
-- Programs that use the wrappers of my_function/my_function.hpp.
use low_level_cpp.Base.{ℕ, ◌≡◌, ◌≢◌, refl, true, false, none, arith}
use low_level_cpp.MyFunction.{null, on_heap, Store, object, to_bool, ended}
use low_level_cpp.MyFunction.Values.{Represents}
use low_level_cpp.MyFunction.Lifetimes.{Wrappers}

-- A wrapper that is not empty is alive and has an object that is alive, each object of the heap
-- belongs to one wrapper, which is alive, and when no wrapper is alive, or all are empty, no object is
-- left.
pub record IsTidy {F : Type 0} (w : Wrappers F) : Type 0 where
  pub live :
      (i : ℕ)
      → to_bool i w.store ≡ true
      → (w.alive i ≡ true) × (object (w.store.callable i) w.store ≢ none)
  pub single : (i j p : ℕ) → w.store.callable i ≡ on_heap p → w.store.callable j ≡ on_heap p → i ≡ j
  pub kept :
      (p : ℕ)
      → w.store.heap p ≢ none
      → (i : ℕ) × (w.alive i ≡ true) × (w.store.callable i ≡ on_heap p)
  pub freed :
      ((i : ℕ) → to_bool i w.store ≡ false)
      → (p : ℕ) → (w.store.heap p ≡ none) × (w.store.buffer p ≡ none)
  pub ended :
      ((i : ℕ) → w.alive i ≡ false) → (p : ℕ) → (w.store.heap p ≡ none) × (w.store.buffer p ≡ none)

-- No wrapper, and nothing on the heap.
abbrev pub fresh : {F : Type 0} → Store F
fresh = record { buffer = λ i. none; heap = λ p. none; callable = λ i. null }

abbrev pub no_wrappers : {F : Type 0} → Wrappers F
no_wrappers = record { store = fresh; alive = λ i. false }

pub fresh-Represents : {F : Type 0} → Represents (fresh {F = F}) (λ i. none)
fresh-Represents = record {
  shows = λ i. (refl, refl);
  single = λ i j p e f. ground (arith, e);
  kept = λ p h. absurd (h refl);
}
