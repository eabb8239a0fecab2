-- ===== src/GarbageCollector/Tests.antt =====
-- The collector at a small heap, and its theorem at it.
use low_level_cpp.Base.{◌≡◌, refl, false, List, [], ◌∷◌, arith, ◌==◌, if◌then◌else◌}
use low_level_cpp.Base.Chain.{Ptr, nullptr}
use low_level_cpp.GarbageCollector.{
  Collector, Run, ok, fault, mark_each, mark, mark_roots, mark_all, sweep_objects, sweep,
  print_graph, collect,
}
use low_level_cpp.GarbageCollector.Collect.{IsHeap, Collects, collect-Collects}

-- A root that refers to itself and to a second object, and a third that only refers to the root.
abbrev heap : Collector
heap = record {
  objects = 3 ∷ 2 ∷ 1 ∷ [];
  roots = 1 ∷ [];
  marked = λ p. false;
  references = λ p. if p == 1 then 1 ∷ 2 ∷ [] else if p == 3 then 1 ∷ [] else [];
  deleted = λ p. false;
}

heap-IsHeap : IsHeap heap
heap-IsHeap = record {
  distinct = λ p. ground arith;
  live = λ p h. ground arith;
  inside = λ p q h e. ground arith;
  rooted = λ p h. ground arith;
  clean = λ p. refl;
}

objects_of : Run Collector → List Ptr
objects_of (ok c) = c.objects
objects_of r = []

heap_collected : objects_of (collect 4 heap) ≡ 2 ∷ 1 ∷ []
unfolding collect print_graph mark_all mark mark_each mark_roots sweep sweep_objects objects_of
heap_collected = refl

-- A null reference is a fault: `mark` tests for it, but the name was read before.
null_reference : mark 4 (λ p. nullptr ∷ []) (λ p. false) 1 (λ p. false) ≡ fault
unfolding mark mark_each
null_reference = refl

collect-Collects_example : Collects heap (collect 4 heap)
collect-Collects_example = collect-Collects heap 4 heap-IsHeap (omega arith)
