-- ===== src/GarbageCollector/Collect.antt =====
-- What a whole collection of mark-n-sweep keeps and deletes.
use low_level_cpp.Base.{
  ℕ, ◌≤◌, ◌<◌, ◌≡◌, inl, inr, refl, ◌∙◌, Bool, true, false, List, [], ◌∷◌, arith, count, length,
  zero-cases, Bool-cases,
}
use low_level_cpp.Base.Chain.{Ptr}
use low_level_cpp.GarbageCollector.{
  Collector, Run, ok, readable, access_all, access_references, mark, mark_roots, mark_all,
  sweep_objects, sweep, print_graph, collect,
}
use low_level_cpp.GarbageCollector.Mark.{Marks, unmarked, mark-Traces, roots-Traces}
use low_level_cpp.GarbageCollector.Sweep.{keep, count-keep, Distinct, Sweeps, sweep_objects-Sweeps}

-- What the roots lead to.
pub data Reaches (roots : List Ptr) (references : Ptr → List Ptr) : Ptr → Type 0 where
  root : {p : Ptr} → 0 < count p roots → Reaches roots references p
  reference :
      {p q : Ptr}
      → Reaches roots references p
      → 0 < count q (references p)
      → Reaches roots references q

-- Every object and root is tracked and alive, and no mark is left over.
pub record IsHeap (c : Collector) : Type 0 where
  pub distinct : Distinct c.objects
  pub live : (p : Ptr) → 0 < count p c.objects → readable c.deleted p ≡ true
  pub inside :
      (p q : Ptr) → 0 < count p c.objects → 0 < count q (c.references p) → 0 < count q c.objects
  pub rooted : (p : Ptr) → 0 < count p c.roots → 0 < count p c.objects
  pub clean : (p : Ptr) → c.marked p ≡ false

access_all-live :
    {A : Type 0} (deleted : Ptr → Bool) (ps : List Ptr) (r : Run A)
    → ((p : Ptr) → 0 < count p ps → readable deleted p ≡ true)
    → access_all deleted ps r ≡ r
access_all-live deleted [] r live = refl
access_all-live deleted (p ∷ ps) r live =
    rw (live p (ground arith)) (access_all-live deleted ps r (λ q h. live q (ground arith)))

access_references-live :
    {A : Type 0} (references : Ptr → List Ptr) (deleted : Ptr → Bool) (ps : List Ptr) (r : Run A)
    → ((p : Ptr) → 0 < count p ps → readable deleted p ≡ true)
    → ((p q : Ptr) → 0 < count p ps → 0 < count q (references p) → readable deleted q ≡ true)
    → access_references references deleted ps r ≡ r
access_references-live references deleted [] r live inside = refl
access_references-live references deleted (p ∷ ps) r live inside = rw (live p (ground arith)) (
    access_all-live deleted (references p) _ (λ q h. inside p q (ground arith) h)
    ∙ access_references-live references deleted ps r (λ q h. live q (ground arith))
        (λ q t h. inside q t (ground arith)))

print_graph-IsHeap : (c : Collector) → IsHeap c → print_graph c ≡ ok c
unfolding print_graph
print_graph-IsHeap c heap =
    access_all-live c.deleted c.roots _ (λ p h. heap.live p (heap.rooted p h))
    ∙ access_references-live c.references c.deleted c.objects (ok c) heap.live
        (λ p q h e. heap.live q (heap.inside p q h e))

-- What a collection makes of the collector.
pub record Collects (c : Collector) (r : Run Collector) : Type 0 where
  pub after : Collector
  pub returns : r ≡ ok after
  pub heap : IsHeap after
  pub roots : after.roots ≡ c.roots
  pub references : after.references ≡ c.references
  pub kept :
      (p : Ptr)
      → 0 < count p c.objects
      → Reaches c.roots c.references p
      → (0 < count p after.objects) × (after.deleted p ≡ c.deleted p)
  pub garbage :
      (p : Ptr)
      → 0 < count p c.objects
      → ¬ Reaches c.roots c.references p
      → (count p after.objects ≡ 0) × (after.deleted p ≡ true)
  pub others :
      (p : Ptr)
      → count p c.objects ≡ 0
      → (count p after.objects ≡ 0) × (after.deleted p ≡ c.deleted p)

unmarked-length : (m : Marks) (ps : List Ptr) → unmarked m ps ≤ length ps
unmarked-length m [] = omega arith
unmarked-length m (p ∷ ps) = ground (arith, unmarked-length m ps)

Reaches-object :
    (c : Collector) → IsHeap c → (p : Ptr) → Reaches c.roots c.references p → 0 < count p c.objects
Reaches-object c heap p (root h) = heap.rooted p h
Reaches-object c heap q (reference {p = p} r h) = heap.inside p q (Reaches-object c heap p r) h

-- After the mark phase an object is marked exactly when it can be reached.
record Marked (c : Collector) (r : Run Marks) : Type 0 where
  marks : Marks
  returns : r ≡ ok marks
  sound : (p : Ptr) → marks p ≡ true → Reaches c.roots c.references p
  complete : (p : Ptr) → Reaches c.roots c.references p → marks p ≡ true

Reaches-closed :
    (roots : List Ptr) (references : Ptr → List Ptr) (marks : Marks)
    → ((p : Ptr) → 0 < count p roots → marks p ≡ true)
    → ((p q : Ptr) → marks p ≡ true → 0 < count q (references p) → marks q ≡ true)
    → (p : Ptr) → Reaches roots references p
    → marks p ≡ true
Reaches-closed roots references marks hits closed p (root h) = hits p h
Reaches-closed roots references marks hits closed q (reference {p = p} r h) =
    closed p q (Reaches-closed roots references marks hits closed p r) h

mark_roots-Marked :
    (c : Collector) (fuel : ℕ)
    → IsHeap c
    → length c.objects < fuel
    → Marked c (mark_roots (mark fuel c.references c.deleted) c.roots c.marked)
mark_roots-Marked c fuel heap enough =
    let t =
      roots-Traces c.references c.deleted c.objects heap.live heap.inside
        (Reaches c.roots c.references) (λ p q r h. reference r h) fuel
        (mark fuel c.references c.deleted) c.roots c.marked []
        (mark-Traces c.references c.deleted c.objects heap.live heap.inside
          (Reaches c.roots c.references) (λ p q r h. reference r h) fuel)
        (λ p h. (heap.rooted p h, root h))
        (record {
          closed = λ p q on out h. absurd (ground (arith, heap.clean p));
          sound = λ p on. absurd (ground (arith, heap.clean p));
        })
        (omega (arith, unmarked-length c.marked c.objects)) in
    record {
      marks = t.result;
      returns = t.returns;
      sound = t.traced.sound;
      complete =
          Reaches-closed c.roots c.references t.result t.hits
            (λ p q on h. t.traced.closed p q on refl h);
    }

module _ (c : Collector) (heap : IsHeap c) (r : Run Marks) (found : Marked c r)
    (s : Sweeps c.objects [] found.marks c.deleted
      (sweep_objects c.objects [] found.marks c.deleted)) where
  abbrev after_sweep : Collector
  after_sweep = record c {
    objects = keep found.marks c.objects;
    marked = s.marks;
    deleted = s.deletions;
  }

  marked-kept :
      (p : Ptr)
      → 0 < count p (keep found.marks c.objects)
      → (found.marks p ≡ true) × (0 < count p c.objects)
  marked-kept p h = ground (arith, count-keep found.marks p c.objects)

  kept-marked :
      (p : Ptr)
      → found.marks p ≡ true
      → 0 < count p c.objects
      → 0 < count p (keep found.marks c.objects)
  kept-marked p on h = ground (arith, count-keep found.marks p c.objects)

  marks-clean : (p : Ptr) → s.marks p ≡ false
  marks-clean p = elim (zero-cases (count p c.objects)) [
    | inl out ↦ (s.others p out).0 ∙ elim (Bool-cases (found.marks p)) [
      | inl on ↦ absurd (omega (arith, out, Reaches-object c heap p (found.sound p on)))
      | inr off ↦ off
    ]
    | inr held ↦ s.cleared p held
  ]

  IsHeap-after_sweep : IsHeap after_sweep
  IsHeap-after_sweep = record {
    distinct = λ p. ground (arith, count-keep found.marks p c.objects, heap.distinct p);
    live = λ p h. let (on, held) = marked-kept p h in rw (s.spared p held on) (heap.live p held);
    inside = λ p q h e.
        let (on, held) = marked-kept p h in
        kept-marked q (found.complete q (reference (found.sound p on) e)) (heap.inside p q held e);
    rooted = λ p h. kept-marked p (found.complete p (root h)) (heap.rooted p h);
    clean = marks-clean;
  }

  Collects-after_sweep : (t : Run Collector) → t ≡ ok after_sweep → Collects c t
  Collects-after_sweep t returns = record {
    after = after_sweep;
    returns = returns;
    heap = IsHeap-after_sweep;
    roots = refl;
    references = refl;
    kept = λ p held reached.
        let on = found.complete p reached in (kept-marked p on held, s.spared p held on);
    garbage = λ p held lost. elim (Bool-cases (found.marks p)) [
      | inl on ↦ absurd (lost (found.sound p on))
      | inr off ↦ (count-keep found.marks p c.objects ∙ rw off refl, s.dropped p held off)
    ];
    others = λ p out. (ground (arith, count-keep found.marks p c.objects), (s.others p out).1);
  }

-- In a well-formed heap, with more fuel than objects, a collection returns: the objects that the
-- roots reach stay as they are, every other object is dropped and deleted, nothing else is
-- touched, and the heap is well-formed again.
pub collect-Collects :
    (c : Collector) (fuel : ℕ) → IsHeap c → length c.objects < fuel → Collects c (collect fuel c)
unfolding collect mark_all sweep
collect-Collects c fuel heap enough =
    let found = mark_roots-Marked c fuel heap enough in
    let s = sweep_objects-Sweeps c.objects [] found.marks c.deleted heap.distinct heap.live in
    Collects-after_sweep c heap _ found s _ (
      rw (print_graph-IsHeap c heap, found.returns, s.returns)
        (print_graph-IsHeap _ (IsHeap-after_sweep c heap _ found s)))
