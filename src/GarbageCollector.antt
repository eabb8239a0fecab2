-- ===== src/GarbageCollector.antt =====
-- mark-n-sweep/Mark & sweep/garbage_collector.h: a mark-and-sweep collector. Names are only printed
-- in the code, and a print that reads them shows here as the access that it is.
pub mod Collect
pub mod Mark
pub mod Sweep
mod Tests
use low_level_cpp.Base.{
  ℕ, zero, suc, ◌+◌, Bool, true, false, ◌||◌, Option, none, some, List, [], ◌∷◌, ◌++◌, ◌==◌, ltb,
  if◌then◌else◌, count, length,
}
use low_level_cpp.Base.Chain.{Ptr, nullptr}
use low_level_cpp.Base.Store.{update}

-- `objects` and `roots` of the collector, and of each object at an address its `marked` and
-- `references`, and whether it was deleted. The set is a list without duplicates, in the order in
-- which its iterators run.
pub record Collector : Type 0 where
  pub objects : List Ptr
  pub roots : List Ptr
  pub marked : Ptr → Bool
  pub references : Ptr → List Ptr
  pub deleted : Ptr → Bool

-- `fault` is an access through a null pointer or to a deleted object.
pub data Run (A : Type 0) : Type 0 where
  ok : A → Run A
  fault : Run A
  out_of_fuel : Run A

infixl 5 ◌>>=◌
abbrev pub ◌>>=◌ : {A B : Type 0} → Run A → (A → Run B) → Run B
ok a >>= k = k a
fault >>= k = fault
out_of_fuel >>= k = out_of_fuel

abbrev pub readable : (Ptr → Bool) → Ptr → Bool
readable deleted p = if p == nullptr then false else if deleted p then false else true

-- `p->name`, for which only the access matters.
abbrev pub access : {A : Type 0} → (Ptr → Bool) → Ptr → Run A → Run A
access deleted p r = if readable deleted p then r else fault

unfoldable pub track : Ptr → Collector → Run Collector
track p c =
    access c.deleted p
      (ok (record c { objects = if ltb 0 (count p c.objects) then c.objects else p ∷ c.objects }))

unfoldable pub add_root : Ptr → Collector → Run Collector
add_root p c = access c.deleted p (ok (record c { roots = c.roots ++ p ∷ [] }))

-- The loop over the references: each name is printed, then the object is marked.
unfoldable pub mark_each :
    (Ptr → Bool)
    → (Ptr → (Ptr → Bool) → Run (Ptr → Bool))
    → List Ptr
    → (Ptr → Bool)
    → Run (Ptr → Bool)
mark_each deleted mark_one [] marked = ok marked
mark_each deleted mark_one (p ∷ ps) marked =
    access deleted p (mark_one p marked >>= mark_each deleted mark_one ps)

-- `mark`, with fuel for the depth of its recursion.
unfoldable pub mark :
    ℕ
    → (references : Ptr → List Ptr) → (deleted : Ptr → Bool) → Ptr
    → (Ptr → Bool)
    → Run (Ptr → Bool)
unfolding mark_each
mark zero references deleted p marked = out_of_fuel
mark (suc fuel) references deleted p marked =
    let deeper = λ (q : Ptr) (m : Ptr → Bool). mark fuel references deleted q m in
    if p == nullptr
    then ok marked
    else access deleted p (
        if marked p
        then ok marked
        else mark_each deleted deeper (references p) (update marked p true))

-- The loop of `markAll`, which prints nothing of a root.
unfoldable pub mark_roots :
    (Ptr → (Ptr → Bool) → Run (Ptr → Bool)) → List Ptr → (Ptr → Bool) → Run (Ptr → Bool)
mark_roots mark_one [] marked = ok marked
mark_roots mark_one (p ∷ ps) marked = mark_one p marked >>= mark_roots mark_one ps

unfoldable pub mark_all : ℕ → Collector → Run Collector
unfolding mark mark_roots
mark_all fuel c = mark_roots (mark fuel c.references c.deleted) c.roots c.marked >>= λ marked.
    ok (record c { marked = marked })

-- The loop of `sweep` over the set: the objects that stay, the marks and the deletions.
unfoldable pub sweep_objects :
    List Ptr → List Ptr → (Ptr → Bool) → (Ptr → Bool) → Run (List Ptr × (Ptr → Bool) × (Ptr → Bool))
sweep_objects [] kept marked deleted = ok (kept, marked, deleted)
sweep_objects (p ∷ ps) kept marked deleted = access deleted p (
    sweep_objects ps (if marked p then kept ++ p ∷ [] else kept)
      (if marked p then update marked p false else marked)
      (if marked p then deleted else update deleted p true))

unfoldable pub sweep : Collector → Run Collector
unfolding sweep_objects
sweep c = sweep_objects c.objects [] c.marked c.deleted >>= λ (kept, marked, deleted).
    ok (record c { objects = kept; marked = marked; deleted = deleted })

abbrev pub access_all : {A : Type 0} → (Ptr → Bool) → List Ptr → Run A → Run A
access_all deleted [] r = r
access_all deleted (p ∷ ps) r = access deleted p (access_all deleted ps r)

abbrev pub access_references :
    {A : Type 0} → (Ptr → List Ptr) → (Ptr → Bool) → List Ptr → Run A → Run A
access_references references deleted [] r = r
access_references references deleted (p ∷ ps) r =
    access deleted p (access_all deleted (references p) (access_references references deleted ps r))

-- `printGraph` reads the roots, the objects and what those refer to.
unfoldable pub print_graph : Collector → Run Collector
print_graph c =
    access_all c.deleted c.roots (access_references c.references c.deleted c.objects (ok c))

unfoldable pub collect : ℕ → Collector → Run Collector
unfolding mark_all sweep print_graph
collect fuel c = print_graph c >>= mark_all fuel >>= sweep >>= print_graph
