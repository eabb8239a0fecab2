-- ===== src/LockFreeStack/Runs.antt =====
-- Whole runs of the lock-free stack.
use low_level_cpp.Base.{
  ℕ, ◌+◌, ◌^◌, ◌≤◌, ◌<◌, ◌≡◌, inr, refl, ap, ◌∙◌, Bool, true, false, some, List, [], ◌∷◌, arith,
  ◌==◌, if◌then◌else◌, length, ==→eq,
}
use low_level_cpp.Base.Chain.{Ptr, nullptr}
use low_level_cpp.LockFreeStack.{
  Pc, idle, push_loading, push_linking, push_ready, pop_loading, pop_loaded, pop_tagging, pop_ready,
  pop_taken, System, Label, Action, call_push, call_pop, go, same_top, advance, start_push,
  start_pop, step, run, fresh,
}
use low_level_cpp.LockFreeStack.Abstract.{Abstract, then_allow, allow_all, empty_stack}
use low_level_cpp.LockFreeStack.Invariant.{Simulates}
use low_level_cpp.LockFreeStack.Steps.{mine, mine-Settled}
use low_level_cpp.LockFreeStack.Linear.{
  Allows, still, loads_pop, loads_push, links, tags_pop, reads_next, returns_zero, returns_key,
  makes, starts_pop, pushes_key, takes_node,
}

if-Allows :
    (a : Abstract) (b : Bool) (x y : System × Label)
    → (b ≡ true → Allows a x)
    → (b ≡ false → Allows a y)
    → Allows a (if b then x else y)
if-Allows a true x y t f = t refl
if-Allows a false x y t f = f refl

never : {b : Bool} → b ≡ true → b ≡ false → ⊥
never e f = cc

module _ (s : System) (a : Abstract) (sim : Simulates s a) where
  advance-Allows :
      (i : ℕ) (p : Pc) (spurious : Bool) (garbage : Ptr)
      → s.pc i ≡ p
      → s.stack.tag_counter + 1 < 2 ^ 64
      → Allows a (advance i p spurious garbage s)
  advance-Allows i idle spurious garbage here small = still s a sim
  advance-Allows i (push_loading n) spurious garbage here small =
      loads_push s a sim i n (push_loading n) here (λ x h. h) (mine-Settled s a sim i _ here)
  advance-Allows i (push_linking n old) spurious garbage here small =
      if-Allows a (s.stack.live n) _ _ (λ live. links s a sim i n old here small)
        (λ dead. absurd (never ((mine s a sim i _ here).owned n refl).1 dead))
  advance-Allows i (push_ready n old tag) spurious garbage here small =
      let reload =
        loads_push s a sim i n (push_ready n old tag) here (λ x h. h)
          (mine-Settled s a sim i _ here) in
      if-Allows a (same_top s.stack.top old) _ _
        (λ same.
          if-Allows a spurious _ _ (λ _. reload) (λ _. pushes_key s a sim i n old tag here same))
        (λ _. reload)
  advance-Allows i pop_loading spurious garbage here small =
      loads_pop s a sim i pop_loading here (mine-Settled s a sim i _ here)
  advance-Allows i (pop_loaded old) spurious garbage here small =
      if-Allows a (old.node == nullptr) _ _
        (λ null. returns_zero s a sim i old here (==→eq old.node nullptr null))
        (λ other. reads_next s a sim i old garbage here (λ e. ground arith))
  advance-Allows i (pop_tagging old n) spurious garbage here small =
      tags_pop s a sim i n old here small
  advance-Allows i (pop_ready old n tag) spurious garbage here small =
      let reload = loads_pop s a sim i (pop_ready old n tag) here (mine-Settled s a sim i _ here) in
      if-Allows a (same_top s.stack.top old) _ _
        (λ same.
          if-Allows a spurious _ _ (λ _. reload) (λ _. takes_node s a sim i n old tag here same))
        (λ _. reload)
  advance-Allows i (pop_taken p) spurious garbage here small =
      if-Allows a (s.stack.live p) _ _ (λ live. returns_key s a sim i p here)
        (λ dead. absurd (never ((mine s a sim i _ here).owned p refl).1 dead))

  start_push-Allows :
      (i : ℕ) (p : Pc) (k : ℕ) (n : Ptr) → s.pc i ≡ p → Allows a (start_push i p k n s)
  start_push-Allows i idle k n here =
      if-Allows a (n == nullptr) _ _ (λ null. still s a sim)
        (λ other.
          if-Allows a (s.stack.live n) _ _ (λ live. still s a sim)
            (λ dead. makes s a sim i k n here (λ e. ground arith) dead))
  start_push-Allows i (push_loading m) k n here = still s a sim
  start_push-Allows i (push_linking m old) k n here = still s a sim
  start_push-Allows i (push_ready m old tag) k n here = still s a sim
  start_push-Allows i pop_loading k n here = still s a sim
  start_push-Allows i (pop_loaded old) k n here = still s a sim
  start_push-Allows i (pop_tagging old m) k n here = still s a sim
  start_push-Allows i (pop_ready old m tag) k n here = still s a sim
  start_push-Allows i (pop_taken p) k n here = still s a sim

  start_pop-Allows : (i : ℕ) (p : Pc) → s.pc i ≡ p → Allows a (start_pop i p s)
  start_pop-Allows i idle here = starts_pop s a sim i here
  start_pop-Allows i (push_loading m) here = still s a sim
  start_pop-Allows i (push_linking m old) here = still s a sim
  start_pop-Allows i (push_ready m old tag) here = still s a sim
  start_pop-Allows i pop_loading here = still s a sim
  start_pop-Allows i (pop_loaded old) here = still s a sim
  start_pop-Allows i (pop_tagging old m) here = still s a sim
  start_pop-Allows i (pop_ready old m tag) here = still s a sim
  start_pop-Allows i (pop_taken p) here = still s a sim

  step-Allows : (x : Action) → s.stack.tag_counter + 1 < 2 ^ 64 → Allows a (step x s)
  unfolding step
  step-Allows (call_push i k p) small = start_push-Allows i (s.pc i) k p refl
  step-Allows (call_pop i) small = start_pop-Allows i (s.pc i) refl
  step-Allows (go i spurious garbage) small = advance-Allows i (s.pc i) spurious garbage refl small

-- A step fetches one tag at most.
abbrev FewTags : System → System × Label → Type 0
FewTags s r = r.0.stack.tag_counter ≤ s.stack.tag_counter + 1

if-FewTags :
    (s : System) (b : Bool) (x y : System × Label)
    → FewTags s x
    → FewTags s y
    → FewTags s (if b then x else y)
if-FewTags s true x y h k = h
if-FewTags s false x y h k = k

advance-FewTags :
    (i : ℕ) (p : Pc) (spurious : Bool) (garbage : Ptr) (s : System)
    → FewTags s (advance i p spurious garbage s)
advance-FewTags i idle spurious garbage s = omega arith
advance-FewTags i (push_loading n) spurious garbage s = omega arith
advance-FewTags i (push_linking n old) spurious garbage s =
    if-FewTags s (s.stack.live n) _ _ (omega arith) (omega arith)
advance-FewTags i (push_ready n old tag) spurious garbage s =
    if-FewTags s (same_top s.stack.top old) _ _
      (if-FewTags s spurious _ _ (omega arith) (omega arith)) (omega arith)
advance-FewTags i pop_loading spurious garbage s = omega arith
advance-FewTags i (pop_loaded old) spurious garbage s =
    if-FewTags s (old.node == nullptr) _ _ (omega arith) (omega arith)
advance-FewTags i (pop_tagging old n) spurious garbage s = omega arith
advance-FewTags i (pop_ready old n tag) spurious garbage s =
    if-FewTags s (same_top s.stack.top old) _ _
      (if-FewTags s spurious _ _ (omega arith) (omega arith)) (omega arith)
advance-FewTags i (pop_taken p) spurious garbage s =
    if-FewTags s (s.stack.live p) _ _ (omega arith) (omega arith)

start_push-FewTags :
    (i : ℕ) (p : Pc) (k : ℕ) (n : Ptr) (s : System) → FewTags s (start_push i p k n s)
start_push-FewTags i idle k n s =
    if-FewTags s (n == nullptr) _ _ (omega arith)
      (if-FewTags s (s.stack.live n) _ _ (omega arith) (omega arith))
start_push-FewTags i (push_loading m) k n s = omega arith
start_push-FewTags i (push_linking m old) k n s = omega arith
start_push-FewTags i (push_ready m old tag) k n s = omega arith
start_push-FewTags i pop_loading k n s = omega arith
start_push-FewTags i (pop_loaded old) k n s = omega arith
start_push-FewTags i (pop_tagging old m) k n s = omega arith
start_push-FewTags i (pop_ready old m tag) k n s = omega arith
start_push-FewTags i (pop_taken p) k n s = omega arith

start_pop-FewTags : (i : ℕ) (p : Pc) (s : System) → FewTags s (start_pop i p s)
start_pop-FewTags i idle s = omega arith
start_pop-FewTags i (push_loading m) s = omega arith
start_pop-FewTags i (push_linking m old) s = omega arith
start_pop-FewTags i (push_ready m old tag) s = omega arith
start_pop-FewTags i pop_loading s = omega arith
start_pop-FewTags i (pop_loaded old) s = omega arith
start_pop-FewTags i (pop_tagging old m) s = omega arith
start_pop-FewTags i (pop_ready old m tag) s = omega arith
start_pop-FewTags i (pop_taken p) s = omega arith

step-FewTags : (x : Action) (s : System) → FewTags s (step x s)
unfolding step
step-FewTags (call_push i k p) s = start_push-FewTags i (s.pc i) k p s
step-FewTags (call_pop i) s = start_pop-FewTags i (s.pc i) s
step-FewTags (go i spurious garbage) s = advance-FewTags i (s.pc i) spurious garbage s

-- The labels of a run are allowed, and lead to an abstract stack that the end of the run simulates.
pub record Refines (a : Abstract) (r : System × List Label) : Type 0 where
  pub after : Abstract
  pub allowed : allow_all r.1 a ≡ some after
  pub simulates : Simulates r.0 after

run-Refines :
    (s : System) (a : Abstract) (actions : List Action)
    → Simulates s a
    → s.stack.tag_counter + length actions < 2 ^ 64
    → Refines a (run actions s)
unfolding run allow_all
run-Refines s a [] sim small = record { after = a; allowed = refl; simulates = sim }
run-Refines s a (x ∷ actions) sim small =
    let one = step-Allows s a sim x (omega arith) in
    let rest =
      run-Refines (step x s).0 one.after actions one.simulates (omega (arith, step-FewTags x s)) in
    record {
      after = rest.after;
      allowed =
          ap (λ o. then_allow o (allow_all (run actions (step x s).0).1)) one.allowed
          ∙ rest.allowed;
      simulates = rest.simulates;
    }

fresh-Simulates : Simulates fresh empty_stack
fresh-Simulates = record {
  nodes = [];
  stack = record {
    chain = refl;
    distinct = λ x. omega arith;
    live = λ x h. absurd (omega arith);
    top_seen = inr refl;
    keys = refl;
  };
  thread = λ i. record {
    owned = λ x h. absurd h;
    seen = λ x t h. absurd h;
    reserved = λ t h. absurd h;
    knows = tt;
  };
  settled = λ i. refl;
  apart = λ i j ne. record {
    nodes = λ x h. absurd h;
    tags = λ t h. absurd h;
    comes = λ x t h. absurd h;
    came = λ x t r h. absurd h;
  };
}

-- Any run of fewer than 2^64 steps, of any threads in any order, wherever memory is reused, whenever
-- an exchange fails for no reason and whatever a read of a deleted node gives, is a run of the
-- abstract stack. In it each thread makes one call after the other: a push puts its key on the
-- stack, and a pop takes the first key and then returns that key, or finds the stack empty and then
-- returns 0. No node is linked, read for its key or deleted once it is deleted.
pub run-Refines-fresh :
    (actions : List Action) → length actions < 2 ^ 64 → Refines empty_stack (run actions fresh)
run-Refines-fresh actions small =
    run-Refines fresh empty_stack actions fresh-Simulates (omega arith)
