-- ===== src/LockFreeStack.antt =====
-- Lock-free-stack/main.cpp: a stack that threads change by compare-and-exchange on a pointer with a
-- tag. A step is one access of a thread to shared memory; the accesses are sequentially consistent.
pub mod Abstract
pub mod Invariant
pub mod Linear
pub mod Runs
pub mod Steps
mod Tests
pub mod Threads
use low_level_cpp.Base.{
  ℕ, suc, ◌+◌, ◌%◌, ◌^◌, Bool, true, false, ◌&&◌, List, [], ◌∷◌, ◌==◌, if◌then◌else◌,
}
use low_level_cpp.Base.Chain.{Ptr, nullptr}
use low_level_cpp.Base.Store.{update}

pub record TaggedPointer : Type 0 where
  pub node : Ptr
  pub tag : ℕ

-- The two atomics of the class, and of each address the fields of the node there and whether it
-- belongs to a node that was made and not deleted.
pub record LockFreeStack : Type 0 where
  pub top : TaggedPointer
  pub tag_counter : ℕ
  pub next : Ptr → Ptr
  pub key : Ptr → ℕ
  pub live : Ptr → Bool

-- Where a thread stands, with the local variables that are still read.
pub data Pc : Type 0 where
  idle : Pc
  push_loading : (new_node : Ptr) → Pc  -- before the load
  push_linking : (new_node : Ptr) → (old_top : TaggedPointer) → Pc  -- head of the loop
  push_ready : (new_node : Ptr) → (old_top : TaggedPointer) → (tag : ℕ) → Pc  -- before the exchange
  pop_loading : Pc
  pop_loaded : (old_top : TaggedPointer) → Pc  -- head of the loop
  pop_tagging : (old_top : TaggedPointer) → (new_node : Ptr) → Pc  -- before the `fetch_add`
  pop_ready : (old_top : TaggedPointer) → (new_node : Ptr) → (tag : ℕ) → Pc
  pop_taken : (node : Ptr) → Pc  -- behind the loop

pub record System : Type 0 where
  pub stack : LockFreeStack
  pub pc : ℕ → Pc

-- What a step means to a client: a call, with the key of a push, or that `pop` returns a value. The
-- others mark where the stack changes or is seen; `push` returns where it changes the stack.
pub data Label : Type 0 where
  silent : Label
  observes : (thread : ℕ) → Label
  calls_push : (thread : ℕ) → (key : ℕ) → Label
  calls_pop : (thread : ℕ) → Label
  pushes : (thread : ℕ) → (key : ℕ) → Label
  pops : (thread : ℕ) → Label
  returns : (thread : ℕ) → (value : ℕ) → Label
  broken : Label  -- a node is used that was deleted, but for the read of its `next`

-- The choices that the code does not make: which thread runs, where `new` finds memory, whether a
-- weak exchange fails for no reason, and what a read of a deleted node gives.
pub data Action : Type 0 where
  call_push : (thread : ℕ) → (key : ℕ) → (address : Ptr) → Action
  call_pop : (thread : ℕ) → Action
  go : (thread : ℕ) → (spurious : Bool) → (garbage : Ptr) → Action

abbrev pub lock_free_stack : LockFreeStack
lock_free_stack = record {
  top = record { node = nullptr; tag = 0 };
  tag_counter = 0;
  next = λ p. nullptr;
  key = λ p. 0;
  live = λ p. false;
}

abbrev pub same_top : TaggedPointer → TaggedPointer → Bool
same_top a b = a.node == b.node && a.tag == b.tag

-- `tag_counter.fetch_add(1)`, but for the value that it returns.
abbrev pub count_tag : LockFreeStack → LockFreeStack
count_tag s = record s { tag_counter = (s.tag_counter + 1) % 2 ^ 64 }

-- `new Node(key)` at an address.
abbrev pub make_node : ℕ → Ptr → LockFreeStack → LockFreeStack
make_node k p s = record s {
  next = update s.next p nullptr;
  key = update s.key p k;
  live = update s.live p true;
}

abbrev pub link_node : Ptr → Ptr → LockFreeStack → LockFreeStack
link_node p n s = record s { next = update s.next p n }

abbrev pub set_top : Ptr → ℕ → LockFreeStack → LockFreeStack
set_top n t s = record s { top = record { node = n; tag = t } }

abbrev pub delete_node : Ptr → LockFreeStack → LockFreeStack
delete_node p s = record s { live = update s.live p false }

-- `old_top.node->next`
abbrev pub read_next : Ptr → Ptr → LockFreeStack → Ptr
read_next p garbage s = if s.live p then s.next p else garbage

abbrev pub moved : ℕ → Pc → LockFreeStack → System → System
moved i p t s = record { stack = t; pc = update s.pc i p }

-- One access of thread `i`, by where it stands.
abbrev pub advance : ℕ → Pc → Bool → Ptr → System → System × Label
advance i idle spurious garbage s = (s, silent)
advance i (push_loading n) spurious garbage s =
    (moved i (push_linking n s.stack.top) s.stack s, silent)
advance i (push_linking n old) spurious garbage s =
    if s.stack.live n
    then (
      moved i (push_ready n old s.stack.tag_counter) (count_tag (link_node n old.node s.stack)) s,
      silent,
    )
    else (s, broken)
advance i (push_ready n old tag) spurious garbage s =
    if same_top s.stack.top old
    then if spurious
      then (moved i (push_linking n s.stack.top) s.stack s, silent)
      else (moved i idle (set_top n tag s.stack) s, pushes i (s.stack.key n))
    else (moved i (push_linking n s.stack.top) s.stack s, silent)
advance i pop_loading spurious garbage s = (moved i (pop_loaded s.stack.top) s.stack s, observes i)
advance i (pop_loaded old) spurious garbage s =
    if old.node == nullptr
    then (moved i idle s.stack s, returns i 0)
    else (moved i (pop_tagging old (read_next old.node garbage s.stack)) s.stack s, silent)
advance i (pop_tagging old n) spurious garbage s =
    (moved i (pop_ready old n s.stack.tag_counter) (count_tag s.stack) s, silent)
advance i (pop_ready old n tag) spurious garbage s =
    if same_top s.stack.top old
    then if spurious
      then (moved i (pop_loaded s.stack.top) s.stack s, observes i)
      else (moved i (pop_taken old.node) (set_top n tag s.stack) s, pops i)
    else (moved i (pop_loaded s.stack.top) s.stack s, observes i)
advance i (pop_taken p) spurious garbage s =
    if s.stack.live p
    then (moved i idle (delete_node p s.stack) s, returns i (s.stack.key p))
    else (s, broken)

-- A call starts where the thread is idle. `new` returns no null pointer and no node that exists.
abbrev pub start_push : ℕ → Pc → ℕ → Ptr → System → System × Label
start_push i idle k p s =
    if p == nullptr
    then (s, silent)
    else if s.stack.live p
    then (s, silent)
    else (moved i (push_loading p) (make_node k p s.stack) s, calls_push i k)
start_push i busy k p s = (s, silent)

abbrev pub start_pop : ℕ → Pc → System → System × Label
start_pop i idle s = (moved i pop_loading s.stack s, calls_pop i)
start_pop i busy s = (s, silent)

unfoldable pub step : Action → System → System × Label
step (call_push i k p) s = start_push i (s.pc i) k p s
step (call_pop i) s = start_pop i (s.pc i) s
step (go i spurious garbage) s = advance i (s.pc i) spurious garbage s

-- The labels of a run, and where it ends.
unfoldable pub run : List Action → System → System × List Label
unfolding step
run [] s = (s, [])
run (a ∷ actions) s =
    let (t, label) = step a s in let (u, labels) = run actions t in (u, label ∷ labels)

abbrev pub fresh : System
fresh = record { stack = lock_free_stack; pc = λ i. idle }
