-- ===== src/LockFreeStack/Invariant.antt =====
-- The nodes of the stack and the threads: who owns a node, and which tags are still to come.
use low_level_cpp.Base.{ℕ, ◌≤◌, ◌<◌, ◌≡◌, ◌≢◌, ◌⊎◌, true, List, [], ◌∷◌, count}
use low_level_cpp.Base.Chain.{Ptr, nullptr, Chain}
use low_level_cpp.LockFreeStack.{
  LockFreeStack, Pc, idle, push_loading, push_linking, push_ready, pop_loading, pop_loaded,
  pop_tagging, pop_ready, pop_taken, System,
}
use low_level_cpp.LockFreeStack.Abstract.{
  Duty, resting, must_push, must_pop, found_empty, must_return, Abstract,
}

-- The nodes that a thread may still write or delete, the tags that it fetched and did not install,
-- and the values of `top` that it holds.
abbrev pub Owns : Pc → Ptr → Type 0
Owns idle a = ⊥
Owns (push_loading n) a = n ≡ a
Owns (push_linking n old) a = n ≡ a
Owns (push_ready n old t) a = n ≡ a
Owns pop_loading a = ⊥
Owns (pop_loaded old) a = ⊥
Owns (pop_tagging old n) a = ⊥
Owns (pop_ready old n t) a = ⊥
Owns (pop_taken p) a = p ≡ a

abbrev pub Reserves : Pc → ℕ → Type 0
Reserves idle a = ⊥
Reserves (push_loading n) a = ⊥
Reserves (push_linking n old) a = ⊥
Reserves (push_ready n old t) a = t ≡ a
Reserves pop_loading a = ⊥
Reserves (pop_loaded old) a = ⊥
Reserves (pop_tagging old n) a = ⊥
Reserves (pop_ready old n t) a = t ≡ a
Reserves (pop_taken p) a = ⊥

abbrev pub Sees : Pc → Ptr → ℕ → Type 0
Sees idle p t = ⊥
Sees (push_loading n) p t = ⊥
Sees (push_linking n old) p t = (old.node ≡ p) × (old.tag ≡ t)
Sees (push_ready n old r) p t = (old.node ≡ p) × (old.tag ≡ t)
Sees pop_loading p t = ⊥
Sees (pop_loaded old) p t = (old.node ≡ p) × (old.tag ≡ t)
Sees (pop_tagging old n) p t = (old.node ≡ p) × (old.tag ≡ t)
Sees (pop_ready old n r) p t = (old.node ≡ p) × (old.tag ≡ t)
Sees (pop_taken q) p t = ⊥

-- A value of `top` whose tag was fetched, or the first value.
abbrev pub IsSeen : ℕ → Ptr → ℕ → Type 0
IsSeen counter p t = (t < counter) ⊎ (p ≡ nullptr)

-- What a thread knows of the stack by its local variables.
abbrev pub Knows : LockFreeStack → Pc → Type 0
Knows s idle = Unit
Knows s (push_loading n) = Unit
Knows s (push_linking n old) = Unit
Knows s (push_ready n old t) = s.next n ≡ old.node
Knows s pop_loading = Unit
Knows s (pop_loaded old) = Unit
Knows s (pop_tagging old n) =
    (old.node ≢ nullptr) × (old.node ≡ s.top.node → old.tag ≡ s.top.tag → s.next old.node ≡ n)
Knows s (pop_ready old n t) =
    (old.node ≢ nullptr) × (old.node ≡ s.top.node → old.tag ≡ s.top.tag → s.next old.node ≡ n)
Knows s (pop_taken p) = Unit

-- The duty of a thread, by where it stands.
abbrev pub Settled : LockFreeStack → Duty → Pc → Type 0
Settled s duty idle = duty ≡ resting
Settled s duty (push_loading n) = duty ≡ must_push (s.key n)
Settled s duty (push_linking n old) = duty ≡ must_push (s.key n)
Settled s duty (push_ready n old t) = duty ≡ must_push (s.key n)
Settled s duty pop_loading = duty ≡ must_pop
Settled s duty (pop_loaded old) =
    (old.node ≡ nullptr → duty ≡ found_empty) × (old.node ≢ nullptr → duty ≡ must_pop)
Settled s duty (pop_tagging old n) = duty ≡ must_pop
Settled s duty (pop_ready old n t) = duty ≡ must_pop
Settled s duty (pop_taken p) = duty ≡ must_return (s.key p)

pub record IsThread (s : LockFreeStack) (nodes : List Ptr) (p : Pc) : Type 0 where
  pub owned : (a : Ptr) → Owns p a → (a ≢ nullptr) × (s.live a ≡ true) × (count a nodes ≡ 0)
  pub seen : (a : Ptr) (t : ℕ) → Sees p a t → IsSeen s.tag_counter a t
  pub reserved :
      (t : ℕ) → Reserves p t → (t < s.tag_counter) × (s.top.tag ≡ t → s.top.node ≡ nullptr)
  pub knows : Knows s p

-- Two threads own different nodes and tags, and no tag that comes stands at a node that one sees.
pub record Apart (p q : Pc) : Type 0 where
  pub nodes : (a : Ptr) → Owns p a → Owns q a → ⊥
  pub tags : (t : ℕ) → Reserves p t → Reserves q t → ⊥
  pub comes : (a : Ptr) (t : ℕ) → Reserves p t → Sees q a t → a ≡ nullptr
  pub came : (a : Ptr) (t : ℕ) → Reserves q t → Sees p a t → a ≡ nullptr

-- The keys of the nodes, in order.
abbrev pub keys_of : (Ptr → ℕ) → List Ptr → List ℕ
keys_of key [] = []
keys_of key (p ∷ ps) = key p ∷ keys_of key ps

pub record IsStack (s : LockFreeStack) (nodes : List Ptr) (contents : List ℕ) : Type 0 where
  pub chain : Chain s.next s.top.node nodes
  pub distinct : (a : Ptr) → count a nodes ≤ 1
  pub live : (a : Ptr) → 0 < count a nodes → s.live a ≡ true
  pub top_seen : IsSeen s.tag_counter s.top.node s.top.tag
  pub keys : keys_of s.key nodes ≡ contents

pub record Simulates (s : System) (a : Abstract) : Type 0 where
  pub nodes : List Ptr
  pub stack : IsStack s.stack nodes a.keys
  pub thread : (i : ℕ) → IsThread s.stack nodes (s.pc i)
  pub settled : (i : ℕ) → Settled s.stack (a.duty i) (s.pc i)
  pub apart : (i j : ℕ) → i ≢ j → Apart (s.pc i) (s.pc j)
