-- ===== src/Autograd/Variables.antt =====
-- What create_var and create_node of ReinC/autograd.c put into the arena.
use low_level_cpp.Base.{ℕ, ◌+◌, ◌*◌, ◌%◌, ◌^◌, ◌≤◌, ◌<◌, ◌≡◌, ◌≢◌, ◌⊎◌, if◌then◌else◌, ltb}
use low_level_cpp.Base.Chain.{Ptr, nullptr}
use low_level_cpp.Arena.{Arena}
use low_level_cpp.Arena.Blocks.{IsArena}
use low_level_cpp.Autograd.{State, matrix_size, var_size, Made, made, null_write, zero_var, VarType}

-- Where the bytes end that the arena has handed out.
abbrev pub end_of : Arena → Ptr
end_of a = a.memory + a.pos

-- A block of some bytes between two addresses, or null.
abbrev pub Between : Ptr → ℕ → Ptr → Ptr → Type 0
Between low size p high = (p ≡ nullptr) ⊎ ((low ≤ p) × (p + size ≤ high))

-- A matrix behind what the arena held, or not enough room for its fields.
data MakesMatrix (rows cols : ℕ) (s : State) : Made → Type 0 where
  no_room : s.arena.capacity < s.arena.pos + 7 + matrix_size → MakesMatrix rows cols s null_write
  has_matrix :
      (t : State)
      → (m : Ptr) → IsArena t.arena
      → ((t.matrices m).rows ≡ rows) × ((t.matrices m).cols ≡ cols)
      → (0 < m) × (end_of s.arena ≤ m)
      → Between
          (m + matrix_size)
          (matrix_size * (rows * cols % 2 ^ 32))
          (t.matrices m).data_ptr
          (end_of t.arena)
      → m + matrix_size ≤ end_of t.arena
      → t.vars ≡ s.vars
      → t.num_vars ≡ s.num_vars
      → MakesMatrix rows cols s (made t m)

-- A variable behind what the arena held, with a matrix of its own, or not enough room for it.
pub data MakesVar (rows cols : ℕ) (s : State) : Made → Type 0 where
  no_memory : s.arena.capacity < s.arena.pos + 78 → MakesVar rows cols s null_write
  has_var :
      (t : State)
      → (p m : Ptr) → IsArena t.arena
      → t.vars p ≡ record zero_var { index = s.num_vars; val = m }
      → ((t.matrices m).rows ≡ rows) × ((t.matrices m).cols ≡ cols)
      → (0 < p) × (end_of s.arena ≤ p) × (p + var_size ≤ m) × (m + matrix_size ≤ end_of t.arena)
      → Between
          (m + matrix_size)
          (matrix_size * (rows * cols % 2 ^ 32))
          (t.matrices m).data_ptr
          (end_of t.arena)
      → t.num_vars ≡ (s.num_vars + 1) % 2 ^ 32
      → ((q : Ptr) → p ≢ q → t.vars q ≡ s.vars q)
      → MakesVar rows cols s (made t p)

-- A node of a type with the inputs, in an arena that was at `s`, or not enough room for it.
pub data MakesNode (type : VarType) (a b : Ptr) (s : State) : Made → Type 0 where
  no_memory_left : s.arena.capacity < s.arena.pos + 78 → MakesNode type a b s null_write
  has_node :
      (t : State)
      → (p m : Ptr) → IsArena t.arena
      → t.vars p ≡ record {
        index = s.num_vars;
        flags = 0;
        val = m;
        grad = nullptr;
        input0 = a;
        input1 = if ltb 1 type.num_inputs then b else nullptr;
        type_ptr = type.address;
      }
      → ((t.matrices m).rows ≡ (type.shape a b s).1) × ((t.matrices m).cols ≡ (type.shape a b s).2)
      → (0 < p) × (end_of s.arena ≤ p) × (p + var_size ≤ m) × (m + matrix_size ≤ end_of t.arena)
      → ((q : Ptr) → p ≢ q → t.vars q ≡ s.vars q)
      → MakesNode type a b s (made t p)
