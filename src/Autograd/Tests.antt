-- ===== src/Autograd/Tests.antt =====
-- The demo of ReinC/autograd.c and a node, and the theorems at them.
use low_level_cpp.Base.{◌≡◌, refl, true, Option, none, some}
use low_level_cpp.Base.Chain.{Ptr, nullptr}
use low_level_cpp.Arena.{Arena, arena_push, align_up_pow2}
use low_level_cpp.Autograd.{
  State, Made, made, null_write, create_matrix, create_var, VarType, zero_var,
}

abbrev arena : Arena
arena = record { memory = 4096; capacity = 1000; pos = 0; cells = λ a. 7 }

abbrev demo : State
demo = record {
  arena = arena;
  matrices = λ p. record { rows = 0; cols = 0; data_ptr = nullptr };
  vars = λ p. zero_var;
  num_vars = 0;
}

-- The address of the data of a new variable's matrix.
abbrev data_of : Made → Option Ptr
data_of (made s p) = some (s.matrices (s.vars p).val).data_ptr
data_of null_write = none

no_room_for_400 : data_of (create_var 20 20 0 demo) ≡ some nullptr
unfolding create_var create_matrix arena_push align_up_pow2
no_room_for_400 = refl

room_for_4 : data_of (create_var 2 2 0 demo) ≡ some 4160
unfolding create_var create_matrix arena_push align_up_pow2
room_for_4 = refl

-- An operation on two inputs that keeps a shape.
abbrev add : VarType
add = record { address = 128; num_inputs = 2; shape = λ a b s. (true, 2, 3) }
