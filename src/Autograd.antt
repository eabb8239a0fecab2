-- ===== src/Autograd.antt =====
-- ReinC/autograd.c: variables and their matrices in an arena. The functions that the file only declares
-- are not there to be modelled.
pub mod Variables
mod Tests
use low_level_cpp.Base.{
  ℕ, ◌+◌, ◌*◌, ◌%◌, ◌^◌, Bool, true, false, ◌&&◌, ◌||◌, not, Option, none, some, ◌==◌,
  if◌then◌else◌, ltb, bit_and,
}
use low_level_cpp.Base.Chain.{Ptr, nullptr}
use low_level_cpp.Base.Store.{update}
use low_level_cpp.Arena.{Arena, arena_push}

pub record Matrix : Type 0 where
  pub rows : ℕ
  pub cols : ℕ
  pub data_ptr : Ptr

pub record Var : Type 0 where
  pub index : ℕ
  pub flags : ℕ
  pub val : Ptr
  pub grad : Ptr
  pub input0 : Ptr
  pub input1 : Ptr
  pub type_ptr : Ptr

-- The arena, the objects at its addresses, and `num_vars` of the model.
pub record State : Type 0 where
  pub arena : Arena
  pub matrices : Ptr → Matrix
  pub vars : Ptr → Var
  pub num_vars : ℕ

abbrev pub matrix_size : ℕ
matrix_size = 16

abbrev pub var_size : ℕ
var_size = 48

abbrev pub requires_grad : ℕ
requires_grad = 1

-- What a function returns, or that it writes through a null pointer.
pub data Made : Type 0 where
  made : State → Ptr → Made
  null_write : Made

-- `create_matrix` behind its first push.
abbrev pub matrix_at : (rows cols : ℕ) → Arena × Ptr → State → Made
matrix_at rows cols (a, out) s =
    let block = arena_push (matrix_size * (rows * cols % 2 ^ 32)) true a in
    if out == nullptr
    then null_write
    else made
        (record s {
          arena = block.0;
          matrices =
              update s.matrices out (record { rows = rows; cols = cols; data_ptr = block.1 });
        })
        out

unfoldable pub create_matrix : (rows cols : ℕ) → State → Made
create_matrix rows cols s = matrix_at rows cols (arena_push matrix_size true s.arena) s

-- The zero bytes of a new variable.
abbrev pub zero_var : Var
zero_var = record {
  index = 0;
  flags = 0;
  val = nullptr;
  grad = nullptr;
  input0 = nullptr;
  input1 = nullptr;
  type_ptr = nullptr;
}

abbrev pub set_grad : Ptr → Made → Made
set_grad out null_write = null_write
set_grad out (made s grad) =
    made (record s { vars = update s.vars out (record (s.vars out) { grad = grad }) }) out

-- The last part of `create_var`: `val` is stored, and a matrix for the gradient made if the flags say
-- so.
abbrev pub with_val : (rows cols : ℕ) → (out : Ptr) → Made → Made
with_val rows cols out null_write = null_write
with_val rows cols out (made s val) =
    let t = record s { vars = update s.vars out (record (s.vars out) { val = val }) } in
    if bit_and (t.vars out).flags requires_grad == 0
    then made t out
    else set_grad out (create_matrix rows cols t)

-- `create_var` behind its first push.
abbrev pub var_at : (rows cols : ℕ) → Arena × Ptr → State → Made
var_at rows cols (a, out) s =
    if out == nullptr
    then null_write
    else with_val rows cols out (
        create_matrix rows cols (record s {
          arena = a;
          vars = update s.vars out (record zero_var { index = s.num_vars });
          num_vars = (s.num_vars + 1) % 2 ^ 32;
        }))

unfoldable pub create_var : (rows cols flags : ℕ) → State → Made
unfolding create_matrix
create_var rows cols flags s = var_at rows cols (arena_push var_size true s.arena) s

-- The type of a node: its address, and its fields that `create_node` uses. `shape` tells whether it
-- accepts the inputs, and the rows and columns that it stores.
pub record VarType : Type 0 where
  pub address : Ptr
  pub num_inputs : ℕ
  pub shape : Ptr → Ptr → State → Bool × ℕ × ℕ

abbrev pub wants_grad : Ptr → State → Bool
wants_grad p s = not (p == nullptr) && not (bit_and (s.vars p).flags requires_grad == 0)

-- The last part of `create_node`, behind `create_var`.
abbrev pub linked : VarType → (a b : Ptr) → Made → Made
linked type a b null_write = null_write
linked type a b (made s var) =
    let typed = record (s.vars var) { type_ptr = type.address; input0 = a } in
    made
      (record s {
        vars =
            update s.vars var
              (if ltb 1 type.num_inputs then record typed { input1 = b } else typed);
      })
      var

unfoldable pub node_of : VarType → (a b : Ptr) → Bool × ℕ × ℕ → State → Made
unfolding create_var
node_of type a b (accepted, rows, cols) s =
    if accepted
    then linked type a b
        (create_var rows cols (if wants_grad a s || wants_grad b s then requires_grad else 0) s)
    else made s nullptr

unfoldable pub create_node : (a b : Ptr) → Option VarType → State → Made
unfolding node_of
create_node a b none s = made s nullptr
create_node a b (some type) s = node_of type a b (type.shape a b s) s
