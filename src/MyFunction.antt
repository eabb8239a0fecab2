-- ===== src/MyFunction.antt =====
-- my_function/my_function.hpp: wrappers of callable objects, which keep the object in a buffer of their
-- own or on the heap. A wrapper is named by a number, its address.
pub mod Leads
pub mod Lifetimes
pub mod Operations
pub mod Ops
pub mod Assign
pub mod Primitives
pub mod Programs
pub mod Values
mod Tests
use low_level_cpp.Base.{
  ℕ, ◌%◌, ◌<◌, Bool, true, false, ◌&&◌, not, Option, none, some, List, [], ◌∷◌, ◌==◌, if◌then◌else◌,
  leb,
}
use low_level_cpp.Base.Store.{update}

-- What the wrapper uses of the types of callable objects and of the heap: the size and the alignment
-- of a model, what a call does to an object and returns, what is left of an object that was moved
-- from, and where `new` finds memory.
pub record Platform (F A R : Type 0) : Type 0 where
  pub size : F → ℕ
  pub alignment : F → ℕ
  pub max_alignment : ℕ
  pub invoke : A → F → F × R
  pub leftover : F → F
  pub new_address : (ℕ → Option F) → Option ℕ

-- `CallableBase *`: null, a buffer of a wrapper, or an address of the heap.
pub data Callable : Type 0 where
  null : Callable
  in_buffer : (owner : ℕ) → Callable
  on_heap : (address : ℕ) → Callable

-- The objects in the buffers and on the heap, and the field `callable_` of each wrapper.
pub record Store (F : Type 0) : Type 0 where
  pub buffer : ℕ → Option F
  pub heap : ℕ → Option F
  pub callable : ℕ → Callable

-- How an operation ends. `undefined` is undefined behaviour.
pub data Outcome (F R : Type 0) : Type 0 where
  ends : Store F → Outcome F R
  returns : R → Store F → Outcome F R
  bad_alloc : Store F → Outcome F R
  bad_function_call : Store F → Outcome F R
  undefined : Outcome F R

-- `SBO_SIZE`
abbrev pub sbo_size : ℕ
sbo_size = 32

abbrev pub points_to : ℕ → Callable → Bool
points_to i null = false
points_to i (in_buffer j) = i == j
points_to i (on_heap p) = false

abbrev pub has_callable : Callable → Bool
has_callable null = false
has_callable (in_buffer j) = true
has_callable (on_heap p) = true

module _ {F : Type 0} where
  abbrev pub set_callable : ℕ → Callable → Store F → Store F
  set_callable i c s = record s { callable = update s.callable i c }

  abbrev pub set_buffer : ℕ → Option F → Store F → Store F
  set_buffer i f s = record s { buffer = update s.buffer i f }

  abbrev pub set_heap : ℕ → Option F → Store F → Store F
  set_heap p f s = record s { heap = update s.heap p f }

  -- `callable_ = new (buffer_) …(f)`
  abbrev pub place : ℕ → F → Store F → Store F
  place i f s = set_callable i (in_buffer i) (set_buffer i (some f) s)

  unfoldable pub is_sbo : ℕ → Store F → Bool
  is_sbo i s = points_to i (s.callable i)

  -- The object that a pointer leads to, if it is alive.
  abbrev pub object : Callable → Store F → Option F
  object null s = none
  object (in_buffer j) s = s.buffer j
  object (on_heap p) s = s.heap p

  abbrev pub set_object : Callable → F → Store F → Store F
  set_object null f s = s
  set_object (in_buffer j) f s = set_buffer j (some f) s
  set_object (on_heap p) f s = set_heap p (some f) s

  -- `callable_->destroy()`
  abbrev pub destroy : Callable → Store F → Option F → Option (Store F)
  destroy c s none = none
  destroy null s (some f) = none
  destroy (in_buffer j) s (some f) = some (set_buffer j none s)
  destroy (on_heap p) s (some f) = some (set_heap p none s)

  -- `delete callable_`, which only memory of the heap may be given to.
  abbrev pub delete_object : Callable → Store F → Option F → Option (Store F)
  delete_object null s f = some s
  delete_object (in_buffer j) s f = none
  delete_object (on_heap p) s none = none
  delete_object (on_heap p) s (some f) = some (set_heap p none s)

  abbrev pub reset_callable : ℕ → Option (Store F) → Option (Store F)
  reset_callable i none = none
  reset_callable i (some s) = some (set_callable i null s)

  unfoldable pub clear : ℕ → Store F → Option (Store F)
  unfolding is_sbo
  clear i s =
      let c = s.callable i in
      if has_callable c
      then reset_callable i
          (if is_sbo i s then destroy c s (object c s) else delete_object c s (object c s))
      else some s

  -- `function()` and `function(nullptr_t)`: memory that is not in use becomes a wrapper.
  abbrev pub construct_null : ℕ → Store F → Store F
  construct_null i s = set_callable i null s

  -- `operator bool`
  unfoldable pub to_bool : ℕ → Store F → Bool
  to_bool i s = has_callable (s.callable i)

  module _ {R : Type 0} where
    abbrev pub ended : Option (Store F) → Outcome F R
    ended none = undefined
    ended (some s) = ends s

    -- `~function()`
    unfoldable pub destruct : ℕ → Store F → Outcome F R
    unfolding clear
    destruct i s = ended (clear i s)

    -- `operator=(nullptr_t)`
    unfoldable pub assign_null : ℕ → Store F → Outcome F R
    unfolding clear
    assign_null i s = ended (clear i s)

module _ {F A R : Type 0} (platform : Platform F A R) where
  unfoldable pub fits_in_sbo : F → Bool
  fits_in_sbo f =
      leb (platform.size f) sbo_size && platform.max_alignment % platform.alignment f == 0

  abbrev pub allocate_at : ℕ → F → Store F → Option ℕ → Outcome F R
  allocate_at i f s none = bad_alloc s
  allocate_at i f s (some p) = ends (set_callable i (on_heap p) (set_heap p (some f) s))

  -- `callable_ = new …(f)`
  abbrev pub allocate : ℕ → F → Store F → Outcome F R
  allocate i f s = allocate_at i f s (platform.new_address s.heap)

  -- `function(F &&f)`
  unfoldable pub construct : ℕ → F → Store F → Outcome F R
  unfolding fits_in_sbo
  construct i f s =
      if fits_in_sbo f
      then ends (place i f (construct_null i s))
      else allocate i f (construct_null i s)

  -- `clone` into the buffer of `i`, or onto the heap.
  abbrev pub clone : ℕ → Bool → Option F → Store F → Outcome F R
  clone i into_buffer none s = undefined
  clone i true (some f) s = ends (place i f s)
  clone i false (some f) s = allocate i f s

  -- What the copy constructor and the copy assignment have in common.
  unfoldable pub copy_from : (i j : ℕ) → Store F → Outcome F R
  unfolding is_sbo
  copy_from i j s =
      if has_callable (s.callable j)
      then clone i (is_sbo j s) (object (s.callable j) s) s
      else ends s

  unfoldable pub copy_construct : (i j : ℕ) → Store F → Outcome F R
  unfolding copy_from
  copy_construct i j s = copy_from i j (construct_null i s)

  -- `move_clone` into the buffer of `i`, and `other.clear()`.
  unfoldable pub move_object : (i j : ℕ) → Option F → Store F → Outcome F R
  unfolding clear
  move_object i j none s = undefined
  move_object i j (some f) s =
      ended (clear j (place i f (set_object (s.callable j) (platform.leftover f) s)))

  unfoldable pub move_from : (i j : ℕ) → Store F → Outcome F R
  unfolding is_sbo move_object
  move_from i j s =
      if has_callable (s.callable j)
      then if is_sbo j s
        then move_object i j (object (s.callable j) s) s
        else ends (set_callable j null (set_callable i (s.callable j) s))
      else ends s

  unfoldable pub move_construct : (i j : ℕ) → Store F → Outcome F R
  unfolding move_from
  move_construct i j s = move_from i j (construct_null i s)

  abbrev pub behind : Option (Store F) → (Store F → Outcome F R) → Outcome F R
  behind none k = undefined
  behind (some s) k = k s

  -- `operator=(const function &)`
  unfoldable pub copy_assign : (i j : ℕ) → Store F → Outcome F R
  unfolding clear copy_from
  copy_assign i j s = if i == j then ends s else behind (clear i s) (copy_from i j)

  -- `operator=(function &&)`
  unfoldable pub move_assign : (i j : ℕ) → Store F → Outcome F R
  unfolding clear move_from
  move_assign i j s = if i == j then ends s else behind (clear i s) (move_from i j)

  abbrev pub invoked : Callable → Option (F × R) → Store F → Outcome F R
  invoked c none s = undefined
  invoked c (some (f, r)) s = returns r (set_object c f s)

  abbrev pub invoke_object : A → Option F → Option (F × R)
  invoke_object a none = none
  invoke_object a (some f) = some (platform.invoke a f)

  -- `operator()`
  unfoldable pub call : ℕ → A → Store F → Outcome F R
  call i a s =
      let c = s.callable i in
      if has_callable c then invoked c (invoke_object a (object c s)) s else bad_function_call s
