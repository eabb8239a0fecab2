-- ===== src/MyFunction/Ops.antt =====
-- Operations on the wrappers of my_function/my_function.hpp, and sequences of them.
use low_level_cpp.Base.{ℕ, true, false, not, ◌&&◌, Option, none, some, List, [], ◌∷◌, if◌then◌else◌}
use low_level_cpp.Base.Store.{update}
use low_level_cpp.MyFunction.{
  Platform, ends, destruct, assign_null, construct_null, construct, copy_construct, move_construct,
  copy_assign, move_assign, call,
}
use low_level_cpp.MyFunction.Lifetimes.{Wrappers, settle}

pub data Op (F A : Type 0) : Type 0 where
  constructs : ℕ → F → Op F A
  constructs_null : ℕ → Op F A
  copy_constructs : ℕ → ℕ → Op F A
  move_constructs : ℕ → ℕ → Op F A
  destructs : ℕ → Op F A
  copy_assigns : ℕ → ℕ → Op F A
  move_assigns : ℕ → ℕ → Op F A
  assigns_null : ℕ → Op F A
  calls : ℕ → A → Op F A

abbrev pub then_run : {B : Type 0} → Option B → (B → Option B) → Option B
then_run none k = none
then_run (some s) k = k s

module _ {F A R : Type 0} where
  -- The wrappers after an operation, `none` if it is undefined. A program constructs a wrapper where
  -- none is alive, and does all else with wrappers that are alive: an operation that does not keep to
  -- that is left out. A constructor that runs out of memory makes no wrapper.
  unfoldable pub perform : Platform F A R → Op F A → Wrappers F → Option (Wrappers F)
  perform platform (constructs i f) w =
      if not (w.alive i)
      then settle (update w.alive i true) w.alive (construct platform i f w.store)
      else some w
  perform platform (constructs_null i) w =
      if not (w.alive i)
      then settle {R = R} (update w.alive i true) w.alive (ends (construct_null i w.store))
      else some w
  perform platform (copy_constructs i j) w =
      if not (w.alive i) && w.alive j
      then settle (update w.alive i true) w.alive (copy_construct platform i j w.store)
      else some w
  perform platform (move_constructs i j) w =
      if not (w.alive i) && w.alive j
      then settle (update w.alive i true) w.alive (move_construct platform i j w.store)
      else some w
  perform platform (destructs i) w =
      if w.alive i
      then settle {R = R} (update w.alive i false) w.alive (destruct i w.store)
      else some w
  perform platform (copy_assigns i j) w =
      if w.alive i && w.alive j
      then settle w.alive w.alive (copy_assign platform i j w.store)
      else some w
  perform platform (move_assigns i j) w =
      if w.alive i && w.alive j
      then settle w.alive w.alive (move_assign platform i j w.store)
      else some w
  perform platform (assigns_null i) w =
      if w.alive i then settle {R = R} w.alive w.alive (assign_null i w.store) else some w
  perform platform (calls i a) w =
      if w.alive i then settle w.alive w.alive (call platform i a w.store) else some w

  unfoldable pub run : Platform F A R → List (Op F A) → Wrappers F → Option (Wrappers F)
  unfolding perform
  run platform [] w = some w
  run platform (op ∷ ops) w = then_run (perform platform op w) (run platform ops)
