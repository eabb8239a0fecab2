-- ===== src/LockFreeStack/Abstract.antt =====
-- What a stack promises to its threads: a list of keys that a push and a pop change in one step, between
-- a call and a return that each thread makes in turn.
use low_level_cpp.Base.{ℕ, Option, none, some, List, [], ◌∷◌, ◌==◌, if◌then◌else◌}
use low_level_cpp.Base.Store.{update}
use low_level_cpp.LockFreeStack.{
  Label, silent, observes, calls_push, calls_pop, pushes, pops, returns, broken,
}

-- What a thread has to do next: nothing, to push the key of its call, to take a key or to find the
-- stack empty, to return 0 as it found it empty, or to return the key that it took.
pub data Duty : Type 0 where
  resting : Duty
  must_push : (key : ℕ) → Duty
  must_pop : Duty
  found_empty : Duty
  must_return : (key : ℕ) → Duty

pub record Abstract : Type 0 where
  pub keys : List ℕ
  pub duty : ℕ → Duty

abbrev pub with_duty : ℕ → Duty → Abstract → Abstract
with_duty i d a = record a { duty = update a.duty i d }

abbrev pub found : List ℕ → Duty
found [] = found_empty
found (k ∷ ks) = must_pop

abbrev pub begin : ℕ → Duty → Duty → Abstract → Option Abstract
begin i resting d a = some (with_duty i d a)
begin i (must_push k) d a = none
begin i must_pop d a = none
begin i found_empty d a = none
begin i (must_return k) d a = none

abbrev pub look : ℕ → Duty → Abstract → Option Abstract
look i resting a = none
look i (must_push k) a = none
look i must_pop a = some (with_duty i (found a.keys) a)
look i found_empty a = none
look i (must_return k) a = none

abbrev pub put : ℕ → ℕ → Duty → Abstract → Option Abstract
put i k resting a = none
put i k (must_push l) a =
    if k == l then some (record { keys = k ∷ a.keys; duty = update a.duty i resting }) else none
put i k must_pop a = none
put i k found_empty a = none
put i k (must_return l) a = none

abbrev pub take_first : ℕ → List ℕ → Abstract → Option Abstract
take_first i [] a = none
take_first i (k ∷ ks) a = some (record { keys = ks; duty = update a.duty i (must_return k) })

abbrev pub take : ℕ → Duty → Abstract → Option Abstract
take i resting a = none
take i (must_push k) a = none
take i must_pop a = take_first i a.keys a
take i found_empty a = none
take i (must_return k) a = none

abbrev pub return : ℕ → ℕ → Duty → Abstract → Option Abstract
return i v resting a = none
return i v (must_push k) a = none
return i v must_pop a = none
return i v found_empty a = if v == 0 then some (with_duty i resting a) else none
return i v (must_return k) a = if v == k then some (with_duty i resting a) else none

-- `none` where the label cannot happen.
abbrev pub allow : Label → Abstract → Option Abstract
allow silent a = some a
allow (calls_push i k) a = begin i (a.duty i) (must_push k) a
allow (calls_pop i) a = begin i (a.duty i) must_pop a
allow (observes i) a = look i (a.duty i) a
allow (pushes i k) a = put i k (a.duty i) a
allow (pops i) a = take i (a.duty i) a
allow (returns i v) a = return i v (a.duty i) a
allow broken a = none

abbrev pub then_allow : Option Abstract → (Abstract → Option Abstract) → Option Abstract
then_allow none k = none
then_allow (some a) k = k a

unfoldable pub allow_all : List Label → Abstract → Option Abstract
allow_all [] a = some a
allow_all (l ∷ labels) a = then_allow (allow l a) (allow_all labels)

abbrev pub empty_stack : Abstract
empty_stack = record { keys = []; duty = λ i. resting }
