-- ===== src/LockFreeStack/Tests.antt =====
-- Runs of two threads on the lock-free stack.
use low_level_cpp.Base.{ℕ, ◌≡◌, refl, false, List, [], ◌∷◌, arith}
use low_level_cpp.LockFreeStack.{Label, returns, Action, call_push, call_pop, go, run, fresh}
use low_level_cpp.LockFreeStack.Abstract.{empty_stack}
use low_level_cpp.LockFreeStack.Runs.{Refines, run-Refines-fresh}

abbrev push_seven : List Action
push_seven = call_push 0 7 100 ∷ go 0 false 0 ∷ go 0 false 0 ∷ go 0 false 0 ∷ []

-- Thread 1 holds the top when thread 0 pops it and pushes another node at the same address. The tag
-- tells the two apart: the exchange of thread 1 fails, and it takes the new key.
abbrev same_address : List Action
same_address =
    call_push 0 7 100
    ∷ go 0 false 0
    ∷ go 0 false 0
    ∷ go 0 false 0
    ∷ call_pop 1
    ∷ go 1 false 0
    ∷ call_pop 0
    ∷ go 0 false 0
    ∷ go 0 false 0
    ∷ go 0 false 0
    ∷ go 0 false 0
    ∷ go 0 false 0
    ∷ call_push 0 8 100
    ∷ go 0 false 0
    ∷ go 0 false 0
    ∷ go 0 false 0
    ∷ go 1 false 0
    ∷ go 1 false 0
    ∷ go 1 false 0
    ∷ go 1 false 0
    ∷ go 1 false 0
    ∷ go 1 false 0
    ∷ go 1 false 0
    ∷ []

returned : List Label → List (ℕ × ℕ)
returned [] = []
returned (returns i v ∷ labels) = (i, v) ∷ returned labels
returned (l ∷ labels) = returned labels

key_of_the_new_node : returned (run same_address fresh).1 ≡ (0, 7) ∷ (1, 8) ∷ []
unfolding run returned
key_of_the_new_node = refl

run-Refines-fresh_example : Refines empty_stack (run same_address fresh)
run-Refines-fresh_example = run-Refines-fresh same_address (omega arith)
