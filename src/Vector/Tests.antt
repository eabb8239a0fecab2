-- ===== src/Vector/Tests.antt =====
-- The vector at small inputs, and its theorems at them.
use low_level_cpp.Base.{
  ℕ, zero, suc, ◌<◌, ◌≡◌, ◌≢◌, ◌⊎◌, ◌-◌, refl, List, [], ◌∷◌, arith, ◌==◌, if◌then◌else◌,
}
use low_level_cpp.Vector.{
  Slot, live, operator_new, block, outside, element, Run, ok, out_of_range, fault, Vector, vector,
  reserve, emplace, shrink_to_fit, push_back, delete_array, move_to, move_each, make_room,
  shift_each, construct, take, operator_delete, at, resize, copy_each, assign,
}
use low_level_cpp.Vector.Slots.{slots_of}
use low_level_cpp.Vector.Lists.{IsVector, Gives, shrink_to_fit-IsVector}
use low_level_cpp.Vector.Emplace.{emplace-IsVector}
use low_level_cpp.Vector.Mixed.{mixed_faults}

abbrev pair_slots : ℕ → Slot ℕ
pair_slots i = if i == 0 then live 4 else live 6

abbrev pair : Vector ℕ
pair = record { data_ = block operator_new 2 pair_slots; size = 2; capacity = 2 }

pair-IsVector : IsVector pair (4 ∷ 6 ∷ [])
pair-IsVector = record {
  fits = (refl, refl, λ i h. two_slots i h);
  sized = refl;
  room = omega arith;
}
  where
    two_slots : (i : ℕ) → i < 2 → pair_slots i ≡ slots_of (4 ∷ 6 ∷ []) i
    two_slots zero h = refl
    two_slots (suc zero) h = refl
    two_slots (suc (suc i)) h = absurd (omega arith)

-- The elements of a result.
read_back : Run (Vector ℕ) → List (Run ℕ)
unfolding at
read_back (ok v) = at 0 v ∷ at 1 v ∷ at 2 v ∷ at 3 v ∷ []
read_back r = []

emplaced : read_back (emplace 1 (outside 5) pair) ≡ ok 4 ∷ ok 5 ∷ ok 6 ∷ out_of_range ∷ []
unfolding emplace make_room reserve move_to move_each operator_delete shift_each construct take
    read_back
emplaced = refl

pushed :
    read_back (push_back 0 (outside 7) vector)
    ≡ ok 7 ∷ out_of_range ∷ out_of_range ∷ out_of_range ∷ []
unfolding push_back resize copy_each assign delete_array read_back at
pushed = refl

emplace-IsVector_example :
    ((a : ℕ) → Gives (emplace 1 (outside a) pair) (4 ∷ a ∷ 6 ∷ []))
    × ((k : ℕ) → k < 2 → pair.size ≡ pair.capacity → emplace 1 (element k) pair ≡ fault)
    × (1 < 2 → pair.size ≢ pair.capacity → emplace 1 (element 1) pair ≡ fault)
    × ((k a : ℕ)
        → k < 2
        → pair.size ≢ pair.capacity
        → ((k < 1) × (slots_of (4 ∷ 6 ∷ []) k ≡ live a))
          ⊎ ((1 < k) × (slots_of (4 ∷ 6 ∷ []) (k - 1) ≡ live a))
        → Gives (emplace 1 (element k) pair) (4 ∷ a ∷ 6 ∷ []))
emplace-IsVector_example = emplace-IsVector 1 pair (4 ∷ 6 ∷ []) pair-IsVector (omega arith)

shrink_to_fit-IsVector_example :
    (w : Vector ℕ) × (shrink_to_fit pair ≡ ok w) × IsVector w (4 ∷ 6 ∷ []) × (w.capacity ≡ 2)
shrink_to_fit-IsVector_example = shrink_to_fit-IsVector pair (4 ∷ 6 ∷ []) pair-IsVector

mixed_faults_example : (delete_array pair.data_ ≡ fault) × (push_back 0 (outside 7) pair ≡ fault)
mixed_faults_example = mixed_faults 0 (outside 7) pair (4 ∷ 6 ∷ []) pair-IsVector (omega arith)
