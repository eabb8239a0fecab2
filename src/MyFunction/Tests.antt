-- ===== src/MyFunction/Tests.antt =====
-- Wrappers of small and large objects, and the theorems at them.
use low_level_cpp.Base.{
  ℕ, ◌+◌, ◌*◌, ◌≡◌, inl, inr, refl, ap, ◌∙◌, Bool-cases, Bool, true, false, Option, none, some,
  List, [], ◌∷◌, arith, if◌then◌else◌,
}
use low_level_cpp.Base.Store.{update}
use low_level_cpp.MyFunction.{
  Platform, Store, returns, bad_function_call, place, set_callable, set_heap, construct_null, null,
  in_buffer, on_heap, fits_in_sbo, construct, copy_construct, move_construct, copy_assign,
  move_assign, destruct, copy_from, move_from, move_object, call, clear, is_sbo, to_bool,
}
use low_level_cpp.MyFunction.Values.{Represents}
use low_level_cpp.MyFunction.Leads.{IsAllocator, Leads}
use low_level_cpp.MyFunction.Lifetimes.{Wrappers}
use low_level_cpp.MyFunction.Assign.{construct_at-Leads, call-invoke}
use low_level_cpp.MyFunction.Ops.{
  Op, constructs, constructs_null, destructs, copy_constructs, move_constructs, copy_assigns,
  move_assigns, calls, perform, run,
}
use low_level_cpp.MyFunction.Programs.{no_wrappers, fresh, fresh-Represents}

abbrev is_free : Option ℕ → Bool
is_free none = true
is_free (some f) = false

-- A heap of two places.
abbrev find_free : (ℕ → Option ℕ) → Option ℕ
find_free heap = if is_free (heap 1) then some 1 else if is_free (heap 2) then some 2 else none

-- An object is a number, its size; a call multiplies by it and adds one to it.
abbrev numbers : Platform ℕ ℕ ℕ
numbers = record {
  size = λ f. f;
  alignment = λ f. 8;
  max_alignment = 16;
  invoke = λ a f. (f + 1, a * f);
  leftover = λ f. 0;
  new_address = find_free;
}

is_free-none : (o : Option ℕ) → is_free o ≡ true → o ≡ none
is_free-none none e = refl
is_free-none (some f) e = absurd (ground (arith, e))

numbers-IsAllocator : IsAllocator numbers
numbers-IsAllocator heap p e = elim (Bool-cases (is_free (heap 1))) [
  | inl first ↦ let here : p ≡ 1 = ground (arith, e) in ap heap here ∙ is_free-none (heap 1) first
  | inr taken ↦ elim (Bool-cases (is_free (heap 2))) [
    | inl second ↦
        let here : p ≡ 2 = ground (arith, e) in ap heap here ∙ is_free-none (heap 2) second
    | inr full ↦ absurd (ground (arith, e))
  ]
]

-- A small object and a large one; the large one is copied, and both are moved.
abbrev program : List (Op ℕ ℕ)
program =
    constructs 0 5
    ∷ constructs_null 4
    ∷ destructs 4
    ∷ constructs 1 40
    ∷ copy_constructs 2 1
    ∷ move_assigns 1 0
    ∷ move_constructs 3 2
    ∷ calls 1 7
    ∷ copy_assigns 0 3
    ∷ []

ends_so :
    (t : Wrappers ℕ) × (run numbers program no_wrappers ≡ some t)
    × (t.store.callable 1 ≡ in_buffer 1)
    × (t.store.buffer 1 ≡ some 6)
    × (t.store.callable 3 ≡ on_heap 2)
    × (t.store.callable 0 ≡ on_heap 1)
    × (t.store.callable 2 ≡ null)
unfolding run perform construct fits_in_sbo copy_construct move_construct copy_assign move_assign
    destruct copy_from move_from move_object call clear is_sbo to_bool
ends_so = (_, refl, refl, refl, refl, refl, refl)

-- A wrapper of the small object, and then one of the large object.
abbrev one : Store ℕ
one = place 0 5 (construct_null 0 fresh)

abbrev two : Store ℕ
two = set_callable 1 (on_heap 1) (set_heap 1 (some 40) (construct_null 1 one))

abbrev values : ℕ → Option ℕ
values = update (update (λ i. none) 0 (some 5)) 1 (some 40)

two-Represents : Represents two values
unfolding construct fits_in_sbo
two-Represents =
    construct_at-Leads numbers numbers-IsAllocator one (update (λ i. none) 0 (some 5)) 1 40
      (construct_at-Leads numbers numbers-IsAllocator fresh (λ i. none) 0 5 fresh-Represents refl)
      refl

call-invoke_example :
    ((f : ℕ)
      → values 1 ≡ some f
      → (t : Store ℕ) × (call numbers 1 7 two ≡ returns (7 * f) t)
        × Represents t (update values 1 (some (f + 1))))
    × (values 1 ≡ none → call numbers 1 7 two ≡ bad_function_call two)
call-invoke_example = call-invoke numbers numbers-IsAllocator two values 1 7 two-Represents
