-- ===== src/Vector/Mixed.antt =====
-- push_back and the destructor expect memory of `new[]`, the other functions make memory of
-- `::operator new`.
use low_level_cpp.Base.{
  ℕ, zero, suc, ◌+◌, ◌*◌, ◌<◌, ◌≡◌, inl, inr, refl, ap, ◌∙◌, Bool, true, false, List, arith, ◌==◌,
  if◌then◌else◌, ltb, lt→ltb, Bool-cases,
}
use low_level_cpp.Vector.{
  Slot, raw, live, new_array, operator_new, Data, null, block, Run, ok, out_of_range, fault, ◌>>=◌,
  Vector, delete_array, assigned, assign, read, read_slot, copy_each, resize, push_back, Arg,
  outside, element, argument,
}
use low_level_cpp.Vector.Slots.{slots_of, Fits}
use low_level_cpp.Vector.Lists.{IsVector, slots_of-raw}

-- A run that returns or has undefined behaviour, but does not throw.
abbrev Ends : {R : Type 0} → Run R → Type 0
Ends (ok r) = Unit
Ends out_of_range = ⊥
Ends fault = Unit

then-Ends :
    {R S : Type 0} (r : Run R) (k : R → Run S) → Ends r → ((x : R) → Ends (k x)) → Ends (r >>= k)
then-Ends (ok x) k ends next = next x
then-Ends out_of_range k ends next = ends
then-Ends fault k ends next = tt

then-fault :
    {R S : Type 0} (r : Run R) (k : R → Run S)
    → Ends r
    → ((x : R) → k x ≡ fault)
    → (r >>= k) ≡ fault
then-fault (ok x) k ends next = next x
then-fault out_of_range k ends next = absurd ends
then-fault fault k ends next = refl

if-Ends : {R : Type 0} (b : Bool) (r : Run R) → Ends r → Ends (if b then r else fault)
if-Ends true r ends = ends
if-Ends false r ends = tt

module _ {A : Type 0} where
  delete_array-fault :
      (d : Data A) (room : ℕ) (f : ℕ → Slot A) → Fits d room f → 0 < room → delete_array d ≡ fault
  unfolding delete_array
  delete_array-fault null room f fits some_room = absurd (omega arith)
  delete_array-fault (block operator_new n s) room f fits some_room = refl
  delete_array-fault (block new_array n s) room f (origin, size, holds) some_room =
      absurd (ground arith)

  read_slot-Ends : (s : Slot A) → Ends (read_slot s)
  read_slot-Ends raw = tt
  read_slot-Ends (live a) = tt

  assigned-Ends : (s : Slot A) (d : Data A) → Ends (assigned s d)
  assigned-Ends raw d = tt
  assigned-Ends (live a) d = tt

  assign_raw :
      (d : Data A) (room : ℕ) (f : ℕ → Slot A) (i : ℕ) (a : A)
      → Fits d room f
      → i < room
      → f i ≡ raw
      → assign i a d ≡ fault
  unfolding assign
  assign_raw null room f i a fits h empty = refl
  assign_raw (block o n s) room f i a (origin, size, holds) h empty =
      rw (lt→ltb i n (omega arith), holds i h, empty) refl

  read-Ends : (i : ℕ) (d : Data A) → Ends (read i d)
  read-Ends i null = tt
  read-Ends i (block o n s) = if-Ends (ltb i n) _ (read_slot-Ends (s i))

  assign-Ends : (i : ℕ) (a : A) (d : Data A) → Ends (assign i a d)
  unfolding assign
  assign-Ends i a null = tt
  assign-Ends i a (block o n s) = if-Ends (ltb i n) _ (assigned-Ends (s i) _)

  argument-Ends : (arg : Arg A) (freed : Bool) (d : Data A) → Ends (argument arg freed d)
  argument-Ends (outside a) freed d = tt
  argument-Ends (element k) true d = tt
  argument-Ends (element k) false d = read-Ends k d

  copy_each-Ends : (rounds i : ℕ) (old new : Data A) → Ends (copy_each rounds i old new)
  unfolding copy_each
  copy_each-Ends zero i old new = tt
  copy_each-Ends (suc rounds) i old new = then-Ends (read i old) _ (read-Ends i old) (λ a.
      then-Ends (assign i a new) _ (assign-Ends i a new)
        (λ filled. copy_each-Ends rounds (suc i) old filled))

  -- A vector that has a block of `::operator new`: its destructor has undefined behaviour, and so
  -- has push_back, for a type of objects that cannot be assigned to raw memory.
  pub mixed_faults :
      (initial : A) (a : Arg A) (v : Vector A) (xs : List A)
      → IsVector v xs
      → 0 < v.capacity
      → (delete_array v.data_ ≡ fault) × (push_back initial a v ≡ fault)
  unfolding push_back resize
  mixed_faults initial a v xs is some_room =
      let more : ℕ = if v.capacity == 0 then 1 else v.capacity * 2 in
      let deleted = delete_array-fault v.data_ v.capacity _ is.fits some_room in
      let resized : resize initial more v ≡ fault =
        then-fault (copy_each v.size 0 v.data_ (block new_array more (λ i. live initial))) _
          (copy_each-Ends v.size 0 v.data_ _)
          (λ new.
            ap (λ r. r >>= λ _. ok (record { data_ = new; size = v.size; capacity = more }))
              deleted) in
      let finish : Vector A → Run (Vector A) = λ w.
        argument a (v.size == v.capacity) w.data_ >>= λ b. assign w.size b w.data_ >>= λ d.
        ok (record { data_ = d; size = w.size + 1; capacity = w.capacity }) in
      let choice : Bool → Run (Vector A) =
        λ b. (if b then resize initial more v else ok v) >>= finish in
      (
        deleted,
        elim (Bool-cases (v.size == v.capacity)) [
          | inl full ↦ ap choice full ∙ ap (λ r. r >>= finish) resized
          | inr roomy ↦
              let below : v.size < v.capacity = ground (arith, is.room, is.sized) in
              let empty = slots_of-raw xs v.size (omega (arith, is.sized)) in
              ap choice roomy
              ∙ then-fault (argument a (v.size == v.capacity) v.data_) _
                  (argument-Ends a (v.size == v.capacity) v.data_)
                  (λ b.
                    ap
                      (λ r. r >>= λ d.
                        ok (record { data_ = d; size = v.size + 1; capacity = v.capacity }))
                      (assign_raw v.data_ v.capacity (slots_of xs) v.size b is.fits below empty))
        ],
      )
