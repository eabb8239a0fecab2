-- ===== src/Vector.antt =====
-- my_vector/main.cpp: a growable array. A slot of a block is raw memory or holds a live object, and a
-- block remembers how it was allocated, since `delete[]` and `::operator delete` are not the same.
pub mod Back
pub mod Emplace
pub mod Lists
pub mod Mixed
pub mod Slots
mod Tests
use low_level_cpp.Base.{
  ℕ, zero, suc, ◌+◌, ◌-◌, ◌*◌, Bool, true, false, Option, none, some, ◌==◌, if◌then◌else◌, ltb, leb,
}
use low_level_cpp.Base.Store.{update}

pub data Slot (A : Type 0) : Type 0 where
  raw : Slot A
  live : A → Slot A

pub data Origin : Type 0 where
  new_array : Origin
  operator_new : Origin

pub data Data (A : Type 0) : Type 0 where
  null : Data A
  block : Origin → (length : ℕ) → (ℕ → Slot A) → Data A

pub record Vector (A : Type 0) : Type 0 where
  pub data_ : Data A
  pub size : ℕ
  pub capacity : ℕ

-- `fault` is undefined behaviour: an access outside of a block or to a slot with no object, an
-- assignment to such a slot, or memory that is given back in the wrong way.
pub data Run (R : Type 0) : Type 0 where
  ok : R → Run R
  out_of_range : Run R
  fault : Run R

infixl 5 ◌>>=◌
abbrev pub ◌>>=◌ : {A B : Type 0} → Run A → (A → Run B) → Run B
ok a >>= k = k a
out_of_range >>= k = out_of_range
fault >>= k = fault

-- An argument that a function takes by reference and copies: it refers to an object outside of the
-- vector, or to the element at an index, in the block that the vector has at the call.
pub data Arg (A : Type 0) : Type 0 where
  outside : A → Arg A
  element : ℕ → Arg A

module _ {A : Type 0} where
  abbrev pub read_slot : Slot A → Run A
  read_slot raw = fault
  read_slot (live a) = ok a

  abbrev pub read : ℕ → Data A → Run A
  read i null = fault
  read i (block o n s) = if ltb i n then read_slot (s i) else fault

  -- What the reference leads to where it is used; `freed` when the block of the call is given back by
  -- then.
  abbrev pub argument : Arg A → (freed : Bool) → Data A → Run A
  argument (outside a) freed d = ok a
  argument (element k) freed d = if freed then fault else read k d

  -- `new (&data[i]) T(a)`
  unfoldable pub construct : ℕ → A → Data A → Run (Data A)
  construct i a null = fault
  construct i a (block o n s) = if ltb i n then ok (block o n (update s i (live a))) else fault

  abbrev taken_from : Slot A → Data A → Run (A × Data A)
  taken_from raw d = fault
  taken_from (live a) d = ok (a, d)

  -- `T(std::move(data[i]))` for a new object, with `data[i].~T()`.
  unfoldable pub take : ℕ → Data A → Run (A × Data A)
  take i null = fault
  take i (block o n s) = if ltb i n then taken_from (s i) (block o n (update s i raw)) else fault

  -- `::operator delete(data)`
  unfoldable pub operator_delete : Data A → Run (Unit {0})
  operator_delete null = ok tt
  operator_delete (block operator_new n s) = ok tt
  operator_delete (block new_array n s) = fault

  abbrev pub allocate : ℕ → Data A
  allocate n = block operator_new n (λ i. raw)

  -- The loop of `reserve` and `shrink_to_fit`, with the rounds to go.
  unfoldable pub move_each : ℕ → ℕ → Data A → Data A → Run (Data A × Data A)
  unfolding take construct
  move_each zero i old new = ok (old, new)
  move_each (suc rounds) i old new = take i old >>= λ (a, rest).
      construct i a new >>= λ filled. move_each rounds (suc i) rest filled

  unfoldable pub move_to : ℕ → Vector A → Run (Vector A)
  unfolding move_each operator_delete
  move_to new_capacity v = move_each v.size 0 v.data_ (allocate new_capacity) >>= λ (old, new).
      operator_delete old >>= λ _.
      ok (record { data_ = new; size = v.size; capacity = new_capacity })

  unfoldable pub reserve : ℕ → Vector A → Run (Vector A)
  unfolding move_to
  reserve new_capacity v = if leb new_capacity v.capacity then ok v else move_to new_capacity v

  -- The test for a full block that `emplace_back` and `emplace` start with.
  unfoldable pub make_room : Vector A → Run (Vector A)
  unfolding reserve
  make_room v =
      if v.size == v.capacity
      then reserve (if v.capacity == 0 then 1 else v.capacity * 2) v
      else ok v

  unfoldable pub emplace_back : Arg A → Vector A → Run (Vector A)
  unfolding make_room construct
  emplace_back a v = make_room v >>= λ w. argument a (v.size == v.capacity) w.data_ >>= λ b.
      construct w.size b w.data_ >>= λ d.
      ok (record { data_ = d; size = w.size + 1; capacity = w.capacity })

  -- The loop of `emplace`: `i` is one more than the index of the object that moves up next.
  unfoldable pub shift_each : (rounds index : ℕ) → Data A → Run (Data A)
  unfolding take construct
  shift_each zero index d = ok d
  shift_each (suc rounds) index d = take (index + rounds) d >>= λ (a, rest).
      construct (index + rounds + 1) a rest >>= λ moved. shift_each rounds index moved

  unfoldable pub emplace : ℕ → Arg A → Vector A → Run (Vector A)
  unfolding make_room shift_each construct
  emplace index a v = make_room v >>= λ w. shift_each (w.size - index) index w.data_ >>= λ moved.
      argument a (v.size == v.capacity) moved >>= λ b. construct index b moved >>= λ d.
      ok (record { data_ = d; size = w.size + 1; capacity = w.capacity })

  unfoldable pub pop_back : Vector A → Run (Vector A)
  unfolding take
  pop_back v =
      if ltb 0 v.size
      then (take (v.size - 1) v.data_ >>= λ (_, d).
          ok (record { data_ = d; size = v.size - 1; capacity = v.capacity }))
      else ok v

  -- The loop of `clear`.
  unfoldable pub destroy_each : ℕ → ℕ → Data A → Run (Data A)
  unfolding take
  destroy_each zero i d = ok d
  destroy_each (suc rounds) i d = take i d >>= λ (_, rest). destroy_each rounds (suc i) rest

  unfoldable pub clear : Vector A → Run (Vector A)
  unfolding destroy_each
  clear v = destroy_each v.size 0 v.data_ >>= λ d.
      ok (record { data_ = d; size = 0; capacity = v.capacity })

  unfoldable pub shrink_to_fit : Vector A → Run (Vector A)
  unfolding move_to operator_delete
  shrink_to_fit v =
      if v.capacity == v.size
      then ok v
      else if v.size == 0
      then (operator_delete v.data_ >>= λ _.
          ok (record { data_ = null; size = v.size; capacity = 0 }))
      else move_to v.size v

  -- `operator[]`, both versions.
  unfoldable pub at : ℕ → Vector A → Run A
  at index v = if leb v.size index then out_of_range else read index v.data_

  abbrev pub vector : Vector A
  vector = record { data_ = null; size = 0; capacity = 0 }

  -- `delete[] data`, for the destructor.
  unfoldable pub delete_array : Data A → Run (Unit {0})
  delete_array null = ok tt
  delete_array (block new_array n s) = ok tt
  delete_array (block operator_new n s) = fault

  abbrev assigned : Slot A → Data A → Run (Data A)
  assigned raw d = fault
  assigned (live old) d = ok d

  -- `data[i] = a`
  unfoldable pub assign : ℕ → A → Data A → Run (Data A)
  assign i a null = fault
  assign i a (block o n s) =
      if ltb i n then assigned (s i) (block o n (update s i (live a))) else fault

  -- The loop of `resize`.
  unfoldable pub copy_each : ℕ → ℕ → Data A → Data A → Run (Data A)
  unfolding assign
  copy_each zero i old new = ok new
  copy_each (suc rounds) i old new =
      read i old >>= λ a. assign i a new >>= λ filled. copy_each rounds (suc i) old filled

  -- `new T[new_capacity]` makes objects in all slots, here `initial`.
  unfoldable pub resize : (initial : A) → ℕ → Vector A → Run (Vector A)
  unfolding copy_each delete_array
  resize initial new_capacity v =
      copy_each v.size 0 v.data_ (block new_array new_capacity (λ i. live initial)) >>= λ new.
      delete_array v.data_ >>= λ _.
      ok (record { data_ = new; size = v.size; capacity = new_capacity })

  unfoldable pub push_back : (initial : A) → Arg A → Vector A → Run (Vector A)
  unfolding resize assign
  push_back initial a v =
      (if v.size == v.capacity
        then resize initial (if v.capacity == 0 then 1 else v.capacity * 2) v
        else ok v)
      >>= λ w. argument a (v.size == v.capacity) w.data_ >>= λ b. assign w.size b w.data_ >>= λ d.
          ok (record { data_ = d; size = w.size + 1; capacity = w.capacity })
