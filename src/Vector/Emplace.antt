-- ===== src/Vector/Emplace.antt =====
-- emplace, against the insertion into a list.
use low_level_cpp.Base.{
  ℕ, zero, suc, ◌+◌, ◌-◌, ◌≤◌, ◌<◌, ◌≡◌, ◌≢◌, ◌⊎◌, ◌∙◌, false, ◌==◌, Bool, true, if◌then◌else◌, inl,
  inr, refl, ap, List, [], ◌∷◌, arith, ltb, length, eq-cases, Bool-cases,
}
use low_level_cpp.Base.Store.{update}
use low_level_cpp.Vector.{
  Slot, raw, read_slot, live, Data, Vector, ok, fault, Arg, outside, element, read, argument,
  emplace,
}
use low_level_cpp.Vector.Slots.{
  slots_of, read-Fits, Fits-same, construct-Fits, gap, shift_each-Fits,
}
use low_level_cpp.Vector.Lists.{IsVector, Gives, slots_of-live, slots_of-raw, make_room-IsVector}

module _ {A : Type 0} where
  -- The list with `a` in front of the element at `index`.
  abbrev pub insert_at : ℕ → A → List A → List A
  insert_at zero a xs = a ∷ xs
  insert_at (suc index) a [] = a ∷ []
  insert_at (suc index) a (x ∷ xs) = x ∷ insert_at index a xs

  length-insert_at :
      (index : ℕ) (a : A) (xs : List A) → length (insert_at index a xs) ≡ length xs + 1
  length-insert_at zero a xs = omega arith
  length-insert_at (suc index) a [] = omega arith
  length-insert_at (suc index) a (x ∷ xs) = omega (arith, length-insert_at index a xs)

  slots_of-insert_at :
      (index : ℕ) (a : A) (xs : List A) (j : ℕ)
      → index ≤ length xs
      → update (gap index (slots_of xs)) index (live a) j ≡ slots_of (insert_at index a xs) j
  slots_of-insert_at zero a xs zero h = refl
  slots_of-insert_at zero a xs (suc j) h =
      let back : slots_of xs (suc j - 1) ≡ slots_of xs j = ap (slots_of xs) (omega arith) in
      ground arith
  slots_of-insert_at (suc index) a [] j h = absurd (omega arith)
  slots_of-insert_at (suc index) a (x ∷ xs) zero h = ground arith
  slots_of-insert_at (suc index) a (x ∷ xs) (suc zero) h =
      ground (arith, slots_of-insert_at index a xs zero (omega arith))
  slots_of-insert_at (suc index) a (x ∷ xs) (suc (suc j)) h =
      let up : suc (suc j) - 1 ≡ suc j = omega arith in
      let back : slots_of (x ∷ xs) (suc (suc j) - 1) ≡ slots_of xs j = ap (slots_of (x ∷ xs)) up in
      let back' : slots_of xs (suc j - 1) ≡ slots_of xs j = ap (slots_of xs) (omega arith) in
      ground (arith, slots_of-insert_at index a xs (suc j) (omega arith))

  slots_of-gap :
      (xs : List A) (j : ℕ) (n : ℕ) → n ≡ length xs → slots_of xs j ≡ gap n (slots_of xs) j
  slots_of-gap xs j n e = elim (Bool-cases (ltb j n)) [
    | inl below ↦ rw below refl
    | inr above ↦
        let here = slots_of-raw xs j (ground arith) in
        elim (eq-cases j n) [
          | inl this ↦ ground arith
          | inr other ↦ let before = slots_of-raw xs (j - 1) (ground arith) in ground arith
        ]
  ]

  abbrev full : Vector A → Bool
  full v = v.size == v.capacity

  -- emplace, of what its argument leads to behind the shift.
  emplace-argument :
      (index : ℕ) (arg : Arg A) (v : Vector A) (xs : List A)
      → IsVector v xs
      → index ≤ length xs
      → (moved : Data A) × ((k : ℕ)
          → k < length xs
          → read k moved ≡ read_slot (gap index (slots_of xs) k))
        × (argument arg (full v) moved ≡ fault → emplace index arg v ≡ fault)
        × ((a : A)
            → argument arg (full v) moved ≡ ok a
            → Gives (emplace index arg v) (insert_at index a xs))
  unfolding emplace
  emplace-argument index arg v xs is inside =
      let (w, roomy, is', room) = make_room-IsVector v xs is in
      let size = is'.sized in
      let start : index + (w.size - index) ≡ length xs = omega arith in
      let (moved, shifted, fits) =
        shift_each-Fits (w.size - index) index w.data_ w.capacity (slots_of xs)
          (Fits-same w.data_ w.capacity (slots_of xs) _
            (λ j h. slots_of-gap xs j (index + (w.size - index)) start) is'.fits)
          (λ j h. slots_of-live xs j (omega arith)) (omega arith) in
      (
        moved,
        λ k h. read-Fits moved w.capacity (gap index (slots_of xs)) k fits (omega arith),
        λ lost. rw (roomy, shifted, lost) refl,
        λ a found.
            let (d, built, fits') =
              construct-Fits moved w.capacity (gap index (slots_of xs)) index a fits
                (omega arith) in
            (
              record { data_ = d; size = w.size + 1; capacity = w.capacity },
              rw (roomy, shifted, found, built) refl,
              record {
                fits =
                    Fits-same d w.capacity _ (slots_of (insert_at index a xs))
                      (λ j h. slots_of-insert_at index a xs j inside) fits';
                sized = omega (arith, length-insert_at index a xs);
                room = omega (arith, length-insert_at index a xs);
              },
            ),
      )

  -- A reference to an element, in a vector with room, leads to what the slot holds behind the shift.
  element-argument :
      (index k : ℕ) (v : Vector A) (xs : List A) (f : Slot A) (moved : Data A)
      → v.size ≢ v.capacity
      → read k moved ≡ read_slot (gap index (slots_of xs) k)
      → gap index (slots_of xs) k ≡ f
      → argument (element k) (full v) moved ≡ read_slot f
  element-argument index k v xs f moved room found here =
      let has_room : full v ≡ false = ground (arith, room) in
      ap (λ b. if b then fault else read k moved) has_room ∙ found ∙ ap read_slot here

  emplace-element :
      (index k : ℕ) (a : A) (v : Vector A) (xs : List A)
      → IsVector v xs
      → index ≤ length xs
      → k < length xs
      → v.size ≢ v.capacity
      → gap index (slots_of xs) k ≡ live a
      → Gives (emplace index (element k) v) (insert_at index a xs)
  emplace-element index k a v xs is le h room here =
      let (moved, reads, lost, found) = emplace-argument index (element k) v xs is le in
      found a (element-argument index k v xs (live a) moved room (reads k h) here)

  emplace_moved :
      (index : ℕ) (v : Vector A) (xs : List A)
      → IsVector v xs
      → index < length xs
      → v.size ≢ v.capacity
      → emplace index (element index) v ≡ fault
  emplace_moved index v xs is h room =
      let (moved, reads, lost, found) =
        emplace-argument index (element index) v xs is (omega arith) in
      let gone : gap index (slots_of xs) index ≡ raw = ground arith in
      lost (element-argument index index v xs raw moved room (reads index h) gone)

  -- In a vector whose memory comes from `::operator new`, and for an index up to the size: emplace of
  -- an object outside of the vector puts its value in front of the element at the index, and the
  -- elements from there on move up. With a reference to an element of the vector, its behaviour is
  -- undefined when the block is full, since the block has been given back, and when the element is
  -- the one at the index, since it has moved away. Otherwise the value put there is that of the
  -- element, if it stands before the index, and that of the element before it, if it stands behind.
  pub emplace-IsVector :
      (index : ℕ) (v : Vector A) (xs : List A)
      → IsVector v xs
      → index ≤ length xs
      → ((a : A) → Gives (emplace index (outside a) v) (insert_at index a xs))
        × ((k : ℕ) → k < length xs → v.size ≡ v.capacity → emplace index (element k) v ≡ fault)
        × (index < length xs → v.size ≢ v.capacity → emplace index (element index) v ≡ fault)
        × ((k : ℕ) (a : A)
            → k < length xs
            → v.size ≢ v.capacity
            → ((k < index) × (slots_of xs k ≡ live a))
              ⊎ ((index < k) × (slots_of xs (k - 1) ≡ live a))
            → Gives (emplace index (element k) v) (insert_at index a xs))
  emplace-IsVector index v xs is le = (
    λ a.
        let (moved, reads, lost, found) = emplace-argument index (outside a) v xs is le in
        found a refl,
    λ k h no_room.
        let (moved, reads, lost, found) = emplace-argument index (element k) v xs is le in
        let is_full : full v ≡ true = ground (arith, no_room) in
        lost (ap (λ b. if b then fault else read k moved) is_full),
    λ h room. emplace_moved index v xs is h room,
    λ k a h room place. elim place [
      | inl (before, here) ↦
          emplace-element index k a v xs is le h room (ground (arith, before, here))
      | inr (behind, here) ↦
          emplace-element index k a v xs is le h room (ground (arith, behind, here))
    ],
  )
