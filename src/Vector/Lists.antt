-- ===== src/Vector/Lists.antt =====
-- The functions that grow by `::operator new` against a list of the elements.
use low_level_cpp.Base.{
  ℕ, zero, suc, ◌+◌, ◌*◌, ◌≤◌, ◌<◌, ◌≡◌, inl, inr, refl, sym, ap, ◌∙◌, Bool, List, [], ◌∷◌, ◌++◌,
  arith, ◌==◌, if◌then◌else◌, ltb, leb, length, length-append, Bool-cases,
}
use low_level_cpp.Base.Store.{update}
use low_level_cpp.Vector.{
  raw, live, null, Run, ok, ◌>>=◌, Vector, operator_delete, allocate, move_to, reserve, make_room,
  outside, emplace_back, shrink_to_fit,
}
use low_level_cpp.Vector.Slots.{
  slots_of, Fits, Fits-same, construct-Fits, delete-Fits, upto, move_each-Fits,
}

module _ {A : Type 0} where
  -- The vector holds the elements `xs`, in memory of `::operator new`.
  pub record IsVector (v : Vector A) (xs : List A) : Type 0 where
    pub fits : Fits v.data_ v.capacity (slots_of xs)
    pub sized : v.size ≡ length xs
    pub room : length xs ≤ v.capacity

  -- The code ran through and left the elements `xs`.
  abbrev pub Gives : Run (Vector A) → List A → Type 0
  Gives r xs = (v : Vector A) × (r ≡ ok v) × IsVector v xs

  pub slots_of-live : (xs : List A) (j : ℕ) → j < length xs → (a : A) × (slots_of xs j ≡ live a)
  slots_of-live [] j h = absurd (omega arith)
  slots_of-live (x ∷ xs) zero h = (x, refl)
  slots_of-live (x ∷ xs) (suc j) h = slots_of-live xs j (omega arith)

  pub slots_of-raw : (xs : List A) (j : ℕ) → length xs ≤ j → slots_of xs j ≡ raw
  slots_of-raw [] j h = refl
  slots_of-raw (x ∷ xs) zero h = absurd (omega arith)
  slots_of-raw (x ∷ xs) (suc j) h = slots_of-raw xs j (omega arith)

  upto-length : (xs : List A) (n j : ℕ) → n ≡ length xs → upto n (slots_of xs) j ≡ slots_of xs j
  upto-length xs n j e = elim (Bool-cases (ltb j n)) [
    | inl below ↦ rw below refl
    | inr above ↦ rw above (sym (slots_of-raw xs j (ground arith)))
  ]

  move_to-IsVector :
      (more : ℕ) (v : Vector A) (xs : List A)
      → IsVector v xs
      → length xs ≤ more
      → (w : Vector A) × (move_to more v ≡ ok w) × IsVector w xs × (w.capacity ≡ more)
  unfolding move_to
  move_to-IsVector more v xs is enough =
      let (emptied, filled, moved, deleted, fits) =
        move_each-Fits v.size 0 v.data_ (allocate more) v.capacity more (slots_of xs) (slots_of xs)
          is.fits (λ j h. refl) (refl, refl, λ j h. ground arith)
          (λ j h. slots_of-live xs j (omega (arith, is.sized))) (omega (arith, is.sized, is.room))
          (omega (arith, is.sized)) in
      (
        record { data_ = filled; size = v.size; capacity = more },
        rw (moved, deleted) refl,
        record {
          fits =
              Fits-same filled more _ (slots_of xs)
                (λ j h. upto-length xs (0 + v.size) j (omega (arith, is.sized))) fits;
          sized = is.sized;
          room = enough;
        },
        refl,
      )

  -- reserve leaves the elements as they are and makes the capacity as large as was asked for.
  pub reserve-IsVector :
      (more : ℕ) (v : Vector A) (xs : List A)
      → IsVector v xs
      → (w : Vector A) × (reserve more v ≡ ok w)
        × IsVector w xs
        × (more ≤ w.capacity)
        × (v.capacity ≤ w.capacity)
  unfolding reserve
  reserve-IsVector more v xs is = elim (Bool-cases (leb more v.capacity)) [
    | inl large ↦ (v, rw large refl, is, ground arith, omega arith)
    | inr small ↦
        let (w, moved, is', size) = move_to-IsVector more v xs is (ground (arith, is.room)) in
        (w, rw small moved, is', omega arith, ground arith)
  ]

  abbrev doubled : Vector A → ℕ
  doubled v = if v.capacity == 0 then 1 else v.capacity * 2

  pub make_room-IsVector :
      (v : Vector A) (xs : List A)
      → IsVector v xs
      → (w : Vector A) × (make_room v ≡ ok w) × IsVector w xs × (length xs < w.capacity)
  unfolding make_room
  make_room-IsVector v xs is =
      let choice = λ (b : Bool). if b then reserve (doubled v) v else ok v in
      elim (Bool-cases (v.size == v.capacity)) [
        | inl full ↦
            let (w, reserved, is', large, kept) = reserve-IsVector (doubled v) v xs is in
            (w, ap choice full ∙ reserved, is', ground (arith, is.sized))
        | inr other ↦ (v, ap choice other, is, ground (arith, is.sized, is.room))
      ]

  slots_of-append :
      (xs : List A) (a : A) (j : ℕ)
      → update (slots_of xs) (length xs) (live a) j ≡ slots_of (xs ++ a ∷ []) j
  slots_of-append [] a zero = refl
  slots_of-append [] a (suc j) = ground arith
  slots_of-append (x ∷ xs) a zero = ground arith
  slots_of-append (x ∷ xs) a (suc j) = ground (arith, slots_of-append xs a j)

  -- In a vector whose memory comes from `::operator new`, emplace_back of an object outside of the
  -- vector puts its value behind the elements.
  pub emplace_back-IsVector :
      (a : A) (v : Vector A) (xs : List A)
      → IsVector v xs
      → Gives (emplace_back (outside a) v) (xs ++ a ∷ [])
  unfolding emplace_back
  emplace_back-IsVector a v xs is =
      let (w, roomy, is', room) = make_room-IsVector v xs is in
      let (d, built, fits) =
        construct-Fits w.data_ w.capacity (slots_of xs) w.size a is'.fits
          (omega (arith, is'.sized)) in
      (
        record { data_ = d; size = w.size + 1; capacity = w.capacity },
        rw (roomy, built) refl,
        record {
          fits =
              Fits-same d w.capacity _ (slots_of (xs ++ a ∷ []))
                (λ j h.
                  ap (λ n. update (slots_of xs) n (live a) j) is'.sized ∙ slots_of-append xs a j)
                fits;
          sized = omega (arith, is'.sized, length-append xs (a ∷ []));
          room = omega (arith, length-append xs (a ∷ []));
        },
      )

  -- shrink_to_fit leaves the elements of a vector whose memory comes from `::operator new` as they
  -- are, in a block with no more slots than those.
  pub shrink_to_fit-IsVector :
      (v : Vector A) (xs : List A)
      → IsVector v xs
      → (w : Vector A) × (shrink_to_fit v ≡ ok w) × IsVector w xs × (w.capacity ≡ length xs)
  unfolding shrink_to_fit
  shrink_to_fit-IsVector v xs is =
      let released : Run (Vector A) = operator_delete v.data_ >>= λ _.
      ok (record { data_ = null; size = v.size; capacity = 0 }) in
      let smaller : Bool → Run (Vector A) = λ b. if b then released else move_to v.size v in
      let choice : Bool → Run (Vector A) = λ b. if b then ok v else smaller (v.size == 0) in
      elim (Bool-cases (v.capacity == v.size)) [
        | inl exact ↦ (v, ap choice exact, is, ground (arith, is.sized))
        | inr loose ↦ elim (Bool-cases (v.size == 0)) [
          | inl empty ↦
              let gone = delete-Fits v.data_ v.capacity (slots_of xs) is.fits in
              let zero_size : v.size ≡ 0 = ground arith in
              (
                record { data_ = null; size = v.size; capacity = 0 },
                ap choice loose
                    ∙ ap smaller empty
                    ∙ ap (λ r. r >>= λ _. ok (record { data_ = null; size = v.size; capacity = 0 }))
                        gone,
                record { fits = refl; sized = is.sized; room = omega (arith, is.sized) },
                omega (arith, is.sized),
              )
          | inr some_left ↦
              let (w, moved, is', size) =
                move_to-IsVector v.size v xs is (omega (arith, is.sized)) in
              (w, ap choice loose ∙ ap smaller some_left ∙ moved, is', omega (arith, is.sized))
        ]
      ]
