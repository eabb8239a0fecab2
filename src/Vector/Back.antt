-- ===== src/Vector/Back.antt =====
-- pop_back of the vector, against a list without its last element.
use low_level_cpp.Base.{
  ℕ, zero, suc, ◌-◌, ◌≡◌, refl, ap, ◌∙◌, Bool, List, [], ◌∷◌, ◌++◌, arith, length, length-append,
  lt→ltb, if◌then◌else◌,
}
use low_level_cpp.Base.Store.{update}
use low_level_cpp.Vector.{raw, live, Run, ok, ◌>>=◌, Vector, take, pop_back}
use low_level_cpp.Vector.Slots.{slots_of, Fits-same, take-Fits}
use low_level_cpp.Vector.Lists.{IsVector, Gives}

module _ {A : Type 0} where
  slots_of-last : (xs : List A) (a : A) → slots_of (xs ++ a ∷ []) (length xs) ≡ live a
  slots_of-last [] a = refl
  slots_of-last (x ∷ xs) a = slots_of-last xs a

  slots_of-front :
      (xs : List A) (a : A) (j : ℕ)
      → update (slots_of (xs ++ a ∷ [])) (length xs) raw j ≡ slots_of xs j
  slots_of-front [] a zero = refl
  slots_of-front [] a (suc j) = ground arith
  slots_of-front (x ∷ xs) a zero = ground arith
  slots_of-front (x ∷ xs) a (suc j) = ground (arith, slots_of-front xs a j)

  -- In a vector whose memory comes from `::operator new`, pop_back destroys the last element and keeps
  -- the others.
  pub pop_back-IsVector :
      (v : Vector A) (xs : List A) (a : A) → IsVector v (xs ++ a ∷ []) → Gives (pop_back v) xs
  unfolding pop_back
  pop_back-IsVector v xs a is =
      let more = length-append xs (a ∷ []) in
      let last : v.size - 1 ≡ length xs = omega (arith, is.sized) in
      let (d, taken, fits) =
        take-Fits v.data_ v.capacity (slots_of (xs ++ a ∷ [])) (v.size - 1) a is.fits
          (omega (arith, is.sized, is.room))
          (ap (slots_of (xs ++ a ∷ [])) last ∙ slots_of-last xs a) in
      let w : Vector A = record { data_ = d; size = v.size - 1; capacity = v.capacity } in
      let choice : Bool → Run (Vector A) = λ b.
        if b
        then (take (v.size - 1) v.data_ >>= λ (_, d).
            ok (record { data_ = d; size = v.size - 1; capacity = v.capacity }))
        else ok v in
      (
        w,
        ap choice (lt→ltb 0 v.size (omega (arith, is.sized)))
            ∙ ap
                (λ r. r >>= λ (_, d).
                  ok (record { data_ = d; size = v.size - 1; capacity = v.capacity }))
                taken,
        record {
          fits =
              Fits-same d v.capacity _ (slots_of xs)
                (λ j h.
                  ap (λ n. update (slots_of (xs ++ a ∷ [])) n raw j) last ∙ slots_of-front xs a j)
                fits;
          sized = last;
          room = omega (arith, is.room);
        },
      )
