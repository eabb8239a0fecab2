-- ===== src/Vector/Slots.antt =====
-- What the slots of a block hold, and how the loops move it.
use low_level_cpp.Base.{
  ℕ, zero, suc, ◌+◌, ◌-◌, ◌≤◌, ◌<◌, ◌≡◌, refl, ap, ◌∙◌, List, [], ◌∷◌, arith, ◌==◌, if◌then◌else◌,
  ltb, eq-cases, lt→ltb, inl, inr,
}
use low_level_cpp.Base.Store.{update}
use low_level_cpp.Vector.{
  Slot, raw, live, operator_new, new_array, Data, null, block, ok, construct, take, operator_delete,
  move_each, shift_each, read, read_slot,
}

module _ {A : Type 0} where
  -- A list in the slots from 0 on, with raw memory behind it.
  abbrev pub slots_of : List A → ℕ → Slot A
  slots_of [] i = raw
  slots_of (x ∷ xs) zero = live x
  slots_of (x ∷ xs) (suc i) = slots_of xs i

  -- The block is one of `::operator new` with `room` slots, which hold `f`.
  abbrev pub Fits : Data A → ℕ → (ℕ → Slot A) → Type 0
  Fits null room f = room ≡ 0
  Fits (block o n s) room f = (o ≡ operator_new) × (n ≡ room) × ((i : ℕ) → i < room → s i ≡ f i)

  pub Fits-same :
      (d : Data A) (room : ℕ) (f g : ℕ → Slot A)
      → ((i : ℕ) → i < room → f i ≡ g i)
      → Fits d room f
      → Fits d room g
  Fits-same null room f g same fits = fits
  Fits-same (block o n s) room f g same (origin, size, holds) =
      (origin, size, λ i h. holds i h ∙ same i h)

  pub construct-Fits :
      (d : Data A) (room : ℕ) (f : ℕ → Slot A) (i : ℕ) (a : A)
      → Fits d room f
      → i < room
      → (e : Data A) × (construct i a d ≡ ok e) × Fits e room (update f i (live a))
  unfolding construct
  construct-Fits null room f i a fits h = absurd (omega arith)
  construct-Fits (block o n s) room f i a (origin, size, holds) h = (
    block o n (update s i (live a)),
    rw (lt→ltb i n (omega arith)) refl,
    (origin, size, λ j below. ground (arith, holds j below)),
  )

  pub take-Fits :
      (d : Data A) (room : ℕ) (f : ℕ → Slot A) (i : ℕ) (a : A)
      → Fits d room f
      → i < room
      → f i ≡ live a
      → (e : Data A) × (take i d ≡ ok (a, e)) × Fits e room (update f i raw)
  unfolding take
  take-Fits null room f i a fits h here = absurd (omega arith)
  take-Fits (block o n s) room f i a (origin, size, holds) h here = (
    block o n (update s i raw),
    rw (lt→ltb i n (omega arith), holds i h, here) refl,
    (origin, size, λ j below. ground (arith, holds j below)),
  )

  pub delete-Fits :
      (d : Data A) (room : ℕ) (f : ℕ → Slot A) → Fits d room f → operator_delete d ≡ ok tt
  unfolding operator_delete
  delete-Fits null room f fits = refl
  delete-Fits (block operator_new n s) room f fits = refl
  delete-Fits (block new_array n s) room f (origin, size, holds) = absurd (ground arith)

  pub read-Fits :
      (d : Data A) (room : ℕ) (f : ℕ → Slot A) (i : ℕ)
      → Fits d room f
      → i < room
      → read i d ≡ read_slot (f i)
  read-Fits null room f i fits h = absurd (omega arith)
  read-Fits (block o n s) room f i (origin, size, holds) h =
      rw (lt→ltb i n (omega arith)) (ap read_slot (holds i h))

  -- The part of `f` below `n`.
  abbrev pub upto : ℕ → (ℕ → Slot A) → ℕ → Slot A
  upto n f i = if ltb i n then f i else raw

  pub move_each-Fits :
      (rounds i : ℕ) (old new : Data A) (room more : ℕ) (f g : ℕ → Slot A)
      → Fits old room g
      → ((j : ℕ) → i ≤ j → g j ≡ f j)
      → Fits new more (upto i f)
      → ((j : ℕ) → j < i + rounds → (a : A) × (f j ≡ live a))
      → i + rounds ≤ room
      → i + rounds ≤ more
      → (emptied filled : Data A) × (move_each rounds i old new ≡ ok (emptied, filled))
        × (operator_delete emptied ≡ ok tt)
        × Fits filled more (upto (i + rounds) f)
  unfolding move_each
  move_each-Fits zero i old new room more f g fits same fits' alive le le' = (
    old,
    new,
    refl,
    delete-Fits old room g fits,
    Fits-same new more (upto i f) (upto (i + 0) f) (λ j h. ground arith) fits',
  )
  move_each-Fits (suc rounds) i old new room more f g fits same fits' alive le le' =
      let (a, here) = alive i (omega arith) in
      let (rest, taken, fits_rest) =
        take-Fits old room g i a fits (omega arith) (same i (omega arith) ∙ here) in
      let (more_filled, built, fits_new) =
        construct-Fits new more (upto i f) i a fits' (omega arith) in
      let (emptied, filled, moved, deleted, fits_filled) =
        move_each-Fits rounds (suc i) rest more_filled room more f (update g i raw) fits_rest
          (λ j h. ground (arith, same j))
          (Fits-same more_filled more _ (upto (suc i) f) (λ j h. ground arith) fits_new)
          (λ j h. alive j (omega arith)) (omega arith) (omega arith) in
      (
        emptied,
        filled,
        rw (taken, built) moved,
        deleted,
        Fits-same filled more _ (upto (i + suc rounds) f) (λ j h. ground arith) fits_filled,
      )

  -- A gap at `k`, with what stood from there on moved up by one.
  abbrev pub gap : ℕ → (ℕ → Slot A) → ℕ → Slot A
  gap k f j = if ltb j k then f j else if j == k then raw else f (j - 1)

  gap-below : (k j : ℕ) (f : ℕ → Slot A) → j < k → gap k f j ≡ f j
  gap-below k j f h = rw (lt→ltb j k (omega arith)) refl

  gap-step :
      (n k j : ℕ) (f : ℕ → Slot A) (a : A)
      → n ≡ k + 1
      → f k ≡ live a
      → update (update (gap n f) k raw) (k + 1) (live a) j ≡ gap k f j
  gap-step n k j f a e here = elim (eq-cases (k + 1) j) [
    | inl this ↦
        let back : j - 1 ≡ k = omega arith in
        let value : f (j - 1) ≡ live a = ap f back ∙ here in ground arith
    | inr other ↦ ground arith
  ]

  pub shift_each-Fits :
      (rounds index : ℕ) (d : Data A) (room : ℕ) (f : ℕ → Slot A)
      → Fits d room (gap (index + rounds) f)
      → ((j : ℕ) → j < index + rounds → (a : A) × (f j ≡ live a))
      → index + rounds < room
      → (e : Data A) × (shift_each rounds index d ≡ ok e) × Fits e room (gap index f)
  unfolding shift_each
  shift_each-Fits zero index d room f fits alive le =
      (d, refl, Fits-same d room _ (gap index f) (λ j h. ground arith) fits)
  shift_each-Fits (suc rounds) index d room f fits alive le =
      let (a, here) = alive (index + rounds) (omega arith) in
      let (rest, taken, fits_rest) =
        take-Fits d room _ (index + rounds) a fits (omega arith)
          (gap-below (index + suc rounds) (index + rounds) f (omega arith) ∙ here) in
      let (moved, built, fits_moved) =
        construct-Fits rest room _ (index + rounds + 1) a fits_rest (omega arith) in
      let (e, shifted, fits_e) =
        shift_each-Fits rounds index moved room f
          (Fits-same moved room _ _
            (λ j h. gap-step (index + suc rounds) (index + rounds) j f a (omega arith) here)
            fits_moved)
          (λ j h. alive j (omega arith)) (omega arith) in
      (e, rw (taken, built) shifted, fits_e)
