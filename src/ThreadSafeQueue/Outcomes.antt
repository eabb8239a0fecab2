-- ===== src/ThreadSafeQueue/Outcomes.antt =====
-- The outcomes of the locked parts of push and pop.
use low_level_cpp.Base.{
  ◌≤◌, ◌<◌, ◌≡◌, ◌⊎◌, inl, inr, refl, sym, ap, Bool, true, false, ◌||◌, Option, none, some, List,
  [], ◌∷◌, arith, length, Bool-cases,
}
use mathlib.Core.Path.{subst}
use low_level_cpp.ThreadSafeQueue.{
  Queue, Locked, waits, returns, has_space, has_item, push_back, push, try_push, take_front, pop,
  try_pop,
}

module _ {A : Type 0} where
  -- The ways in which `push` and `try_push` can end.
  pub data Pushed (v : A) (q : Queue A) : Locked A Bool → Type 0 where
    blocked : q.done ≡ false → q.max_size ≤ length q.queue → Pushed v q waits
    rejected : (q.done ≡ true) ⊎ (q.max_size ≤ length q.queue) → Pushed v q (returns q false false)
    entered : length q.queue < q.max_size → Pushed v q (returns (push_back v q) true true)

  pub push-Pushed : (v : A) (q : Queue A) → Pushed v q (push v q)
  unfolding push
  push-Pushed v q = elim (Bool-cases q.done) [
    | inl over ↦
        let e : push v q ≡ returns q false false = ground arith in
        subst (Pushed v q) (sym e) (rejected (inl over))
    | inr running ↦ elim (Bool-cases (has_space q)) [
      | inl room ↦
          let e : push v q ≡ returns (push_back v q) true true = ground arith in
          subst (Pushed v q) (sym e) (entered (ground arith))
      | inr full ↦
          let e : push v q ≡ waits = ground arith in
          subst (Pushed v q) (sym e) (blocked running (ground arith))
    ]
  ]

  pub try_push-Pushed : (v : A) (q : Queue A) → Pushed v q (try_push v q)
  unfolding try_push
  try_push-Pushed v q = elim (Bool-cases q.done) [
    | inl over ↦
        let e : try_push v q ≡ returns q false false = ground arith in
        subst (Pushed v q) (sym e) (rejected (inl over))
    | inr running ↦ elim (Bool-cases (has_space q)) [
      | inl room ↦
          let e : try_push v q ≡ returns (push_back v q) true true = ground arith in
          subst (Pushed v q) (sym e) (entered (ground arith))
      | inr full ↦
          let e : try_push v q ≡ returns q false false = ground arith in
          subst (Pushed v q) (sym e) (rejected (inr (ground arith)))
    ]
  ]

  -- The ways in which `pop` and `try_pop` can end.
  pub data Popped (q : Queue A) : Locked A (Option A) → Type 0 where
    idle : q.done ≡ false → length q.queue ≡ 0 → Popped q waits
    nothing : length q.queue ≡ 0 → Popped q (returns q false none)
    left :
        (v : A)
        → (rest : List A) → q.queue ≡ v ∷ rest
        → Popped q (returns (record q { queue = rest }) true (some v))

  take_front-Popped : (q : Queue A) (l : List A) → q.queue ≡ l → Popped q (take_front l q)
  take_front-Popped q [] e = nothing (ap length e)
  take_front-Popped q (v ∷ rest) e = left v rest e

  pub pop-Popped : (q : Queue A) → Popped q (pop q)
  unfolding pop
  pop-Popped q = elim (Bool-cases (q.done || has_item q)) [
    | inl go ↦
        let e : pop q ≡ take_front q.queue q = ground arith in
        subst (Popped q) (sym e) (take_front-Popped q q.queue refl)
    | inr stop ↦
        let e : pop q ≡ waits = ground arith in
        subst (Popped q) (sym e) (idle (ground arith) (ground arith))
  ]

  pub try_pop-Popped : (q : Queue A) → Popped q (try_pop q)
  unfolding try_pop
  try_pop-Popped q = take_front-Popped q q.queue refl
