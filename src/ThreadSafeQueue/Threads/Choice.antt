-- ===== src/ThreadSafeQueue/Threads/Choice.antt =====
-- The choice of a thread among those that wait or were woken.
use low_level_cpp.Base.{
  ℕ, zero, suc, ◌<◌, ◌≡◌, refl, Option, none, some, List, [], ◌∷◌, arith, length,
}
use low_level_cpp.ThreadSafeQueue.Threads.{pick, behind}

module _ {A : Type 0} where
  pub data Picked (xs : List A) : Option (A × List A) → Type 0 where
    nobody : length xs ≡ 0 → Picked xs none
    somebody :
        (x : A) → (others : List A) → length xs ≡ suc (length others) → Picked xs (some (x, others))

  behind-Picked :
      (x : A) (xs : List A) (r : Option (A × List A))
      → 0 < length xs
      → Picked xs r
      → Picked (x ∷ xs) (behind x r)
  behind-Picked x xs none some_left (nobody e) = absurd (omega arith)
  behind-Picked x xs _ some_left (somebody z others e) = somebody z (x ∷ others) (omega arith)

  pub pick-Picked : (k : ℕ) (xs : List A) → Picked xs (pick k xs)
  pick-Picked k [] = nobody refl
  pick-Picked k (x ∷ []) = somebody x [] refl
  pick-Picked zero (x ∷ y ∷ xs) = somebody x (y ∷ xs) refl
  pick-Picked (suc k) (x ∷ y ∷ xs) =
      behind-Picked x (y ∷ xs) _ (omega arith) (pick-Picked k (y ∷ xs))
