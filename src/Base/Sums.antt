-- ===== src/Base/Sums.antt =====
-- Sums of a family of numbers over the first indices.
use Prim.Native.Nat.{ℕ, zero, suc, ◌+◌, ◌≤◌, ◌<◌}
use mathlib.Core.Path.{◌≡◌, refl}
use mathlib.Core.Logic.{◌≢◌, inl, inr}
use native.Mathlib.Omega.{arith}
use low_level_cpp.Base.Tests.{eq-cases}

unfoldable pub total : (ℕ → ℕ) → ℕ → ℕ
total f zero = 0
total f (suc n) = total f n + f n

pub total-same : (f g : ℕ → ℕ) (n : ℕ) → ((j : ℕ) → j < n → g j ≡ f j) → total g n ≡ total f n
unfolding total
total-same f g zero same = refl
total-same f g (suc n) same =
    omega (arith, total-same f g n (λ j h. same j (omega arith)), same n (omega arith))

-- Families that differ at one index.
pub total-change :
    (f g : ℕ → ℕ) (i n : ℕ)
    → i < n
    → ((j : ℕ) → j ≢ i → g j ≡ f j)
    → total g n + f i ≡ total f n + g i
unfolding total
total-change f g i zero h same = absurd (omega arith)
total-change f g i (suc n) h same = elim (eq-cases n i) [
  | inl last ↦ rw (total-same f g n (λ j lt. same j (omega arith)), last) (omega arith)
  | inr below ↦ omega (arith, total-change f g i n (omega arith) same, same n below)
]

pub le-total : (f : ℕ → ℕ) (i n : ℕ) → i < n → f i ≤ total f n
unfolding total
le-total f i zero h = absurd (omega arith)
le-total f i (suc n) h = elim (eq-cases n i) [
  | inl last ↦ rw last (omega arith)
  | inr below ↦ omega (arith, le-total f i n (omega arith))
]

pub total-zero : (f : ℕ → ℕ) (n : ℕ) → ((j : ℕ) → f j ≡ 0) → total f n ≡ 0
unfolding total
total-zero f zero none = refl
total-zero f (suc n) none = omega (arith, total-zero f n none, none n)
