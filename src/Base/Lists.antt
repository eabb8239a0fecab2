-- ===== src/Base/Lists.antt =====
-- Lists under native numbers: lengths, occurrences and removal of a number.
use Prim.Native.Nat.{ℕ, zero, suc, ◌+◌, ◌-◌, ◌≤◌, ◌<◌}
use mathlib.Core.Path.{◌≡◌, ap, ◌∙◌}
use mathlib.Core.List.{List, [], ◌∷◌, ◌++◌}
use native.Mathlib.Omega.{arith}
use low_level_cpp.Base.Tests.{◌==◌, if◌then◌else◌}

module _ {ℓ} {A : Type ℓ} where
  abbrev pub length : List A → ℕ
  length [] = 0
  length (x ∷ xs) = suc (length xs)

  abbrev pub All {κ} : (A → Type κ) → List A → Type κ
  All P [] = Unit
  All P (x ∷ xs) = P x × All P xs

  pub length-append : (xs ys : List A) → length (xs ++ ys) ≡ length xs + length ys
  length-append [] ys = omega arith
  length-append (x ∷ xs) ys = omega (arith, length-append xs ys)

-- how often `a` occurs
abbrev pub count : ℕ → List ℕ → ℕ
count a [] = 0
count a (x ∷ xs) = (if x == a then 1 else 0) + count a xs

-- drops the first occurrence of `a`
abbrev pub erase : ℕ → List ℕ → List ℕ
erase a [] = []
erase a (x ∷ xs) = if x == a then xs else x ∷ erase a xs

pub count-append :
    (p : ℕ) (front back : List ℕ) → count p (front ++ back) ≡ count p front + count p back
count-append p [] back = omega arith
count-append p (q ∷ front) back = ground (arith, count-append p front back)

pub count-erase :
    (a b : ℕ) (xs : List ℕ)
    → 0 < count a xs
    → count b (erase a xs) + (if a == b then 1 else 0) ≡ count b xs
count-erase a b [] h = absurd (omega arith)
count-erase a b (x ∷ xs) h = ground (arith, count-erase a b xs)

pub length-erase : (a : ℕ) (xs : List ℕ) → 0 < count a xs → suc (length (erase a xs)) ≡ length xs
length-erase a [] h = absurd (omega arith)
length-erase a (x ∷ xs) h = ground (arith, length-erase a xs)

pub count-erase_le : (a b : ℕ) (xs : List ℕ) → count b (erase a xs) ≤ count b xs
count-erase_le a b [] = omega arith
count-erase_le a b (x ∷ xs) = ground (arith, count-erase_le a b xs)

-- The numbers from `start` on, as many as `count` says.
abbrev pub from_on : (start count : ℕ) → List ℕ
from_on start zero = []
from_on start (suc count) = start ∷ from_on (start + 1) count

pub from_on-first :
    (start last : ℕ)
    → start ≤ last
    → from_on start (last + 1 - start) ≡ start ∷ from_on (start + 1) (last + 1 - (start + 1))
from_on-first start last le =
    let one_more : last + 1 - start ≡ suc (last + 1 - (start + 1)) = omega arith in
    ap (from_on start) one_more

pub from_on-last : (start n : ℕ) → from_on start (suc n) ≡ from_on start n ++ (start + n) ∷ []
from_on-last start zero = ap (λ k. k ∷ []) (omega arith)
from_on-last start (suc n) =
    ap (λ l. start ∷ l)
      (from_on-last (start + 1) n ∙ ap (λ k. from_on (start + 1) n ++ k ∷ []) (omega arith))
