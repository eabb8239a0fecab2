-- ===== src/Base/Bits.antt =====
-- Masks and disjoint fields: `&` with ones below is a remainder, `|` with a field below is a sum.
use Prim.Native.Nat.{
  ℕ, zero, suc, ◌+◌, ◌-◌, ◌*◌, ◌/◌, ◌%◌, ◌^◌, ◌≤◌, ◌<◌, min, max, bit_and, bit_or, digits,
  bit_and-bitwise, bit_or-bitwise,
}
use mathlib.Core.Path.{◌≡◌, refl, ap}
use native.Mathlib.Omega.{arith}
use native.Mathlib.Nat.{pow-suc, mod-lt, mod-add-div}

-- The count of digits to go does not matter once it is large enough.
module _ (rest : ℕ → ℕ) (op : ℕ → ℕ → ℕ) where
  digits-count : (n m a b : ℕ) → a ≤ n → a ≤ m → digits rest op n a b ≡ digits rest op m a b
  digits-count n m zero b p q = both_zero n m b
    where
      both_zero : (n m b : ℕ) → digits rest op n 0 b ≡ digits rest op m 0 b
      both_zero zero zero b = refl
      both_zero zero (suc m) b = refl
      both_zero (suc n) zero b = refl
      both_zero (suc n) (suc m) b = refl
  digits-count zero m (suc a) b p q = absurd (omega arith)
  digits-count (suc n) zero (suc a) b p q = absurd (omega arith)
  digits-count (suc n) (suc m) (suc a) b p q =
      ap (λ r. r * 2 + op (suc a % 2) (b % 2))
        (digits-count n m (suc a / 2) (b / 2) (omega arith) (omega arith))

-- One binary digit at a time.
pub bit_and-halves : (a b : ℕ) → bit_and a b ≡ bit_and (a / 2) (b / 2) * 2 + min (a % 2) (b % 2)
bit_and-halves zero b = omega (arith, bit_and-bitwise 0 b, bit_and-bitwise 0 (b / 2))
bit_and-halves (suc a) b = omega (
  arith,
  bit_and-bitwise (suc a) b,
  bit_and-bitwise (suc a / 2) (b / 2),
  digits-count (λ _. 0) min a (suc a / 2) (suc a / 2) (b / 2) (omega arith) (omega arith),
)

bit_or-halves : (a b : ℕ) → bit_or a b ≡ bit_or (a / 2) (b / 2) * 2 + max (a % 2) (b % 2)
bit_or-halves zero b = omega (arith, bit_or-bitwise 0 b, bit_or-bitwise 0 (b / 2))
bit_or-halves (suc a) b = omega (
  arith,
  bit_or-bitwise (suc a) b,
  bit_or-bitwise (suc a / 2) (b / 2),
  digits-count (λ y. y) max a (suc a / 2) (suc a / 2) (b / 2) (omega arith) (omega arith),
)

mod_unique : (a m q r : ℕ) → a ≡ q * m + r → r < m → a % m ≡ r
mod_unique a m q r e h = grind arith

pub pow-pos : (k : ℕ) → 0 < 2 ^ k
pow-pos zero = omega arith
pow-pos (suc k) = omega (arith, pow-suc 2 k, pow-pos k)

bit_and-zero : (n a : ℕ) → a ≤ n → bit_and a 0 ≡ 0
bit_and-zero n zero h = bit_and-bitwise 0 0
bit_and-zero zero (suc a) h = absurd (omega arith)
bit_and-zero (suc n) (suc a) h =
    omega (arith, bit_and-halves (suc a) 0, bit_and-zero n (suc a / 2) (omega arith))

mod-double : (a m : ℕ) → 0 < m → a % (m * 2) ≡ a / 2 % m * 2 + a % 2
mod-double a m pos =
    mod_unique a (m * 2) (a / 2 / m) (a / 2 % m * 2 + a % 2) (grind (arith, mod-add-div (a / 2) m))
      (omega (arith, mod-lt (a / 2) pos))

ones-double :
    (m a : ℕ) → 0 < m → bit_and (a / 2) (m - 1) ≡ a / 2 % m → bit_and a (m * 2 - 1) ≡ a % (m * 2)
ones-double m a pos ih =
    let half : (m * 2 - 1) / 2 ≡ m - 1 = omega arith in
    let low : (m * 2 - 1) % 2 ≡ 1 = omega arith in
    rw (bit_and-halves a (m * 2 - 1), half, low, ih, mod-double a m pos) (omega arith)

-- `a & (2 ^ k - 1)` is `a % 2 ^ k`.
pub bit_and-ones : (k a : ℕ) → bit_and a (2 ^ k - 1) ≡ a % 2 ^ k
bit_and-ones zero a = omega (arith, bit_and-zero a a (omega arith))
bit_and-ones (suc k) a =
    rw (pow-suc 2 k) (ones-double (2 ^ k) a (pow-pos k) (bit_and-ones k (a / 2)))

bit_or-zero : (n a : ℕ) → a ≤ n → bit_or a 0 ≡ a
bit_or-zero n zero h = bit_or-bitwise 0 0
bit_or-zero zero (suc a) h = absurd (omega arith)
bit_or-zero (suc n) (suc a) h =
    omega (arith, bit_or-halves (suc a) 0, bit_or-zero n (suc a / 2) (omega arith))

fields-double :
    (m a b : ℕ) → bit_or (a * m) (b / 2) ≡ a * m + b / 2 → bit_or (a * (m * 2)) b ≡ a * (m * 2) + b
fields-double m a b ih =
    let half : a * (m * 2) / 2 ≡ a * m = omega arith in
    let low : a * (m * 2) % 2 ≡ 0 = omega arith in
    rw (bit_or-halves (a * (m * 2)) b, half, low, ih) (omega arith)

-- `(a << k) | b` is `a * 2 ^ k + b` where `b` has `k` digits at most.
pub bit_or-fields : (k a b : ℕ) → b < 2 ^ k → bit_or (a * 2 ^ k) b ≡ a * 2 ^ k + b
bit_or-fields zero a b h =
    let none : b ≡ 0 = omega arith in
    rw none (omega (arith, bit_or-zero (a * 1) (a * 1) (omega arith)))
bit_or-fields (suc k) a b h =
    rw (pow-suc 2 k)
      (fields-double (2 ^ k) a b (bit_or-fields k a (b / 2) (omega (arith, pow-suc 2 k))))
