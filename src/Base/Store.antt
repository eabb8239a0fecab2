-- ===== src/Base/Store.antt =====
-- A memory of cells as a function of the address, and the write of one cell.
use low_level_cpp.Base.Tests.{◌==◌, if◌then◌else◌, ==_refl, ==-false}
use native.Mathlib.Omega.{arith}
use Prim.Native.Nat.{ℕ}
use mathlib.Core.Path.{◌≡◌}
use mathlib.Core.Logic.{◌≢◌}

module _ {ℓ} {A : Type ℓ} where
  abbrev pub update : (ℕ → A) → ℕ → A → ℕ → A
  update f p v a = if p == a then v else f a

  pub update_self : (f : ℕ → A) (p : ℕ) (v : A) → update f p v p ≡ v
  update_self f p v = rw (==_refl p)

  pub update_other : (f : ℕ → A) (p a : ℕ) (v : A) → p ≢ a → update f p v a ≡ f a
  update_other f p a v ne = rw (==-false p a ne)

  pub update_swap :
      (f : ℕ → A) (i j k : ℕ) (x y : A)
      → i ≢ j
      → update (update f i x) j y k ≡ update (update f j y) i x k
  update_swap f i j k x y apart = ground arith

  -- A write over a write that puts back what was there.
  pub update_back : (f : ℕ → A) (p k : ℕ) (x y : A) → f p ≡ y → update (update f p x) p y k ≡ f k
  update_back f p k x y e = ground (arith, e)
