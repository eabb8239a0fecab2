-- ===== src/Base/Chain.antt =====
-- Pointers, and the null-terminated list that a `next` pointer leads through.
use mathlib.Core.Logic.{◌≢◌}
use mathlib.Core.Path.{◌≡◌}
use mathlib.Core.List.{List, [], ◌∷◌}
use native.Mathlib.Omega.{arith}
use Prim.Native.Nat.{ℕ, ◌<◌}
use low_level_cpp.Base.Lists.{count}
use mathlib.Core.Logic.{inl, inr}
use low_level_cpp.Base.Tests.{eq-cases}
use low_level_cpp.Base.Store.{update}

abbrev pub Ptr : Type 0
Ptr = ℕ

abbrev pub nullptr : Ptr
nullptr = 0

-- From `head` the pointers lead through `nodes` to the null pointer.
abbrev pub Chain : (Ptr → Ptr) → Ptr → List Ptr → Type 0
Chain next head [] = head ≡ nullptr
Chain next head (p ∷ nodes) = (head ≡ p) × (p ≢ nullptr) × Chain next (next p) nodes

-- A change elsewhere leaves the chain as it is.
pub Chain-frame :
    {next next' : Ptr → Ptr} (head : Ptr) (nodes : List Ptr)
    → ((a : Ptr) → 0 < count a nodes → next' a ≡ next a)
    → Chain next head nodes
    → Chain next' head nodes
Chain-frame head [] same c = c
Chain-frame {next} {next'} head (p ∷ nodes) same (e, ne, c) = (
  e,
  ne,
  rw (same p (ground arith)) (Chain-frame (next p) nodes (λ a h. same a (ground arith)) c),
)

pub Chain-update :
    (next : Ptr → Ptr) (a v head : Ptr) (nodes : List Ptr)
    → count a nodes ≡ 0
    → Chain next head nodes
    → Chain (update next a v) head nodes
Chain-update next a v head nodes out = Chain-frame head nodes (λ b h. ground arith)

-- No node of a chain is null.
pub Chain-nonnull :
    (next : Ptr → Ptr) (head p : Ptr) (nodes : List Ptr)
    → Chain next head nodes
    → 0 < count p nodes
    → p ≢ nullptr
Chain-nonnull next head p [] c held = absurd (omega arith)
Chain-nonnull next head p (q ∷ nodes) (e, ne, c) held = elim (eq-cases q p) [
  | inl this ↦ rw (← this) ne
  | inr other ↦ Chain-nonnull next (next q) p nodes c (ground arith)
]
