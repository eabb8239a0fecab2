-- ===== src/Arena/Blocks.antt =====
-- The blocks that arena_push hands out.
use low_level_cpp.Base.{
  ℕ, ◌+◌, ◌-◌, ◌*◌, ◌/◌, ◌%◌, ◌^◌, ◌≤◌, ◌<◌, ◌≡◌, ◌⊎◌, inl, inr, refl, sym, ap, Bool, true, ◌||◌,
  arith, if◌then◌else◌, ltb, bit_and, Bool-cases,
}
use mathlib.Core.Path.{subst}
use low_level_cpp.Base.Bits.{bit_and-halves, bit_and-ones}
use low_level_cpp.Base.Chain.{Ptr, nullptr}
use low_level_cpp.Arena.{Arena, word, arena_align, align_up_pow2, memset_zero, arena_push}

-- `y & ~7` clears the three low bits.
low_bits : (y : ℕ) → y < 2 ^ 64 → bit_and y (2 ^ 64 - 8) ≡ y / 8 * 8
low_bits y small = omega (
  arith,
  bit_and-halves y (2 ^ 64 - 8),
  bit_and-halves (y / 2) ((2 ^ 64 - 8) / 2),
  bit_and-halves (y / 2 / 2) ((2 ^ 64 - 8) / 2 / 2),
  bit_and-ones 61 (y / 2 / 2 / 2),
)

-- Below the largest word, the macro rounds up to the next multiple of the size of a pointer.
pub align_up_pow2-multiple :
    (x : ℕ) → x + 8 < 2 ^ 64 → align_up_pow2 x arena_align ≡ (x + 7) / 8 * 8
unfolding align_up_pow2
align_up_pow2-multiple x small =
    let sum : ((x + 8) % word + word - 1) % word ≡ x + 7 = omega arith in
    rw sum (low_bits (x + 7) (omega arith))

-- The arena lies in memory, at an aligned address, and no object has more than 2^63 bytes.
pub record IsArena (a : Arena) : Type 0 where
  pub nonnull : 0 < a.memory
  pub aligned : a.memory % 8 ≡ 0
  pub addressed : a.memory + a.capacity < 2 ^ 64
  pub small : a.capacity ≤ 2 ^ 63
  pub room : a.pos ≤ a.capacity

abbrev pub start : Arena → ℕ
start a = (a.pos + 7) / 8 * 8

-- A push that fails for lack of room, or that hands out a block.
pub data Pushes (size : ℕ) (wiped : Bool) (a : Arena) : Arena × Ptr → Type 0 where
  full : a.capacity < start a + size → Pushes size wiped a (a, nullptr)
  pushed :
      (b : Arena)
      → (p : Ptr) → IsArena b
      → 0 < p
      → p % 8 ≡ 0
      → a.memory + a.pos ≤ p
      → p < a.memory + a.pos + 8
      → p + size ≡ b.memory + b.pos
      → (b.memory ≡ a.memory) × (b.capacity ≡ a.capacity)
      → ((x : Ptr) → p ≤ x → x < p + size → wiped ≡ true → b.cells x ≡ 0)
      → ((x : Ptr) → (x < p) ⊎ (p + size ≤ x) → b.cells x ≡ a.cells x)
      → Pushes size wiped a (b, p)

-- In a well-formed arena, arena_push fails only if the block does not fit behind the next aligned
-- position, and changes nothing then; otherwise it hands out an aligned block behind all that was
-- handed out before, inside the arena, of zero bytes if they were asked for, and changes no byte
-- outside of it.
pub arena_push-Pushes :
    (size : ℕ) (wiped : Bool) (a : Arena)
    → IsArena a
    → Pushes size wiped a (arena_push size wiped a)
unfolding arena_push
arena_push-Pushes size wiped a is =
    let at : ℕ = align_up_pow2 a.pos arena_align in
    let rounds : at ≡ start a = align_up_pow2-multiple a.pos (omega (arith, is.room, is.small)) in
    let b : Arena = record a {
      pos = (at + size) % word;
      cells = if wiped then memset_zero (a.memory + at) size a.cells else a.cells;
    } in
    let choice : Bool → Arena × Ptr = λ t. if t then (a, nullptr) else (b, a.memory + at) in
    elim (Bool-cases (ltb a.capacity at || ltb (a.capacity - at) size)) [
      | inl over ↦
          subst (Pushes size wiped a) (sym (ap choice over)) (full (ground (arith, rounds)))
      | inr fits ↦
          let le : at + size ≤ a.capacity = ground arith in
          let stays : (at + size) % word ≡ at + size = omega (arith, is.small) in
          subst (Pushes size wiped a) (sym (ap choice fits)) (
            pushed b (a.memory + at)
              (record {
                nonnull = is.nonnull;
                aligned = is.aligned;
                addressed = is.addressed;
                small = is.small;
                room = omega arith;
              })
              (omega (arith, is.nonnull)) (omega (arith, is.aligned)) (omega arith)
              (omega (arith, rounds)) (omega arith) (refl, refl)
              (λ x from below asked. ground arith)
              (λ x out. elim out [ inl before ↦ ground arith | inr behind ↦ ground arith ]))
    ]
