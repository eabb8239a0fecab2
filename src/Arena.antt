-- ===== src/Arena.antt =====
-- ReinC/arena.c, with the macros of ReinC/base.h and ReinC/arena.h: an arena that is only ever pushed.
pub mod Blocks
mod Tests
use low_level_cpp.Base.{
  ℕ, ◌+◌, ◌-◌, ◌%◌, ◌^◌, Bool, true, false, ◌||◌, ◌&&◌, Option, none, some, List, [], ◌∷◌, ◌==◌,
  if◌then◌else◌, ltb, leb, bit_and,
}
use low_level_cpp.Base.Chain.{Ptr, nullptr}

-- `u64`
abbrev pub word : ℕ
word = 2 ^ 64

-- `cells` is the memory of the process, byte by byte.
pub record Arena : Type 0 where
  pub memory : Ptr
  pub capacity : ℕ
  pub pos : ℕ
  pub cells : Ptr → ℕ

-- `ARENA_ALIGN`, the size of a pointer.
abbrev pub arena_align : ℕ
arena_align = 8

-- `~n`
abbrev pub bit_not : ℕ → ℕ
bit_not n = word - 1 - n

-- `ALIGN_UP_POW2(x, align)`, for an `align` that is not 0.
unfoldable pub align_up_pow2 : (x align : ℕ) → ℕ
align_up_pow2 x align = bit_and (((x + align) % word + word - 1) % word) (bit_not (align - 1))

-- `memset(out, 0, size)`
abbrev pub memset_zero : Ptr → ℕ → (Ptr → ℕ) → Ptr → ℕ
memset_zero out size cells a = if leb out a && ltb a (out + size) then 0 else cells a

-- `memory` is what the two calls of `malloc` returned: `none` if the first failed.
unfoldable pub arena_create : (memory : Option Ptr) → (capacity : ℕ) → (Ptr → ℕ) → Option Arena
arena_create none capacity cells = none
arena_create (some memory) capacity cells =
    if memory == nullptr
    then none
    else some (record { memory = memory; capacity = capacity; pos = 0; cells = cells })

-- `arena_push` of an arena that is not null.
unfoldable pub arena_push : (size : ℕ) → (zero : Bool) → Arena → Arena × Ptr
unfolding align_up_pow2
arena_push size wiped arena =
    let pos_aligned : ℕ = align_up_pow2 arena.pos arena_align in
    let out : Ptr = arena.memory + pos_aligned in
    if ltb arena.capacity pos_aligned || ltb (arena.capacity - pos_aligned) size
    then (arena, nullptr)
    else (
      record arena {
        pos = (pos_aligned + size) % word;
        cells = if wiped then memset_zero out size arena.cells else arena.cells;
      },
      out,
    )
