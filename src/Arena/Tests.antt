-- ===== src/Arena/Tests.antt =====
-- The arena at a small block.
use low_level_cpp.Base.{◌≡◌, refl, true, false, none, some, arith}
use low_level_cpp.Arena.{Arena, arena_create, align_up_pow2, arena_push}
use low_level_cpp.Arena.Blocks.{IsArena, Pushes, arena_push-Pushes}

abbrev arena : Arena
arena = record { memory = 64; capacity = 24; pos = 5; cells = λ a. 7 }

arena-IsArena : IsArena arena
arena-IsArena = record {
  nonnull = omega arith;
  aligned = refl;
  addressed = omega arith;
  small = omega arith;
  room = omega arith;
}

second_block : (arena_push 16 false arena).1 ≡ 72
unfolding arena_push align_up_pow2
second_block = refl

too_large : arena_push 17 true arena ≡ (arena, 0)
unfolding arena_push align_up_pow2
too_large = refl

no_memory : arena_create (some 0) 24 (λ a. 7) ≡ none
unfolding arena_create
no_memory = refl

arena_push-Pushes_example : Pushes 16 true arena (arena_push 16 true arena)
arena_push-Pushes_example = arena_push-Pushes 16 true arena arena-IsArena
