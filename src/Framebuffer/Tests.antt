-- ===== src/Framebuffer/Tests.antt =====
-- The framebuffer at points inside and outside, and its theorems at them.
use low_level_cpp.Base.{ℕ, ◌<◌, ◌≡◌, refl, true, false, some, List, [], ◌∷◌, if◌then◌else◌, length}
use low_level_cpp.Base.Int.{pos, negsuc}
use low_level_cpp.Framebuffer.{
  width, height, Framebuffer, put_pixel, quit, other, Call, exit_success, Sdl, main,
}
use low_level_cpp.Framebuffer.Pixels.{pixel, at, put_pixel-pixel}
use low_level_cpp.Framebuffer.Play.{AllShow, all_made, main-AllShow, Balanced, main-Balanced}

abbrev blank : Framebuffer
blank i = 0

left_of_it : put_pixel (negsuc 0) (pos 7) 5 blank ≡ some blank
unfolding put_pixel
left_of_it = refl

written :
    (t : Framebuffer) × (put_pixel (pos 3) (pos 2) 5 blank ≡ some t) × (t 643 ≡ 5) × (t 644 ≡ 0)
unfolding put_pixel
written = (_, refl, refl, refl)

put_pixel-pixel_example :
    (t : Framebuffer) × (put_pixel (pos 319) (pos 199) 5 blank ≡ some t)
    × ((a b : ℕ)
        → a < width
        → b < height
        → pixel a b t ≡ (if at (pos 319) (pos 199) a b then 5 else pixel a b blank))
put_pixel-pixel_example = put_pixel-pixel (pos 319) (pos 199) 5 blank

main-AllShow_example :
    (calls : List Call) × (shown : List Framebuffer) × (main all_made
        ((other ∷ []) ∷ [] ∷ (other ∷ quit ∷ []) ∷ [] ∷ [])
      ≡ exit_success calls shown)
    × AllShow 0 shown
    × (length shown ≡ 3)
main-AllShow_example =
    main-AllShow ((other ∷ []) ∷ [] ∷ []) (other ∷ quit ∷ []) ([] ∷ []) (refl, (refl, refl)) refl

abbrev no_texture : Sdl
no_texture = record { init = true; window_made = true; renderer_made = true; texture_made = false }

main-Balanced_example : Balanced (main no_texture ([] ∷ []))
main-Balanced_example = main-Balanced no_texture ([] ∷ [])
