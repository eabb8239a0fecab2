-- ===== src/Framebuffer/Pixels.antt =====
-- Where put_pixel and clear of low-level-graphics/sdl-framebuffer/main.c write.
use low_level_cpp.Base.{
  ℕ, zero, suc, ◌+◌, ◌*◌, ◌/◌, ◌%◌, ◌≤◌, ◌<◌, ◌≡◌, inl, inr, refl, sym, ap, ◌∙◌, Bool, false, ◌||◌,
  ◌&&◌, some, arith, if◌then◌else◌, leb, ◌==◌, eq-cases, Bool-cases,
}
use low_level_cpp.Base.Int.{ℤ, pos, negsuc}
use low_level_cpp.Base.Store.{update, update_self, update_other}
use low_level_cpp.Framebuffer.{
  width, height, Framebuffer, write, put_pixel, and_then, clear_from, clear, background, dot, draw,
}

-- The pixel at (x, y).
abbrev pub pixel : ℕ → ℕ → Framebuffer → ℕ
pixel x y pixels = pixels (width * y + x)

-- (x, y) is the point (a, b).
abbrev pub at : ℤ → ℤ → ℕ → ℕ → Bool
at (pos x) (pos y) a b = x == a && y == b
at (negsuc x) y a b = false
at (pos x) (negsuc y) a b = false

-- For all coordinates, put_pixel writes inside of the array or not at all: afterwards the point
-- (x, y) of the picture, if it is one, has the color, and every other point the color it had.
pub put_pixel-pixel :
    (x y : ℤ) (color : ℕ) (pixels : Framebuffer)
    → (t : Framebuffer) × (put_pixel x y color pixels ≡ some t)
      × ((a b : ℕ)
          → a < width
          → b < height
          → pixel a b t ≡ (if at x y a b then color else pixel a b pixels))
unfolding put_pixel
put_pixel-pixel (negsuc x) y color pixels = (pixels, refl, λ a b h k. refl)
put_pixel-pixel (pos x) (negsuc y) color pixels = (pixels, refl, λ a b h k. refl)
put_pixel-pixel (pos x) (pos y) color pixels = elim (Bool-cases (leb width x || leb height y)) [
  | inl outside ↦ (pixels, ground (arith, outside), λ a b h k. ground arith)
  | inr inside ↦
      (update pixels (width * y + x) color, ground (arith, inside), λ a b h k. ground arith)
]

clear_from-all :
    (rounds i color : ℕ) (pixels : Framebuffer)
    → i + rounds ≤ width * height
    → (t : Framebuffer) × (clear_from rounds i color pixels ≡ some t)
      × ((k : ℕ) → k < i + rounds → (k < i → pixels k ≡ color) → t k ≡ color)
unfolding clear_from
clear_from-all zero i color pixels room = (pixels, refl, λ k h old. old (omega arith))
clear_from-all (suc rounds) i color pixels room =
    let (t, same, all) =
      clear_from-all rounds (i + 1) color (update pixels i color) (omega arith) in
    let written : write i color pixels ≡ some (update pixels i color) = ground arith in
    (
      t,
      ap (λ o. and_then o (clear_from rounds (i + 1) color)) written ∙ same,
      λ k h old. all k (omega arith) (λ before. elim (eq-cases i k) [
        | inl this ↦ ap (update pixels i color) (sym this) ∙ update_self pixels i color
        | inr other ↦ update_other pixels i k color other ∙ old (omega arith)
      ]),
    )

clear-all :
    (color : ℕ) (pixels : Framebuffer)
    → (t : Framebuffer) × (clear color pixels ≡ some t)
      × ((k : ℕ) → k < width * height → t k ≡ color)
unfolding clear
clear-all color pixels =
    let (t, same, all) = clear_from-all (width * height) 0 color pixels (omega arith) in
    (t, same, λ k h. all k (omega arith) (λ none_before. absurd (omega arith)))

-- A picture: the dot in the middle row, as far to the right as the frame says, on the background.
pub Shows : ℕ → Framebuffer → Type 0
Shows frame pixels =
    (a b : ℕ)
    → a < width
    → b < height
    → pixel a b pixels ≡ (if a == frame % 320 && b == 100 then dot else background)

pub draw-Shows :
    (frame : ℕ) (pixels : Framebuffer)
    → (t : Framebuffer) × (draw frame pixels ≡ some t) × Shows frame t
unfolding draw Shows
draw-Shows frame pixels =
    let (s, cleared, all) = clear-all background pixels in
    let (t, drawn, points) = put_pixel-pixel (pos (frame % 320)) (pos (height / 2)) dot s in
    (
      t,
      ap (λ o. and_then o (put_pixel (pos (frame % 320)) (pos (height / 2)) dot)) cleared ∙ drawn,
      λ a b h k. ground (arith, points a b h k, all (width * b + a) (omega arith)),
    )
