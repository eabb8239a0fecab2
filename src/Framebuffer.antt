-- ===== src/Framebuffer.antt =====
-- low-level-graphics/sdl-framebuffer/main.c: a window that shows an array of pixels, frame by frame.
pub mod Pixels
pub mod Play
mod Tests
use low_level_cpp.Base.{
  ℕ, zero, suc, ◌+◌, ◌*◌, ◌/◌, ◌%◌, ◌^◌, Bool, true, false, ◌||◌, Option, none, some, List, [], ◌∷◌,
  ◌++◌, if◌then◌else◌, leb, ltb,
}
use low_level_cpp.Base.Int.{ℤ, pos, negsuc}
use low_level_cpp.Base.Store.{update}

abbrev pub width : ℕ
width = 320

abbrev pub height : ℕ
height = 200

-- `framebuffer`: the color at each index.
abbrev pub Framebuffer : Type 0
Framebuffer = ℕ → ℕ

-- A write to the array; `none` is a write outside of it.
abbrev pub write : ℕ → ℕ → Framebuffer → Option Framebuffer
write i color pixels = if ltb i (width * height) then some (update pixels i color) else none

unfoldable pub put_pixel : (x y : ℤ) → ℕ → Framebuffer → Option Framebuffer
put_pixel (negsuc x) y color pixels = some pixels
put_pixel (pos x) (negsuc y) color pixels = some pixels
put_pixel (pos x) (pos y) color pixels =
    if leb width x || leb height y then some pixels else write (width * y + x) color pixels

abbrev pub and_then : Option Framebuffer → (Framebuffer → Option Framebuffer) → Option Framebuffer
and_then none k = none
and_then (some pixels) k = k pixels

-- The loop of `clear`, from `i` on.
unfoldable pub clear_from : (rounds i : ℕ) → ℕ → Framebuffer → Option Framebuffer
clear_from zero i color pixels = some pixels
clear_from (suc rounds) i color pixels =
    and_then (write i color pixels) (clear_from rounds (i + 1) color)

unfoldable pub clear : ℕ → Framebuffer → Option Framebuffer
unfolding clear_from
clear color pixels = clear_from (width * height) 0 color pixels

-- The two colors of `main`.
abbrev pub background : ℕ
background = 2_763_306

abbrev pub dot : ℕ
dot = 65_280

-- What a round of the main loop draws.
unfoldable pub draw : ℕ → Framebuffer → Option Framebuffer
draw frame pixels =
    and_then (clear background pixels) (put_pixel (pos (frame % 320)) (pos (height / 2)) dot)

pub data Event : Type 0 where
  quit : Event
  other : Event

-- The variables of the main loop, and the pictures that it has shown.
pub record Player : Type 0 where
  pub framebuffer : Framebuffer
  pub is_running : Bool
  pub frame : ℕ
  pub shown : List Framebuffer

-- The loop over `SDL_PollEvent`.
abbrev pub poll : List Event → Bool → Bool
poll [] is_running = is_running
poll (quit ∷ events) is_running = poll events false
poll (other ∷ events) is_running = poll events is_running

-- The rest of a round: the picture is shown, and the frame is counted in 32 bits.
abbrev pub show : Bool → Option Framebuffer → Player → Option Player
show is_running none p = none
show is_running (some pixels) p = some (record {
  framebuffer = pixels;
  is_running = is_running;
  frame = (p.frame + 1) % 2 ^ 32;
  shown = p.shown ++ pixels ∷ [];
})

unfoldable pub round : List Event → Player → Option Player
unfolding draw
round events p = show (poll events p.is_running) (draw p.frame p.framebuffer) p

-- The loop has ended, or it polls the next events.
pub data Played : Type 0 where
  ended : Player → Played
  playing : Player → Played
  fault : Played

unfoldable pub play : List (List Event) → Player → Played
unfolding round
play [] p = if p.is_running then playing p else ended p
play (events ∷ later) p = elim p.is_running [
  | false ↦ ended p
  | true ↦ elim (round events p) [ none ↦ fault | some q ↦ play later q ]
]

pub data Resource : Type 0 where
  video : Resource
  window : Resource
  renderer : Resource
  texture : Resource

-- The calls that make and give back what SDL has, with whether they succeed.
pub data Call : Type 0 where
  creates : Resource → Bool → Call
  destroys : Resource → Call

pub data Exit : Type 0 where
  exit_success : List Call → List Framebuffer → Exit
  exit_failure : List Call → Exit
  still_playing : List Call → Player → Exit
  crash : Exit

-- The end of `main`, behind the calls that made everything.
abbrev pub finish : List Call → Played → Exit
finish calls (ended p) =
    exit_success
      (calls ++ destroys texture ∷ destroys renderer ∷ destroys window ∷ destroys video ∷ [])
      p.shown
finish calls (playing p) = still_playing calls p
finish calls fault = crash

-- Each of the next takes what SDL answered, and the calls made so far.
abbrev pub with_texture : Bool → List Call → Played → Exit
with_texture made calls p =
    let tried = calls ++ creates texture made ∷ [] in
    if made
    then finish tried p
    else exit_failure (tried ++ destroys renderer ∷ destroys window ∷ destroys video ∷ [])

abbrev pub with_renderer : Bool → Bool → List Call → Played → Exit
with_renderer made texture_made calls p =
    let tried = calls ++ creates renderer made ∷ [] in
    if made
    then with_texture texture_made tried p
    else exit_failure (tried ++ destroys window ∷ destroys video ∷ [])

abbrev pub with_window : Bool → Bool → Bool → List Call → Played → Exit
with_window made renderer_made texture_made calls p =
    let tried = calls ++ creates window made ∷ [] in
    if made
    then with_renderer renderer_made texture_made tried p
    else exit_failure (tried ++ destroys video ∷ [])

abbrev pub with_video : Bool → Bool → Bool → Bool → Played → Exit
with_video made window_made renderer_made texture_made p =
    let tried = creates video made ∷ [] in
    if made then with_window window_made renderer_made texture_made tried p else exit_failure tried

-- What SDL answers to the four calls that can fail.
pub record Sdl : Type 0 where
  pub init : Bool
  pub window_made : Bool
  pub renderer_made : Bool
  pub texture_made : Bool

abbrev pub start : Player
start = record { framebuffer = λ i. 0; is_running = true; frame = 0; shown = [] }

unfoldable pub main : Sdl → List (List Event) → Exit
unfolding play
main sdl events =
    with_video sdl.init sdl.window_made sdl.renderer_made sdl.texture_made (play events start)
