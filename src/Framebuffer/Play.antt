-- ===== src/Framebuffer/Play.antt =====
-- The main loop of low-level-graphics/sdl-framebuffer/main.c, and what is created and destroyed around
-- it.
use low_level_cpp.Base.{
  ℕ, suc, ◌+◌, ◌%◌, ◌^◌, ◌≡◌, inl, inr, refl, sym, ap, ◌∙◌, Bool, true, false, ◌||◌, Option, none,
  some, List, [], ◌∷◌, ◌++◌, arith, if◌then◌else◌, length, length-append, Bool-cases,
}
use mathlib.Core.Path.{subst}
use low_level_cpp.Framebuffer.{
  Framebuffer, Event, quit, other, Player, poll, show, round, Played, ended, playing, fault, play,
  Resource, video, window, renderer, texture, Call, creates, destroys, Exit, exit_success,
  exit_failure, still_playing, crash, with_video, Sdl, start, main,
}
use low_level_cpp.Framebuffer.Pixels.{Shows, draw-Shows}

-- The pictures are those of the frames from `frame` on, counted in 32 bits.
abbrev pub AllShow : ℕ → List Framebuffer → Type 0
AllShow frame [] = true ≡ true
AllShow frame (pixels ∷ later) = Shows (frame % 2 ^ 32) pixels × AllShow (frame + 1) later

AllShow-append :
    (frame : ℕ) (shown : List Framebuffer) (pixels : Framebuffer)
    → AllShow frame shown
    → Shows ((frame + length shown) % 2 ^ 32) pixels
    → AllShow frame (shown ++ pixels ∷ [])
AllShow-append frame [] pixels all last =
    (subst (λ n. Shows (n % 2 ^ 32) pixels) (omega arith) last, refl)
AllShow-append frame (first ∷ shown) pixels (h, all) last = (
  h,
  AllShow-append (frame + 1) shown pixels all
      (subst (λ n. Shows (n % 2 ^ 32) pixels) (omega arith) last),
)

record IsPlayer (p : Player) : Type 0 where
  frame : p.frame ≡ length p.shown % 2 ^ 32
  all : AllShow 0 p.shown

round-IsPlayer :
    (events : List Event) (p : Player)
    → IsPlayer p
    → (q : Player) × (round events p ≡ some q)
      × IsPlayer q
      × (q.is_running ≡ poll events p.is_running)
      × (length q.shown ≡ suc (length p.shown))
unfolding round
round-IsPlayer events p h =
    let (pixels, drawn, picture) = draw-Shows p.frame p.framebuffer in
    let longer = length-append p.shown (pixels ∷ []) in
    (
      _,
      ap (λ o. show (poll events p.is_running) o p) drawn,
      record {
        frame = omega (arith, h.frame, longer);
        all =
            AllShow-append 0 p.shown pixels h.all
              (subst (λ n. Shows n pixels) (omega (arith, h.frame)) picture);
      },
      refl,
      omega (arith, longer),
    )

abbrev pub is_quit : Event → Bool
is_quit quit = true
is_quit other = false

abbrev pub has_quit : List Event → Bool
has_quit [] = false
has_quit (e ∷ events) = is_quit e || has_quit events

poll_stopped : (events : List Event) → poll events false ≡ false
poll_stopped [] = refl
poll_stopped (quit ∷ events) = poll_stopped events
poll_stopped (other ∷ events) = poll_stopped events

poll-has_quit : (events : List Event) → has_quit events ≡ true → poll events true ≡ false
poll-has_quit [] e = absurd (ground (arith, e))
poll-has_quit (quit ∷ events) e = poll_stopped events
poll-has_quit (other ∷ events) e = poll-has_quit events e

poll_on : (events : List Event) → has_quit events ≡ false → poll events true ≡ true
poll_on [] e = refl
poll_on (quit ∷ events) e = absurd (ground (arith, e))
poll_on (other ∷ events) e = poll_on events e

abbrev pub NoQuit : List (List Event) → Type 0
NoQuit [] = true ≡ true
NoQuit (events ∷ later) = (has_quit events ≡ false) × NoQuit later

-- One round of a loop that goes on.
play-round :
    (events : List Event) (later : List (List Event)) (p q : Player)
    → p.is_running ≡ true
    → round events p ≡ some q
    → play (events ∷ later) p ≡ play later q
unfolding play
play-round events later p q on e =
    ap
      (λ b. elim b [
        | false ↦ ended p
        | true ↦ elim (round events p) [ none ↦ fault | some r ↦ play later r ]
      ])
      on
    ∙ ap (λ o. elim o [ none ↦ fault | some r ↦ play later r ]) e

play-stopped :
    (later : List (List Event)) (p : Player) → p.is_running ≡ false → play later p ≡ ended p
unfolding play
play-stopped [] p e = ap (λ b. if b then playing p else ended p) e
play-stopped (events ∷ later) p e =
    ap
      (λ b. elim b [
        | false ↦ ended p
        | true ↦ elim (round events p) [ none ↦ fault | some r ↦ play later r ]
      ])
      e

-- A loop whose events have a quit at last ends behind the round that polls it.
play-ends :
    (before : List (List Event)) (last : List Event) (later : List (List Event)) (p : Player)
    → IsPlayer p
    → p.is_running ≡ true
    → NoQuit before
    → has_quit last ≡ true
    → (q : Player) × (play (before ++ last ∷ later) p ≡ ended q)
      × IsPlayer q
      × (length q.shown ≡ length p.shown + suc (length before))
play-ends [] last later p h on quiet quits =
    let (q, one, h', running, longer) = round-IsPlayer last p h in
    let off : q.is_running ≡ false = running ∙ ap (poll last) on ∙ poll-has_quit last quits in
    (q, play-round last later p q on one ∙ play-stopped later q off, h', omega (arith, longer))
play-ends (events ∷ before) last later p h on (quiet, rest) quits =
    let (q, one, h', running, longer) = round-IsPlayer events p h in
    let still : q.is_running ≡ true = running ∙ ap (poll events) on ∙ poll_on events quiet in
    let (end, same, h'', count) = play-ends before last later q h' still rest quits in
    (
      end,
      play-round events (before ++ last ∷ later) p q on one ∙ same,
      h'',
      omega (arith, longer, count),
    )

start-IsPlayer : IsPlayer start
start-IsPlayer = record { frame = omega arith; all = refl }

abbrev pub all_made : Sdl
all_made = record { init = true; window_made = true; renderer_made = true; texture_made = true }

-- When SDL makes everything, and the quit event comes after some rounds without it, the program
-- ends with success behind that round. It has shown a picture in each round, those of the
-- frames 0, 1 and so on in 32 bits.
pub main-AllShow :
    (before : List (List Event)) (last : List Event) (later : List (List Event))
    → NoQuit before
    → has_quit last ≡ true
    → (calls : List Call) × (shown : List Framebuffer) × (main all_made (before ++ last ∷ later)
        ≡ exit_success calls shown)
      × AllShow 0 shown
      × (length shown ≡ suc (length before))
unfolding main
main-AllShow before last later quiet quits =
    let (q, same, h, count) = play-ends before last later start start-IsPlayer refl quiet quits in
    (_, q.shown, ap (with_video true true true true) same, h.all, omega (arith, count))

-- What is created and not destroyed, the last first; `none` if something is destroyed that is not
-- the last.
abbrev pub same : Resource → Resource → Bool
same video video = true
same window window = true
same renderer renderer = true
same texture texture = true
same _ _ = false

abbrev pub destroyed : Resource → List Resource → Option (List Resource)
destroyed r [] = none
destroyed r (q ∷ held) = if same r q then some held else none

abbrev pub replay_call : Call → List Resource → Option (List Resource)
replay_call (creates r true) held = some (r ∷ held)
replay_call (creates r false) held = some held
replay_call (destroys r) held = destroyed r held

abbrev pub replay_on : List Call → Option (List Resource) → Option (List Resource)
replay_on [] held = held
replay_on (c ∷ calls) none = none
replay_on (c ∷ calls) (some held) = replay_on calls (replay_call c held)

-- At its end the program holds nothing, and it does not write outside of the array.
abbrev pub Balanced : Exit → Type 0
Balanced (exit_success calls shown) = replay_on calls (some []) ≡ some []
Balanced (exit_failure calls) = replay_on calls (some []) ≡ some []
Balanced (still_playing calls p) =
    replay_on calls (some []) ≡ some (texture ∷ renderer ∷ window ∷ video ∷ [])
Balanced crash = true ≡ false

data IsSafe : Played → Type 0 where
  has_ended : (q : Player) → IsSafe (ended q)
  goes_on : (q : Player) → IsSafe (playing q)

play-IsSafe : (batches : List (List Event)) (p : Player) → IsPlayer p → IsSafe (play batches p)
unfolding play
play-IsSafe [] p h = elim (Bool-cases p.is_running) [
  | inl on ↦ subst IsSafe (sym (ap (λ b. if b then playing p else ended p) on)) (goes_on p)
  | inr off ↦ subst IsSafe (sym (play-stopped [] p off)) (has_ended p)
]
play-IsSafe (events ∷ later) p h = elim (Bool-cases p.is_running) [
  | inl on ↦
      let (q, one, h', running, longer) = round-IsPlayer events p h in
      subst IsSafe (sym (play-round events later p q on one)) (play-IsSafe later q h')
  | inr off ↦ subst IsSafe (sym (play-stopped (events ∷ later) p off)) (has_ended p)
]

with_video-Balanced : (a b c d : Bool) (p : Played) → IsSafe p → Balanced (with_video a b c d p)
with_video-Balanced false b c d p h = refl
with_video-Balanced true false c d p h = refl
with_video-Balanced true true false d p h = refl
with_video-Balanced true true true false p h = refl
with_video-Balanced true true true true _ (has_ended q) = refl
with_video-Balanced true true true true _ (goes_on q) = refl

-- Whatever SDL answers, and whatever the events are: when the program ends, with success or not, it
-- has destroyed each thing that SDL made for it, the last one first, and nothing that SDL did not
-- make; while it plays it holds all four, made by SDL; and it makes no write outside of the array.
pub main-Balanced : (sdl : Sdl) (batches : List (List Event)) → Balanced (main sdl batches)
unfolding main
main-Balanced sdl batches =
    with_video-Balanced sdl.init sdl.window_made sdl.renderer_made sdl.texture_made
      (play batches start) (play-IsSafe batches start start-IsPlayer)
