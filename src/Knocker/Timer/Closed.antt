-- ===== src/Knocker/Timer/Closed.antt =====
-- What becomes of the sockets that knocker/knocker-epoll-timer.cc opens.
use low_level_cpp.Base.{
  ℕ, ◌+◌, ◌-◌, ◌≤◌, ◌<◌, ◌≡◌, ◌⊎◌, refl, ap, ◌∙◌, Bool, true, false, List, [], ◌∷◌, arith,
  if◌then◌else◌, length, count, from_on,
}
use low_level_cpp.Knocker.{max_in_flight, invalid_range}
use low_level_cpp.Knocker.Intrusive.Scanner.{Attempt, Event}
use low_level_cpp.Knocker.Timer.{
  Active, Timed, Running, running, exit_failure, fill, handle_all, is_empty, busy, Scan, finished,
  waiting, failed, scan, init, main,
}
use low_level_cpp.Knocker.Timer.Covered.{Covers, handle_all-Covers}
use low_level_cpp.Knocker.Timer.Filled.{IsFresh, Fails, Fills, fill-Fills}
use low_level_cpp.Knocker.Timer.Tracked.{fds, Kept, handle_all-Kept}

-- A scan that has finished has tried each port of the range once, in their order, and has closed each
-- socket at least as often as it was opened.
abbrev pub Closes : (start end_port : ℕ) → (Timed → Attempt) → Scan → Type 0
Closes start end_port kernel (finished t) =
    (t.tried ≡ from_on start (end_port + 1 - start))
    × (t.active_socks ≡ [])
    × ((fd : ℕ) → count fd t.opened ≤ count fd t.closed)
Closes start end_port kernel (waiting t) =
    Kept t
    × Covers start end_port t
    × ((end_port < t.port) ⊎ (max_in_flight ≤ length t.active_socks))
Closes start end_port kernel (failed t) = Kept t × Fails start end_port kernel

no_entries : (socks : List Active) → is_empty socks ≡ true → socks ≡ []
no_entries [] e = refl
no_entries (a ∷ rest) e = absurd (ground (arith, e))

idle-Closes :
    (start end_port : ℕ) (kernel : Timed → Attempt) (s : Timed)
    → Kept s
    → Covers start end_port s
    → busy end_port s ≡ false
    → Closes start end_port kernel (finished s)
idle-Closes start end_port kernel s k (from, upto, tried) e =
    let none_left = no_entries s.active_socks (ground (arith, e)) in
    let all : s.port - start ≡ end_port + 1 - start = ground (arith, e) in
    (
      tried ∙ ap (from_on start) all,
      none_left,
      λ fd. omega (arith, k.closed fd, ap (λ l. count fd (fds l)) none_left),
    )

scan-Closes :
    (start end_port : ℕ) (kernel : Timed → Attempt) (batches : List (List Event)) (s : Timed)
    → IsFresh kernel
    → Kept s
    → Covers start end_port s
    → Closes start end_port kernel (scan end_port kernel batches s)
unfolding scan
scan-Closes start end_port kernel [] s fresh k c = test (busy end_port s) refl
  where
    next :
        (r : Running)
        → Fills start end_port kernel r
        → Closes start end_port kernel
            (elim r [ running t ↦ waiting t | exit_failure t ↦ failed t ])
    next (running t) h = h
    next (exit_failure t) h = h

    test :
        (b : Bool)
        → busy end_port s ≡ b
        → Closes start end_port kernel (elim b [
          | false ↦ finished s
          | true ↦ elim (fill (end_port + 1) end_port kernel s) [
            | running t ↦ waiting t
            | exit_failure t ↦ failed t
          ]
        ])
    test false e = idle-Closes start end_port kernel s k c e
    test true e =
        next (fill (end_port + 1) end_port kernel s)
          (fill-Fills (end_port + 1) start end_port kernel s fresh k c (omega arith))
scan-Closes start end_port kernel (events ∷ batches) s fresh k c =
    test (busy end_port s) refl (λ t kept covers.
      scan-Closes start end_port kernel batches (handle_all events t) fresh
        (handle_all-Kept events t kept) (handle_all-Covers start end_port events t covers))
  where
    next :
        (r : Running)
        → ((t : Timed)
            → Kept t
            → Covers start end_port t
            → Closes start end_port kernel (scan end_port kernel batches (handle_all events t)))
        → Fills start end_port kernel r
        → Closes start end_port kernel (elim r [
          | running t ↦ scan end_port kernel batches (handle_all events t)
          | exit_failure t ↦ failed t
        ])
    next (running t) rest (kept, covers, ends) = rest t kept covers
    next (exit_failure t) rest h = h

    test :
        (b : Bool)
        → busy end_port s ≡ b
        → ((t : Timed)
            → Kept t
            → Covers start end_port t
            → Closes start end_port kernel (scan end_port kernel batches (handle_all events t)))
        → Closes start end_port kernel (elim b [
          | false ↦ finished s
          | true ↦ elim (fill (end_port + 1) end_port kernel s) [
            | running t ↦ scan end_port kernel batches (handle_all events t)
            | exit_failure t ↦ failed t
          ]
        ])
    test false e rest = idle-Closes start end_port kernel s k c e
    test true e rest =
        next (fill (end_port + 1) end_port kernel s) rest
          (fill-Fills (end_port + 1) start end_port kernel s fresh k c (omega arith))

if-Closes :
    (start end_port : ℕ) (kernel : Timed → Attempt) (b : Bool) (x y : Scan)
    → (b ≡ true → Closes start end_port kernel x)
    → Closes start end_port kernel y
    → Closes start end_port kernel (if b then x else y)
if-Closes start end_port kernel true x y h k = h refl
if-Closes start end_port kernel false x y h k = k

-- If `socket` hands out no descriptor that is in the map, then whatever else the kernel answers, and
-- whatever events it delivers: a range that is not valid fails at once, with no socket opened. For a
-- valid range, a scan that finishes has opened one socket for each port of the range, in their
-- order, has no socket in the map, and has closed each descriptor at least as often as it was
-- opened. A scan that waits has opened one socket for each port before the next one, in their order,
-- and has tried every port or has 500 sockets in the map. A scan fails only where, at a port of the
-- range, the kernel gave no socket or the address was not taken. Where it waits or has failed, each
-- descriptor was opened at most once more than it was closed, if it is in the map, and at most as
-- often otherwise.
pub main-Closes :
    (start_port end_port : ℕ) (kernel : Timed → Attempt) (batches : List (List Event))
    → IsFresh kernel
    → ((start_port < 1) ⊎ ((65535 < end_port) ⊎ (end_port < start_port))
        → main start_port end_port kernel batches ≡ failed (init start_port))
      × (1 ≤ start_port
          → end_port ≤ 65535
          → start_port ≤ end_port
          → Closes start_port end_port kernel (main start_port end_port kernel batches))
unfolding main invalid_range
main-Closes start_port end_port kernel batches fresh =
    let empty : Kept (init start_port) = record {
      closed = λ fd. omega arith;
      once = λ fd. omega arith;
      few = omega arith;
    } in
    let nothing : 0 ≡ start_port - start_port = omega arith in
    (
      λ wrong. ground (arith, wrong),
      λ low high le.
          if-Closes start_port end_port kernel (invalid_range start_port end_port) _ _
            (λ e. absurd (ground (arith, e)))
            (scan-Closes start_port end_port kernel batches (init start_port) fresh empty
              (omega arith, omega arith, ap (from_on start_port) nothing)),
    )
