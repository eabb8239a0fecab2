-- ===== src/Knocker/Timer/Tests.antt =====
-- A scan with the timer, and the theorem at it.
use low_level_cpp.Base.{
  true, ℕ, ◌≤◌, ◌<◌, ◌⊎◌, ◌≡◌, ◌≢◌, refl, true, Option, none, some, List, [], ◌∷◌, arith,
  if◌then◌else◌, count, ◌==◌,
}
use low_level_cpp.Knocker.{pack, unpack_fd, unpack_port, invalid_range}
use low_level_cpp.Knocker.Intrusive.Scanner.{Attempt, in_progress, Event}
use low_level_cpp.Knocker.Timer.{
  Timed, failed, init, main, scan, fill, try_port, put, erase_key, handle_all, handle, sweep,
  finish, finished, Scan,
}
use low_level_cpp.Knocker.Timer.Tracked.{fds}
use low_level_cpp.Knocker.Timer.Handled.{handle_lem}
use low_level_cpp.Knocker.Timer.Filled.{IsFresh}
use low_level_cpp.Knocker.Timer.Closed.{Closes, main-Closes}

-- A kernel that hands out the lowest of two descriptors that is not in the map.
abbrev kernel : Timed → Attempt
kernel s = record {
  sock =
      if count 8 (fds s.active_socks) == 0
      then some 8
      else if count 9 (fds s.active_socks) == 0
      then some 9
      else none;
  address_ok = true;
  connect = in_progress;
  now = 0;
}

kernel-IsFresh : IsFresh kernel
kernel-IsFresh s fd e = ground arith

-- Port 80 answers, and the timer ends port 81.
abbrev batches : List (List Event)
batches =
    (record { word = pack 8 80; now = 0; err = 0 } ∷ [])
    ∷ (record { word = pack 7 0; now = 2_500_000_000; err = 0 } ∷ [])
    ∷ []

abbrev answered_ports : Scan → Option (List ℕ × List ℕ × List ℕ)
answered_ports (finished t) = some (t.tried, t.answered, t.closed)
answered_ports s = none

one_answers : answered_ports (main 80 81 kernel batches) ≡ some (80 ∷ 81 ∷ [], 80 ∷ [], 8 ∷ 9 ∷ [])
unfolding main scan fill try_port put erase_key handle_all handle sweep finish pack unpack_fd
    unpack_port invalid_range
one_answers = refl

main-Closes_example :
    ((80 < 1) ⊎ ((65535 < 81) ⊎ (81 < 80)) → main 80 81 kernel batches ≡ failed (init 80))
    × (1 ≤ 80 → 81 ≤ 65535 → 80 ≤ 81 → Closes 80 81 kernel (main 80 81 kernel batches))
main-Closes_example = main-Closes 80 81 kernel batches kernel-IsFresh

-- Socket 8 has been in flight for three seconds, and socket 9 for one.
abbrev in_flight : Timed
in_flight = record {
  active_socks =
      record { fd = 8; start_time = 0 } ∷ record { fd = 9; start_time = 2_000_000_000 } ∷ [];
  port = 82;
  watched = λ fd. none;
  tried = 80 ∷ 81 ∷ [];
  opened = 8 ∷ 9 ∷ [];
  answered = [];
  closed = [];
}

abbrev pulse : Event
pulse = record { word = pack 7 0; now = 3_000_000_000; err = 0 }

handle_lem_example :
    (unpack_port pulse.word ≡ 0
      → ((handle pulse in_flight).active_socks ≡ record { fd = 9; start_time = 2_000_000_000 } ∷ [])
        × ((handle pulse in_flight).closed ≡ 8 ∷ []))
    × (unpack_port pulse.word ≢ 0
        → ((x : ℕ)
            → count x (fds (handle pulse in_flight).active_socks)
              ≡ (if unpack_fd pulse.word == x then 0 else count x (fds in_flight.active_socks)))
          × ((handle pulse in_flight).closed ≡ unpack_fd pulse.word ∷ []))
handle_lem_example = handle_lem pulse in_flight
