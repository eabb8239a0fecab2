-- ===== src/Knocker/Tests.antt =====
-- The scanner at small inputs, and its theorems at them.
use low_level_cpp.Base.{
  ℕ, ◌<◌, ◌≡◌, ◌≢◌, refl, true, false, none, some, List, [], ◌∷◌, ◌++◌, arith, ◌==◌, if◌then◌else◌,
  length, All,
}
use low_level_cpp.Base.Int.{pos}
use low_level_cpp.Knocker.Blocking
use low_level_cpp.Knocker.Blocking.{Answer, IsClosed, open_ports, main-IsClosed, main-prints}
use low_level_cpp.Knocker.{invalid_range, pack, unpack_fd, unpack_port, unpack-pack}
use low_level_cpp.Knocker.Intrusive.{Table, list_insert_tail, list_unlink, set_next, set_prev}
use low_level_cpp.Knocker.Intrusive.Queue.{IsQueue}
use low_level_cpp.Knocker.Intrusive.Unlink.{list_unlink-IsQueue}
use low_level_cpp.Knocker.Intrusive.Scanner.{
  Scanner, Attempt, in_progress, Scan, finished, try_port, fill, sweep, Event, handle, handle_all,
  busy, expired, idle, main,
}
use low_level_cpp.Knocker.Intrusive.Flight.{Flies}
use low_level_cpp.Knocker.Intrusive.Sweep.{sweep-exact}
use low_level_cpp.Knocker.Intrusive.Events.{ready-Flies, stale_event}
use low_level_cpp.Knocker.Intrusive.Fill.{IsHonest, Filled, fill-Filled}

unpack-pack_example : (unpack_fd (pack 7 443) ≡ 7) × (unpack_port (pack 7 443) ≡ 443)
unpack-pack_example = unpack-pack 7 443 (omega arith) (omega arith)

-- The sockets 3 and 5 are in flight, to the ports 80 and 443; the first is three seconds older.
abbrev table : Table
table fd =
    if fd == 3
    then record { active = true; port = 80; start_time = 0; next = some 5; prev = none }
    else if fd == 5
    then record {
      active = true;
      port = 443;
      start_time = 3_000_000_000;
      next = none;
      prev = some 3;
    }
    else idle

abbrev two : Scanner
two = record {
  table = table;
  in_flight = record { head = some 3; tail = some 5 };
  port = 500;
  in_flight_count = pos 2;
  watched = λ fd. none;
  answered = [];
  closed = [];
}

two-IsQueue : IsQueue table (record { head = some 3; tail = some 5 }) (3 ∷ 5 ∷ [])
two-IsQueue = record {
  links = (refl, refl, (refl, refl, tt));
  head = refl;
  tail = refl;
  distinct = (refl, (refl, tt));
}

two-Flies : Flies 1024 two (3 ∷ 5 ∷ [])
two-Flies = record {
  queue = two-IsQueue;
  counted = refl;
  limit = omega arith;
  inside = λ fd held. ground arith;
  flying = λ fd held. ground arith;
  landed = λ fd out. ground arith;
}

unlink_runs : (list_unlink table two.in_flight 3).1.head ≡ some 5
unfolding list_unlink
unlink_runs = refl

list_unlink-IsQueue_example :
    IsQueue (list_unlink table two.in_flight 3).0 (list_unlink table two.in_flight 3).1 (5 ∷ [])
list_unlink-IsQueue_example =
    list_unlink-IsQueue table two.in_flight 3 (3 ∷ 5 ∷ []) two-IsQueue (omega arith)

sweep-exact_example :
    (gone left : List ℕ) × (3 ∷ 5 ∷ [] ≡ gone ++ left)
    × All (λ fd. expired 4_000_000_000 (table fd) ≡ true) gone
    × All (λ fd. expired 4_000_000_000 (table fd) ≡ false) left
    × ((sweep 501 4_000_000_000 two).closed ≡ [] ++ gone)
    × Flies 1024 (sweep 501 4_000_000_000 two) left
sweep-exact_example =
    sweep-exact 4_000_000_000 1024 501 two (3 ∷ 5 ∷ []) two-Flies (omega arith) (omega arith)

abbrev ready_5 : Event
ready_5 = record { word = pack 5 443; now = 0; err = 0 }

ready-Flies_example :
    Flies 1024 (handle ready_5 two) (3 ∷ [])
    × ((handle ready_5 two).answered ≡ 443 ∷ [])
    × ((handle ready_5 two).closed ≡ 5 ∷ [])
ready-Flies_example =
    ready-Flies 1024 two (3 ∷ 5 ∷ []) two-Flies 5 443 0 0 (omega arith) (omega arith) (omega arith)
      (omega arith)

-- The timer at four seconds ends socket 3; its own event comes in the same answer.
abbrev pulse : Event
pulse = record { word = pack 4 0; now = 4_000_000_000; err = 0 }

abbrev late_3 : Event
late_3 = record { word = pack 3 80; now = 4_000_000_000; err = 0 }

pulse_port : unpack_port pulse.word ≡ 0
unfolding pack unpack_port
pulse_port = refl

late_3_port : unpack_port late_3.word ≢ 0
unfolding pack unpack_port
late_3_port = omega arith

stale_event_example :
    let u = handle_all (pulse ∷ late_3 ∷ []) two in
    Flies 1024 (handle pulse two) (5 ∷ [])
    × (u.in_flight_count ≡ pos 0)
    × (u.closed ≡ 3 ∷ unpack_fd (pack 3 80) ∷ [])
    × ((end_port : ℕ) → end_port < 500 → length {A = ℕ} (5 ∷ []) ≡ 1 → busy end_port u ≡ false)
stale_event_example =
    stale_event 1024 two (3 ∷ 5 ∷ []) pulse late_3 two-Flies pulse_port late_3_port

-- A kernel that hands out the lowest of two descriptors that is free.
abbrev kernel : Scanner → Attempt
kernel s = record {
  sock = if (s.table 8).active then if (s.table 9).active then none else some 9 else some 8;
  address_ok = true;
  connect = in_progress;
  now = 0;
}

kernel-IsHonest : IsHonest 1024 kernel
kernel-IsHonest s fd e = ground arith

fill-Filled_example : Filled 1024 501 kernel (fill 3 1024 501 kernel two)
fill-Filled_example =
    fill-Filled 1024 kernel kernel-IsHonest 501 3 two (3 ∷ 5 ∷ []) two-Flies (omega arith)

abbrev answered_by : Scan → List ℕ
answered_by (finished s) = s.answered
answered_by _ = []

-- Two ports are tried, the second answers and the first is given up; then the scan is over.
scan_runs :
    answered_by (
      main 1024 80 81 kernel (
        (record { word = pack 9 81; now = 1; err = 0 } ∷ [])
        ∷ (record { word = pack 4 0; now = 3_000_000_000; err = 0 } ∷ [])
        ∷ []))
    ≡ 81 ∷ []
unfolding main pack unpack_port unpack_fd try_port list_insert_tail set_next set_prev list_unlink
scan_runs = refl

-- Only port 81 accepts a connection.
abbrev one_open : ℕ → Answer
one_open p = record { socket = true; inet_pton = true; connect = p == 81 }

main-IsClosed_example : IsClosed (Blocking.main 80 82 one_open)
main-IsClosed_example = main-IsClosed 80 82 one_open

valid : invalid_range 80 82 ≡ false
unfolding invalid_range
valid = refl

main-prints_example :
    (k : Blocking.Knocks) × (Blocking.main 80 82 one_open ≡ Blocking.exit_success k)
    × (k.answered ≡ open_ports one_open 3 80)
main-prints_example = main-prints 82 one_open (λ p. refl) (λ p. refl) 80 valid
