-- ===== src/Knocker/Timer.antt =====
-- The loops of `main` in knocker/knocker-epoll-timer.cc, which keeps a map from sockets to start times.
-- The kernel's answers and events are those of the other version of the scanner.
pub mod Closed
pub mod Covered
pub mod Filled
pub mod Handled
mod Tests
pub mod Tracked
use low_level_cpp.Base.{
  ℕ, zero, suc, ◌+◌, ◌-◌, Bool, true, false, ◌&&◌, ◌||◌, not, Option, none, some, List, [], ◌∷◌,
  ◌++◌, if◌then◌else◌, ltb, leb, ◌==◌, length,
}
use low_level_cpp.Base.Store.{update}
use low_level_cpp.Knocker.{max_in_flight, invalid_range, pack, unpack_fd, unpack_port}
use low_level_cpp.Knocker.Intrusive.Scanner.{
  Connect, connected, in_progress, refused, Attempt, Event, timeout,
}

-- An entry of the map.
pub record Active : Type 0 where
  pub fd : ℕ
  pub start_time : ℕ

-- The variables of `main`, with the ports that it opened a socket for, the sockets that it opened,
-- the ports that it printed, and the descriptors that it closed so far. The map is a list in the order in which it is iterated.
pub record Timed : Type 0 where
  pub active_socks : List Active
  pub port : ℕ
  pub watched : ℕ → Option ℕ
  pub tried : List ℕ
  pub opened : List ℕ
  pub answered : List ℕ
  pub closed : List ℕ

-- `active_socks.erase(fd)`
unfoldable pub erase_key : ℕ → List Active → List Active
erase_key fd [] = []
erase_key fd (a ∷ rest) =
    let others = erase_key fd rest in if a.fd == fd then others else a ∷ others

-- `active_socks[fd] = now`
unfoldable pub put : (fd now : ℕ) → List Active → List Active
unfolding erase_key
put fd now socks = record { fd = fd; start_time = now } ∷ erase_key fd socks

pub data Running : Type 0 where
  running : Timed → Running
  exit_failure : Timed → Running

abbrev pub close : ℕ → Timed → Timed
close fd s = record s { closed = s.closed ++ fd ∷ [] }

abbrev pub open_socket : ℕ → Timed → Timed
open_socket fd s = record s { tried = s.tried ++ s.port ∷ []; opened = s.opened ++ fd ∷ [] }

abbrev pub print_port : ℕ → Timed → Timed
print_port port s = record s { answered = s.answered ++ port ∷ [] }

abbrev pub next_port : Timed → Timed
next_port s = record s { port = s.port + 1 }

-- `EINPROGRESS`: the socket is registered and enters the map.
abbrev pub track : (fd now : ℕ) → Timed → Timed
track fd now s = record s {
  watched = update s.watched fd (some (pack fd s.port));
  active_socks = put fd now s.active_socks;
}

abbrev pub connect_sock : Connect → (fd now : ℕ) → Timed → Timed
connect_sock connected fd now s = close fd (print_port s.port s)
connect_sock in_progress fd now s = track fd now s
connect_sock refused fd now s = close fd s

abbrev pub try_sock : Option ℕ → Attempt → Timed → Running
try_sock none a s = exit_failure s
try_sock (some fd) a s =
    if a.address_ok
    then running (next_port (connect_sock a.connect fd a.now (open_socket fd s)))
    else exit_failure (close fd (open_socket fd s))

-- One round of the inner `while` loop.
unfoldable pub try_port : Attempt → Timed → Running
unfolding put
try_port a s = try_sock a.sock a s

-- The inner `while` loop, with fuel for its rounds.
unfoldable pub fill : ℕ → (end_port : ℕ) → (Timed → Attempt) → Timed → Running
unfolding try_port
fill zero end_port kernel s = running s
fill (suc fuel) end_port kernel s =
    elim (ltb (length s.active_socks) max_in_flight && leb s.port end_port) [
      | false ↦ running s
      | true ↦ elim (try_port (kernel s) s) [
        | running t ↦ fill fuel end_port kernel t
        | exit_failure t ↦ exit_failure t
      ]
    ]

abbrev pub unwatch : ℕ → Timed → Timed
unwatch fd s = record s { watched = update s.watched fd none }

-- `now - it->second > TIMEOUT_MS`
abbrev pub expired : ℕ → Active → Bool
expired now a = ltb timeout (now - a.start_time)

-- The `for` loop over the map, with the entries that it has kept: those that are over the threshold
-- are closed and erased.
unfoldable pub sweep : (now : ℕ) → List Active → List Active → Timed → Timed
sweep now kept [] s = record s { active_socks = kept }
sweep now kept (a ∷ rest) s =
    let over = sweep now kept rest (close a.fd (unwatch a.fd s)) in
    let on = sweep now (kept ++ a ∷ []) rest s in if expired now a then over else on

abbrev pub report : (err port : ℕ) → Timed → Timed
report err port s = if err == 0 then print_port port s else s

-- A socket is done.
unfoldable pub finish : ℕ → Timed → Timed
unfolding erase_key
finish fd s =
    let t = close fd (unwatch fd s) in record t { active_socks = erase_key fd t.active_socks }

unfoldable pub handle : Event → Timed → Timed
unfolding sweep finish
handle e s =
    if unpack_port e.word == 0
    then sweep e.now [] s.active_socks s
    else finish (unpack_fd e.word) (report e.err (unpack_port e.word) s)

unfoldable pub handle_all : List Event → Timed → Timed
unfolding handle
handle_all [] s = s
handle_all (e ∷ events) s = handle_all events (handle e s)

abbrev pub is_empty : List Active → Bool
is_empty [] = true
is_empty (a ∷ rest) = false

-- The test of the outer `while` loop.
abbrev pub busy : ℕ → Timed → Bool
busy end_port s = leb s.port end_port || not (is_empty s.active_socks)

-- How a scan ends, or that it waits for the next answer of `epoll_wait`.
pub data Scan : Type 0 where
  finished : Timed → Scan
  waiting : Timed → Scan
  failed : Timed → Scan

-- The outer `while` loop over what `epoll_wait` delivers. A round of `fill` tries each port once
-- at most, so `end_port + 1` rounds are enough.
unfoldable pub scan : (end_port : ℕ) → (Timed → Attempt) → List (List Event) → Timed → Scan
unfolding fill handle_all
scan end_port kernel [] s = elim (busy end_port s) [
  | false ↦ finished s
  | true ↦ elim (fill (end_port + 1) end_port kernel s) [
    | running t ↦ waiting t
    | exit_failure t ↦ failed t
  ]
]
scan end_port kernel (events ∷ batches) s = elim (busy end_port s) [
  | false ↦ finished s
  | true ↦ elim (fill (end_port + 1) end_port kernel s) [
    | running t ↦ scan end_port kernel batches (handle_all events t)
    | exit_failure t ↦ failed t
  ]
]

abbrev pub init : ℕ → Timed
init start_port = record {
  active_socks = [];
  port = start_port;
  watched = λ fd. none;
  tried = [];
  opened = [];
  answered = [];
  closed = [];
}

unfoldable pub main : (start_port end_port : ℕ) → (Timed → Attempt) → List (List Event) → Scan
unfolding scan invalid_range
main start_port end_port kernel batches =
    if invalid_range start_port end_port
    then failed (init start_port)
    else scan end_port kernel batches (init start_port)
