-- ===== src/Knocker/Intrusive/Scanner.antt =====
-- The loops of `main` in knocker/knocker-intrusive.cc. What the kernel answers is a parameter: it
-- may depend on the state, as the descriptors that are free do.
use low_level_cpp.Base.{
  ℕ, zero, suc, ◌+◌, ◌-◌, Bool, true, false, ◌&&◌, ◌||◌, Option, none, some, List, [], ◌∷◌, ◌++◌,
  if◌then◌else◌, ltb, leb, ◌==◌,
}
use low_level_cpp.Base.Int.{ℤ, pos, increment, decrement, below, above}
use low_level_cpp.Base.Store.{update}
use low_level_cpp.Knocker.{max_in_flight, invalid_range, pack, unpack_fd, unpack_port}
use low_level_cpp.Knocker.Intrusive.{Connection, Table, ConnList, list_insert_tail, list_unlink}

-- Times are nanoseconds of the steady clock, and the threshold is 2000 milliseconds.
abbrev pub timeout : ℕ
timeout = 2_000_000_000

-- The variables of `main`, with what it has printed and closed so far. `watched` is the word that
-- `epoll` holds for a descriptor.
pub record Scanner : Type 0 where
  pub table : Table
  pub in_flight : ConnList
  pub port : ℕ
  pub in_flight_count : ℤ
  pub watched : ℕ → Option ℕ
  pub answered : List ℕ
  pub closed : List ℕ

pub data Connect : Type 0 where
  connected : Connect
  in_progress : Connect
  refused : Connect

-- What `socket` (`none` on failure), `inet_pton`, `connect` and the clock answer.
pub record Attempt : Type 0 where
  pub sock : Option ℕ
  pub address_ok : Bool
  pub connect : Connect
  pub now : ℕ

-- `fault` is an access outside of the table.
pub data Run : Type 0 where
  running : Scanner → Run
  exit_failure : Run
  fault : Run

abbrev pub and_then : Run → (Scanner → Run) → Run
and_then (running s) k = k s
and_then exit_failure k = exit_failure
and_then fault k = fault

abbrev pub started : Table → ℕ → ℕ → ℕ → Table
started table fd port now =
    update table fd (record (table fd) { active = true; port = port; start_time = now })

-- `EINPROGRESS`: the socket is registered, and its connection goes to the end of the list.
abbrev pub launch : ℕ → ℕ → Scanner → Scanner
launch fd now s =
    let linked = list_insert_tail (started s.table fd s.port now) s.in_flight fd in
    record s {
      table = linked.0;
      in_flight = linked.1;
      in_flight_count = increment s.in_flight_count;
      watched = update s.watched fd (some (pack fd s.port));
    }

abbrev pub advance : Scanner → Scanner
advance s = record s { port = s.port + 1 }

abbrev pub connect_port : ℕ → Connect → ℕ → ℕ → Scanner → Run
connect_port max_fd connected fd now s =
    running
      (advance (record s { answered = s.answered ++ s.port ∷ []; closed = s.closed ++ fd ∷ [] }))
connect_port max_fd in_progress fd now s =
    if ltb fd max_fd then running (advance (launch fd now s)) else fault
connect_port max_fd refused fd now s = running (advance (record s { closed = s.closed ++ fd ∷ [] }))

abbrev pub try_address : ℕ → Bool → ℕ → Attempt → Scanner → Run
try_address max_fd true fd a s = connect_port max_fd a.connect fd a.now s
try_address max_fd false fd a s = exit_failure

abbrev pub try_sock : ℕ → Option ℕ → Attempt → Scanner → Run
try_sock max_fd none a s = exit_failure
try_sock max_fd (some fd) a s =
    if ltb max_fd fd then exit_failure else try_address max_fd a.address_ok fd a s

-- One round of the inner `while` loop.
unfoldable pub try_port : ℕ → Attempt → Scanner → Run
try_port max_fd a s = try_sock max_fd a.sock a s

-- The inner `while` loop, with fuel for its rounds.
unfoldable pub fill : ℕ → (max_fd end_port : ℕ) → (Scanner → Attempt) → Scanner → Run
fill zero max_fd end_port kernel s = running s
fill (suc fuel) max_fd end_port kernel s =
    let rest = λ (t : Scanner). fill fuel max_fd end_port kernel t in
    if below s.in_flight_count max_in_flight && leb s.port end_port
    then and_then (try_port max_fd (kernel s) s) rest
    else running s

-- What is common to both ways in which a connection ends.
unfoldable pub finish : ℕ → Scanner → Scanner
finish fd s =
    let unlinked = list_unlink s.table s.in_flight fd in
    record s {
      table = update unlinked.0 fd (record (unlinked.0 fd) { active = false });
      in_flight = unlinked.1;
      in_flight_count = decrement s.in_flight_count;
      watched = update s.watched fd none;
      closed = s.closed ++ fd ∷ [];
    }

-- `now - start_time > TIMEOUT_MS`
abbrev pub expired : ℕ → Connection → Bool
expired now c = ltb timeout (now - c.start_time)

-- The `while` loop over the head of the list, with fuel.
unfoldable pub sweep : ℕ → ℕ → Scanner → Scanner
sweep zero now s = s
sweep (suc fuel) now s = elim s.in_flight.head [
  | none ↦ s
  | some fd ↦ elim (expired now (s.table fd)) [ true ↦ sweep fuel now (finish fd s) | false ↦ s ]
]

-- An event of `epoll_wait`, with what the clock and `getsockopt` answer when it is handled.
pub record Event : Type 0 where
  pub word : ℕ
  pub now : ℕ
  pub err : ℕ

abbrev pub report : ℕ → ℕ → Scanner → Scanner
report err p s = if err == 0 then record s { answered = s.answered ++ p ∷ [] } else s

-- The fuel of the sweep is more than there can be connections in flight.
unfoldable pub handle : Event → Scanner → Scanner
unfolding finish sweep
handle e s =
    if unpack_port e.word == 0
    then sweep (max_in_flight + 1) e.now s
    else finish (unpack_fd e.word) (report e.err (unpack_port e.word) s)

unfoldable pub handle_all : List Event → Scanner → Scanner
unfolding handle
handle_all [] s = s
handle_all (e ∷ es) s = handle_all es (handle e s)

-- The test of the outer `while` loop.
unfoldable pub busy : ℕ → Scanner → Bool
busy end_port s = leb s.port end_port || above s.in_flight_count 0

-- How a scan ends, or that it waits for the next answer of `epoll_wait`.
pub data Scan : Type 0 where
  finished : Scanner → Scan
  waiting : Scanner → Scan
  failed : Scan
  crashed : Scan

-- The outer `while` loop over what `epoll_wait` delivers. A round of `fill` tries each port once
-- at most, so `end_port + 1` rounds are enough.
unfoldable pub scan :
    (max_fd end_port : ℕ) → (Scanner → Attempt) → List (List Event) → Scanner → Scan
unfolding fill handle_all busy
scan max_fd end_port kernel [] s =
    if busy end_port s
    then elim (fill (end_port + 1) max_fd end_port kernel s) [
      | running t ↦ waiting t
      | exit_failure ↦ failed
      | fault ↦ crashed
    ]
    else finished s
scan max_fd end_port kernel (events ∷ batches) s = elim (busy end_port s) [
  | false ↦ finished s
  | true ↦ elim (fill (end_port + 1) max_fd end_port kernel s) [
    | running t ↦ scan max_fd end_port kernel batches (handle_all events t)
    | exit_failure ↦ failed
    | fault ↦ crashed
  ]
]

abbrev pub idle : Connection
idle = record { active = false; port = 0; start_time = 0; next = none; prev = none }

-- The variables before the loop: an empty list over a table of unused connections.
abbrev pub init : ℕ → Scanner
init start_port = record {
  table = λ fd. idle;
  in_flight = record { head = none; tail = none };
  port = start_port;
  in_flight_count = pos 0;
  watched = λ fd. none;
  answered = [];
  closed = [];
}

unfoldable pub main :
    (max_fd start_port end_port : ℕ) → (Scanner → Attempt) → List (List Event) → Scan
unfolding scan invalid_range
main max_fd start_port end_port kernel batches =
    if invalid_range start_port end_port
    then failed
    else scan max_fd end_port kernel batches (init start_port)
