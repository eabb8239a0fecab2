-- ===== src/Knocker/Epoll.antt =====
-- The loops of `main` in knocker/knocker-epoll.cc, which waits for its sockets without a timer. The
-- kernel's answers and events are those of the other versions of the scanner.
pub mod Ports
pub mod Tally
mod Tests
use low_level_cpp.Base.{
  ℕ, zero, suc, ◌+◌, ◌-◌, Bool, true, false, ◌&&◌, ◌||◌, not, Option, none, some, List, [], ◌∷◌,
  ◌++◌, if◌then◌else◌, leb, ◌==◌,
}
use low_level_cpp.Base.Int.{ℤ, pos, increment, decrement, below, above}
use low_level_cpp.Base.Store.{update}
use low_level_cpp.Knocker.{max_in_flight, invalid_range, pack, unpack_fd, unpack_port}
use low_level_cpp.Knocker.Intrusive.Scanner.{
  Connect, connected, in_progress, refused, Attempt, Event,
}

-- The variables of `main`, with the sockets that it opened and the ports for which it did, the ports
-- that it printed, and the descriptors that it closed so far.
pub record Poller : Type 0 where
  pub in_flight : ℤ
  pub watched : ℕ → Option ℕ
  pub opened : List ℕ
  pub tried : List ℕ
  pub answered : List ℕ
  pub closed : List ℕ

abbrev pub close_sock : ℕ → Poller → Poller
close_sock fd s = record s { closed = s.closed ++ fd ∷ [] }

abbrev pub print_answer : ℕ → Poller → Poller
print_answer port s = record s { answered = s.answered ++ port ∷ [] }

abbrev pub new_sock : (fd port : ℕ) → Poller → Poller
new_sock fd port s = record s { opened = s.opened ++ fd ∷ []; tried = s.tried ++ port ∷ [] }

abbrev pub after_connect : Connect → (fd port : ℕ) → Poller → Poller
after_connect connected fd port s = close_sock fd (print_answer port s)
after_connect in_progress fd port s = record s {
  watched = update s.watched fd (some (pack fd port));
  in_flight = increment s.in_flight;
}
after_connect refused fd port s = close_sock fd s

-- The first part of a round: a connection is started, or the program fails.
pub data Dialled : Type 0 where
  dialled : Poller → Dialled
  gives_up : Poller → Dialled

abbrev pub dial_sock : Option ℕ → Attempt → (port : ℕ) → Poller → Dialled
dial_sock none a port s = gives_up s
dial_sock (some fd) a port s =
    if a.address_ok
    then dialled (after_connect a.connect fd port (new_sock fd port s))
    else gives_up (close_sock fd (new_sock fd port s))

unfoldable pub dial : Attempt → (port : ℕ) → Poller → Dialled
dial a port s = dial_sock a.sock a port s

abbrev pub print_if_open : (err port : ℕ) → Poller → Poller
print_if_open err port s = if err == 0 then print_answer port s else s

-- An event: the socket is done.
unfoldable pub resolve : Event → Poller → Poller
resolve e s =
    let fd = unpack_fd e.word in
    let t = print_if_open e.err (unpack_port e.word) s in
    record t {
      watched = update t.watched fd none;
      closed = t.closed ++ fd ∷ [];
      in_flight = decrement t.in_flight;
    }

unfoldable pub resolve_all : List Event → Poller → Poller
unfolding resolve
resolve_all [] s = s
resolve_all (e ∷ events) s = resolve_all events (resolve e s)

-- The test of the inner `while` loop; `last` says that the port is the last one.
abbrev pub must_wait : (last : Bool) → Poller → Bool
must_wait last s = not (below s.in_flight max_in_flight) || last && above s.in_flight 0

-- The inner loop is left with the answers of `epoll_wait` that are to come, or it waits for the next.
pub data Waited : Type 0 where
  drained : List (List Event) → Poller → Waited
  blocked : Poller → Waited

unfoldable pub drain : (last : Bool) → List (List Event) → Poller → Waited
unfolding resolve_all
drain last [] s = if must_wait last s then blocked s else drained [] s
drain last (events ∷ batches) s =
    let rest = drain last batches (resolve_all events s) in
    if must_wait last s then rest else drained (events ∷ batches) s

pub data Polled : Type 0 where
  success : Poller → Polled
  failure : Poller → Polled
  waits_on : Poller → Polled

-- The `for` loop, with fuel for its rounds.
unfoldable pub dial_each :
    (fuel port end_port : ℕ) → (ℕ → Poller → Attempt) → List (List Event) → Poller → Polled
unfolding dial drain
dial_each zero port end_port kernel batches s = success s
dial_each (suc fuel) port end_port kernel batches s = elim (leb port end_port) [
  | false ↦ success s
  | true ↦ elim (dial (kernel port s) port s) [
    | gives_up t ↦ failure t
    | dialled t ↦ elim (drain (port == end_port) batches t) [
      | blocked u ↦ waits_on u
      | drained later u ↦ dial_each fuel (port + 1) end_port kernel later u
    ]
  ]
]

abbrev pub no_sockets : Poller
no_sockets = record {
  in_flight = pos 0;
  watched = λ fd. none;
  opened = [];
  tried = [];
  answered = [];
  closed = [];
}

unfoldable pub main :
    (start_port end_port : ℕ) → (ℕ → Poller → Attempt) → List (List Event) → Polled
unfolding dial_each invalid_range
main start_port end_port kernel batches =
    if invalid_range start_port end_port
    then failure no_sockets
    else dial_each (end_port + 2 - start_port) start_port end_port kernel batches no_sockets
