-- ===== src/Knocker/Timer/Tracked.antt =====
-- The sockets of knocker/knocker-epoll-timer.cc that are in the map, and what the events do to them.
use low_level_cpp.Base.{
  ℕ, ◌+◌, ◌≤◌, ◌≡◌, refl, ap, Bool, true, false, List, [], ◌∷◌, ◌++◌, arith, if◌then◌else◌, ◌==◌,
  length, count, count-append, length-append,
}
use low_level_cpp.Knocker.{max_in_flight, unpack_fd, unpack_port}
use low_level_cpp.Knocker.Intrusive.Scanner.{Event}
use low_level_cpp.Knocker.Timer.{
  Active, Timed, erase_key, close, unwatch, expired, sweep, report, finish, handle, handle_all,
}

abbrev pub fds : List Active → List ℕ
fds [] = []
fds (a ∷ rest) = a.fd ∷ fds rest

-- How the times that a descriptor was opened, closed, and is in the map go together.
pub record Kept (s : Timed) : Type 0 where
  pub closed : (fd : ℕ) → count fd s.opened ≤ count fd s.closed + count fd (fds s.active_socks)
  pub once : (fd : ℕ) → count fd (fds s.active_socks) ≤ 1
  pub few : length s.active_socks ≤ max_in_flight

pub count-erase_key :
    (fd x : ℕ) (socks : List Active)
    → count x (fds (erase_key fd socks)) ≡ (if fd == x then 0 else count x (fds socks))
unfolding erase_key
count-erase_key fd x [] = ground arith
count-erase_key fd x (a ∷ rest) = ground (arith, count-erase_key fd x rest)

pub length-erase_key : (fd : ℕ) (socks : List Active) → length (erase_key fd socks) ≤ length socks
unfolding erase_key
length-erase_key fd [] = omega arith
length-erase_key fd (a ∷ rest) = ground (arith, length-erase_key fd rest)

finish-Kept : (fd : ℕ) (s : Timed) → Kept s → Kept (finish fd s)
unfolding finish
finish-Kept fd s k = record {
  closed = λ x. ground (
    arith,
    k.closed x,
    k.once x,
    count-append x s.closed (fd ∷ []),
    count-erase_key fd x s.active_socks,
  );
  once = λ x. ground (arith, k.once x, count-erase_key fd x s.active_socks);
  few = omega (arith, k.few, length-erase_key fd s.active_socks);
}

fds-append : (xs ys : List Active) → fds (xs ++ ys) ≡ fds xs ++ fds ys
fds-append [] ys = refl
fds-append (x ∷ xs) ys = ap (λ l. x.fd ∷ l) (fds-append xs ys)

-- Between two rounds of the sweep.
record Sweeping (kept rest : List Active) (s : Timed) : Type 0 where
  closed :
      (fd : ℕ) → count fd s.opened ≤ count fd s.closed + (count fd (fds kept) + count fd (fds rest))
  once : (fd : ℕ) → count fd (fds kept) + count fd (fds rest) ≤ 1
  few : length kept + length rest ≤ max_in_flight

if-Kept : (b : Bool) (x y : Timed) → Kept x → Kept y → Kept (if b then x else y)
if-Kept true x y h k = h
if-Kept false x y h k = k

sweep-Kept :
    (now : ℕ) (kept rest : List Active) (s : Timed)
    → Sweeping kept rest s
    → Kept (sweep now kept rest s)
unfolding sweep
sweep-Kept now kept [] s w = record {
  closed = λ x. omega (arith, w.closed x);
  once = λ x. omega (arith, w.once x);
  few = omega (arith, w.few);
}
sweep-Kept now kept (a ∷ rest) s w =
    if-Kept (expired now a) _ _
      (sweep-Kept now kept rest (close a.fd (unwatch a.fd s)) (record {
        closed = λ x. ground (arith, w.closed x, count-append x s.closed (a.fd ∷ []));
        once = λ x. ground (arith, w.once x);
        few = omega (arith, w.few);
      }))
      (sweep-Kept now (kept ++ a ∷ []) rest s (record {
        closed = λ x. ground (
          arith,
          w.closed x,
          ap (count x) (fds-append kept (a ∷ [])),
          count-append x (fds kept) (a.fd ∷ []),
        );
        once = λ x. ground (
          arith,
          w.once x,
          ap (count x) (fds-append kept (a ∷ [])),
          count-append x (fds kept) (a.fd ∷ []),
        );
        few = omega (arith, w.few, length-append kept (a ∷ []));
      }))

report-Kept : (err port : ℕ) (s : Timed) → Kept s → Kept (report err port s)
report-Kept err port s k =
    if-Kept (err == 0) _ _ (record { closed = k.closed; once = k.once; few = k.few }) k

handle-Kept : (e : Event) (s : Timed) → Kept s → Kept (handle e s)
unfolding handle
handle-Kept e s k =
    if-Kept (unpack_port e.word == 0) _ _
      (sweep-Kept e.now [] s.active_socks s (record {
        closed = λ x. omega (arith, k.closed x);
        once = λ x. omega (arith, k.once x);
        few = omega (arith, k.few);
      }))
      (finish-Kept (unpack_fd e.word) (report e.err (unpack_port e.word) s)
        (report-Kept e.err (unpack_port e.word) s k))

pub handle_all-Kept : (events : List Event) (s : Timed) → Kept s → Kept (handle_all events s)
unfolding handle_all
handle_all-Kept [] s k = k
handle_all-Kept (e ∷ events) s k = handle_all-Kept events (handle e s) (handle-Kept e s k)
