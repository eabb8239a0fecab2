-- ===== src/Knocker/Intrusive/Events.antt =====
-- The answers of epoll_wait: sockets that are ready, and the timer.
use mathlib.Core.Path.{subst}
use low_level_cpp.Base.{
  ℕ, ◌+◌, ◌^◌, ◌<◌, ◌≡◌, ◌≢◌, inl, inr, refl, sym, ap, ◌∙◌, true, false, List, [], ◌∷◌, ◌++◌, arith,
  ◌==◌, if◌then◌else◌, count, erase, length, ==-false, Bool-cases,
}
use low_level_cpp.Base.Int.{pos, decrement}
use low_level_cpp.Knocker.{max_in_flight, pack, unpack_fd, unpack_port, unpack-pack}
use low_level_cpp.Knocker.Intrusive.Flight.{Flies, Flies-kept, finish-Flies}
use low_level_cpp.Knocker.Intrusive.Scanner.{
  Scanner, finish, sweep, report, Event, handle, handle_all, busy,
}
use low_level_cpp.Knocker.Intrusive.Sweep.{overdue, in_time, Swept, sweep-Swept}

-- Where the port is not 0 the event is for a socket.
handle-socket :
    (e : Event) (s : Scanner)
    → unpack_port e.word ≢ 0
    → handle e s ≡ finish (unpack_fd e.word) (report e.err (unpack_port e.word) s)
unfolding handle
handle-socket e s ne = rw (==-false (unpack_port e.word) 0 ne)

handle-timer :
    (e : Event) (s : Scanner)
    → unpack_port e.word ≡ 0
    → handle e s ≡ sweep (max_in_flight + 1) e.now s
unfolding handle
handle-timer e s is = rw is

module _ (max_fd : ℕ) (s : Scanner) (fds : List ℕ) (fly : Flies max_fd s fds) where
  report-Flies : (err p : ℕ) → Flies max_fd (report err p s) fds
  report-Flies err p = elim (Bool-cases (err == 0)) [
    | inl open_port ↦
        subst (λ u. Flies max_fd u fds) (sym (report_open err p s open_port))
          (Flies-kept max_fd s fds s.port (s.answered ++ p ∷ []) s.closed fly)
    | inr closed_port ↦
        subst (λ u. Flies max_fd u fds) (sym (report_closed err p s closed_port)) fly
  ]
    where
      report_open :
          (err p : ℕ) (s : Scanner)
          → (err == 0) ≡ true
          → report err p s ≡ record s { answered = s.answered ++ p ∷ [] }
      report_open err p s e = rw e

      report_closed : (err p : ℕ) (s : Scanner) → (err == 0) ≡ false → report err p s ≡ s
      report_closed err p s e = rw e

  module _ (fd port now err : ℕ) (held : 0 < count fd fds) (fd_small : fd < 2 ^ 31)
      (port_pos : 0 < port) (port_small : port < 2 ^ 31) where
    abbrev ready : Event
    ready = record { word = pack fd port; now = now; err = err }

    handle-ready : handle ready s ≡ finish fd (report err port s)
    handle-ready =
        let (fd_back, port_back) = unpack-pack fd port fd_small port_small in
        handle-socket ready s (λ e. omega (arith, port_back, e))
        ∙ ap (λ f. finish f (report err (unpack_port (pack fd port)) s)) fd_back
        ∙ ap (λ p. finish fd (report err p s)) port_back

    -- The event of a socket in flight, with the word that was registered for it, reports the port
    -- if and only if the connection succeeded, closes the socket and takes it out of the list; the
    -- others stay in flight.
    pub ready-Flies :
        Flies max_fd (handle ready s) (erase fd fds)
        × ((handle ready s).answered ≡ (if err == 0 then s.answered ++ port ∷ [] else s.answered))
        × ((handle ready s).closed ≡ s.closed ++ fd ∷ [])
    unfolding finish
    ready-Flies = rw handle-ready (
      finish-Flies max_fd (report err port s) fds (report-Flies err port) fd held,
      ground arith,
      ground arith,
    )

finish-report :
    (fd err p : ℕ) (s : Scanner)
    → ((finish fd (report err p s)).in_flight_count ≡ decrement s.in_flight_count)
      × ((finish fd (report err p s)).closed ≡ s.closed ++ fd ∷ [])
      × ((finish fd (report err p s)).port ≡ s.port)
unfolding finish
finish-report fd err p s = elim (Bool-cases (err == 0)) [
  | inl open_port ↦ rw open_port (refl, refl, refl)
  | inr closed_port ↦ rw closed_port (refl, refl, refl)
]

handle-Swept :
    (max_fd : ℕ) (s : Scanner) (fds : List ℕ) (timer : Event)
    → Flies max_fd s fds
    → unpack_port timer.word ≡ 0
    → Swept timer.now max_fd s fds (handle timer s)
handle-Swept max_fd s fds timer fly at_timer =
    subst (Swept timer.now max_fd s fds) (sym (handle-timer timer s at_timer))
      (sweep-Swept timer.now max_fd (max_in_flight + 1) s fds fly (omega (arith, fly.limit)))

not_busy :
    (end_port : ℕ) (u : Scanner)
    → end_port < u.port
    → u.in_flight_count ≡ pos 0
    → busy end_port u ≡ false
unfolding busy
not_busy end_port u past none_left = rw none_left (ground arith)

-- An event that is delivered together with the timer's, behind it, for a connection that the sweep
-- has just ended: the connection is closed again, and the count is one less than the number of
-- connections in flight. With one connection left and no port left, the scan ends without it.
pub stale_event :
    (max_fd : ℕ) (s : Scanner) (fds : List ℕ) (timer stale : Event)
    → Flies max_fd s fds
    → unpack_port timer.word ≡ 0
    → unpack_port stale.word ≢ 0
    → let left : List ℕ = in_time timer.now s.table fds in
      let gone : List ℕ = overdue timer.now s.table fds in
      let u = handle_all (timer ∷ stale ∷ []) s in
      Flies max_fd (handle timer s) left
      × (u.in_flight_count ≡ decrement (pos (length left)))
      × (u.closed ≡ (s.closed ++ gone) ++ unpack_fd stale.word ∷ [])
      × ((end_port : ℕ) → end_port < s.port → length left ≡ 1 → busy end_port u ≡ false)
unfolding handle_all
stale_event max_fd s fds timer stale fly at_timer at_socket =
    let swept = handle-Swept max_fd s fds timer fly at_timer in
    let t : Scanner = handle timer s in
    let u : Scanner = handle stale t in
    let is = handle-socket stale t at_socket in
    let (counted, closed, port) =
      finish-report (unpack_fd stale.word) stale.err (unpack_port stale.word) t in
    let count_after : u.in_flight_count ≡ decrement (pos (length (in_time timer.now s.table fds))) =
      ap (λ (r : Scanner). r.in_flight_count) is ∙ counted ∙ ap decrement swept.flies.counted in
    let port_after = ap (λ (r : Scanner). r.port) is ∙ port ∙ swept.port in
    (
      swept.flies,
      count_after,
      ap (λ (r : Scanner). r.closed) is
          ∙ closed
          ∙ ap (λ c. c ++ unpack_fd stale.word ∷ []) swept.closed,
      λ end_port past lone.
          not_busy end_port u (rw port_after past) (count_after ∙ ap (λ n. decrement (pos n)) lone),
    )
