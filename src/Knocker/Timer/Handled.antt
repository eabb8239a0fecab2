-- ===== src/Knocker/Timer/Handled.antt =====
-- What an event does to the map of knocker/knocker-epoll-timer.cc.
use mathlib.Core.Path.{subst}
use mathlib.Core.List.{append_assoc, append-nil}
use low_level_cpp.Base.{
  ℕ, ◌-◌, ◌≡◌, ◌≢◌, refl, sym, ap, ◌∙◌, Bool, true, false, List, [], ◌∷◌, ◌++◌, arith,
  if◌then◌else◌, ◌==◌, ltb, count,
}
use low_level_cpp.Knocker.{unpack_fd, unpack_port}
use low_level_cpp.Knocker.Intrusive.Scanner.{Event}
use low_level_cpp.Knocker.Timer.{
  Active, Timed, close, unwatch, expired, sweep, print_port, report, finish, handle,
}
use low_level_cpp.Knocker.Timer.Tracked.{fds, count-erase_key}

-- The entries that are over the threshold at a time, and those that are not.
abbrev pub overdue : ℕ → List Active → List Active
overdue now [] = []
overdue now (a ∷ rest) =
    let others = overdue now rest in
    if ltb 2_000_000_000 (now - a.start_time) then a ∷ others else others

abbrev pub in_time : ℕ → List Active → List Active
in_time now [] = []
in_time now (a ∷ rest) =
    let others = in_time now rest in
    if ltb 2_000_000_000 (now - a.start_time) then others else a ∷ others

abbrev Sweeps : (now : ℕ) → (kept rest : List Active) → (closed : List ℕ) → Timed → Type 0
Sweeps now kept rest closed t =
    (t.active_socks ≡ kept ++ in_time now rest) × (t.closed ≡ closed ++ fds (overdue now rest))

sweep-Sweeps :
    (now : ℕ) (kept rest : List Active) (s : Timed)
    → Sweeps now kept rest s.closed (sweep now kept rest s)
unfolding sweep
sweep-Sweeps now kept [] s = (sym (append-nil kept), sym (append-nil s.closed))
sweep-Sweeps now kept (a ∷ rest) s =
    step (expired now a) (sweep-Sweeps now kept rest (close a.fd (unwatch a.fd s)))
      (sweep-Sweeps now (kept ++ a ∷ []) rest s)
  where
    step :
        (b : Bool)
        → Sweeps now kept rest
            (s.closed ++ a.fd ∷ [])
            (sweep now kept rest (close a.fd (unwatch a.fd s)))
        → Sweeps now (kept ++ a ∷ []) rest s.closed (sweep now (kept ++ a ∷ []) rest s)
        → ((if b
              then sweep now kept rest (close a.fd (unwatch a.fd s))
              else sweep now (kept ++ a ∷ []) rest s).active_socks
            ≡ kept ++ (if b then in_time now rest else a ∷ in_time now rest))
          × ((if b
                then sweep now kept rest (close a.fd (unwatch a.fd s))
                else sweep now (kept ++ a ∷ []) rest s).closed
              ≡ s.closed ++ fds (if b then a ∷ overdue now rest else overdue now rest))
    step true over on =
        (over.0, over.1 ∙ append_assoc s.closed (a.fd ∷ []) (fds (overdue now rest)))
    step false over on = (on.0 ∙ append_assoc kept (a ∷ []) (in_time now rest), on.1)

report_keeps :
    (b : Bool) (port : ℕ) (s : Timed)
    → ((if b then print_port port s else s).active_socks ≡ s.active_socks)
      × ((if b then print_port port s else s).closed ≡ s.closed)
report_keeps true port s = (refl, refl)
report_keeps false port s = (refl, refl)

-- The timer's event closes the sockets of the map that are over two seconds old, in the order of the
-- map, and keeps the others. The event of a socket closes it and takes its descriptor, and only that,
-- out of the map.
pub handle_lem :
    (e : Event) (s : Timed)
    → (unpack_port e.word ≡ 0
        → ((handle e s).active_socks ≡ in_time e.now s.active_socks)
          × ((handle e s).closed ≡ s.closed ++ fds (overdue e.now s.active_socks)))
      × (unpack_port e.word ≢ 0
          → ((x : ℕ)
              → count x (fds (handle e s).active_socks)
                ≡ (if unpack_fd e.word == x then 0 else count x (fds s.active_socks)))
            × ((handle e s).closed ≡ s.closed ++ unpack_fd e.word ∷ []))
unfolding handle finish
handle_lem e s =
    let port = unpack_port e.word in
    let fd = unpack_fd e.word in
    let told = report e.err port s in
    let same = report_keeps (e.err == 0) port s in
    let choice : Bool → Timed =
      λ b. if b then sweep e.now [] s.active_socks s else finish fd told in
    (
      (λ timer.
          let is_timer : (port == 0) ≡ true = ground (arith, timer) in
          subst (Sweeps e.now [] s.active_socks s.closed) (sym (ap choice is_timer))
            (sweep-Sweeps e.now [] s.active_socks s)),
      λ ready.
          let is_ready : (port == 0) ≡ false = ground (arith, ready) in
          (
            (λ x.
                ap (λ (t : Timed). count x (fds t.active_socks)) (ap choice is_ready)
                ∙ count-erase_key fd x told.active_socks
                ∙ ap (λ l. if fd == x then 0 else count x (fds l)) same.0),
            ap (λ (t : Timed). t.closed) (ap choice is_ready) ∙ ap (λ l. l ++ fd ∷ []) same.1,
          ),
    )
