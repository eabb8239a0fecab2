-- ===== src/Knocker/Intrusive/Fill.antt =====
-- The inner loop: ports are tried until there are none left or the limit is reached.
use low_level_cpp.Base.{
  ℕ, zero, suc, ◌+◌, ◌-◌, ◌≤◌, ◌<◌, ◌≡◌, ◌≢◌, ◌⊎◌, inl, inr, refl, sym, ap, ◌∙◌, Bool, true, false,
  ◌&&◌, Option, none, some, List, [], ◌∷◌, ◌++◌, arith, ltb, leb, count, length, count-append,
  length-append, eq-cases, ==_refl, ==-false, Bool-cases, lt→ltb,
}
use low_level_cpp.Base.Int.{ℤ, pos, increment, below}
use low_level_cpp.Knocker.{max_in_flight}
use low_level_cpp.Knocker.Intrusive.{Table}
use low_level_cpp.Knocker.Intrusive.Queue.{IsQueue-links, list_insert_tail-IsQueue}
use low_level_cpp.Knocker.Intrusive.Flight.{Flies, Flies-kept, insert-SameData}
use low_level_cpp.Knocker.Intrusive.Scanner.{
  Scanner, Attempt, Connect, connected, in_progress, refused, Run, running, exit_failure, fault,
  and_then, started, launch, connect_port, try_address, try_sock, try_port, fill,
}

-- `socket` hands out a descriptor below the limit that is not in use.
abbrev pub IsHonest : ℕ → (Scanner → Attempt) → Type 0
IsHonest max_fd kernel =
    (s : Scanner) (fd : ℕ)
    → (kernel s).sock ≡ some fd
    → (fd < max_fd) × ((s.table fd).active ≡ false)

apart : (a fd : ℕ) → fd ≢ a → count a (fd ∷ []) ≡ 0
apart a fd ne = rw (==-false fd a ne)

here : (a fd : ℕ) → fd ≡ a → count a (fd ∷ []) ≡ 1
here a fd e = ground arith

module _ (max_fd : ℕ) (s : Scanner) (fds : List ℕ) (fly : Flies max_fd s fds) where
  unused : (fd : ℕ) → (s.table fd).active ≡ false → count fd fds ≡ 0
  unused fd off = elim (eq-cases (count fd fds) 0) [
    | inl out ↦ out
    | inr held ↦ let on = fly.flying fd (omega arith) in absurd (cc)
  ]

  launch-Flies :
      (fd now : ℕ)
      → fd < max_fd
      → (s.table fd).active ≡ false
      → length fds < max_in_flight
      → Flies max_fd (launch fd now s) (fds ++ fd ∷ [])
  launch-Flies fd now inside off room =
      let t : Table = started s.table fd s.port now in
      let new = unused fd off in
      let linked = insert-SameData t s.in_flight fd in
      let was : (a : ℕ) → fd ≢ a → count a (fds ++ fd ∷ []) ≡ count a fds =
        λ a other. omega (arith, count-append a fds (fd ∷ []), apart a fd other) in
      record {
        queue =
            list_insert_tail-IsQueue t s.in_flight fds fd
              (IsQueue-links s.table t s.in_flight fds (λ a. ground arith) fly.queue) new;
        counted = ap increment fly.counted ∙ ap pos (omega (arith, length-append fds (fd ∷ [])));
        limit = omega (arith, length-append fds (fd ∷ []));
        inside = λ a h. elim (eq-cases fd a) [
          | inl this ↦ rw (← this) inside
          | inr other ↦ fly.inside a (omega (arith, h, was a other))
        ];
        flying = λ a h. elim (eq-cases fd a) [
          | inl this ↦ rw (← this) ((linked fd).0 ∙ rw (==_refl fd))
          | inr other ↦
              (linked a).0
              ∙ (rw (==-false fd a other) (fly.flying a (omega (arith, h, was a other))))
        ];
        landed = λ a out.
            let other : fd ≢ a =
              λ e. omega (arith, out, count-append a fds (fd ∷ []), here a fd e) in
            (linked a).0
            ∙ (rw (==-false fd a other) (fly.landed a (omega (arith, out, was a other))));
      }

-- The test of the inner loop.
abbrev has_room : ℤ → ℕ → ℕ → Bool
has_room c port end_port = below c max_in_flight && leb port end_port

test_true :
    (n port end_port : ℕ)
    → has_room (pos n) port end_port ≡ true
    → (n < max_in_flight) × (port ≤ end_port)
test_true n port end_port h = ground arith

test_false :
    (n port end_port : ℕ)
    → has_room (pos n) port end_port ≡ false
    → n ≤ max_in_flight
    → (n ≡ max_in_flight) ⊎ (end_port < port)
test_false n port end_port h le = ground arith

-- A failure is the kernel's: in a state with the connections in order, it gave no socket, or
-- took the address for a wrong one.
abbrev pub Fails : ℕ → (Scanner → Attempt) → Type 0
Fails max_fd kernel =
    (t : Scanner) × (fds : List ℕ) × Flies max_fd t fds
    × (((kernel t).sock ≡ none) ⊎ ((kernel t).address_ok ≡ false))

-- The state after the inner loop, or after a part of it that stops with `full`.
abbrev pub Filled : ℕ → ℕ → (Scanner → Attempt) → Run → Type 0
Filled max_fd end_port kernel (running s) =
    (fds : List ℕ) × Flies max_fd s fds × ((length fds ≡ max_in_flight) ⊎ (end_port < s.port))
Filled max_fd end_port kernel exit_failure = Fails max_fd kernel
Filled max_fd end_port kernel fault = ⊥

-- The state after a round of the inner loop.
abbrev Tried : ℕ → ℕ → (Scanner → Attempt) → Run → Type 0
Tried max_fd port kernel (running s) = (fds : List ℕ) × Flies max_fd s fds × (s.port ≡ port + 1)
Tried max_fd port kernel exit_failure = Fails max_fd kernel
Tried max_fd port kernel fault = ⊥

module _ (max_fd : ℕ) (kernel : Scanner → Attempt) (honest : IsHonest max_fd kernel) where
  module _ (s : Scanner) (fds : List ℕ) (fly : Flies max_fd s fds)
      (room : length fds < max_in_flight) where
    connect_port-Tried :
        (c : Connect) (fd now : ℕ)
        → fd < max_fd
        → (s.table fd).active ≡ false
        → Tried max_fd s.port kernel (connect_port max_fd c fd now s)
    connect_port-Tried connected fd now inside off = (
      fds,
      Flies-kept max_fd s fds (s.port + 1) (s.answered ++ s.port ∷ []) (s.closed ++ fd ∷ []) fly,
      refl,
    )
    connect_port-Tried in_progress fd now inside off =
        let launched = launch-Flies max_fd s fds fly fd now inside off room in
        rw (lt→ltb fd max_fd inside) (
          fds ++ fd ∷ [],
          Flies-kept max_fd (launch fd now s) (fds ++ fd ∷ []) (s.port + 1) s.answered s.closed
              launched,
          refl,
        )
    connect_port-Tried refused fd now inside off =
        (fds, Flies-kept max_fd s fds (s.port + 1) s.answered (s.closed ++ fd ∷ []) fly, refl)

    try_address-Tried :
        (ok : Bool) (fd : ℕ) (a : Attempt)
        → fd < max_fd
        → (s.table fd).active ≡ false
        → (kernel s).address_ok ≡ ok
        → Tried max_fd s.port kernel (try_address max_fd ok fd a s)
    try_address-Tried true fd a inside off same = connect_port-Tried a.connect fd a.now inside off
    try_address-Tried false fd a inside off same = (s, fds, fly, inr same)

    try_sock-Tried :
        (o : Option ℕ)
        → (kernel s).sock ≡ o
        → ((fd : ℕ) → o ≡ some fd → (fd < max_fd) × ((s.table fd).active ≡ false))
        → Tried max_fd s.port kernel (try_sock max_fd o (kernel s) s)
    try_sock-Tried none same safe = (s, fds, fly, inl same)
    try_sock-Tried (some fd) same safe =
        let (inside, off) = safe fd refl in
        let accepted : ltb max_fd fd ≡ false = ground arith in
        rw accepted (try_address-Tried (kernel s).address_ok fd (kernel s) inside off refl)

    try_port-Tried : Tried max_fd s.port kernel (try_port max_fd (kernel s) s)
    unfolding try_port
    try_port-Tried = try_sock-Tried (kernel s).sock refl (honest s)

  module _ (end_port : ℕ) where
    and_then-Filled :
        (r : Run) (port : ℕ) (k : Scanner → Run)
        → Tried max_fd port kernel r
        → ((t : Scanner) (fds : List ℕ)
            → Flies max_fd t fds
            → t.port ≡ port + 1
            → Filled max_fd end_port kernel (k t))
        → Filled max_fd end_port kernel (and_then r k)
    and_then-Filled (running t) port k (fds, fly, at) next = next t fds fly at
    and_then-Filled exit_failure port k tried next = tried
    and_then-Filled fault port k tried next = tried

    -- With fuel for the ports that are left, the inner loop ends with the limit reached or no port
    -- left and the connections still in order, or it fails. It fails only where, in a state with the
    -- connections in order, the kernel gave no socket or the address was not taken. It makes no access
    -- outside of the table.
    pub fill-Filled :
        (fuel : ℕ) (s : Scanner) (fds : List ℕ)
        → Flies max_fd s fds
        → end_port + 1 - s.port < fuel
        → Filled max_fd end_port kernel (fill fuel max_fd end_port kernel s)
    unfolding fill
    fill-Filled zero s fds fly enough = absurd (omega arith)
    fill-Filled (suc fuel) s fds fly enough =
        let counted = ap (λ c. has_room c s.port end_port) fly.counted in
        elim (Bool-cases (has_room s.in_flight_count s.port end_port)) [
          | inl go ↦
              let (room, left) = test_true (length fds) s.port end_port (sym counted ∙ go) in
              rw go (
                and_then-Filled (try_port max_fd (kernel s) s) s.port
                  (λ t. fill fuel max_fd end_port kernel t) (try_port-Tried s fds fly room)
                  (λ t fds' fly' at. fill-Filled fuel t fds' fly' (omega arith)))
          | inr stop ↦
              rw stop
                (fds, fly, test_false (length fds) s.port end_port (sym counted ∙ stop) fly.limit)
        ]
