-- ===== src/Knocker/Blocking.antt =====
-- knocker/knocker.cc: the scanner that tries one port after the other.
use low_level_cpp.Base.{
  ℕ, zero, suc, ◌+◌, ◌-◌, ◌<◌, ◌≡◌, inl, inr, refl, sym, ◌∙◌, Bool, true, false, List, [], ◌∷◌,
  ◌++◌, arith, if◌then◌else◌, leb, Bool-cases,
}
use mathlib.Core.List.{append-nil, append_assoc}
use low_level_cpp.Knocker.{invalid_range}

-- What socket, inet_pton and connect answer for a port.
pub record Answer : Type 0 where
  pub socket : Bool
  pub inet_pton : Bool
  pub connect : Bool

-- The ports that were printed, and how many sockets were opened and closed.
pub record Knocks : Type 0 where
  pub answered : List ℕ
  pub opened : ℕ
  pub closed : ℕ

pub data Exit : Type 0 where
  exit_success : Knocks → Exit
  exit_failure : Knocks → Exit
  out_of_fuel : Exit

abbrev pub try_connect : Bool → ℕ → Knocks → Knocks
try_connect connected port k = record {
  answered = if connected then k.answered ++ port ∷ [] else k.answered;
  opened = k.opened + 1;
  closed = k.closed + 1;
}

abbrev pub leave_open : Knocks → Knocks
leave_open k = record k { opened = k.opened + 1; closed = k.closed + 1 }

-- The body of the loop over the ports; `rest` is the rounds after it.
abbrev pub round : Answer → ℕ → Knocks → (Knocks → Exit) → Exit
round a port k rest =
    if a.socket
    then if a.inet_pton then rest (try_connect a.connect port k) else exit_failure (leave_open k)
    else exit_failure k

-- The loop over the ports, with fuel.
unfoldable pub knock : ℕ → (end_port : ℕ) → (ℕ → Answer) → ℕ → Knocks → Exit
knock zero end_port kernel port k = out_of_fuel
knock (suc fuel) end_port kernel port k =
    let rest = λ (l : Knocks). knock fuel end_port kernel (port + 1) l in
    if leb port end_port then round (kernel port) port k rest else exit_success k

abbrev pub no_knocks : Knocks
no_knocks = record { answered = []; opened = 0; closed = 0 }

-- A round for each port, and one to see that there is none left.
unfoldable pub main : (start_port end_port : ℕ) → (ℕ → Answer) → Exit
unfolding knock invalid_range
main start_port end_port kernel =
    if invalid_range start_port end_port
    then exit_failure no_knocks
    else knock (end_port + 2) end_port kernel start_port no_knocks

abbrev pub IsClosed : Exit → Type 0
IsClosed (exit_success k) = k.opened ≡ k.closed
IsClosed (exit_failure k) = k.opened ≡ k.closed
IsClosed out_of_fuel = ⊥

attempt-IsClosed :
    (sock address : Bool) (done failed none_opened : Exit)
    → IsClosed done
    → IsClosed failed
    → IsClosed none_opened
    → IsClosed (if sock then if address then done else failed else none_opened)
attempt-IsClosed false address done failed none_opened d f n = n
attempt-IsClosed true false done failed none_opened d f n = f
attempt-IsClosed true true done failed none_opened d f n = d

round-IsClosed :
    (a : Answer) (port : ℕ) (k : Knocks) (rest : Knocks → Exit)
    → k.opened ≡ k.closed
    → ((l : Knocks) → l.opened ≡ l.closed → IsClosed (rest l))
    → IsClosed (round a port k rest)
round-IsClosed a port k rest e next =
    attempt-IsClosed a.socket a.inet_pton _ _ _ (next _ (omega arith)) (omega arith) e

knock-IsClosed :
    (fuel end_port : ℕ) (kernel : ℕ → Answer) (port : ℕ) (k : Knocks)
    → end_port + 1 - port < fuel
    → k.opened ≡ k.closed
    → IsClosed (knock fuel end_port kernel port k)
unfolding knock
knock-IsClosed zero end_port kernel port k enough e = absurd (omega arith)
knock-IsClosed (suc fuel) end_port kernel port k enough e = elim (Bool-cases (leb port end_port)) [
  | inl go ↦
      let fewer : end_port + 1 - (port + 1) < fuel = ground arith in
      rw go (
        round-IsClosed (kernel port) port k _ e
          (λ l same. knock-IsClosed fuel end_port kernel (port + 1) l fewer same))
  | inr stop ↦ rw stop e
]

-- Whatever the kernel answers, the scanner ends, and it has closed every socket that it opened.
pub main-IsClosed :
    (start_port end_port : ℕ) (kernel : ℕ → Answer) → IsClosed (main start_port end_port kernel)
unfolding main
main-IsClosed start_port end_port kernel = elim (Bool-cases (invalid_range start_port end_port)) [
  | inl bad ↦ rw bad refl
  | inr good ↦
      rw good
        (knock-IsClosed (end_port + 2) end_port kernel start_port no_knocks (omega arith) refl)
]

-- The ports of a row that accept the connection.
abbrev pub open_ports : (ℕ → Answer) → (count port : ℕ) → List ℕ
open_ports kernel zero port = []
open_ports kernel (suc count) port =
    if (kernel port).connect
    then port ∷ open_ports kernel count (port + 1)
    else open_ports kernel count (port + 1)

-- The port was tried: the list grows by the port or not at all.
answered_next :
    (kernel : ℕ → Answer) (count port : ℕ) (k : Knocks)
    → (try_connect (kernel port).connect port k).answered ++ open_ports kernel count (port + 1)
      ≡ k.answered ++ open_ports kernel (suc count) port
answered_next kernel count port k = elim (Bool-cases (kernel port).connect) [
  | inl accepted ↦ rw accepted (append_assoc k.answered (port ∷ []) _)
  | inr refused ↦ rw refused refl
]

module _ (end_port : ℕ) (kernel : ℕ → Answer) (sockets : (p : ℕ) → (kernel p).socket ≡ true)
    (addresses : (p : ℕ) → (kernel p).inet_pton ≡ true) where
  knock-Prints :
      (count fuel port : ℕ) (k : Knocks)
      → count ≡ end_port + 1 - port
      → count < fuel
      → (l : Knocks) × (knock fuel end_port kernel port k ≡ exit_success l)
        × (l.answered ≡ k.answered ++ open_ports kernel count port)
  unfolding knock
  knock-Prints count zero port k e enough = absurd (omega arith)
  knock-Prints zero (suc fuel) port k e enough =
      let stop : leb port end_port ≡ false = ground arith in
      (k, rw stop refl, sym (append-nil k.answered))
  knock-Prints (suc count) (suc fuel) port k e enough =
      let go : leb port end_port ≡ true = ground arith in
      let (l, ends, printed) =
        knock-Prints count fuel (port + 1) (try_connect (kernel port).connect port k) (omega arith)
          (omega arith) in
      (l, rw (go, sockets port, addresses port) ends, printed ∙ answered_next kernel count port k)

  -- When the kernel has sockets and the address is valid, a scan of a valid range succeeds, and prints
  -- just the ports of the range that accept the connection, each once, in order.
  pub main-prints :
      (start_port : ℕ)
      → invalid_range start_port end_port ≡ false
      → (k : Knocks) × (main start_port end_port kernel ≡ exit_success k)
        × (k.answered ≡ open_ports kernel (end_port + 1 - start_port) start_port)
  unfolding main
  main-prints start_port good =
      let (k, ends, printed) =
        knock-Prints (end_port + 1 - start_port) (end_port + 2) start_port no_knocks refl
          (omega arith) in
      (k, rw good ends, printed)
