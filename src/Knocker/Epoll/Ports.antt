-- ===== src/Knocker/Epoll/Ports.antt =====
-- The loop over the ports in knocker/knocker-epoll.cc.
use mathlib.Core.List.{append_assoc, append-nil}
use low_level_cpp.Base.{
  [], ◌∷◌, ◌++◌, from_on, from_on-first, ℕ, zero, suc, ◌+◌, ◌-◌, ◌≤◌, ◌<◌, ◌≡◌, ◌⊎◌, inl, inr, refl,
  sym, ap, none, ◌∙◌, Bool, true, false, ◌&&◌, ◌||◌, not, List, arith, if◌then◌else◌, leb, ◌==◌,
  length, eq-cases,
}
use low_level_cpp.Base.Int.{ℤ, pos, negsuc, below, above}
use low_level_cpp.Knocker.{max_in_flight, invalid_range}
use low_level_cpp.Knocker.Intrusive.Scanner.{Attempt, Event}
use low_level_cpp.Knocker.Epoll.{
  Poller, Dialled, dialled, gives_up, dial, must_wait, Waited, drained, blocked, drain, Polled,
  success, failure, waits_on, dial_each, no_sockets, main,
}
use low_level_cpp.Knocker.Epoll.Tally.{
  Differ, Tallies, Dials, dial_sock-Dials, Drains, drain-Drains,
}

-- The kernel gave no socket for some port, or took its address for a wrong one.
abbrev pub Fails : (ℕ → Poller → Attempt) → Type 0
Fails kernel =
    (port : ℕ) × (s : Poller) × (((kernel port s).sock ≡ none)
      ⊎ ((kernel port s).address_ok ≡ false))

-- What holds when the program ends or waits, for the ports to be tried and their number.
abbrev pub Balances : (ℕ → Poller → Attempt) → (ports : List ℕ) → (total : ℕ) → Polled → Type 0
Balances kernel ports total (success t) =
    (t.tried ≡ ports) × (length t.opened ≡ total) × (length t.opened ≤ length t.closed)
Balances kernel ports total (failure t) = Tallies t × Fails kernel
Balances kernel ports total (waits_on t) = Tallies t × (above t.in_flight 0 ≡ true)

few_left : (a b : ℕ) (z : ℤ) → Differ a b z → above z 0 ≡ false → a ≤ b
few_left a b (pos n) d e = ground (arith, e)
few_left a b (negsuc n) d e = omega arith

waits_above :
    (last : Bool) (z : ℤ)
    → (not (below z max_in_flight) || last && above z 0) ≡ true
    → above z 0 ≡ true
waits_above last (pos n) e = ground (arith, e)
waits_above last (negsuc n) e = ground (arith, e)

out_above : (z : ℤ) → (not (below z max_in_flight) || above z 0) ≡ false → above z 0 ≡ false
out_above z e = ground (arith, e)

if-Balances :
    (kernel : ℕ → Poller → Attempt) (ports : List ℕ) (total : ℕ) (b : Bool) (x y : Polled)
    → (b ≡ true → Balances kernel ports total x)
    → (b ≡ false → Balances kernel ports total y)
    → Balances kernel ports total (if b then x else y)
if-Balances kernel ports total true x y h k = h refl
if-Balances kernel ports total false x y h k = k refl

-- Behind the last port nothing is in flight.
abbrev Left : (port end_port : ℕ) → Poller → Type 0
Left port end_port s = (port ≤ end_port) ⊎ ((port ≡ end_port + 1) × (above s.in_flight 0 ≡ false))

-- The ports tried and those from `port` on are all of them.
abbrev Counts : List ℕ → (total port end_port : ℕ) → Poller → Type 0
Counts ports total port end_port s =
    (length s.opened + (end_port + 1 - port) ≡ total)
    × (s.tried ++ from_on port (end_port + 1 - port) ≡ ports)

ended-Balances :
    (kernel : ℕ → Poller → Attempt) (ports : List ℕ) (port end_port total : ℕ) (s : Poller)
    → Tallies s
    → Left port end_port s
    → end_port < port
    → Counts ports total port end_port s
    → Balances kernel ports total (success s)
ended-Balances kernel ports port end_port total s d (inl early) over (count, rest) =
    absurd (omega arith)
ended-Balances kernel ports port end_port total s d (inr (now, out)) over (count, rest) =
    let none_left : 0 ≡ end_port + 1 - port = omega arith in
    (
      sym (append-nil s.tried) ∙ ap (λ n. s.tried ++ from_on port n) none_left ∙ rest,
      omega arith,
      few_left (length s.opened) (length s.closed) s.in_flight d out,
    )

drained-Left :
    (port end_port : ℕ) (u : Poller)
    → port ≤ end_port
    → must_wait (port == end_port) u ≡ false
    → Left (port + 1) end_port u
drained-Left port end_port u le out = elim (eq-cases port end_port) [
  | inl last ↦
      let is_last : (port == end_port) ≡ true = ground (arith, last) in
      let out' : must_wait true u ≡ false = sym (ap (λ b. must_wait b u) is_last) ∙ out in
      inr (omega arith, out_above u.in_flight out')
  | inr before ↦ inl (omega arith)
]

-- What the rest of the loop comes to, from a port on.
abbrev Rest : (fuel port end_port : ℕ) → (ℕ → Poller → Attempt) → List ℕ → ℕ → Type 0
Rest fuel port end_port kernel ports total =
    (later : List (List Event)) (u : Poller)
    → Tallies u
    → Left port end_port u
    → Counts ports total port end_port u
    → Balances kernel ports total (dial_each fuel port end_port kernel later u)

dial_each-Balances :
    (fuel port end_port : ℕ) (kernel : ℕ → Poller → Attempt) (batches : List (List Event))
    (s : Poller) (ports : List ℕ) (total : ℕ)
    → Tallies s
    → Left port end_port s
    → end_port < port + fuel
    → Counts ports total port end_port s
    → Balances kernel ports total (dial_each fuel port end_port kernel batches s)
unfolding dial_each dial
dial_each-Balances zero port end_port kernel batches s ports total d left enough count =
    ended-Balances kernel ports port end_port total s d left (omega arith) count
dial_each-Balances (suc fuel) port end_port kernel batches s ports total d left enough count =
    test (leb port end_port) refl (λ later u d' left' count'.
      dial_each-Balances fuel (port + 1) end_port kernel later u ports total d' left' (omega arith)
        count')
  where
    wait :
        (t : Poller) (w : Waited)
        → port ≤ end_port
        → (length t.opened ≡ length s.opened + 1) × (t.tried ≡ s.tried ++ port ∷ [])
        → Rest fuel (port + 1) end_port kernel ports total
        → Drains (port == end_port) t w
        → Balances kernel ports total (elim w [
          | blocked u ↦ waits_on u
          | drained later u ↦ dial_each fuel (port + 1) end_port kernel later u
        ])
    wait t (blocked u) le longer rest (d', waits) =
        (d', waits_above (port == end_port) u.in_flight waits)
    wait t (drained later u) le longer rest (d', out, same) =
        rest later u d' (drained-Left port end_port u le out) (
          omega (arith, longer.0, ap length same.0, count.0),
          ap (λ l. l ++ from_on (port + 1) (end_port + 1 - (port + 1))) (same.1 ∙ longer.1)
              ∙ append_assoc s.tried (port ∷ []) (from_on (port + 1) (end_port + 1 - (port + 1)))
              ∙ ap (λ l. s.tried ++ l) (sym (from_on-first port end_port le))
              ∙ count.1,
        )

    next :
        (r : Dialled)
        → port ≤ end_port
        → Rest fuel (port + 1) end_port kernel ports total
        → Dials (kernel port s).sock (kernel port s) port s r
        → Balances kernel ports total (elim r [
          | gives_up t ↦ failure t
          | dialled t ↦ elim (drain (port == end_port) batches t) [
            | blocked u ↦ waits_on u
            | drained later u ↦ dial_each fuel (port + 1) end_port kernel later u
          ]
        ])
    next (gives_up t) le rest (d', why) = (d', (port, s, why))
    next (dialled t) le rest (d', longer, tried) =
        wait t (drain (port == end_port) batches t) le (longer, tried) rest
          (drain-Drains (port == end_port) batches t d')

    test :
        (b : Bool)
        → leb port end_port ≡ b
        → Rest fuel (port + 1) end_port kernel ports total
        → Balances kernel ports total (elim b [
          | false ↦ success s
          | true ↦ elim (dial (kernel port s) port s) [
            | gives_up t ↦ failure t
            | dialled t ↦ elim (drain (port == end_port) batches t) [
              | blocked u ↦ waits_on u
              | drained later u ↦ dial_each fuel (port + 1) end_port kernel later u
            ]
          ]
        ])
    test false e rest =
        ended-Balances kernel ports port end_port total s d left (ground (arith, e)) count
    test true e rest =
        next (dial (kernel port s) port s) (ground (arith, e)) rest
          (dial_sock-Dials (kernel port s).sock (kernel port s) port s d)

-- Whatever the kernel answers, and whatever events it delivers: a range that is not valid fails at once,
-- with no socket opened. For a valid range, when the program succeeds it has opened one socket for
-- each port of the range, in their order, and has closed at least as many times. It fails only where
-- the kernel gave no socket or the address was not taken. The counter is the number of sockets
-- opened without those closed whenever it fails or waits for an event; and where it waits, the
-- counter is above zero.
pub main-Balances :
    (start_port end_port : ℕ) (kernel : ℕ → Poller → Attempt) (batches : List (List Event))
    → ((start_port < 1) ⊎ ((65535 < end_port) ⊎ (end_port < start_port))
        → main start_port end_port kernel batches ≡ failure no_sockets)
      × (1 ≤ start_port
          → end_port ≤ 65535
          → start_port ≤ end_port
          → Balances kernel
              (from_on start_port (end_port + 1 - start_port))
              (end_port + 1 - start_port)
              (main start_port end_port kernel batches))
unfolding main invalid_range
main-Balances start_port end_port kernel batches =
    let total : ℕ = end_port + 1 - start_port in
    (
      λ wrong. ground (arith, wrong),
      λ low high le.
          if-Balances kernel (from_on start_port total) total (invalid_range start_port end_port) _
            _ (λ e. absurd (ground (arith, e)))
            (λ e.
              dial_each-Balances (end_port + 2 - start_port) start_port end_port kernel batches
                no_sockets (from_on start_port total) total refl (inl le) (omega arith)
                (omega arith, refl)),
    )
