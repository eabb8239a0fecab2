-- ===== src/Knocker/Timer/Covered.antt =====
-- The ports that knocker/knocker-epoll-timer.cc has tried, in their order.
use low_level_cpp.Base.{
  ℕ, suc, ◌+◌, ◌-◌, ◌≤◌, ◌≡◌, refl, sym, ap, ◌∙◌, Bool, true, false, List, [], ◌∷◌, ◌++◌, arith,
  if◌then◌else◌, ◌==◌, from_on, from_on-last,
}
use low_level_cpp.Knocker.{unpack_port}
use low_level_cpp.Knocker.Intrusive.Scanner.{Event}
use low_level_cpp.Knocker.Timer.{
  Active, Timed, close, unwatch, expired, sweep, finish, handle, handle_all,
}

-- The ports from `start` up to the next port have been tried, each once.
abbrev pub Covers : (start end_port : ℕ) → Timed → Type 0
Covers start end_port s =
    (start ≤ s.port) × (s.port ≤ end_port + 1) × (s.tried ≡ from_on start (s.port - start))

pub next-Covers :
    (start end_port : ℕ) (s t : Timed)
    → Covers start end_port s
    → s.port ≤ end_port
    → t.port ≡ s.port + 1
    → t.tried ≡ s.tried ++ s.port ∷ []
    → Covers start end_port t
next-Covers start end_port s t (from, upto, tried) le port longer =
    let here : start + (s.port - start) ≡ s.port = omega arith in
    let more : suc (s.port - start) ≡ t.port - start = omega (arith, port) in
    (
      omega (arith, port),
      omega (arith, port),
      longer
          ∙ ap (λ l. l ++ s.port ∷ []) tried
          ∙ ap (λ n. from_on start (s.port - start) ++ n ∷ []) (sym here)
          ∙ sym (from_on-last start (s.port - start))
          ∙ ap (from_on start) more,
    )

-- The events change neither the next port nor the ports tried.
abbrev Stays : Timed → Timed → Type 0
Stays s t = (t.port ≡ s.port) × (t.tried ≡ s.tried)

if-Stays : (b : Bool) (s x y : Timed) → Stays s x → Stays s y → Stays s (if b then x else y)
if-Stays true s x y h k = h
if-Stays false s x y h k = k

sweep-Stays : (now : ℕ) (kept rest : List Active) (s : Timed) → Stays s (sweep now kept rest s)
unfolding sweep
sweep-Stays now kept [] s = (refl, refl)
sweep-Stays now kept (a ∷ rest) s =
    if-Stays (expired now a) s _ _ (sweep-Stays now kept rest (close a.fd (unwatch a.fd s)))
      (sweep-Stays now (kept ++ a ∷ []) rest s)

handle-Stays : (e : Event) (s : Timed) → Stays s (handle e s)
unfolding handle finish
handle-Stays e s =
    if-Stays (unpack_port e.word == 0) s _ _ (sweep-Stays e.now [] s.active_socks s)
      (if-Stays (e.err == 0) s _ _ (refl, refl) (refl, refl))

handle_all-Stays : (events : List Event) (s : Timed) → Stays s (handle_all events s)
unfolding handle_all
handle_all-Stays [] s = (refl, refl)
handle_all-Stays (e ∷ events) s =
    let (port, tried) = handle-Stays e s in
    let (port', tried') = handle_all-Stays events (handle e s) in (port' ∙ port, tried' ∙ tried)

pub handle_all-Covers :
    (start end_port : ℕ) (events : List Event) (s : Timed)
    → Covers start end_port s
    → Covers start end_port (handle_all events s)
handle_all-Covers start end_port events s (from, upto, tried) =
    let (port, same) = handle_all-Stays events s in
    (
      omega (arith, port),
      omega (arith, port),
      same ∙ tried ∙ ap (λ n. from_on start (n - start)) (sym port),
    )
