-- ===== src/Knocker/Epoll/Tally.antt =====
-- How knocker/knocker-epoll.cc counts its sockets.
use mathlib.Core.Path.{subst}
use low_level_cpp.Base.{
  ℕ, zero, suc, ◌+◌, ◌≡◌, ◌⊎◌, inl, inr, refl, sym, ap, ◌∙◌, Bool, true, false, Option, none, some,
  List, [], ◌∷◌, ◌++◌, arith, if◌then◌else◌, ◌==◌, length, length-append,
}
use low_level_cpp.Base.Int.{ℤ, pos, negsuc, increment, decrement}
use low_level_cpp.Knocker.{unpack_fd, unpack_port}
use low_level_cpp.Knocker.Intrusive.Scanner.{
  Connect, connected, in_progress, refused, Attempt, Event,
}
use low_level_cpp.Knocker.Epoll.{
  Poller, print_answer, new_sock, after_connect, Dialled, dialled, gives_up, dial_sock,
  print_if_open, resolve, resolve_all, must_wait, Waited, drained, blocked, drain,
}

-- `z` more sockets were opened than closed.
abbrev pub Differ : (opened closed : ℕ) → ℤ → Type 0
Differ opened closed (pos n) = opened ≡ closed + n
Differ opened closed (negsuc n) = opened + suc n ≡ closed

-- The counter is right.
abbrev pub Tallies : Poller → Type 0
Tallies s = Differ (length s.opened) (length s.closed) s.in_flight

Differ-increment : (a b : ℕ) (z : ℤ) → Differ a b z → Differ (a + 1) b (increment z)
Differ-increment a b (pos n) d = omega arith
Differ-increment a b (negsuc zero) d = omega arith
Differ-increment a b (negsuc (suc n)) d = omega arith

Differ-decrement : (a b : ℕ) (z : ℤ) → Differ a b z → Differ a (b + 1) (decrement z)
Differ-decrement a b (pos zero) d = omega arith
Differ-decrement a b (pos (suc n)) d = omega arith
Differ-decrement a b (negsuc n) d = omega arith

Differ-both : (a b : ℕ) (z : ℤ) → Differ a b z → Differ (a + 1) (b + 1) z
Differ-both a b (pos n) d = omega arith
Differ-both a b (negsuc n) d = omega arith

length-snoc : (xs : List ℕ) (x : ℕ) → length xs + 1 ≡ length (xs ++ x ∷ [])
length-snoc xs x = omega (arith, length-append xs (x ∷ []))

-- Both lists grow by a socket.
both-Tallies :
    (opened closed : List ℕ) (fd : ℕ) (z : ℤ)
    → Differ (length opened) (length closed) z
    → Differ (length (opened ++ fd ∷ [])) (length (closed ++ fd ∷ [])) z
both-Tallies opened closed fd z d =
    subst (λ n. Differ n (length (closed ++ fd ∷ [])) z) (length-snoc opened fd)
      (subst (λ n. Differ (length opened + 1) n z) (length-snoc closed fd)
        (Differ-both (length opened) (length closed) z d))

after_connect-Tallies :
    (c : Connect) (fd port : ℕ) (s : Poller)
    → Tallies s
    → Tallies (after_connect c fd port (new_sock fd port s))
after_connect-Tallies connected fd port s d = both-Tallies s.opened s.closed fd s.in_flight d
after_connect-Tallies in_progress fd port s d =
    subst (λ n. Differ n (length s.closed) (increment s.in_flight)) (length-snoc s.opened fd)
      (Differ-increment (length s.opened) (length s.closed) s.in_flight d)
after_connect-Tallies refused fd port s d = both-Tallies s.opened s.closed fd s.in_flight d

-- The lists of sockets and ports are the same.
abbrev pub Grows : Poller → Poller → Type 0
Grows s t = (t.opened ≡ s.opened) × (t.tried ≡ s.tried)

opened_after : (c : Connect) (fd port : ℕ) (s : Poller) → Grows s (after_connect c fd port s)
opened_after connected fd port s = (refl, refl)
opened_after in_progress fd port s = (refl, refl)
opened_after refused fd port s = (refl, refl)

-- A round gives up only where there is no socket, or the address is not taken.
abbrev pub Dials : Option ℕ → Attempt → (port : ℕ) → Poller → Dialled → Type 0
Dials sock a port s (dialled t) =
    Tallies t × (length t.opened ≡ length s.opened + 1) × (t.tried ≡ s.tried ++ port ∷ [])
Dials sock a port s (gives_up t) = Tallies t × ((sock ≡ none) ⊎ (a.address_ok ≡ false))

if-Dials :
    (sock : Option ℕ) (a : Attempt) (port : ℕ) (s : Poller) (b : Bool) (x y : Dialled)
    → Dials sock a port s x
    → (b ≡ false → Dials sock a port s y)
    → Dials sock a port s (if b then x else y)
if-Dials sock a port s true x y h k = h
if-Dials sock a port s false x y h k = k refl

pub dial_sock-Dials :
    (sock : Option ℕ) (a : Attempt) (port : ℕ) (s : Poller)
    → Tallies s
    → Dials sock a port s (dial_sock sock a port s)
dial_sock-Dials none a port s d = (d, inl refl)
dial_sock-Dials (some fd) a port s d =
    if-Dials (some fd) a port s a.address_ok _ _
      (
        after_connect-Tallies a.connect fd port s d,
        ap length (opened_after a.connect fd port (new_sock fd port s)).0
            ∙ sym (length-snoc s.opened fd),
        (opened_after a.connect fd port (new_sock fd port s)).1,
      )
      (λ wrong. (both-Tallies s.opened s.closed fd s.in_flight d, inr wrong))

if-Tallies : (b : Bool) (x y : Poller) → Tallies x → Tallies y → Tallies (if b then x else y)
if-Tallies true x y h k = h
if-Tallies false x y h k = k

resolve-Tallies : (e : Event) (s : Poller) → Tallies s → Tallies (resolve e s)
unfolding resolve
resolve-Tallies e s d =
    let t = print_if_open e.err (unpack_port e.word) s in
    let d' : Tallies t = if-Tallies (e.err == 0) _ _ d d in
    subst (λ n. Differ (length t.opened) n (decrement t.in_flight))
      (length-snoc t.closed (unpack_fd e.word))
      (Differ-decrement (length t.opened) (length t.closed) t.in_flight d')

resolve_all-Tallies :
    (events : List Event) (s : Poller) → Tallies s → Tallies (resolve_all events s)
unfolding resolve_all
resolve_all-Tallies [] s d = d
resolve_all-Tallies (e ∷ events) s d =
    resolve_all-Tallies events (resolve e s) (resolve-Tallies e s d)

-- The inner loop is left when fewer sockets than the limit are in flight, and behind the last port
-- none.
abbrev pub Drains : Bool → Poller → Waited → Type 0
Drains last s (drained later t) = Tallies t × (must_wait last t ≡ false) × Grows s t
Drains last s (blocked t) = Tallies t × (must_wait last t ≡ true)

if-Drains :
    (last : Bool) (s : Poller) (b : Bool) (x y : Waited)
    → (b ≡ true → Drains last s x)
    → (b ≡ false → Drains last s y)
    → Drains last s (if b then x else y)
if-Drains last s true x y h k = h refl
if-Drains last s false x y h k = k refl

opened_if : (b : Bool) (x y : Poller) → Grows y x → Grows y (if b then x else y)
opened_if true x y e = e
opened_if false x y e = (refl, refl)

resolve_all-opened : (events : List Event) (s : Poller) → Grows s (resolve_all events s)
unfolding resolve_all resolve
resolve_all-opened [] s = (refl, refl)
resolve_all-opened (e ∷ events) s =
    let later = resolve_all-opened events (resolve e s) in
    let told = opened_if (e.err == 0) (print_answer (unpack_port e.word) s) s (refl, refl) in
    (later.0 ∙ told.0, later.1 ∙ told.1)

Drains-ext :
    (last : Bool) (s t : Poller) (w : Waited) → Grows t s → Drains last s w → Drains last t w
Drains-ext last s t (drained later u) e (tally, out, same) =
    (tally, out, (same.0 ∙ e.0, same.1 ∙ e.1))
Drains-ext last s t (blocked u) e h = h

pub drain-Drains :
    (last : Bool) (batches : List (List Event)) (s : Poller)
    → Tallies s
    → Drains last s (drain last batches s)
unfolding drain
drain-Drains last [] s d =
    if-Drains last s (must_wait last s) _ _ (λ e. (d, e)) (λ e. (d, e, (refl, refl)))
drain-Drains last (events ∷ batches) s d =
    if-Drains last s (must_wait last s) _ _
      (λ e.
        Drains-ext last (resolve_all events s) s (drain last batches (resolve_all events s))
          (resolve_all-opened events s)
          (drain-Drains last batches (resolve_all events s) (resolve_all-Tallies events s d)))
      (λ e. (d, e, (refl, refl)))
