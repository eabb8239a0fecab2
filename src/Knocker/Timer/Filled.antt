-- ===== src/Knocker/Timer/Filled.antt =====
-- The inner loop of knocker/knocker-epoll-timer.cc, and what becomes of the sockets that it opens.
use low_level_cpp.Base.{
  ℕ, zero, suc, ◌+◌, ◌++◌, ◌≤◌, ◌<◌, ◌≡◌, ◌⊎◌, inl, inr, refl, ap, Bool, true, false, ◌&&◌, Option,
  none, some, [], ◌∷◌, arith, if◌then◌else◌, ltb, leb, length, count, count-append,
}
use low_level_cpp.Knocker.{max_in_flight}
use low_level_cpp.Knocker.Intrusive.Scanner.{Connect, connected, in_progress, refused, Attempt}
use low_level_cpp.Knocker.Timer.{
  Timed, put, Running, running, exit_failure, open_socket, connect_sock, try_sock, try_port, fill,
}
use low_level_cpp.Knocker.Timer.Covered.{Covers, next-Covers}
use low_level_cpp.Knocker.Timer.Tracked.{fds, Kept, count-erase_key, length-erase_key}

-- `socket` hands out no descriptor of the map.
abbrev pub IsFresh : (Timed → Attempt) → Type 0
IsFresh kernel =
    (s : Timed) (fd : ℕ) → (kernel s).sock ≡ some fd → count fd (fds s.active_socks) ≡ 0

connect_sock-Kept :
    (c : Connect) (fd now : ℕ) (s : Timed)
    → Kept s
    → length s.active_socks < max_in_flight
    → count fd (fds s.active_socks) ≡ 0
    → Kept (connect_sock c fd now (open_socket fd s))
      × ((connect_sock c fd now (open_socket fd s)).port ≡ s.port)
      × ((connect_sock c fd now (open_socket fd s)).tried ≡ s.tried ++ s.port ∷ [])
unfolding put
connect_sock-Kept connected fd now s k room new = (
  record {
    closed = λ x.
        ground
          (arith, k.closed x, count-append x s.closed (fd ∷ []), count-append x s.opened (fd ∷ []));
    once = k.once;
    few = k.few;
  },
  refl,
  refl,
)
connect_sock-Kept in_progress fd now s k room new = (
  record {
    closed = λ x. ground (
      arith,
      new,
      k.closed x,
      count-append x s.opened (fd ∷ []),
      count-erase_key fd x s.active_socks,
    );
    once = λ x. ground (arith, k.once x, count-erase_key fd x s.active_socks);
    few = omega (arith, room, length-erase_key fd s.active_socks);
  },
  refl,
  refl,
)
connect_sock-Kept refused fd now s k room new = (
  record {
    closed = λ x.
        ground
          (arith, k.closed x, count-append x s.closed (fd ∷ []), count-append x s.opened (fd ∷ []));
    once = k.once;
    few = k.few;
  },
  refl,
  refl,
)

abbrev Steps : Option ℕ → Attempt → Timed → Running → Type 0
Steps sock a s (running t) = Kept t × (t.port ≡ s.port + 1) × (t.tried ≡ s.tried ++ s.port ∷ [])
Steps sock a s (exit_failure t) = Kept t × ((sock ≡ none) ⊎ (a.address_ok ≡ false))

if-Steps :
    (sock : Option ℕ) (a : Attempt) (s : Timed) (b : Bool) (x y : Running)
    → Steps sock a s x
    → (b ≡ false → Steps sock a s y)
    → Steps sock a s (if b then x else y)
if-Steps sock a s true x y h k = h
if-Steps sock a s false x y h k = k refl

try_sock-Steps :
    (sock : Option ℕ) (a : Attempt) (s : Timed)
    → Kept s
    → length s.active_socks < max_in_flight
    → ((fd : ℕ) → sock ≡ some fd → count fd (fds s.active_socks) ≡ 0)
    → Steps sock a s (try_sock sock a s)
try_sock-Steps none a s k room new = (k, inl refl)
try_sock-Steps (some fd) a s k room new =
    let (kept, same, tried) = connect_sock-Kept a.connect fd a.now s k room (new fd refl) in
    if-Steps (some fd) a s a.address_ok _ _
      (
        record { closed = kept.closed; once = kept.once; few = kept.few },
        ap (λ n. n + 1) same,
        tried,
      )
      (λ wrong. (
        record {
          closed = λ x. ground (
            arith,
            k.closed x,
            count-append x s.closed (fd ∷ []),
            count-append x s.opened (fd ∷ []),
          );
          once = k.once;
          few = k.few;
        },
        inr wrong,
      ))

-- A failure is the kernel's: at a port of the range, with those before it tried, it gave no socket, or
-- took the address for a wrong one.
abbrev pub Fails : (start end_port : ℕ) → (Timed → Attempt) → Type 0
Fails start end_port kernel =
    (s : Timed) × Covers start end_port s
    × (s.port ≤ end_port)
    × (((kernel s).sock ≡ none) ⊎ ((kernel s).address_ok ≡ false))

-- The inner loop ends with every port tried or with as many sockets as it may have.
abbrev pub Fills : (start end_port : ℕ) → (Timed → Attempt) → Running → Type 0
Fills start end_port kernel (running t) =
    Kept t
    × Covers start end_port t
    × ((end_port < t.port) ⊎ (max_in_flight ≤ length t.active_socks))
Fills start end_port kernel (exit_failure t) = Kept t × Fails start end_port kernel

pub fill-Fills :
    (fuel start end_port : ℕ) (kernel : Timed → Attempt) (s : Timed)
    → IsFresh kernel
    → Kept s
    → Covers start end_port s
    → end_port < s.port + fuel
    → Fills start end_port kernel (fill fuel end_port kernel s)
unfolding fill try_port
fill-Fills zero start end_port kernel s fresh k c enough = (k, c, inl (omega arith))
fill-Fills (suc fuel) start end_port kernel s fresh k c enough =
    test (ltb (length s.active_socks) max_in_flight && leb s.port end_port) refl
      (λ t kept covers same.
        fill-Fills fuel start end_port kernel t fresh kept covers (omega (arith, same)))
  where
    next :
        (r : Running)
        → ((t : Timed)
            → Kept t
            → Covers start end_port t
            → t.port ≡ s.port + 1
            → Fills start end_port kernel (fill fuel end_port kernel t))
        → s.port ≤ end_port
        → Steps (kernel s).sock (kernel s) s r
        → Fills start end_port kernel
            (elim r [ running t ↦ fill fuel end_port kernel t | exit_failure t ↦ exit_failure t ])
    next (running t) rest le (kept, same, tried) =
        rest t kept (next-Covers start end_port s t c le same tried) same
    next (exit_failure t) rest le (kept, why) = (kept, (s, c, le, why))

    test :
        (b : Bool)
        → (ltb (length s.active_socks) max_in_flight && leb s.port end_port) ≡ b
        → ((t : Timed)
            → Kept t
            → Covers start end_port t
            → t.port ≡ s.port + 1
            → Fills start end_port kernel (fill fuel end_port kernel t))
        → Fills start end_port kernel (elim b [
          | false ↦ running s
          | true ↦ elim (try_port (kernel s) s) [
            | running t ↦ fill fuel end_port kernel t
            | exit_failure t ↦ exit_failure t
          ]
        ])
    test false e rest = (k, c, ground (arith, e))
    test true e rest =
        next (try_port (kernel s) s) rest (ground (arith, e))
          (try_sock-Steps (kernel s).sock (kernel s) s k (ground (arith, e)) (fresh s))
