-- ===== src/Knocker/Intrusive/Flight.antt =====
-- The state of the scanner while connections are in flight, and what ends them.
use low_level_cpp.Base.{
  ℕ, ◌≤◌, ◌<◌, ◌≡◌, ◌≢◌, inl, inr, refl, sym, ap, ◌∙◌, true, false, Option, none, some, List, arith,
  count, erase, length, eq-cases, ==_refl, ==-false, count-erase, count-erase_le, length-erase,
}
use low_level_cpp.Base.Int.{pos, decrement}
use low_level_cpp.Base.Store.{update}
use low_level_cpp.Knocker.{max_in_flight}
use low_level_cpp.Knocker.Intrusive.{
  Connection, Table, ConnList, set_next, set_prev, link_tail, list_insert_tail, unlink_between,
  list_unlink,
}
use low_level_cpp.Knocker.Intrusive.Queue.{IsQueue, IsQueue-links, Distinct-count}
use low_level_cpp.Knocker.Intrusive.Unlink.{list_unlink-IsQueue}
use low_level_cpp.Knocker.Intrusive.Scanner.{Scanner, finish}

-- The connections `fds` are in flight, oldest first.
pub record Flies (max_fd : ℕ) (s : Scanner) (fds : List ℕ) : Type 0 where
  pub queue : IsQueue s.table s.in_flight fds
  pub counted : s.in_flight_count ≡ pos (length fds)
  pub limit : length fds ≤ max_in_flight
  pub inside : (fd : ℕ) → 0 < count fd fds → fd < max_fd
  pub flying : (fd : ℕ) → 0 < count fd fds → (s.table fd).active ≡ true
  pub landed : (fd : ℕ) → count fd fds ≡ 0 → (s.table fd).active ≡ false

-- The other variables do not matter.
pub Flies-kept :
    (max_fd : ℕ) (s : Scanner) (fds : List ℕ) (port : ℕ) (answered closed : List ℕ)
    → Flies max_fd s fds
    → Flies max_fd (record s { port = port; answered = answered; closed = closed }) fds
Flies-kept max_fd s fds port answered closed fly = record {
  queue = fly.queue;
  counted = fly.counted;
  limit = fly.limit;
  inside = fly.inside;
  flying = fly.flying;
  landed = fly.landed;
}

-- The list operations touch only the links.
abbrev pub SameData : Connection → Connection → Type 0
SameData c d = (d.active ≡ c.active) × (d.port ≡ c.port) × (d.start_time ≡ c.start_time)

set_next-SameData : (t : Table) (fd a : ℕ) (v : Option ℕ) → SameData (t a) (set_next t fd v a)
unfolding set_next
set_next-SameData t fd a v = ground arith

set_prev-SameData : (t : Table) (fd a : ℕ) (v : Option ℕ) → SameData (t a) (set_prev t fd v a)
unfolding set_prev
set_prev-SameData t fd a v = ground arith

unlink-SameData :
    (p n : Option ℕ) (t : Table) (l : ConnList) (a : ℕ)
    → SameData (t a) ((unlink_between p n t l).0 a)
unlink-SameData none none t l a = (refl, refl, refl)
unlink-SameData none (some n) t l a = set_prev-SameData t n a none
unlink-SameData (some p) none t l a = set_next-SameData t p a none
unlink-SameData (some p) (some n) t l a = ground (
  arith,
  set_next-SameData t p a (some n),
  set_prev-SameData (set_next t p (some n)) n a (some p),
)

list_unlink-SameData :
    (t : Table) (l : ConnList) (fd a : ℕ) → SameData (t a) ((list_unlink t l fd).0 a)
unfolding list_unlink
list_unlink-SameData t l fd a = unlink-SameData (t fd).prev (t fd).next t l a

pub insert-SameData :
    (t : Table) (l : ConnList) (fd a : ℕ) → SameData (t a) ((list_insert_tail t l fd).0 a)
unfolding list_insert_tail
insert-SameData t l fd a = go l.tail
  where
    fresh : Option ℕ → Table
    fresh p = set_next (set_prev t fd p) fd none

    go : (p : Option ℕ) → SameData (t a) ((link_tail p (fresh p) l fd).0 a)
    go none =
        ground
          (arith, set_prev-SameData t fd a none, set_next-SameData (set_prev t fd none) fd a none)
    go (some y) = ground (
      arith,
      set_prev-SameData t fd a (some y),
      set_next-SameData (set_prev t fd (some y)) fd a none,
      set_next-SameData (fresh (some y)) y a (some fd),
    )

module _ (max_fd : ℕ) (s : Scanner) (fds : List ℕ) (fly : Flies max_fd s fds) (fd : ℕ)
    (held : 0 < count fd fds) where
  abbrev after : Table
  after = (list_unlink s.table s.in_flight fd).0

  abbrev off : Table
  off = update after fd (record (after fd) { active = false })

  off-data : (a : ℕ) → fd ≢ a → SameData (s.table a) (off a)
  off-data a ne = rw (==-false fd a ne) (list_unlink-SameData s.table s.in_flight fd a)

  -- The start times stay.
  pub finish-start_time : (a : ℕ) → ((finish fd s).table a).start_time ≡ (s.table a).start_time
  unfolding finish
  finish-start_time a = ground (arith, list_unlink-SameData s.table s.in_flight fd a)

  left-lone : (a : ℕ) → 0 < count a (erase fd fds) → fd ≢ a
  left-lone a h e =
      let once = Distinct-count fd fds fly.queue.distinct in
      omega (arith, rw (← e) at h, rw (==_refl fd) at (count-erase fd fd fds held))

  -- A connection that ends leaves the list, and the others stay in flight in their order.
  pub finish-Flies : Flies max_fd (finish fd s) (erase fd fds)
  unfolding finish
  finish-Flies = record {
    queue =
        IsQueue-links after off (list_unlink s.table s.in_flight fd).1 (erase fd fds)
          (λ a. ground arith) (list_unlink-IsQueue s.table s.in_flight fd fds fly.queue held);
    counted = ap decrement (fly.counted ∙ ap pos (sym (length-erase fd fds held)));
    limit = omega (arith, length-erase fd fds held, fly.limit);
    inside = λ a h. fly.inside a (omega (arith, count-erase_le fd a fds));
    flying = λ a h.
        (off-data a (left-lone a h)).0 ∙ fly.flying a (omega (arith, count-erase_le fd a fds));
    landed = λ a out. elim (eq-cases fd a) [
      | inl this ↦ rw this (rw (==_refl a))
      | inr other ↦
          (off-data a other).0
          ∙ fly.landed a
              (omega (arith, out, rw (==-false fd a other) at (count-erase fd a fds held)))
    ];
  }
