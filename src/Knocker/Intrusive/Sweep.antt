-- ===== src/Knocker/Intrusive/Sweep.antt =====
-- The timer's sweep ends the connections that are over the threshold, from the oldest on.
use mathlib.Core.Path.{subst}
use mathlib.Core.List.{append_assoc, append-nil}
use low_level_cpp.Base.{
  ℕ, zero, suc, ◌≤◌, ◌<◌, ◌≡◌, inl, inr, refl, sym, ap, ◌∙◌, true, false, none, some, List, [], ◌∷◌,
  ◌++◌, arith, if◌then◌else◌, length, All, ==_refl, Bool-cases,
}
use low_level_cpp.Knocker.Intrusive.{Table}
use low_level_cpp.Knocker.Intrusive.Flight.{Flies, finish-Flies, finish-start_time}
use low_level_cpp.Knocker.Intrusive.Scanner.{Scanner, expired, finish, sweep}

-- The connections before the first one that is not over the threshold, and the others.
abbrev pub overdue : ℕ → Table → List ℕ → List ℕ
overdue now t [] = []
overdue now t (x ∷ xs) = if expired now (t x) then x ∷ overdue now t xs else []

abbrev pub in_time : ℕ → Table → List ℕ → List ℕ
in_time now t [] = []
in_time now t (x ∷ xs) = if expired now (t x) then in_time now t xs else x ∷ xs

-- The start times do not fall along the list.
abbrev pub IsSorted : Table → List ℕ → Type 0
IsSorted t [] = Unit
IsSorted t (x ∷ []) = Unit
IsSorted t (x ∷ y ∷ xs) = ((t x).start_time ≤ (t y).start_time) × IsSorted t (y ∷ xs)

module _ (now : ℕ) where
  same_times :
      (t u : Table) (xs : List ℕ)
      → ((a : ℕ) → (u a).start_time ≡ (t a).start_time)
      → (overdue now u xs ≡ overdue now t xs) × (in_time now u xs ≡ in_time now t xs)
  same_times t u [] same = (refl, refl)
  same_times t u (x ∷ xs) same = ground (arith, same x, same_times t u xs same)

  overdue-in_time : (t : Table) (xs : List ℕ) → xs ≡ overdue now t xs ++ in_time now t xs
  overdue-in_time t [] = refl
  overdue-in_time t (x ∷ xs) = ground (arith, overdue-in_time t xs)

  overdue-expired :
      (t : Table) (xs : List ℕ) → All (λ x. expired now (t x) ≡ true) (overdue now t xs)
  overdue-expired t [] = tt
  overdue-expired t (x ∷ xs) = elim (Bool-cases (expired now (t x))) [
    | inl late ↦ rw late (late, overdue-expired t xs)
    | inr early ↦ rw early tt
  ]

  sorted-in_time :
      (t : Table) (x : ℕ) (xs : List ℕ)
      → IsSorted t (x ∷ xs)
      → expired now (t x) ≡ false
      → All (λ y. expired now (t y) ≡ false) (x ∷ xs)
  sorted-in_time t x [] order early = (early, tt)
  sorted-in_time t x (y ∷ xs) (le, order) early =
      (early, sorted-in_time t y xs order (ground arith))

  IsSorted-tail : (t : Table) (x : ℕ) (xs : List ℕ) → IsSorted t (x ∷ xs) → IsSorted t xs
  IsSorted-tail t x [] order = tt
  IsSorted-tail t x (y ∷ xs) (le, order) = order

  in_time-early :
      (t : Table) (xs : List ℕ)
      → IsSorted t xs
      → All (λ x. expired now (t x) ≡ false) (in_time now t xs)
  in_time-early t [] order = tt
  in_time-early t (x ∷ xs) order = elim (Bool-cases (expired now (t x))) [
    | inl late ↦ rw late (in_time-early t xs (IsSorted-tail t x xs order))
    | inr early ↦ rw early (sorted-in_time t x xs order early)
  ]

  -- What the sweep leaves of the connections fds.
  pub record Swept (max_fd : ℕ) (s : Scanner) (fds : List ℕ) (u : Scanner) : Type 0 where
    pub flies : Flies max_fd u (in_time now s.table fds)
    pub closed : u.closed ≡ s.closed ++ overdue now s.table fds
    pub answered : u.answered ≡ s.answered
    pub port : u.port ≡ s.port

  finish-rest :
      (s : Scanner) (fd : ℕ)
      → ((finish fd s).closed ≡ s.closed ++ fd ∷ [])
        × ((finish fd s).answered ≡ s.answered)
        × ((finish fd s).port ≡ s.port)
  unfolding finish
  finish-rest s fd = (refl, refl, refl)

  module _ (fuel : ℕ) (s : Scanner) where
    sweep-none : s.in_flight.head ≡ none → sweep (suc fuel) now s ≡ s
    unfolding sweep
    sweep-none e = ground arith

    sweep-late :
        (x : ℕ)
        → s.in_flight.head ≡ some x
        → expired now (s.table x) ≡ true
        → sweep (suc fuel) now s ≡ sweep fuel now (finish x s)
    unfolding sweep
    sweep-late x e late = ground arith

    sweep-early :
        (x : ℕ)
        → s.in_flight.head ≡ some x
        → expired now (s.table x) ≡ false
        → sweep (suc fuel) now s ≡ s
    unfolding sweep
    sweep-early x e early = ground arith

  module _ (max_fd : ℕ) where
    Swept-later :
        (s u : Scanner) (x : ℕ) (xs : List ℕ)
        → Flies max_fd s (x ∷ xs)
        → expired now (s.table x) ≡ true
        → Swept max_fd (finish x s) xs u
        → Swept max_fd s (x ∷ xs) u
    Swept-later s u x xs fly late rest =
        let times = finish-start_time max_fd s (x ∷ xs) fly x (ground arith) in
        let (gone, left) = same_times s.table (finish x s).table xs times in
        let (closed, answered, port) = finish-rest s x in
        record {
          flies = rw late (subst (Flies max_fd u) left rest.flies);
          closed = rw late (
              rest.closed
              ∙ ap (λ c. c ++ overdue now (finish x s).table xs) closed
              ∙ append_assoc s.closed (x ∷ []) (overdue now (finish x s).table xs)
              ∙ ap (λ o. s.closed ++ x ∷ o) gone);
          answered = rest.answered ∙ answered;
          port = rest.port ∙ port;
        }

    pub sweep-Swept :
        (fuel : ℕ) (s : Scanner) (fds : List ℕ)
        → Flies max_fd s fds
        → length fds < fuel
        → Swept max_fd s fds (sweep fuel now s)
    sweep-Swept zero s fds fly h = absurd (omega arith)
    sweep-Swept (suc fuel) s [] fly h =
        subst (Swept max_fd s []) (sym (sweep-none fuel s fly.queue.head))
          (record { flies = fly; closed = sym (append-nil s.closed); answered = refl; port = refl })
    sweep-Swept (suc fuel) s (x ∷ xs) fly h = elim (Bool-cases (expired now (s.table x))) [
      | inl late ↦
          let gone = finish-Flies max_fd s (x ∷ xs) fly x (ground arith) in
          let rest = sweep-Swept fuel (finish x s) xs (rw (==_refl x) at gone) (omega arith) in
          subst (Swept max_fd s (x ∷ xs)) (sym (sweep-late fuel s x fly.queue.head late))
            (Swept-later s (sweep fuel now (finish x s)) x xs fly late rest)
      | inr early ↦
          subst (Swept max_fd s (x ∷ xs)) (sym (sweep-early fuel s x fly.queue.head early))
            (record {
              flies = rw early fly;
              closed = rw early (sym (append-nil s.closed));
              answered = refl;
              port = refl;
            })
    ]

  -- A sweep of a list in the order of the start times, with fuel for more rounds than there are
  -- connections, closes exactly the connections that are over the threshold, in their order, and
  -- leaves the others in flight.
  pub sweep-exact :
      (max_fd fuel : ℕ) (s : Scanner) (fds : List ℕ)
      → Flies max_fd s fds
      → IsSorted s.table fds
      → length fds < fuel
      → (gone left : List ℕ) × (fds ≡ gone ++ left)
        × All (λ fd. expired now (s.table fd) ≡ true) gone
        × All (λ fd. expired now (s.table fd) ≡ false) left
        × ((sweep fuel now s).closed ≡ s.closed ++ gone)
        × Flies max_fd (sweep fuel now s) left
  sweep-exact max_fd fuel s fds fly order enough =
      let swept = sweep-Swept max_fd fuel s fds fly enough in
      (
        overdue now s.table fds,
        in_time now s.table fds,
        overdue-in_time s.table fds,
        overdue-expired s.table fds,
        in_time-early s.table fds order,
        swept.closed,
        swept.flies,
      )
