-- ===== src/Knocker/Intrusive/Queue.antt =====
-- The intrusive list as a queue of file descriptors.
use mathlib.Core.Path.{subst}
use low_level_cpp.Base.{
  ℕ, ◌≤◌, ◌<◌, ◌≡◌, ◌≢◌, ◌⊎◌, inl, inr, refl, sym, ap, ◌∙◌, Option, none, some, List, [], ◌∷◌, ◌++◌,
  arith, count, erase, count-append, eq-cases, ==-false,
}
use low_level_cpp.Knocker.Intrusive.{
  Connection, Table, ConnList, set_next, set_prev, link_tail, list_insert_tail,
}
use low_level_cpp.Knocker.Intrusive.Links.{
  first_or, last_or, Seg, Distinct, Seg-frame, Seg-append, Seg-set_next, set_links_self,
  set_links_other,
}

-- The list leads through the descriptors `fds`, in order, both ways.
pub record IsQueue (t : Table) (l : ConnList) (fds : List ℕ) : Type 0 where
  pub links : Seg t none fds none
  pub head : l.head ≡ first_or fds none
  pub tail : l.tail ≡ last_or none fds
  pub distinct : Distinct fds

-- A table with the same links has the same list.
pub IsQueue-links :
    (t u : Table) (l : ConnList) (fds : List ℕ)
    → ((a : ℕ) → ((u a).prev ≡ (t a).prev) × ((u a).next ≡ (t a).next))
    → IsQueue t l fds
    → IsQueue u l fds
IsQueue-links t u l fds same is = record {
  links = Seg-frame t u none fds none (λ a h. same a) is.links;
  head = is.head;
  tail = is.tail;
  distinct = is.distinct;
}

pub Distinct-count : (a : ℕ) (xs : List ℕ) → Distinct xs → count a xs ≤ 1
Distinct-count a [] d = omega arith
Distinct-count a (x ∷ xs) (new, d) = elim (eq-cases x a) [
  | inl e ↦ let none_left = ap (λ c. count c xs) e in ground arith
  | inr ne ↦ rw (==-false x a ne) (omega (arith, Distinct-count a xs d))
]

pub Distinct-append :
    (xs ys : List ℕ)
    → Distinct xs
    → Distinct ys
    → ((a : ℕ) → 0 < count a xs → count a ys ≡ 0)
    → Distinct (xs ++ ys)
Distinct-append [] ys dx dy apart = dy
Distinct-append (x ∷ xs) ys (new, dx) dy apart = (
  omega (arith, count-append x xs ys, apart x (ground arith)),
  Distinct-append xs ys dx dy (λ a h. apart a (ground arith)),
)

pub Distinct-split :
    (xs ys : List ℕ)
    → Distinct (xs ++ ys)
    → Distinct xs × Distinct ys × ((a : ℕ) → 0 < count a xs → count a ys ≡ 0)
Distinct-split [] ys d = (tt, d, λ a h. absurd (omega arith))
Distinct-split (x ∷ xs) ys (new, d) =
    let (dx, dy, apart) = Distinct-split xs ys d in
    (
      (omega (arith, count-append x xs ys), dx),
      dy,
      λ a h. elim (eq-cases x a) [
        | inl e ↦ omega (arith, count-append x xs ys, ap (λ c. count c ys) e)
        | inr ne ↦ apart a (ground arith)
      ],
    )

last-append : (p : Option ℕ) (xs : List ℕ) (y : ℕ) → last_or p (xs ++ y ∷ []) ≡ some y
last-append p [] y = refl
last-append p (x ∷ xs) y = last-append (some x) xs y

pub first-append :
    (xs ys : List ℕ) (n : Option ℕ) → first_or (xs ++ ys) n ≡ first_or xs (first_or ys n)
first-append [] ys n = refl
first-append (x ∷ xs) ys n = refl

pub last_or-append :
    (p : Option ℕ) (xs ys : List ℕ) → last_or p (xs ++ ys) ≡ last_or (last_or p xs) ys
last_or-append p [] ys = refl
last_or-append p (x ∷ xs) ys = last_or-append (some x) xs ys

-- The position of a member.
pub split_at :
    (a : ℕ) (xs : List ℕ)
    → 0 < count a xs
    → (ys zs : List ℕ) × (xs ≡ ys ++ a ∷ zs) × (erase a xs ≡ ys ++ zs)
split_at a [] h = absurd (omega arith)
split_at a (x ∷ xs) h = elim (eq-cases x a) [
  | inl e ↦ ([], xs, ap (λ c. c ∷ xs) e, ground arith)
  | inr ne ↦
      let (ys, zs, at, erased) = split_at a xs (ground arith) in
      (x ∷ ys, zs, ap (λ l. x ∷ l) at, rw (==-false x a ne) (ap (λ l. x ∷ l) erased))
]

-- the list has no last member only if it is empty
pub last_or-cases :
    (xs : List ℕ) → (xs ≡ []) ⊎ ((y : ℕ) × (last_or none xs ≡ some y) × (0 < count y xs))
last_or-cases [] = inl refl
last_or-cases (x ∷ xs) = inr (go x xs)
  where
    go : (x : ℕ) (xs : List ℕ) → (y : ℕ) × (last_or (some x) xs ≡ some y) × (0 < count y (x ∷ xs))
    go x [] = (x, refl, ground arith)
    go x (z ∷ xs) = let (y, e, h) = go z xs in (y, e, omega (arith, h))

-- With a member the list's first element does not depend on what follows.
first_or-held :
    (y : ℕ) (xs ys : List ℕ) (n m : Option ℕ)
    → 0 < count y xs
    → first_or xs n ≡ first_or (xs ++ ys) m
first_or-held y [] ys n m h = absurd (omega arith)
first_or-held y (x ∷ xs) ys n m h = refl

pub first_or-any :
    (y : ℕ) (xs : List ℕ) (n m : Option ℕ) → 0 < count y xs → first_or xs n ≡ first_or xs m
first_or-any y [] n m h = absurd (omega arith)
first_or-any y (x ∷ xs) n m h = refl

module _ (t : Table) (l : ConnList) (fds : List ℕ) (fd : ℕ) (is : IsQueue t l fds)
    (new : count fd fds ≡ 0) where
  fresh : Option ℕ → Table
  fresh p = set_next (set_prev t fd p) fd none

  fresh-other : (p : Option ℕ) (a : ℕ) → fd ≢ a → fresh p a ≡ t a
  unfolding fresh
  fresh-other p a ne =
      (set_links_other (set_prev t fd p) fd a none ne).0 ∙ (set_links_other t fd a p ne).1

  fresh_self : (p : Option ℕ) → ((fresh p fd).prev ≡ p) × ((fresh p fd).next ≡ none)
  unfolding fresh
  fresh_self p = (
    (set_links_self (set_prev t fd p) fd none).1 ∙ (set_links_self t fd p).2,
    (set_links_self (set_prev t fd p) fd none).0,
  )

  apart : (a : ℕ) → 0 < count a fds → fd ≢ a
  apart a h e = omega (arith, new, ap (λ c. count c fds) e)

  fresh-Seg : (p : Option ℕ) → Seg (fresh p) none fds none
  fresh-Seg p =
      Seg-frame t (fresh p) none fds none
        (λ a h. let same = fresh-other p a (apart a h) in rw same (refl, refl)) is.links

  extended-Distinct : Distinct (fds ++ fd ∷ [])
  extended-Distinct =
      Distinct-append fds (fd ∷ []) is.distinct (refl, tt) (λ a h. rw (==-false fd a (apart a h)))

  later-Seg :
      (y : ℕ)
      → last_or none fds ≡ some y
      → 0 < count y fds
      → Seg (set_next (fresh (some y)) y (some fd)) none (fds ++ fd ∷ []) none
  later-Seg y last held =
      let u = fresh (some y) in
      let self = fresh_self (some y) in
      let same = (set_links_other u y fd (some fd) (λ e. apart y held (sym e))).0 in
      Seg-append (set_next u y (some fd)) none fds (fd ∷ []) none
        (Seg-set_next u none fds none (some fd) y is.distinct last (fresh-Seg (some y)))
        (
          ap (λ (c : Connection). c.prev) same ∙ self.0 ∙ sym last,
          ap (λ (c : Connection). c.next) same ∙ self.1,
          tt,
        )

  inserted :
      (tl : Option ℕ)
      → tl ≡ last_or none fds
      → IsQueue (link_tail tl (fresh tl) l fd).0 (link_tail tl (fresh tl) l fd).1 (fds ++ fd ∷ [])
  inserted none last = elim (last_or-cases fds) [
    | inl empty ↦
        subst
          (λ fs. IsQueue (fresh none) (record { head = some fd; tail = some fd }) (fs ++ fd ∷ []))
          (sym empty)
          (record {
            links = ((fresh_self none).0, (fresh_self none).1, tt);
            head = refl;
            tail = refl;
            distinct = (refl, tt);
          })
    | inr (y, some_last, held) ↦ cc
  ]
  inserted (some y) last = elim (last_or-cases fds) [
    | inl empty ↦ let e : last_or none fds ≡ none = rw empty in cc
    | inr (z, some_last, held) ↦
        let this : z ≡ y = ground arith in
        record {
          links = later-Seg y (sym last) (rw this at held);
          head = is.head ∙ first_or-held z fds (fd ∷ []) none none held;
          tail = sym (last-append none fds fd);
          distinct = extended-Distinct;
        }
  ]

  -- `list_insert_tail` puts a descriptor that is not in the list behind the others.
  pub list_insert_tail-IsQueue :
      IsQueue (list_insert_tail t l fd).0 (list_insert_tail t l fd).1 (fds ++ fd ∷ [])
  unfolding list_insert_tail fresh
  list_insert_tail-IsQueue = inserted l.tail is.tail
