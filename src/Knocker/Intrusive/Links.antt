-- ===== src/Knocker/Intrusive/Links.antt =====
-- Runs of linked connections: from the neighbour `p` before to the neighbour `n` behind.
use low_level_cpp.Base.{
  ℕ, ◌<◌, ◌≡◌, ◌≢◌, refl, ap, ◌∙◌, Option, some, List, [], ◌∷◌, ◌++◌, arith, count, ==_refl,
  ==-false,
}
use low_level_cpp.Knocker.Intrusive.{Table, set_next, set_prev}

abbrev pub first_or : List ℕ → Option ℕ → Option ℕ
first_or [] n = n
first_or (x ∷ xs) n = some x

abbrev pub last_or : Option ℕ → List ℕ → Option ℕ
last_or p [] = p
last_or p (x ∷ xs) = last_or (some x) xs

abbrev pub Seg : Table → Option ℕ → List ℕ → Option ℕ → Type 0
Seg t p [] n = Unit
Seg t p (x ∷ xs) n = ((t x).prev ≡ p) × ((t x).next ≡ first_or xs n) × Seg t (some x) xs n

abbrev pub Distinct : List ℕ → Type 0
Distinct [] = Unit
Distinct (x ∷ xs) = (count x xs ≡ 0) × Distinct xs

-- What a write of one link does, and that it does not reach other connections.
pub set_links_self :
    (t : Table) (fd : ℕ) (v : Option ℕ)
    → ((set_next t fd v fd).next ≡ v)
      × ((set_next t fd v fd).prev ≡ (t fd).prev)
      × ((set_prev t fd v fd).prev ≡ v)
      × ((set_prev t fd v fd).next ≡ (t fd).next)
unfolding set_next set_prev
set_links_self t fd v = ground arith

pub set_links_other :
    (t : Table) (fd a : ℕ) (v : Option ℕ)
    → fd ≢ a
    → (set_next t fd v a ≡ t a) × (set_prev t fd v a ≡ t a)
unfolding set_next set_prev
set_links_other t fd a v ne = rw (==-false fd a ne) (refl, refl)

-- Only the links of the members matter.
abbrev pub SameLinks : Table → Table → List ℕ → Type 0
SameLinks t u xs = (a : ℕ) → 0 < count a xs → ((u a).prev ≡ (t a).prev) × ((u a).next ≡ (t a).next)

module _ (t u : Table) where
  pub Seg-frame :
      (p : Option ℕ) (xs : List ℕ) (n : Option ℕ) → SameLinks t u xs → Seg t p xs n → Seg u p xs n
  Seg-frame p [] n same s = tt
  Seg-frame p (x ∷ xs) n same (before, behind, s) =
      let here = same x (ground arith) in
      (here.0 ∙ before, here.1 ∙ behind, Seg-frame (some x) xs n (λ a h. same a (ground arith)) s)

module _ (t : Table) where
  pub Seg-append :
      (p : Option ℕ) (xs ys : List ℕ) (n : Option ℕ)
      → Seg t p xs (first_or ys n)
      → Seg t (last_or p xs) ys n
      → Seg t p (xs ++ ys) n
  Seg-append p [] ys n front back = back
  Seg-append p (x ∷ []) ys n (before, behind, s) back = (before, behind, back)
  Seg-append p (x ∷ y ∷ xs) ys n (before, behind, s) back =
      (before, behind, Seg-append (some x) (y ∷ xs) ys n s back)

  pub Seg-split :
      (p : Option ℕ) (xs ys : List ℕ) (n : Option ℕ)
      → Seg t p (xs ++ ys) n
      → Seg t p xs (first_or ys n) × Seg t (last_or p xs) ys n
  Seg-split p [] ys n s = (tt, s)
  Seg-split p (x ∷ []) ys n (before, behind, s) = ((before, behind, tt), s)
  Seg-split p (x ∷ y ∷ xs) ys n (before, behind, s) =
      let (front, back) = Seg-split (some x) (y ∷ xs) ys n s in ((before, behind, front), back)

  last-held : (x y : ℕ) (xs : List ℕ) → last_or (some x) xs ≡ some y → 0 < count y (x ∷ xs)
  last-held x y [] last = ground arith
  last-held x y (z ∷ xs) last = omega (arith, last-held z y xs last)

  -- A new neighbour behind the last member.
  pub Seg-set_next :
      (p : Option ℕ) (xs : List ℕ) (n m : Option ℕ) (y : ℕ)
      → Distinct xs
      → last_or p xs ≡ some y
      → Seg t p xs n
      → Seg (set_next t y m) p xs m
  unfolding set_next
  Seg-set_next p [] n m y d last s = tt
  Seg-set_next p (x ∷ []) n m y (new, d) last (before, behind, s) =
      let this : x ≡ y = ground arith in ground arith
  Seg-set_next p (x ∷ z ∷ xs) n m y (new, d) last (before, behind, s) =
      let apart : y ≢ x = λ e. omega (arith, last-held z x xs (last ∙ ap some e)) in
      let rest = Seg-set_next (some x) (z ∷ xs) n m y d last s in
      (rw (==-false y x apart) before, rw (==-false y x apart) behind, rest)

  -- A new neighbour before the first member.
  pub Seg-set_prev :
      (p q : Option ℕ) (x : ℕ) (xs : List ℕ) (n : Option ℕ)
      → Distinct (x ∷ xs)
      → Seg t p (x ∷ xs) n
      → Seg (set_prev t x q) q (x ∷ xs) n
  unfolding set_prev
  Seg-set_prev p q x xs n (new, d) (before, behind, s) = (
    rw (==_refl x) refl,
    rw (==_refl x) behind,
    Seg-frame t (set_prev t x q) (some x) xs n
        (λ a h. let apart : x ≢ a = ground arith in rw (==-false x a apart) (refl, refl)) s,
  )
