-- ===== src/Knocker/Intrusive/Unlink.antt =====
-- `list_unlink` takes a descriptor out of the queue, in each of its four cases.
use mathlib.Core.List.{append-nil}
use low_level_cpp.Base.{
  ℕ, ◌<◌, ◌≡◌, ◌≢◌, inl, inr, refl, sym, ap, ◌∙◌, Option, none, some, List, [], ◌∷◌, ◌++◌, arith,
  count, erase, eq-cases,
}
use low_level_cpp.Knocker.Intrusive.{
  Connection, Table, ConnList, set_next, set_prev, unlink_between, list_unlink,
}
use low_level_cpp.Knocker.Intrusive.Links.{
  first_or, last_or, SameLinks, Seg-frame, Seg-append, Seg-split, Seg-set_next, Seg-set_prev,
  set_links_other,
}
use low_level_cpp.Knocker.Intrusive.Queue.{
  IsQueue, Distinct-append, Distinct-split, last_or-append, last_or-cases, first-append,
  first_or-any, split_at,
}

same_next :
    (t : Table) (a : ℕ) (v : Option ℕ) (xs : List ℕ)
    → count a xs ≡ 0
    → SameLinks t (set_next t a v) xs
same_next t a v xs out b h =
    let ne : a ≢ b = λ e. omega (arith, ap (λ c. count c xs) e) in
    let same = (set_links_other t a b v ne).0 in
    (ap (λ (c : Connection). c.prev) same, ap (λ (c : Connection). c.next) same)

same_prev :
    (t : Table) (a : ℕ) (v : Option ℕ) (xs : List ℕ)
    → count a xs ≡ 0
    → SameLinks t (set_prev t a v) xs
same_prev t a v xs out b h =
    let ne : a ≢ b = λ e. omega (arith, ap (λ c. count c xs) e) in
    let same = (set_links_other t a b v ne).1 in
    (ap (λ (c : Connection). c.prev) same, ap (λ (c : Connection). c.next) same)

abbrev Unlinked : Option ℕ → Option ℕ → Table → ConnList → List ℕ → Type 0
Unlinked p n t l fds = IsQueue (unlink_between p n t l).0 (unlink_between p n t l).1 fds

module _ (t : Table) (l : ConnList) (fd : ℕ) where
  alone : Unlinked none none t l []
  alone = record { links = tt; head = refl; tail = refl; distinct = tt }

  first : (z : ℕ) (zs : List ℕ) → IsQueue t l (fd ∷ z ∷ zs) → Unlinked none (some z) t l (z ∷ zs)
  first z zs is =
      let (before, behind, rest) = is.links in
      record {
        links = Seg-set_prev t (some fd) none z zs none is.distinct.1 rest;
        head = refl;
        tail = is.tail;
        distinct = is.distinct.1;
      }

  module _ (ys : List ℕ) (y : ℕ) (last : last_or none ys ≡ some y) (held : 0 < count y ys) where
    final : IsQueue t l (ys ++ fd ∷ []) → Unlinked (some y) none t l (ys ++ [])
    final is =
        let (front, back) = Seg-split t none ys (fd ∷ []) none is.links in
        let (dy, df, apart) = Distinct-split ys (fd ∷ []) is.distinct in
        rw append-nil (record {
          links = Seg-set_next t none ys (some fd) none y dy last front;
          head = is.head ∙ first-append ys (fd ∷ []) none ∙ first_or-any y ys (some fd) none held;
          tail = sym last;
          distinct = dy;
        })

    middle :
        (z : ℕ) (zs : List ℕ)
        → IsQueue t l (ys ++ fd ∷ z ∷ zs)
        → Unlinked (some y) (some z) t l (ys ++ z ∷ zs)
    middle z zs is =
        let (front, back) = Seg-split t none ys (fd ∷ z ∷ zs) none is.links in
        let (dy, (new, dz), apart) = Distinct-split ys (fd ∷ z ∷ zs) is.distinct in
        let y_out : count y (z ∷ zs) ≡ 0 = omega (arith, apart y held) in
        let z_out : count z ys ≡ 0 = elim (eq-cases (count z ys) 0) [
          | inl out ↦ out
          | inr in_both ↦ absurd (ground (arith, apart z (omega arith)))
        ] in
        let u : Table = set_next t y (some z) in
        let v : Table = set_prev u z (some y) in
        record {
          links =
              Seg-append v none ys (z ∷ zs) none
                (Seg-frame u v none ys (some z) (same_prev u z (some y) ys z_out)
                  (Seg-set_next t none ys (some fd) (some z) y dy last front))
                (rw last (
                  Seg-set_prev u (some fd) (some y) z zs none dz (
                    Seg-frame t u (some fd) (z ∷ zs) none (same_next t y (some z) (z ∷ zs) y_out)
                      back.2)));
          head =
              is.head
              ∙ first-append ys (fd ∷ z ∷ zs) none
              ∙ first_or-any y ys (some fd) (some z) held
              ∙ sym (first-append ys (z ∷ zs) none);
          tail =
              is.tail
              ∙ last_or-append none ys (fd ∷ z ∷ zs)
              ∙ sym (last_or-append none ys (z ∷ zs));
          distinct = Distinct-append ys (z ∷ zs) dy dz (λ a h. omega (arith, apart a h));
        }

  -- The neighbours of a member are the last one before it and the first one behind it.
  unlinked :
      (ys zs : List ℕ)
      → IsQueue t l (ys ++ fd ∷ zs)
      → Unlinked (last_or none ys) (first_or zs none) t l (ys ++ zs)
  unlinked ys zs is = elim (last_or-cases ys) [
    | inl empty ↦ rw empty (unlinked_first zs (rw empty at is))
    | inr (y, last, held) ↦ rw last (unlinked_later ys y last held zs is)
  ]
    where
      unlinked_first :
          (zs : List ℕ) → IsQueue t l (fd ∷ zs) → Unlinked none (first_or zs none) t l zs
      unlinked_first [] is = alone
      unlinked_first (z ∷ zs) is = first z zs is

      unlinked_later :
          (ys : List ℕ) (y : ℕ)
          → last_or none ys ≡ some y
          → 0 < count y ys
          → (zs : List ℕ) → IsQueue t l (ys ++ fd ∷ zs)
          → Unlinked (some y) (first_or zs none) t l (ys ++ zs)
      unlinked_later ys y last held [] is = final ys y last held is
      unlinked_later ys y last held (z ∷ zs) is = middle ys y last held z zs is

  -- `list_unlink` takes a member out of the list and leaves the order of the others.
  pub list_unlink-IsQueue :
      (fds : List ℕ)
      → IsQueue t l fds
      → 0 < count fd fds
      → IsQueue (list_unlink t l fd).0 (list_unlink t l fd).1 (erase fd fds)
  unfolding list_unlink
  list_unlink-IsQueue fds is held =
      let (ys, zs, at, erased) = split_at fd fds held in
      let is' : IsQueue t l (ys ++ fd ∷ zs) = rw at at is in
      let (front, (before, behind, rest)) = Seg-split t none ys (fd ∷ zs) none is'.links in
      rw (erased, before, behind) (unlinked ys zs is')
