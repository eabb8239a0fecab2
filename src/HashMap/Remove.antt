-- ===== src/HashMap/Remove.antt =====
-- `lookup` and `remove` of the hash map against the first match in the bucket of the key.
use mathlib.Core.Path.{subst}
use low_level_cpp.Base.{
  ℕ, ◌+◌, ◌-◌, ◌%◌, ◌^◌, ◌<◌, ◌≡◌, ◌≢◌, inl, inr, refl, sym, ap, ◌∙◌, Bool, Option, none, some,
  List, [], ◌∷◌, arith, count, length, erase, eq-cases, ==_refl, ==-false, count-erase_le,
  length-erase,
}
use low_level_cpp.Base.Chain.{Ptr, nullptr, Chain-frame}
use low_level_cpp.Base.Store.{update}
use low_level_cpp.Base.Sums.{total-change, le-total}
use low_level_cpp.HashMap.{
  Link, slot, next_of, HashMap, bucket, ok, size_mod, lookup_, lookup, remove, detach_,
}
use low_level_cpp.HashMap.Search.{
  Chained, Distinct, find, find_link, find_link-find, find_link-Unlinks, Unlinks, unlinked,
  search_chain-find_link, find-held,
}
use low_level_cpp.HashMap.Invariant.{IsMap, population, bucket-lt}

-- The pointer that is returned for what was found.
abbrev pub or_null : Option Ptr → Ptr
or_null none = nullptr
or_null (some p) = p

-- The buckets after `remove`.
abbrev pub without : (ℕ → List Ptr) → ℕ → Option Ptr → ℕ → List Ptr
without b i none = b
without b i (some p) = update b i (erase p (b i))

erase-Distinct : (p : Ptr) (nodes : List Ptr) → Distinct nodes → Distinct (erase p nodes)
erase-Distinct p [] d = tt
erase-Distinct p (q ∷ nodes) (new, d) = elim (eq-cases q p) [
  | inl here ↦ rw here (rw (==_refl p) d)
  | inr away ↦
      rw (==-false q p away) (omega (arith, count-erase_le p q nodes), erase-Distinct p nodes d)
]

module _ (eq : Ptr → Ptr → Bool) (k : ℕ) (b : ℕ → List Ptr) (h : HashMap) (is : IsMap k b h)
    (key : Ptr) where
  abbrev pos : ℕ
  pos = bucket h key

  abbrev found : Option Ptr
  found = find eq h key (b pos)

  chain : Chained h (slot pos) (b pos)
  chain = is.chains pos (bucket-lt key is)

  lookup_-find_link : lookup_ eq key h ≡ ok (find_link eq h key (slot pos) (b pos)) h
  unfolding lookup_
  lookup_-find_link =
      let enough : length (b pos) < h.size + 1 =
        omega (arith, is.sized, le-total (λ i. length (b i)) pos (2 ^ k) (bucket-lt key is)) in
      let array = is.array in
      let run = search_chain-find_link eq h key (h.size + 1) (slot pos) (b pos) chain enough in
      ground arith

  -- `lookup` returns the first node of the key's bucket that has the key's hash code and that the
  -- comparison accepts, or null if there is none. It always ends, and changes nothing.
  pub lookup-find : lookup eq key h ≡ ok (or_null found) h
  unfolding lookup
  lookup-find = rw lookup_-find_link (elim (find_link-find eq h key (slot pos) (b pos) chain) [
    | inl (no_link, no_node) ↦ rw (no_link, no_node)
    | inr (l, p, at, node, leads, held) ↦ rw (at, node, leads)
  ])

  abbrev shrunk : Link → HashMap
  shrunk l = record h { cell = unlinked eq h key l; size = h.size - 1 }

  module _ (l : Link) (p : Ptr) (at : find_link eq h key (slot pos) (b pos) ≡ some l)
      (node : found ≡ some p) where
    abbrev smaller : ℕ → List Ptr
    smaller = update b pos (erase p (b pos))

    cut : Unlinks eq h key (slot pos) l (b pos) (erase p (b pos))
    cut = find_link-Unlinks eq h key (slot pos) l p (b pos) chain (is.distinct pos) tt at node

    held : 0 < count p (b pos)
    held = find-held eq h key p (b pos) node

    elsewhere : (i : ℕ) → pos ≢ i → (a : Ptr) → 0 < count a (b i) → count a (b pos) ≡ 0
    elsewhere i away a at_i = elim (eq-cases (count a (b pos)) 0) [
      | inl none_here ↦ none_here
      | inr some_here ↦ absurd (away (sym (is.placed pos a (omega arith)) ∙ is.placed i a at_i))
    ]

    smaller-chains : (i : ℕ) → i < 2 ^ k → Chained (shrunk l) (slot i) (smaller i)
    smaller-chains i lt = elim (eq-cases pos i) [
      | inl here ↦
          subst (λ j. Chained (shrunk l) (slot j) (smaller j)) here (rw (==_refl pos) cut.0)
      | inr away ↦
          rw (==-false pos i away, cut.1 (slot i) tt (==-false pos i away))
            (Chain-frame (h.cell (slot i)) (b i)
              (λ a at_i. cut.1 (next_of a) (elsewhere i away a at_i) refl) (is.chains i lt))
    ]

    smaller-Distinct : (i : ℕ) → Distinct (smaller i)
    smaller-Distinct i = elim (eq-cases pos i) [
      | inl here ↦
          subst (λ j. Distinct (smaller j)) here
            (rw (==_refl pos) (erase-Distinct p (b pos) (is.distinct pos)))
      | inr away ↦ rw (==-false pos i away) (is.distinct i)
    ]

    population-smaller : population smaller (2 ^ k) + 1 ≡ population b (2 ^ k)
    population-smaller =
        let there : length (smaller pos) + 1 ≡ length (b pos) =
          rw (==_refl pos) (omega (arith, length-erase p (b pos) held)) in
        omega (
          arith,
          total-change (λ i. length (b i)) (λ i. length (smaller i)) pos (2 ^ k) (bucket-lt key is)
              (λ j ne. rw (==-false pos j (λ e. ne (sym e)))),
          there,
        )

    unlinked-IsMap : IsMap k smaller (shrunk l)
    unlinked-IsMap = record {
      array = is.array;
      mask = is.mask;
      chains = smaller-chains;
      distinct = smaller-Distinct;
      placed =
          λ i q at_i. ground (arith, is.placed i q, is.placed pos q, count-erase_le p q (b pos));
      sized = omega (arith, population-smaller, is.sized);
      small = omega (arith, population-smaller, is.small);
    }

    detached : detach_ l h ≡ ok (h.cell l) (shrunk l)
    unfolding detach_
    detached =
        let counted : (h.size + size_mod - 1) % size_mod ≡ h.size - 1 =
          omega (arith, is.sized, is.small, population-smaller) in
        ground arith

  -- `remove` returns what `lookup` finds, and takes that node out of its bucket. All else stays.
  pub remove-find :
      (h' : HashMap) × (remove eq key h ≡ ok (or_null found) h') × IsMap k (without b pos found) h'
  unfolding remove
  remove-find = rw lookup_-find_link (elim (find_link-find eq h key (slot pos) (b pos) chain) [
    | inl (no_link, no_node) ↦ rw (no_link, no_node) (h, refl, is)
    | inr (l, p, at, node, leads, held') ↦
        rw (at, node)
          (
            shrunk l,
            detached l p at node ∙ ap (λ q. ok q (shrunk l)) leads,
            unlinked-IsMap l p at node,
          )
  ])
