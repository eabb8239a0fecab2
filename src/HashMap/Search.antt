-- ===== src/HashMap/Search.antt =====
-- The walk along one chain of the hash map: what it finds, and what unlinking it leaves.
use low_level_cpp.Base.{
  ℕ, zero, suc, ◌<◌, ◌≡◌, ◌≢◌, ◌⊎◌, inl, inr, refl, sym, ◌∙◌, Bool, true, false, Option, none, some,
  List, [], ◌∷◌, arith, if◌then◌else◌, count, length, erase, Bool-cases, ==_refl, ==-false,
}
use mathlib.Core.Path.{subst}
use low_level_cpp.Base.Chain.{Ptr, Chain, Chain-frame}
use low_level_cpp.HashMap.{
  Link, slot, next_of, same_link, update_link, HashMap, next, ok, matches, search_chain,
}

-- No node twice.
abbrev pub Distinct : List Ptr → Type 0
Distinct [] = Unit
Distinct (p ∷ nodes) = (count p nodes ≡ 0) × Distinct nodes

-- The link is not a field of one of the nodes.
abbrev pub Outside : Link → List Ptr → Type 0
Outside (slot i) nodes = Unit
Outside (next_of p) nodes = count p nodes ≡ 0

abbrev pub Chained : HashMap → Link → List Ptr → Type 0
Chained h from nodes = Chain (next h) (h.cell from) nodes

pub same_link_refl : (l : Link) → same_link l l ≡ true
same_link_refl (slot i) = ==_refl i
same_link_refl (next_of p) = ==_refl p

-- A link that is outside a chain is outside its tail, and is not the field of its first node.
Outside-tail :
    (l : Link) (q : Ptr) (nodes : List Ptr)
    → Outside l (q ∷ nodes)
    → Outside l nodes × (same_link (next_of q) l ≡ false)
Outside-tail (slot i) q nodes out = (tt, refl)
Outside-tail (next_of p) q nodes out = ground arith

Outside-apart :
    (l : Link) (a : Ptr) (nodes : List Ptr)
    → Outside l nodes
    → 0 < count a nodes
    → same_link l (next_of a) ≡ false
Outside-apart (slot i) a nodes out held = refl
Outside-apart (next_of p) a nodes out held = ground arith

module _ (eq : Ptr → Ptr → Bool) (h : HashMap) (key : Ptr) where
  -- The first node with the key's hash code that the caller's comparison accepts.
  abbrev pub find : List Ptr → Option Ptr
  find [] = none
  find (p ∷ nodes) = if matches eq h key p then some p else find nodes

  -- The pointer that leads to it.
  abbrev pub find_link : Link → List Ptr → Option Link
  find_link from [] = none
  find_link from (p ∷ nodes) = if matches eq h key p then some from else find_link (next_of p) nodes

  pub search_chain-find_link :
      (fuel : ℕ) (from : Link) (nodes : List Ptr)
      → Chained h from nodes
      → length nodes < fuel
      → search_chain eq fuel key from h ≡ ok (find_link from nodes) h
  unfolding search_chain
  search_chain-find_link zero from nodes c lt = absurd (omega arith)
  search_chain-find_link (suc fuel) from [] e lt = rw e
  search_chain-find_link (suc fuel) from (p ∷ nodes) (e, ne, c) lt =
      rw e (ground (arith, search_chain-find_link fuel (next_of p) nodes c (omega arith)))

  -- The link found leads to the node found.
  pub find_link-find :
      (from : Link) (nodes : List Ptr)
      → Chained h from nodes
      → (find_link from nodes ≡ none) × (find nodes ≡ none)
        ⊎ ((l : Link) × (p : Ptr) × (find_link from nodes ≡ some l)
            × (find nodes ≡ some p)
            × (h.cell l ≡ p)
            × (0 < count p nodes))
  find_link-find from [] c = inl (refl, refl)
  find_link-find from (p ∷ nodes) (e, ne, c) = elim (Bool-cases (matches eq h key p)) [
    | inl hit ↦ inr (from, p, rw hit, rw hit, e, ground arith)
    | inr miss ↦ rw miss (elim (find_link-find (next_of p) nodes c) [
      | inl gone ↦ inl gone
      | inr (l, q, at, is, leads, held) ↦ inr (l, q, at, is, leads, ground arith)
    ])
  ]

  pub find-held : (p : Ptr) (nodes : List Ptr) → find nodes ≡ some p → 0 < count p nodes
  find-held p [] is = cc
  find-held p (q ∷ nodes) is = ground (arith, find-held p nodes)

  abbrev pub unlinked : Link → Link → Ptr
  unlinked l = update_link h.cell l (next h (h.cell l))

  -- What a chain is after an unlinking at `l`, and what else the unlinking leaves alone.
  abbrev pub Unlinks : (from l : Link) → (before after : List Ptr) → Type 0
  Unlinks from l before after =
      Chain (λ a. unlinked l (next_of a)) (unlinked l from) after
      × ((k : Link) → Outside k before → same_link from k ≡ false → unlinked l k ≡ h.cell k)

  unlink_first :
      (from : Link) (q : Ptr) (nodes : List Ptr)
      → Chained h from (q ∷ nodes)
      → Outside from (q ∷ nodes)
      → Unlinks from from (q ∷ nodes) nodes
  unlink_first from q nodes (e, ne, c) out = (
    rw (same_link_refl from, e)
        (Chain-frame (next h q) nodes
          (λ a held. rw (Outside-apart from a nodes (Outside-tail from q nodes out).0 held)) c),
    λ k away apart. rw apart,
  )

  unlink_later :
      (from l : Link) (p q : Ptr) (nodes : List Ptr)
      → Chained h from (q ∷ nodes)
      → Outside from (q ∷ nodes)
      → p ≢ q
      → Unlinks (next_of q) l nodes (erase p nodes)
      → Unlinks from l (q ∷ nodes) (erase p (q ∷ nodes))
  unlink_later from l p q nodes (e, ne, c) out apart (rest, same) =
      let (out', away) = Outside-tail from q nodes out in
      (
        rw (==-false q p (λ i. apart (sym i))) (same from out' away ∙ e, ne, rest),
        λ k o _. let (o', k_away) = Outside-tail k q nodes o in same k o' k_away,
      )

  -- Unlinking at the link found takes the node found out of the chain, and writes only there.
  pub find_link-Unlinks :
      (from l : Link) (p : Ptr) (nodes : List Ptr)
      → Chained h from nodes
      → Distinct nodes
      → Outside from nodes
      → find_link from nodes ≡ some l
      → find nodes ≡ some p
      → Unlinks from l nodes (erase p nodes)
  find_link-Unlinks from l p [] c d out at is = cc
  find_link-Unlinks from l p (q ∷ nodes) (e, ne, c) (new, d) out at is =
      elim (Bool-cases (matches eq h key q)) [
        | inl hit ↦
            let here : from ≡ l = ground arith in
            let this : q ≡ p = ground arith in
            subst (λ m. Unlinks from m (q ∷ nodes) (erase p (q ∷ nodes))) here
              (subst (λ r. Unlinks from from (q ∷ nodes) (erase r (q ∷ nodes))) this
                (rw (==_refl q) (unlink_first from q nodes (e, ne, c) out)))
        | inr miss ↦
            let at' : find_link (next_of q) nodes ≡ some l = rw miss at at in
            let is' : find nodes ≡ some p = rw miss at is in
            unlink_later from l p q nodes (e, ne, c) out
              (λ i. ground (arith, find-held p nodes is'))
              (find_link-Unlinks (next_of q) l p nodes c d new at' is')
      ]
