-- ===== src/HashMap/Invariant.antt =====
-- The hash map as an array of chains of distinct nodes, each in the bucket of its hash code.
use mathlib.Core.Path.{subst}
use native.Mathlib.Nat.{mod-lt}
use low_level_cpp.Base.{
  ℕ, suc, ◌+◌, ◌-◌, ◌%◌, ◌^◌, ◌<◌, ◌≡◌, ◌≢◌, inl, inr, refl, sym, List, ◌∷◌, arith, count, length,
  eq-cases, ==_refl, ==-false,
}
use low_level_cpp.Base.Bits.{bit_and-ones, pow-pos}
use low_level_cpp.Base.Chain.{Ptr, nullptr, Chain, Chain-frame}
use low_level_cpp.Base.Store.{update}
use low_level_cpp.Base.Sums.{total, total-change}
use low_level_cpp.HashMap.{slot, next_of, live, HashMap, bucket, update_link, ok, size_mod, insert}
use low_level_cpp.HashMap.Search.{Chained, Distinct}

-- How many nodes the `n` buckets hold.
abbrev pub population : (ℕ → List Ptr) → ℕ → ℕ
population b n = total (λ i. length (b i)) n

-- `b i` lists the nodes of bucket `i` of a table of `2 ^ k` slots.
pub record IsMap (k : ℕ) (b : ℕ → List Ptr) (h : HashMap) : Type 0 where
  pub array : h.map ≡ live
  pub mask : h.mask ≡ 2 ^ k - 1
  pub chains : (i : ℕ) → i < 2 ^ k → Chained h (slot i) (b i)
  pub distinct : (i : ℕ) → Distinct (b i)
  pub placed : (i : ℕ) (p : Ptr) → 0 < count p (b i) → bucket h p ≡ i
  pub sized : h.size ≡ population b (2 ^ k)
  pub small : population b (2 ^ k) < size_mod

-- Every access is inside the array.
pub bucket-lt :
    {k : ℕ} {b : ℕ → List Ptr} {h : HashMap} (p : Ptr) → IsMap k b h → bucket h p < 2 ^ k
bucket-lt {k} {h} p is = rw (is.mask, bit_and-ones k (h.hcode p)) (mod-lt (h.hcode p) (pow-pos k))

-- A node that is new to the map is put in front of its bucket; the other buckets stay.
module _ (k : ℕ) (b : ℕ → List Ptr) (h : HashMap) (node : Ptr) (is : IsMap k b h)
    (nonnull : node ≢ nullptr) (new : (i : ℕ) → count node (b i) ≡ 0)
    (room : population b (2 ^ k) + 1 < size_mod) where
  abbrev pos : ℕ
  pos = bucket h node

  abbrev cell' : Ptr → Ptr
  cell' p =
      update_link (update_link h.cell (next_of node) (h.cell (slot pos))) (slot pos) node
        (next_of p)

  abbrev inserted : HashMap
  inserted = record h {
    cell = update_link (update_link h.cell (next_of node) (h.cell (slot pos))) (slot pos) node;
    size = h.size + 1;
  }

  abbrev grown : ℕ → List Ptr
  grown = update b pos (node ∷ b pos)

  kept : (i : ℕ) (head : Ptr) → Chain (λ p. h.cell (next_of p)) head (b i) → Chain cell' head (b i)
  kept i head = Chain-frame head (b i) (λ a held. ground (arith, new i))

  fresh_next : h.cell (slot pos) ≡ cell' node
  fresh_next = ground arith

  population-grown : population grown (2 ^ k) ≡ population b (2 ^ k) + 1
  population-grown =
      let there : length (grown pos) ≡ suc (length (b pos)) = rw (==_refl pos) in
      omega (
        arith,
        total-change (λ i. length (b i)) (λ i. length (grown i)) pos (2 ^ k) (bucket-lt node is)
            (λ j ne. rw (==-false pos j (λ e. ne (sym e)))),
        there,
      )

  inserted-chains : (i : ℕ) → i < 2 ^ k → Chained inserted (slot i) (grown i)
  inserted-chains i lt = elim (eq-cases pos i) [
    | inl here ↦
        subst (λ j. Chained inserted (slot j) (grown j)) here
          (rw (==_refl pos) (
            refl,
            nonnull,
            subst (λ q. Chain cell' q (b pos)) fresh_next
                (kept pos (h.cell (slot pos)) (is.chains pos (bucket-lt node is))),
          ))
    | inr away ↦ rw (==-false pos i away) (kept i (h.cell (slot i)) (is.chains i lt))
  ]

  inserted-IsMap : IsMap k grown inserted
  inserted-IsMap = record {
    array = is.array;
    mask = is.mask;
    chains = inserted-chains;
    distinct = λ i. ground (arith, is.distinct i, is.distinct pos, new pos);
    placed = λ i p held. ground (arith, is.placed i p, is.placed pos p);
    sized = omega (arith, population-grown, is.sized);
    small = omega (arith, population-grown);
  }

  -- A node that is not in the map, and whose count the size can still hold, is put in front of its
  -- bucket. The other buckets stay.
  pub insert-IsMap :
      (h' : HashMap) × (insert node h ≡ ok tt h')
      × IsMap k (update b (bucket h node) (node ∷ b (bucket h node))) h'
  unfolding insert
  insert-IsMap =
      let counted : (h.size + 1) % size_mod ≡ h.size + 1 = omega (arith, is.sized) in
      let array = is.array in (inserted, ground arith, inserted-IsMap)
