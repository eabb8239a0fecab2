-- ===== src/HashMap/Entries.antt =====
-- Intrusive-Hash-Map/main.cc: entries with a string key that hold a node of the map. `hash` is
-- `std::hash<std::string>`, and `offset` is `offsetof(Entry, node)`; both are parameters.
use Prim.Native.String.{String}
use text.Mathlib.Text.{◌==◌ as str_eq}
use text.Mathlib.TextEquality.{eq_iff}
use low_level_cpp.Base.{
  ℕ, ◌-◌, ◌<◌, ◌≡◌, ◌≢◌, ◌⊎◌, inl, inr, refl, sym, ap, ◌∙◌, Bool, true, false, Option, none, some,
  List, [], ◌∷◌, arith, count, bit_and, Bool-cases, eq-cases,
}
use low_level_cpp.Base.Chain.{Ptr, nullptr, Chain-nonnull}
use low_level_cpp.HashMap.{HashMap, bucket, matches, ok, lookup}
use low_level_cpp.HashMap.Search.{find, find-held}
use low_level_cpp.HashMap.Invariant.{IsMap, bucket-lt}
use low_level_cpp.HashMap.Remove.{or_null, lookup-find}

-- `Entry` without its node, which the map reaches.
pub record Entry : Type 0 where
  pub key : String
  pub value : String

-- `container_of(ptr, Entry, node)`.
abbrev pub container_of : (offset : ℕ) → Ptr → Ptr
container_of offset p = p - offset

-- `entries a` is the entry at the address `a`.
unfoldable pub entry_eq : (offset : ℕ) → (Ptr → Entry) → Ptr → Ptr → Bool
entry_eq offset entries lhs rhs =
    str_eq (entries (container_of offset lhs)).key (entries (container_of offset rhs)).key

module _ (offset : ℕ) (entries : Ptr → Entry) where
  abbrev pub key_of : Ptr → String
  key_of p = (entries (container_of offset p)).key

  entry_eq_iff :
      (p q : Ptr)
      → ((entry_eq offset entries p q ≡ true) → key_of p ≡ key_of q)
        × (key_of p ≡ key_of q → entry_eq offset entries p q ≡ true)
  unfolding entry_eq
  entry_eq_iff p q = eq_iff (key_of p) (key_of q)

  module _ (h : HashMap) (key : Ptr) where
    abbrev hit : Ptr → Bool
    hit = matches (entry_eq offset entries) h key

    find-matches :
        (p : Ptr) (nodes : List Ptr)
        → find (entry_eq offset entries) h key nodes ≡ some p
        → hit p ≡ true
    find-matches p [] is = cc
    find-matches p (q ∷ nodes) is = elim (Bool-cases (hit q)) [
      | inl found ↦ let this : q ≡ p = ground arith in rw (← this) found
      | inr other ↦ find-matches p nodes (rw other at is)
    ]

    find-none :
        (p : Ptr) (nodes : List Ptr)
        → find (entry_eq offset entries) h key nodes ≡ none
        → 0 < count p nodes
        → hit p ≡ false
    find-none p [] is held = absurd (omega arith)
    find-none p (q ∷ nodes) is held = elim (Bool-cases (hit q)) [
      | inl found ↦ ground arith
      | inr other ↦ elim (eq-cases q p) [
        | inl this ↦ rw (← this) other
        | inr apart ↦ find-none p nodes (rw other at is) (ground arith)
      ]
    ]

Option-cases : (o : Option Ptr) → (o ≡ none) ⊎ ((p : Ptr) × (o ≡ some p))
Option-cases none = inl refl
Option-cases (some p) = inr (p, refl)

-- What `lookup` returns for a key: null if no node of the map belongs to an entry with the key,
-- otherwise a node of the map that belongs to such an entry.
abbrev pub Finds : (key_of : Ptr → String) → (b : ℕ → List Ptr) → (key r : Ptr) → Type 0
Finds key_of b key r =
    (r ≡ nullptr) × ((i : ℕ) (p : Ptr) → 0 < count p (b i) → key_of p ≢ key_of key)
    ⊎ (r ≢ nullptr) × ((i : ℕ) × (0 < count r (b i))) × (key_of r ≡ key_of key)

module _ (offset : ℕ) (entries : Ptr → Entry) (hash : String → ℕ) (k : ℕ) (b : ℕ → List Ptr)
    (h : HashMap) (key : Ptr) (is : IsMap k b h)
    (hashed : (i : ℕ) (p : Ptr) → 0 < count p (b i) → h.hcode p ≡ hash (key_of offset entries p))
    (key_hashed : h.hcode key ≡ hash (key_of offset entries key)) where
  abbrev pos : ℕ
  pos = bucket h key

  absent :
      find (entry_eq offset entries) h key (b pos) ≡ none
      → (i : ℕ) (p : Ptr) → 0 < count p (b i)
      → key_of offset entries p ≢ key_of offset entries key
  absent missing i p held same =
      let code : h.hcode p ≡ h.hcode key = hashed i p held ∙ ap hash same ∙ sym key_hashed in
      let here : i ≡ pos = sym (is.placed i p held) ∙ ap (λ c. bit_and c h.mask) code in
      let equal = (entry_eq_iff offset entries p key).1 same in
      let not_hit = find-none offset entries h key p (b pos) missing (rw here at held) in
      ground arith

  -- With the hash code of its key in every node, and in the key's node, `lookup` by the comparison
  -- of keys finds an entry with the key exactly when the map holds one, in whatever bucket.
  pub lookup-Finds :
      (r : Ptr) × (lookup (entry_eq offset entries) key h ≡ ok r h)
      × Finds (key_of offset entries) b key r
  lookup-Finds = (
    or_null (find (entry_eq offset entries) h key (b pos)),
    lookup-find (entry_eq offset entries) k b h is key,
    elim (Option-cases (find (entry_eq offset entries) h key (b pos))) [
      | inl missing ↦ rw missing (inl (refl, absent missing))
      | inr (p, there) ↦
          let held = find-held (entry_eq offset entries) h key p (b pos) there in
          let hit = find-matches offset entries h key p (b pos) there in
          let equal : entry_eq offset entries p key ≡ true = ground arith in
          rw there (
            inr (
              Chain-nonnull _ _ p (b pos) (is.chains pos (bucket-lt key is)) held,
              (pos, held),
              (entry_eq_iff offset entries p key).0 equal,
            ))
    ],
  )
