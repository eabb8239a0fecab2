-- ===== src/HashMap/Tests.antt =====
-- The hash map at small inputs, and its theorems at them.
use Prim.Native.String.{String}
use low_level_cpp.Base.{
  ℕ, ◌^◌, ◌≡◌, ◌↔◌, refl, Bool, true, some, List, [], ◌∷◌, arith, ◌==◌, if◌then◌else◌,
}
use low_level_cpp.Base.Chain.{Ptr, nullptr}
use low_level_cpp.Base.Store.{update}
use low_level_cpp.Base.Sums.{total}
use low_level_cpp.HashMap.{
  Link, slot, next_of, live, HashMap, Run, ok, fault, and_then, hash_map, insert, lookup, remove,
  clear, destroy, size, is_power_of_2,
}
use low_level_cpp.HashMap.Invariant.{IsMap, insert-IsMap}
use low_level_cpp.HashMap.Construct.{is_power_of_2-pow, clear_dangles}
use low_level_cpp.HashMap.Remove.{without, remove-find}
use low_level_cpp.HashMap.Entries.{Entry, entry_eq, key_of, Finds, lookup-Finds}

-- Nodes 0x40, 0x80 and 0xc0 with hash codes 5, 21 and 5: one bucket of sixteen, two codes.
abbrev codes : Ptr → ℕ
codes p = if p == 0x80 then 21 else 5

abbrev blank : Link → Ptr
blank l = 0xdead

abbrev same_code : Ptr → Ptr → Bool
same_code p q = true

abbrev filled : Run (Unit {0})
filled =
    and_then (hash_map true 16 codes blank) (λ _ h. and_then (insert 0x40 h) λ _ g. insert 0x80 g)

lookup_runs :
    and_then filled (λ _ h. and_then (lookup same_code 0xc0 h) λ p g. ok p g)
    ≡ and_then filled (λ _ h. ok 0x40 h)
unfolding hash_map insert lookup
lookup_runs = refl

remove_runs :
    and_then filled (λ _ h. and_then (remove same_code 0x80 h) λ p g. size g)
    ≡ and_then filled (λ _ h. and_then (remove same_code 0x80 h) λ p g. ok 1 g)
unfolding hash_map insert remove size
remove_runs = refl

-- A table of sixteen slots with the node 0x40.
abbrev one_node : HashMap
one_node = record {
  map = live;
  size = 1;
  mask = 15;
  cell = λ l. elim l [ slot i ↦ if i == 5 then 0x40 else nullptr | next_of p ↦ nullptr ];
  hcode = codes;
}

abbrev one_bucket : ℕ → List Ptr
one_bucket i = if i == 5 then 0x40 ∷ [] else []

one_node-IsMap : IsMap 4 one_bucket one_node
unfolding total
one_node-IsMap = record {
  array = refl;
  mask = refl;
  chains = λ i lt. ground arith;
  distinct = λ i. ground arith;
  placed = λ i p held. ground arith;
  sized = refl;
  small = omega arith;
}

insert-IsMap_example :
    (h' : HashMap) × (insert 0x80 one_node ≡ ok tt h')
    × IsMap 4 (update one_bucket 5 (0x80 ∷ 0x40 ∷ [])) h'
unfolding total
insert-IsMap_example =
    insert-IsMap 4 one_bucket one_node 0x80 one_node-IsMap (omega arith) (λ i. ground arith)
      (omega arith)

remove-find_example :
    (h' : HashMap) × (remove same_code 0xc0 one_node ≡ ok 0x40 h')
    × IsMap 4 (without one_bucket 5 (some 0x40)) h'
remove-find_example = remove-find same_code 4 one_bucket one_node one_node-IsMap 0xc0

is_power_of_2-pow_example : (is_power_of_2 16 ≡ true) ↔ ((k : ℕ) × (◌≡◌ {A = ℕ} 16 (2 ^ k)))
is_power_of_2-pow_example = is_power_of_2-pow 16 (omega arith)

clear_dangles_example :
    (h' : HashMap) × (clear one_node ≡ ok tt h')
    × (destroy h' ≡ fault)
    × (clear h' ≡ fault)
    × (insert 0x80 h' ≡ fault)
    × (lookup same_code 0x80 h' ≡ fault)
    × (remove same_code 0x80 h' ≡ fault)
clear_dangles_example = clear_dangles same_code one_node 0x80 refl

-- `main.cc`: entries at 0 and 0x80 whose nodes stand 0x40 bytes in, and the same key in both.
abbrev entries : Ptr → Entry
entries a = record { key = "user_1"; value = "John Doe" }

abbrev hash_5 : String → ℕ
hash_5 s = 5

lookup-Finds_example :
    (r : Ptr) × (lookup (entry_eq 0x40 entries) 0xc0 one_node ≡ ok r one_node)
    × Finds (key_of 0x40 entries) one_bucket 0xc0 r
lookup-Finds_example =
    lookup-Finds 0x40 entries hash_5 4 one_bucket one_node 0xc0 one_node-IsMap
      (λ i p held. ground arith) refl
