-- ===== src/HashMap.antt =====
-- Intrusive-Hash-Map/hashmap.h and hashmap.cc: a fixed-size table of chains. The nodes belong to
-- the caller, and a pointer to the incoming pointer (`HNode **`) is a `Link`.
pub mod Construct
pub mod Entries
pub mod Invariant
pub mod Remove
pub mod Search
mod Tests
use low_level_cpp.Base.{
  ℕ, zero, suc, ◌+◌, ◌-◌, ◌%◌, ◌^◌, Bool, true, false, ◌&&◌, Option, none, some, if◌then◌else◌,
  ◌==◌, ltb, bit_and,
}
use low_level_cpp.Base.Chain.{Ptr, nullptr}

-- The pointer variables of the program: the slots of the array, and `next` in each node.
pub data Link : Type 0 where
  slot : ℕ → Link
  next_of : Ptr → Link

abbrev pub same_link : Link → Link → Bool
same_link (slot i) (slot j) = i == j
same_link (next_of p) (next_of q) = p == q
same_link _ _ = false

abbrev pub update_link : (Link → Ptr) → Link → Ptr → Link → Ptr
update_link cell l v k = if same_link l k then v else cell k

-- What `hmap.map` is: the null pointer, an array, or the address of an array that was freed.
pub data Array : Type 0 where
  no_array : Array
  live : Array
  freed : Array

-- `HMap` with the memory around it: `cell l` is the pointer that stands in `l`, `hcode p` the
-- hash code in the node `p`.
pub record HashMap : Type 0 where
  pub map : Array
  pub size : ℕ
  pub mask : ℕ
  pub cell : Link → Ptr
  pub hcode : Ptr → ℕ

abbrev pub next : HashMap → Ptr → Ptr
next h p = h.cell (next_of p)

-- `fault` is a failed assertion or an access that the language leaves undefined.
pub data Run (A : Type 0) : Type 0 where
  ok : A → HashMap → Run A
  fault : Run A
  out_of_fuel : Run A

abbrev pub and_then : {A B : Type 0} → Run A → (A → HashMap → Run B) → Run B
and_then (ok a h) k = k a h
and_then fault k = fault
and_then out_of_fuel k = out_of_fuel

-- `hmap.map[pos]` is an access only to a live array.
abbrev pub on_array : {A : Type 0} → Array → Run A → Run A
on_array no_array r = fault
on_array live r = r
on_array freed r = fault

abbrev pub size_mod : ℕ
size_mod = 2 ^ 64

-- `(n - 1) & n` over `size_t`.
abbrev pub is_power_of_2 : ℕ → Bool
is_power_of_2 n = ltb 0 n && (bit_and ((n + size_mod - 1) % size_mod) n == 0)

-- The constructor. `array` says whether `calloc` found memory, which it fills with null pointers.
unfoldable pub hash_map :
    (array : Bool) (n : ℕ) (hcode : Ptr → ℕ) (cell : Link → Ptr) → Run (Unit {0})
hash_map array n hcode cell =
    if is_power_of_2 n
    then ok tt (record {
      map = if array then live else no_array;
      size = 0;
      mask = n - 1;
      cell = λ l. elim l [
        | slot i ↦ if ltb i n then nullptr else cell (slot i)
        | next_of p ↦ cell (next_of p)
      ];
      hcode = hcode;
    })
    else fault

abbrev pub bucket : HashMap → Ptr → ℕ
bucket h p = bit_and (h.hcode p) h.mask

unfoldable pub insert_ : Ptr → HashMap → Run (Unit {0})
insert_ node h =
    let pos : ℕ = bucket h node in
    let cell : Link → Ptr = update_link h.cell (next_of node) (h.cell (slot pos)) in
    on_array h.map
      (ok tt (record h { cell = update_link cell (slot pos) node; size = (h.size + 1) % size_mod }))

-- `eq` is the caller's comparison.
module _ (eq : Ptr → Ptr → Bool) where
  abbrev pub matches : HashMap → (key cur : Ptr) → Bool
  matches h key cur = (h.hcode cur == h.hcode key) && eq cur key

  -- The loop of `lookup_`, a round for each node.
  unfoldable pub search_chain : ℕ → (key : Ptr) → Link → HashMap → Run (Option Link)
  search_chain zero key from h = out_of_fuel
  search_chain (suc fuel) key from h =
      let rest = search_chain fuel key (next_of (h.cell from)) h in
      if h.cell from == nullptr
      then ok none h
      else if matches h key (h.cell from)
      then ok (some from) h
      else rest

  unfoldable pub lookup_ : (key : Ptr) → HashMap → Run (Option Link)
  unfolding search_chain
  lookup_ key h = elim h.map [
    | no_array ↦ ok none h
    | live ↦ search_chain (h.size + 1) key (slot (bucket h key)) h
    | freed ↦ fault
  ]

unfoldable pub detach_ : Link → HashMap → Run Ptr
detach_ from h =
    let node : Ptr = h.cell from in
    ok node (record h {
      cell = update_link h.cell from (next h node);
      size = (h.size + size_mod - 1) % size_mod;
    })

unfoldable pub insert : Ptr → HashMap → Run (Unit {0})
unfolding insert_
insert node h = insert_ node h

abbrev pub read_link : Option Link → HashMap → Run Ptr
read_link none h = ok nullptr h
read_link (some from) h = ok (h.cell from) h

unfoldable pub detach_found : Option Link → HashMap → Run Ptr
unfolding detach_
detach_found none h = ok nullptr h
detach_found (some from) h = detach_ from h

module _ (eq : Ptr → Ptr → Bool) where
  unfoldable pub lookup : (key : Ptr) → HashMap → Run Ptr
  unfolding lookup_
  lookup key h = and_then (lookup_ eq key h) read_link

  unfoldable pub remove : (key : Ptr) → HashMap → Run Ptr
  unfolding lookup_ detach_found
  remove key h = and_then (lookup_ eq key h) detach_found

-- `free(NULL)` does nothing; the pointer keeps its value, so a second `free` is undefined.
unfoldable pub clear : HashMap → Run (Unit {0})
clear h = elim h.map [
  | no_array ↦ ok tt h
  | live ↦ ok tt (record h { map = freed })
  | freed ↦ fault
]

unfoldable pub size : HashMap → Run ℕ
size h = ok h.size h

-- The destructor.
unfoldable pub destroy : HashMap → Run (Unit {0})
unfolding clear
destroy h = clear h
