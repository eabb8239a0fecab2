-- ===== src/HashMap/Construct.antt =====
-- The constructor and `clear` of the hash map.
use native.Mathlib.Nat.{pow-suc}
use low_level_cpp.Base.{
  ℕ, zero, suc, ◌+◌, ◌-◌, ◌*◌, ◌/◌, ◌%◌, ◌^◌, ◌≤◌, ◌<◌, ◌≡◌, ◌↔◌, inl, inr, refl, sym, Bool, true,
  [], arith, if◌then◌else◌, ltb, bit_and, eq-cases, lt→ltb,
}
use low_level_cpp.Base.Bits.{bit_and-halves, pow-pos}
use low_level_cpp.Base.Chain.{Ptr, nullptr}
use low_level_cpp.Base.Sums.{total-zero}
use low_level_cpp.HashMap.{
  Link, slot, next_of, live, freed, HashMap, ok, fault, size_mod, is_power_of_2, hash_map, clear,
  destroy, insert, lookup, remove,
}
use low_level_cpp.HashMap.Invariant.{IsMap}

bit_and_self : (n a : ℕ) → a ≤ n → bit_and a a ≡ a
bit_and_self n zero h = omega (arith, bit_and-halves 0 0)
bit_and_self zero (suc a) h = absurd (omega arith)
bit_and_self (suc n) (suc a) h =
    omega (arith, bit_and-halves (suc a) (suc a), bit_and_self n (suc a / 2) (omega arith))

pred-bit_and-double : (m : ℕ) → 0 < m → bit_and (m * 2 - 1) (m * 2) ≡ bit_and (m - 1) m * 2
pred-bit_and-double m pos =
    let half : (m * 2 - 1) / 2 ≡ m - 1 = omega arith in
    let whole : m * 2 / 2 ≡ m = omega arith in
    rw (bit_and-halves (m * 2 - 1) (m * 2), half, whole) (omega arith)

pred-bit_and-pow : (k : ℕ) → bit_and (2 ^ k - 1) (2 ^ k) ≡ 0
pred-bit_and-pow zero = refl
pred-bit_and-pow (suc k) =
    rw (pow-suc 2 k) (omega (arith, pred-bit_and-double (2 ^ k) (pow-pos k), pred-bit_and-pow k))

-- Only for a power of two is `(n - 1) & n` zero.
pow_of_pred-bit_and :
    (fuel n : ℕ) → n ≤ fuel → 0 < n → bit_and (n - 1) n ≡ 0 → (k : ℕ) × (n ≡ 2 ^ k)
pow_of_pred-bit_and zero n h pos e = absurd (omega arith)
pow_of_pred-bit_and (suc fuel) n h pos e = elim (eq-cases (n % 2) 0) [
  | inl even ↦
      let double : n ≡ n / 2 * 2 = omega arith in
      let e' : bit_and (n / 2 - 1) (n / 2) ≡ 0 =
        omega (arith, rw double at e, pred-bit_and-double (n / 2) (omega arith)) in
      let (k, is) = pow_of_pred-bit_and fuel (n / 2) (omega arith) (omega arith) e' in
      (suc k, omega (arith, pow-suc 2 k))
  | inr odd ↦
      let half : (n - 1) / 2 ≡ n / 2 = omega arith in
      (
        0,
        omega (arith, rw half at (bit_and-halves (n - 1) n), bit_and_self n (n / 2) (omega arith)),
      )
]

is_power_of_2_lem :
    (n : ℕ) → n < size_mod → (is_power_of_2 n ≡ true) ↔ ((0 < n) × (bit_and (n - 1) n ≡ 0))
is_power_of_2_lem n small = (
  λ h.
      let both : (0 < n) × (bit_and ((n + size_mod - 1) % size_mod) n ≡ 0) = ground arith in
      let wrapped : (n + size_mod - 1) % size_mod ≡ n - 1 = omega (arith, both.0) in
      (both.0, rw wrapped at (both.1)),
  λ (pos, e).
      let wrapped : (n + size_mod - 1) % size_mod ≡ n - 1 = omega arith in
      rw wrapped (ground arith),
)

-- The assertion of the constructor holds exactly for the powers of two.
pub is_power_of_2-pow : (n : ℕ) → n < size_mod → (is_power_of_2 n ≡ true) ↔ ((k : ℕ) × (n ≡ 2 ^ k))
is_power_of_2-pow n small = (
  λ h.
      let (pos, e) = (is_power_of_2_lem n small).0 h in pow_of_pred-bit_and n n (omega arith) pos e,
  λ (k, e). (is_power_of_2_lem n small).1 (rw e (pow-pos k), rw e (pred-bit_and-pow k)),
)

-- For a power of two, and where `calloc` finds memory, the constructor makes an empty map. Where
-- it finds none, lookups and removals find nothing, and an insertion is a null dereference.
pub hash_map-IsMap :
    (k : ℕ) (hcode : Ptr → ℕ) (cell : Link → Ptr)
    → 2 ^ k < size_mod
    → (h : HashMap) × (hash_map true (2 ^ k) hcode cell ≡ ok tt h) × IsMap k (λ _. []) h
unfolding hash_map
hash_map-IsMap k hcode cell small =
    let power = (is_power_of_2-pow (2 ^ k) small).1 (k, refl) in
    (
      record {
        map = live;
        size = 0;
        mask = 2 ^ k - 1;
        cell = λ l. elim l [
          | slot i ↦ if ltb i (2 ^ k) then nullptr else cell (slot i)
          | next_of p ↦ cell (next_of p)
        ];
        hcode = hcode;
      },
      rw power,
      record {
        array = refl;
        mask = refl;
        chains = λ i lt. rw (lt→ltb i (2 ^ k) lt);
        distinct = λ i. tt;
        placed = λ i p held. absurd (omega arith);
        sized = sym (total-zero (λ _. 0) (2 ^ k) (λ _. refl));
        small = omega (arith, total-zero (λ _. 0) (2 ^ k) (λ _. refl));
      },
    )

-- `clear` leaves the pointer to the array that it freed: every later operation, the destructor
-- included, reads or frees that array again.
pub clear_dangles :
    (eq : Ptr → Ptr → Bool) (h : HashMap) (p : Ptr)
    → h.map ≡ live
    → (h' : HashMap) × (clear h ≡ ok tt h')
      × (destroy h' ≡ fault)
      × (clear h' ≡ fault)
      × (insert p h' ≡ fault)
      × (lookup eq p h' ≡ fault)
      × (remove eq p h' ≡ fault)
unfolding clear destroy insert lookup remove
clear_dangles eq h p array =
    (record h { map = freed }, rw (array, clear), refl, refl, refl, refl, refl)
