-- ===== src/GarbageCollector/Mark.antt =====
-- What the mark phase of mark-n-sweep marks.
use mathlib.Core.Path.{subst}
use low_level_cpp.Base.{
  ℕ, zero, suc, ◌+◌, ◌≤◌, ◌<◌, ◌≡◌, inl, inr, refl, sym, Bool, true, false, List, [], ◌∷◌, arith,
  ◌==◌, if◌then◌else◌, count, eq-cases, Bool-cases, ==_refl, ==-false,
}
use low_level_cpp.Base.Chain.{Ptr, nullptr}
use low_level_cpp.Base.Store.{update}
use low_level_cpp.GarbageCollector.{Run, ok, readable, mark_each, mark, mark_roots}

abbrev pub Marks : Type 0
Marks = Ptr → Bool

-- How many of the objects are not marked.
abbrev pub unmarked : Marks → List Ptr → ℕ
unmarked m [] = 0
unmarked m (p ∷ ps) = (if m p then 0 else 1) + unmarked m ps

abbrev pub Grows : Marks → Marks → Type 0
Grows m n = (q : Ptr) → m q ≡ true → n q ≡ true

unmarked-Grows : (m n : Marks) (ps : List Ptr) → Grows m n → unmarked n ps ≤ unmarked m ps
unmarked-Grows m n [] g = omega arith
unmarked-Grows m n (p ∷ ps) g = ground (arith, g p, unmarked-Grows m n ps g)

Grows-update : (m : Marks) (p : Ptr) → Grows m (update m p true)
Grows-update m p q h = ground arith

unmarked-update :
    (m : Marks) (p : Ptr) (ps : List Ptr)
    → m p ≡ false
    → 0 < count p ps
    → unmarked (update m p true) ps < unmarked m ps
unmarked-update m p [] off held = absurd (omega arith)
unmarked-update m p (q ∷ ps) off held = elim (eq-cases q p) [
  | inl this ↦
      let le = unmarked-Grows m (update m p true) ps (Grows-update m p) in
      rw (this, ==_refl p, off) (omega arith)
  | inr other ↦
      let rest = unmarked-update m p ps off (ground arith) in
      rw (==-false p q (λ e. other (sym e))) (omega arith)
]

module _ (references : Ptr → List Ptr) (deleted : Ptr → Bool) (all : List Ptr)
    (live : (p : Ptr) → 0 < count p all → readable deleted p ≡ true)
    (inside : (p q : Ptr) → 0 < count p all → 0 < count q (references p) → 0 < count q all)
    (Wanted : Ptr → Type 0)
    (follow : (p q : Ptr) → Wanted p → 0 < count q (references p) → Wanted q) where
  -- Outside of `grey`, the references of a marked object are marked, and only wanted objects are.
  pub record IsTraced (m : Marks) (grey : List Ptr) : Type 0 where
    pub closed :
        (p q : Ptr) → m p ≡ true → count p grey ≡ 0 → 0 < count q (references p) → m q ≡ true
    pub sound : (p : Ptr) → m p ≡ true → Wanted p

  pub record Traces (m : Marks) (grey ps : List Ptr) (r : Run Marks) : Type 0 where
    pub result : Marks
    pub returns : r ≡ ok result
    pub grows : Grows m result
    pub traced : IsTraced result grey
    pub hits : (p : Ptr) → 0 < count p ps → result p ≡ true

  abbrev pub Step : ℕ → (Ptr → Marks → Run Marks) → Type 0
  Step n one =
      (p : Ptr) (m : Marks) (grey : List Ptr)
      → 0 < count p all
      → Wanted p
      → IsTraced m grey
      → unmarked m all < n
      → Traces m grey (p ∷ []) (one p m)

  each-Traces :
      (n : ℕ) (one : Ptr → Marks → Run Marks) (ps : List Ptr) (m : Marks) (grey : List Ptr)
      → Step n one
      → ((p : Ptr) → 0 < count p ps → (0 < count p all) × Wanted p)
      → IsTraced m grey
      → unmarked m all < n
      → Traces m grey ps (mark_each deleted one ps m)
  unfolding mark_each
  each-Traces n one [] m grey step ok_ traced small = record {
    result = m;
    returns = refl;
    grows = λ q h. h;
    traced = traced;
    hits = λ p h. absurd (omega arith);
  }
  each-Traces n one (p ∷ ps) m grey step ok_ traced small =
      let (held, wanted) = ok_ p (ground arith) in
      let first = step p m grey held wanted traced small in
      let fewer = unmarked-Grows m first.result all first.grows in
      let rest =
        each-Traces n one ps first.result grey step (λ q h. ok_ q (omega arith)) first.traced
          (omega arith) in
      record {
        result = rest.result;
        returns = rw (live p held, first.returns) rest.returns;
        grows = λ q h. rest.grows q (first.grows q h);
        traced = rest.traced;
        hits = λ q h. elim (eq-cases p q) [
          | inl this ↦ rest.grows q (first.hits q (rw this (ground arith)))
          | inr other ↦ rest.hits q (ground arith)
        ];
      }

  already-Traces :
      (p : Ptr) (m : Marks) (grey : List Ptr)
      → IsTraced m grey
      → m p ≡ true
      → Traces m grey (p ∷ []) (ok m)
  already-Traces p m grey traced on = record {
    result = m;
    returns = refl;
    grows = λ q h. h;
    traced = traced;
    hits = λ q h. elim (eq-cases p q) [
      | inl this ↦ rw (← this) on
      | inr other ↦ absurd (ground arith)
    ];
  }

  -- An object whose references are about to be marked is grey.
  IsTraced-update :
      (p : Ptr) (m : Marks) (grey : List Ptr)
      → Wanted p
      → IsTraced m grey
      → IsTraced (update m p true) (p ∷ grey)
  IsTraced-update p m grey wanted traced = record {
    closed = λ q r on out h. elim (eq-cases p q) [
      | inl this ↦ absurd (ground arith)
      | inr other ↦
          Grows-update m p r (traced.closed q r (rw (==-false p q other) at on) (ground arith) h)
    ];
    sound = λ q on. elim (eq-cases p q) [
      | inl this ↦ subst Wanted this wanted
      | inr other ↦ traced.sound q (rw (==-false p q other) at on)
    ];
  }

  first-Traces :
      (p : Ptr) (m : Marks) (grey : List Ptr) (r : Run Marks)
      → Traces (update m p true) (p ∷ grey) (references p) r
      → Traces m grey (p ∷ []) r
  first-Traces p m grey r deep = record {
    result = deep.result;
    returns = deep.returns;
    grows = λ q h. deep.grows q (Grows-update m p q h);
    traced = record {
      closed = λ q r' on out h. elim (eq-cases p q) [
        | inl this ↦ deep.hits r' (rw this h)
        | inr other ↦ deep.traced.closed q r' on (rw (==-false p q other) (omega arith)) h
      ];
      sound = deep.traced.sound;
    };
    hits = λ q h. elim (eq-cases p q) [
      | inl this ↦ deep.grows q (rw (← this) (rw (==_refl p)))
      | inr other ↦ absurd (ground arith)
    ];
  }

  nonnull : (p : Ptr) → readable deleted p ≡ true → (p == nullptr) ≡ false
  nonnull p h = ground arith

  undeleted : (p : Ptr) → readable deleted p ≡ true → deleted p ≡ false
  undeleted p h = ground arith

  pub mark-Traces : (fuel : ℕ) → Step fuel (mark fuel references deleted)
  unfolding mark
  mark-Traces zero p m grey held wanted traced small = absurd (omega arith)
  mark-Traces (suc fuel) p m grey held wanted traced small =
      rw (nonnull p (live p held), undeleted p (live p held))
        (elim (Bool-cases (m p)) [
          | inl on ↦ rw on (already-Traces p m grey traced on)
          | inr off ↦ rw off (
              first-Traces p m grey _ (
                each-Traces fuel (mark fuel references deleted) (references p) (update m p true)
                  (p ∷ grey) (mark-Traces fuel) (λ q h. (inside p q held h, follow p q wanted h))
                  (IsTraced-update p m grey wanted traced)
                  (omega (arith, unmarked-update m p all off held))))
        ])

  pub roots-Traces :
      (n : ℕ) (one : Ptr → Marks → Run Marks) (ps : List Ptr) (m : Marks) (grey : List Ptr)
      → Step n one
      → ((p : Ptr) → 0 < count p ps → (0 < count p all) × Wanted p)
      → IsTraced m grey
      → unmarked m all < n
      → Traces m grey ps (mark_roots one ps m)
  unfolding mark_roots
  roots-Traces n one [] m grey step ok_ traced small = record {
    result = m;
    returns = refl;
    grows = λ q h. h;
    traced = traced;
    hits = λ p h. absurd (omega arith);
  }
  roots-Traces n one (p ∷ ps) m grey step ok_ traced small =
      let (held, wanted) = ok_ p (ground arith) in
      let first = step p m grey held wanted traced small in
      let fewer = unmarked-Grows m first.result all first.grows in
      let rest =
        roots-Traces n one ps first.result grey step (λ q h. ok_ q (omega arith)) first.traced
          (omega arith) in
      record {
        result = rest.result;
        returns = rw first.returns rest.returns;
        grows = λ q h. rest.grows q (first.grows q h);
        traced = rest.traced;
        hits = λ q h. elim (eq-cases p q) [
          | inl this ↦ rest.grows q (first.hits q (rw this (ground arith)))
          | inr other ↦ rest.hits q (ground arith)
        ];
      }
