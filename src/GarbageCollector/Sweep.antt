-- ===== src/GarbageCollector/Sweep.antt =====
-- What the loop of the sweep of mark-n-sweep does to the objects and their marks.
use low_level_cpp.Base.{
  ◌≤◌, ◌<◌, ◌≡◌, ◌≢◌, inl, inr, refl, sym, ap, ◌∙◌, Bool, true, false, List, [], ◌∷◌, ◌++◌, arith,
  if◌then◌else◌, count, eq-cases, Bool-cases,
}
use mathlib.Core.List.{append-nil, append_assoc}
use low_level_cpp.Base.Chain.{Ptr}
use low_level_cpp.Base.Store.{update, update_self, update_other}
use low_level_cpp.GarbageCollector.{Run, ok, readable, sweep_objects}
use low_level_cpp.GarbageCollector.Mark.{Marks}

-- The marked objects of a list.
abbrev pub keep : Marks → List Ptr → List Ptr
keep m [] = []
keep m (p ∷ ps) = if m p then p ∷ keep m ps else keep m ps

pub count-keep :
    (m : Marks) (p : Ptr) (ps : List Ptr) → count p (keep m ps) ≡ (if m p then count p ps else 0)
count-keep m p [] = ground arith
count-keep m p (q ∷ ps) = elim (eq-cases q p) [
  | inl this ↦ rw (← this) (ground (arith, count-keep m q ps))
  | inr other ↦ ground (arith, count-keep m p ps)
]

readable-update :
    (d : Ptr → Bool) (p q : Ptr) → p ≢ q → readable d q ≡ true → readable (update d p true) q ≡ true
readable-update d p q other live = rw (update_other d p q true other) live

keep-same :
    (m n : Marks) (ps : List Ptr) → ((p : Ptr) → 0 < count p ps → n p ≡ m p) → keep n ps ≡ keep m ps
keep-same m n [] same = refl
keep-same m n (p ∷ ps) same =
    rw (same p (ground arith), keep-same m n ps (λ q h. same q (ground arith)))

abbrev pub Distinct : List Ptr → Type 0
Distinct ps = (p : Ptr) → count p ps ≤ 1

-- What the loop of the sweep makes of the marks `m` and the deletions `d`.
pub record Sweeps (ps kept : List Ptr) (m : Marks) (d : Ptr → Bool)
    (r : Run (List Ptr × Marks × (Ptr → Bool))) : Type 0 where
  pub marks : Marks
  pub deletions : Ptr → Bool
  pub returns : r ≡ ok (kept ++ keep m ps, marks, deletions)
  pub cleared : (p : Ptr) → 0 < count p ps → marks p ≡ false
  pub others : (p : Ptr) → count p ps ≡ 0 → (marks p ≡ m p) × (deletions p ≡ d p)
  pub spared : (p : Ptr) → 0 < count p ps → m p ≡ true → deletions p ≡ d p
  pub dropped : (p : Ptr) → 0 < count p ps → m p ≡ false → deletions p ≡ true

keep-Sweeps :
    (p : Ptr) (ps kept : List Ptr) (m : Marks) (d : Ptr → Bool)
    (r : Run (List Ptr × Marks × (Ptr → Bool)))
    → m p ≡ true
    → count p ps ≡ 0
    → Sweeps ps (kept ++ p ∷ []) (update m p false) d r
    → Sweeps (p ∷ ps) kept m d r
keep-Sweeps p ps kept m d r on out rest =
    let same = keep-same m (update m p false) ps (λ q h. ground arith) in
    record {
      marks = rest.marks;
      deletions = rest.deletions;
      returns = rest.returns ∙ rw (same, on, append_assoc kept (p ∷ []) (keep m ps)) refl;
      cleared = λ q h. elim (eq-cases p q) [
        | inl this ↦ rw (← this) (rest.others p out).0 ∙ update_self m p false
        | inr other ↦ rest.cleared q (ground arith)
      ];
      others = λ q h.
          let (marked, gone) = rest.others q (ground arith) in
          (marked ∙ update_other m p q false (ground arith), gone);
      spared = λ q h marked. elim (eq-cases p q) [
        | inl this ↦ rw (← this) (rest.others p out).1
        | inr other ↦ rest.spared q (ground arith) (update_other m p q false other ∙ marked)
      ];
      dropped = λ q h off. elim (eq-cases p q) [
        | inl this ↦ absurd (ground arith)
        | inr other ↦ rest.dropped q (ground arith) (update_other m p q false other ∙ off)
      ];
    }

drop-Sweeps :
    (p : Ptr) (ps kept : List Ptr) (m : Marks) (d : Ptr → Bool)
    (r : Run (List Ptr × Marks × (Ptr → Bool)))
    → m p ≡ false
    → count p ps ≡ 0
    → Sweeps ps kept m (update d p true) r
    → Sweeps (p ∷ ps) kept m d r
drop-Sweeps p ps kept m d r off out rest = record {
  marks = rest.marks;
  deletions = rest.deletions;
  returns = rest.returns ∙ rw off refl;
  cleared = λ q h. elim (eq-cases p q) [
    | inl this ↦ rw (← this) ((rest.others p out).0 ∙ off)
    | inr other ↦ rest.cleared q (ground arith)
  ];
  others = λ q h.
      let (marked, gone) = rest.others q (ground arith) in
      (marked, gone ∙ update_other d p q true (ground arith));
  spared = λ q h marked. elim (eq-cases p q) [
    | inl this ↦ absurd (ground arith)
    | inr other ↦ rest.spared q (ground arith) marked ∙ update_other d p q true other
  ];
  dropped = λ q h gone. elim (eq-cases p q) [
    | inl this ↦ rw (← this) ((rest.others p out).1 ∙ update_self d p true)
    | inr other ↦ rest.dropped q (ground arith) gone
  ];
}

pub sweep_objects-Sweeps :
    (ps kept : List Ptr) (m : Marks) (d : Ptr → Bool)
    → Distinct ps
    → ((p : Ptr) → 0 < count p ps → readable d p ≡ true)
    → Sweeps ps kept m d (sweep_objects ps kept m d)
unfolding sweep_objects
sweep_objects-Sweeps [] kept m d once live = record {
  marks = m;
  deletions = d;
  returns = ap (λ l. ok (l, m, d)) (sym (append-nil kept));
  cleared = λ p h. absurd (omega arith);
  others = λ p h. (refl, refl);
  spared = λ p h. absurd (omega arith);
  dropped = λ p h. absurd (omega arith);
}
sweep_objects-Sweeps (p ∷ ps) kept m d once live =
    let out : count p ps ≡ 0 = ground (arith, once p) in
    let fewer : Distinct ps = λ q. ground (arith, once q) in
    let seen : (q : Ptr) → 0 < count q ps → readable d q ≡ true = λ q h. live q (ground arith) in
    rw (live p (ground arith)) (elim (Bool-cases (m p)) [
      | inl on ↦ rw on (
          keep-Sweeps p ps kept m d _ on out
            (sweep_objects-Sweeps ps (kept ++ p ∷ []) (update m p false) d fewer seen))
      | inr off ↦ rw off (
          drop-Sweeps p ps kept m d _ off out (
            sweep_objects-Sweeps ps kept m (update d p true) fewer
              (λ q h. readable-update d p q (λ e. absurd (ground arith)) (seen q h))))
    ])
