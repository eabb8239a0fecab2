-- ===== src/MyFunction/Values.antt =====
-- The wrappers of my_function/my_function.hpp as values: which object each of them holds.
use mathlib.Core.Path.{subst}
use low_level_cpp.Base.{ℕ, ◌≡◌, ◌≢◌, ◌⊎◌, inl, inr, refl, sym, ap, ◌∙◌, Option, none, eq-cases}
use low_level_cpp.Base.Store.{update, update_self, update_other}
use low_level_cpp.MyFunction.{Callable, null, in_buffer, on_heap, Store}

module _ {F : Type 0} where
  -- A wrapper whose field is `c` holds `v`.
  abbrev pub Shows : Store F → ℕ → Callable → Option F → Type 0
  Shows s i null v = (s.buffer i ≡ none) × (v ≡ none)
  Shows s i (in_buffer j) v = (j ≡ i) × (s.buffer i ≡ v) × (v ≢ none)
  Shows s i (on_heap p) v = (s.buffer i ≡ none) × (s.heap p ≡ v) × (v ≢ none)

  -- Each wrapper `i` holds `values i`, and each object of the heap has one wrapper.
  pub record Represents (s : Store F) (values : ℕ → Option F) : Type 0 where
    pub shows : (i : ℕ) → Shows s i (s.callable i) (values i)
    pub single : (i j p : ℕ) → s.callable i ≡ on_heap p → s.callable j ≡ on_heap p → i ≡ j
    pub kept : (p : ℕ) → s.heap p ≢ none → (i : ℕ) × (s.callable i ≡ on_heap p)

  pub Represents-ext :
      (s : Store F) (v w : ℕ → Option F) → ((i : ℕ) → v i ≡ w i) → Represents s v → Represents s w
  Represents-ext s v w same r = record {
    shows = λ i. subst (Shows s i (s.callable i)) (same i) (r.shows i);
    single = r.single;
    kept = r.kept;
  }

  Shows-frame :
      (s t : Store F) (i : ℕ) (c : Callable) (v : Option F)
      → t.buffer i ≡ s.buffer i
      → ((p : ℕ) → c ≡ on_heap p → t.heap p ≡ s.heap p)
      → Shows s i c v
      → Shows t i c v
  Shows-frame s t i null v buffer heap h = (buffer ∙ h.0, h.1)
  Shows-frame s t i (in_buffer j) v buffer heap h = (h.0, buffer ∙ h.1, h.2)
  Shows-frame s t i (on_heap p) v buffer heap h = (buffer ∙ h.0, heap p refl ∙ h.1, h.2)

  pub Represents-same :
      (s t : Store F) (v : ℕ → Option F)
      → ((i : ℕ) → t.callable i ≡ s.callable i)
      → ((i : ℕ) → t.buffer i ≡ s.buffer i)
      → ((p : ℕ) → t.heap p ≡ s.heap p)
      → Represents s v
      → Represents t v
  Represents-same s t v callable buffer heap r = record {
    shows = λ i.
        subst (λ c. Shows t i c (v i)) (sym (callable i))
          (Shows-frame s t i (s.callable i) (v i) (buffer i) (λ p e. heap p) (r.shows i));
    single = λ i j p e f. r.single i j p (sym (callable i) ∙ e) (sym (callable j) ∙ f);
    kept = λ p h. let (i, e) = r.kept p (λ f. h (heap p ∙ f)) in (i, callable i ∙ e);
  }

  -- What a change at wrapper `i` has to leave alone.
  pub record Changes (i : ℕ) (s t : Store F) : Type 0 where
    pub callable : (j : ℕ) → i ≢ j → t.callable j ≡ s.callable j
    pub buffer : (j : ℕ) → i ≢ j → t.buffer j ≡ s.buffer j
    pub heap : (j p : ℕ) → i ≢ j → s.callable j ≡ on_heap p → t.heap p ≡ s.heap p
    pub free : (j p : ℕ) → i ≢ j → t.callable i ≡ on_heap p → s.callable j ≢ on_heap p
    pub kept :
        (p : ℕ)
        → t.heap p ≢ none
        → (t.callable i ≡ on_heap p) ⊎ ((s.heap p ≢ none) × (s.callable i ≢ on_heap p))

  pub Changes-Represents :
      (i : ℕ) (s t : Store F) (v : ℕ → Option F) (w : Option F)
      → Represents s v
      → Changes i s t
      → Shows t i (t.callable i) w
      → Represents t (update v i w)
  Changes-Represents i s t v w r c here = record {
    shows = λ j. elim (eq-cases i j) [
      | inl this ↦
          subst (λ k. Shows t k (t.callable k) (update v i w k)) this
            (subst (Shows t i (t.callable i)) (sym (update_self v i w)) here)
      | inr other ↦ subst (Shows t j (t.callable j)) (sym (update_other v i j w other)) (
          subst (λ k. Shows t j k (v j)) (sym (c.callable j other))
            (Shows-frame s t j (s.callable j) (v j) (c.buffer j other) (λ p e. c.heap j p other e)
              (r.shows j)))
    ];
    single = λ j k p e f. elim (eq-cases i j) [
      | inl this ↦ elim (eq-cases i k) [
        | inl that ↦ sym this ∙ that
        | inr other ↦
            absurd (c.free k p other (ap t.callable this ∙ e) (sym (c.callable k other) ∙ f))
      ]
      | inr apart ↦ elim (eq-cases i k) [
        | inl that ↦
            absurd (c.free j p apart (ap t.callable that ∙ f) (sym (c.callable j apart) ∙ e))
        | inr other ↦ r.single j k p (sym (c.callable j apart) ∙ e) (sym (c.callable k other) ∙ f)
      ]
    ];
    kept = λ p h. elim (c.kept p h) [
      | inl here ↦ (i, here)
      | inr (old, not_here) ↦
          let (j, e) = r.kept p old in
          let other : i ≢ j = λ same. not_here (ap s.callable same ∙ e) in
          (j, c.callable j other ∙ e)
    ];
  }
