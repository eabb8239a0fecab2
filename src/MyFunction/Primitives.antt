-- ===== src/MyFunction/Primitives.antt =====
-- The parts that the operations of my_function/my_function.hpp are made of.
use mathlib.Core.Path.{subst}
use low_level_cpp.Base.{
  ℕ, ◌≡◌, ◌≢◌, inl, inr, refl, sym, ap, ◌∙◌, Option, none, some, arith, eq-cases,
}
use low_level_cpp.Base.Store.{update, update_self, update_other}
use low_level_cpp.MyFunction.{
  Callable, null, in_buffer, on_heap, Store, set_callable, set_buffer, set_heap, object, place,
}
use low_level_cpp.MyFunction.Values.{Shows, Represents, Changes-Represents, Represents-ext}

pub null_not_on_heap : (p : ℕ) → null ≢ on_heap p
null_not_on_heap p e = ground (arith, e)

pub in_buffer_not_on_heap : (j p : ℕ) → in_buffer j ≢ on_heap p
in_buffer_not_on_heap j p e = ground (arith, e)

pub on_heap-injective : (p q : ℕ) → on_heap p ≡ on_heap q → p ≡ q
on_heap-injective p q e = ground (arith, e)

module _ {F : Type 0} where
  -- A wrapper that holds nothing has a null pointer.
  holds_none :
      (s : Store F) (i : ℕ) (c : Callable) (v : Option F) → Shows s i c v → v ≡ none → c ≡ null
  holds_none s i null v h e = refl
  holds_none s i (in_buffer j) v h e = absurd (h.2 e)
  holds_none s i (on_heap p) v h e = absurd (h.2 e)

  pub Represents-null :
      (s : Store F) (v : ℕ → Option F) (i : ℕ) → Represents s v → v i ≡ none → s.callable i ≡ null
  Represents-null s v i r e = holds_none s i (s.callable i) (v i) (r.shows i) e

  pub no_buffer :
      (s : Store F) (i : ℕ) (c : Callable) (v : Option F)
      → Shows s i c v
      → v ≡ none
      → s.buffer i ≡ none
  no_buffer s i null v h e = h.0
  no_buffer s i (in_buffer j) v h e = h.1 ∙ e
  no_buffer s i (on_heap p) v h e = h.0

  -- The object behind the pointer of a wrapper is the one that it holds.
  pub object_shown :
      (s : Store F) (i : ℕ) (c : Callable) (v : Option F) → Shows s i c v → object c s ≡ v
  object_shown s i null v h = sym h.1
  object_shown s i (in_buffer j) v h = ap s.buffer h.0 ∙ h.1
  object_shown s i (on_heap p) v h = h.1

  pub place-Represents :
      (s : Store F) (v : ℕ → Option F) (i : ℕ) (f : F)
      → Represents s v
      → s.callable i ≡ null
      → Represents (place i f s) (update v i (some f))
  place-Represents s v i f r empty =
      Changes-Represents i s (place i f s) v (some f) r
        (record {
          callable = λ j other. update_other s.callable i j (in_buffer i) other;
          buffer = λ j other. update_other s.buffer i j (some f) other;
          heap = λ j p other e. refl;
          free = λ j p other e.
              absurd (in_buffer_not_on_heap i p (sym (update_self s.callable i (in_buffer i)) ∙ e));
          kept = λ p h. inr (h, λ e. null_not_on_heap p (sym empty ∙ e));
        })
        (subst (λ c. Shows (place i f s) i c (some f))
          (sym (update_self s.callable i (in_buffer i)))
          (refl, update_self s.buffer i (some f), λ e. ground (arith, e)))

  -- What a pointer of a wrapper leads to on the heap is alive.
  pub held_live :
      (s : Store F) (v : ℕ → Option F) (j p : ℕ)
      → Represents s v
      → s.callable j ≡ on_heap p
      → s.heap p ≢ none
  held_live s v j p r e dead =
      let h : Shows s j (on_heap p) (v j) = subst (λ c. Shows s j c (v j)) e (r.shows j) in
      h.2 (sym h.1 ∙ dead)

  pub heap-Represents :
      (s : Store F) (v : ℕ → Option F) (i p : ℕ) (f : F)
      → Represents s v
      → s.callable i ≡ null
      → s.heap p ≡ none
      → Represents (set_callable i (on_heap p) (set_heap p (some f) s)) (update v i (some f))
  heap-Represents s v i p f r empty dead =
      let t = set_callable i (on_heap p) (set_heap p (some f) s) in
      let here : t.callable i ≡ on_heap p = update_self s.callable i (on_heap p) in
      Changes-Represents i s t v (some f) r
        (record {
          callable = λ j other. update_other s.callable i j (on_heap p) other;
          buffer = λ j other. refl;
          heap = λ j q other e.
              update_other s.heap p q (some f)
                (λ same. held_live s v j q r e (ap s.heap (sym same) ∙ dead));
          free = λ j q other e h.
              held_live s v j q r h (ap s.heap (sym (on_heap-injective p q (sym here ∙ e))) ∙ dead);
          kept = λ q h. elim (eq-cases p q) [
            | inl same ↦ inl (here ∙ ap on_heap same)
            | inr other ↦ inr (
              (λ e. h (update_other s.heap p q (some f) other ∙ e)),
              λ e. null_not_on_heap q (sym empty ∙ e),
            )
          ];
        })
        (subst (λ c. Shows t i c (some f)) (sym here)
          (
            no_buffer s i null (v i) (subst (λ c. Shows s i c (v i)) empty (r.shows i))
                (subst (λ c. Shows s i c (v i)) empty (r.shows i)).1,
            update_self s.heap p (some f),
            λ e. ground (arith, e),
          ))

  pub some_of : (o : Option F) → o ≢ none → (f : F) × (o ≡ some f)
  some_of none h = absurd (h refl)
  some_of (some f) h = (f, refl)

  -- A wrapper lets go of its object.
  abbrev pub Clears : Store F → (ℕ → Option F) → ℕ → Option (Store F) → Type 0
  Clears s v i o =
      (t : Store F) × (o ≡ some t) × Represents t (update v i none) × (t.callable i ≡ null)

  pub unbuffer-Represents :
      (s : Store F) (v : ℕ → Option F) (i : ℕ)
      → Represents s v
      → s.callable i ≡ in_buffer i
      → Represents (set_callable i null (set_buffer i none s)) (update v i none)
  unbuffer-Represents s v i r e =
      let t = set_callable i null (set_buffer i none s) in
      let here : t.callable i ≡ null = update_self s.callable i null in
      Changes-Represents i s t v none r
        (record {
          callable = λ j other. update_other s.callable i j null other;
          buffer = λ j other. update_other s.buffer i j none other;
          heap = λ j q other h. refl;
          free = λ j q other h. absurd (null_not_on_heap q (sym here ∙ h));
          kept = λ q h. inr (h, λ f. in_buffer_not_on_heap i q (sym e ∙ f));
        })
        (subst (λ c. Shows t i c none) (sym here) (update_self s.buffer i none, refl))

  pub unheap-Represents :
      (s : Store F) (v : ℕ → Option F) (i p : ℕ)
      → Represents s v
      → s.callable i ≡ on_heap p
      → Represents (set_callable i null (set_heap p none s)) (update v i none)
  unheap-Represents s v i p r e =
      let t = set_callable i null (set_heap p none s) in
      let here : t.callable i ≡ null = update_self s.callable i null in
      let shown : Shows s i (on_heap p) (v i) = subst (λ c. Shows s i c (v i)) e (r.shows i) in
      Changes-Represents i s t v none r
        (record {
          callable = λ j other. update_other s.callable i j null other;
          buffer = λ j other. refl;
          heap = λ j q other h.
              update_other s.heap p q none
                (λ same. other (r.single i j p e (h ∙ ap on_heap (sym same))));
          free = λ j q other h. absurd (null_not_on_heap q (sym here ∙ h));
          kept = λ q h. elim (eq-cases p q) [
            | inl same ↦ absurd (h (ap t.heap (sym same) ∙ update_self s.heap p none))
            | inr other ↦ inr (
              (λ g. h (update_other s.heap p q none other ∙ g)),
              λ g. other (on_heap-injective p q (sym e ∙ g)),
            )
          ];
        })
        (subst (λ c. Shows t i c none) (sym here) (shown.0, refl))

  pub unchanged-Represents :
      (s : Store F) (v : ℕ → Option F) (i : ℕ) (w : Option F)
      → Represents s v
      → v i ≡ w
      → Represents s (update v i w)
  unchanged-Represents s v i w r e =
      Represents-ext s v (update v i w)
        (λ j. elim (eq-cases i j) [
          | inl this ↦ ap v (sym this) ∙ e ∙ sym (update_self v i w) ∙ ap (update v i w) this
          | inr other ↦ sym (update_other v i j w other)
        ])
        r
