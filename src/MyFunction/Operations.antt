-- ===== src/MyFunction/Operations.antt =====
-- The operations of my_function/my_function.hpp on the values that the wrappers hold.
use mathlib.Core.Path.{subst}
use low_level_cpp.Base.{
  ℕ, ◌≡◌, ◌≢◌, inl, inr, refl, sym, ap, ◌∙◌, true, Option, none, some, arith, if◌then◌else◌,
  eq-cases, ==_refl,
}
use low_level_cpp.Base.Store.{update, update_self, update_other, update_swap, update_back}
use low_level_cpp.MyFunction.{
  Callable, null, in_buffer, on_heap, Store, set_callable, set_buffer, set_heap, object, set_object,
  is_sbo, points_to, has_callable, destroy, delete_object, reset_callable, clear,
}
use low_level_cpp.MyFunction.Values.{
  Shows, Represents, Changes-Represents, Represents-ext, Represents-same,
}
use low_level_cpp.MyFunction.Primitives.{
  Clears, heap-Represents, unbuffer-Represents, unheap-Represents, unchanged-Represents, some_of,
}

module _ {F : Type 0} where
  abbrev clear_at : ℕ → Callable → Store F → Option (Store F)
  clear_at i c s =
      if has_callable c
      then reset_callable i
          (if points_to i c then destroy c s (object c s) else delete_object c s (object c s))
      else some s

  clear_at-Clears :
      (s : Store F) (v : ℕ → Option F) (i : ℕ) (c : Callable)
      → Represents s v
      → s.callable i ≡ c
      → Shows s i c (v i)
      → Clears s v i (clear_at i c s)
  clear_at-Clears s v i null r e h = (s, refl, unchanged-Represents s v i none r h.1, e)
  clear_at-Clears s v i (in_buffer j) r e (owner, shown, held) =
      let e' : s.callable i ≡ in_buffer i = e ∙ ap in_buffer owner in
      let (f, live) = some_of (v i) held in
      let t = set_callable i null (set_buffer i none s) in
      let same : clear_at i (in_buffer j) s ≡ some t =
        ap (λ k. clear_at i (in_buffer k) s) owner
        ∙ ap
            (λ b. reset_callable i (
              if b
              then destroy (in_buffer i) s (s.buffer i)
              else delete_object (in_buffer i) s (s.buffer i)))
            (==_refl i)
        ∙ ap (λ o. reset_callable i (destroy (in_buffer i) s o)) (shown ∙ live) in
      (t, same, unbuffer-Represents s v i r e', update_self s.callable i null)
  clear_at-Clears s v i (on_heap p) r e (buffer, shown, held) =
      let (f, live) = some_of (v i) held in
      let t = set_callable i null (set_heap p none s) in
      (
        t,
        ap (λ o. reset_callable i (delete_object (on_heap p) s o)) (shown ∙ live),
        unheap-Represents s v i p r e,
        update_self s.callable i null,
      )

  pub clear-Clears :
      (s : Store F) (v : ℕ → Option F) (i : ℕ) → Represents s v → Clears s v i (clear i s)
  unfolding clear is_sbo
  clear-Clears s v i r = clear_at-Clears s v i (s.callable i) r refl (r.shows i)

  -- The object behind the pointer of `i` changes.
  pub set_object-Represents :
      (s : Store F) (v : ℕ → Option F) (i : ℕ) (c : Callable) (f : F)
      → Represents s v
      → s.callable i ≡ c
      → has_callable c ≡ true
      → Shows s i c (v i)
      → Represents (set_object c f s) (update v i (some f))
  set_object-Represents s v i null f r e some_object h = absurd (ground (arith, some_object))
  set_object-Represents s v i (in_buffer j) f r e some_object (owner, shown, held) =
      Changes-Represents i s (set_buffer j (some f) s) v (some f) r
        (record {
          callable = λ k other. refl;
          buffer = λ k other. update_other s.buffer j k (some f) (λ same. other (sym owner ∙ same));
          heap = λ k q other g. refl;
          free = λ k q other g h. other (r.single i k q g h);
          kept = λ q h. inr (h, λ g. ground (arith, e, g));
        })
        (subst (λ c. Shows (set_buffer j (some f) s) i c (some f)) (sym e)
          (
            owner,
            ap (update s.buffer j (some f)) (sym owner) ∙ update_self s.buffer j (some f),
            λ g. ground (arith, g),
          ))
  set_object-Represents s v i (on_heap p) f r e some_object (buffer, shown, held) =
      Changes-Represents i s (set_heap p (some f) s) v (some f) r
        (record {
          callable = λ k other. refl;
          buffer = λ k other. refl;
          heap = λ k q other g.
              update_other s.heap p q (some f)
                (λ same. other (r.single i k p e (g ∙ ap on_heap (sym same))));
          free = λ k q other g h. other (r.single i k q g h);
          kept = λ q h. elim (eq-cases p q) [
            | inl same ↦ inl (e ∙ ap on_heap same)
            | inr other ↦ inr (
              (λ g. h (update_other s.heap p q (some f) other ∙ g)),
              λ g. ground (arith, e, g, other),
            )
          ];
        })
        (subst (λ c. Shows (set_heap p (some f) s) i c (some f)) (sym e)
          (buffer, update_self s.heap p (some f), λ g. ground (arith, g)))

  -- The heap object of `j` goes over to `i`, which held nothing.
  pub steal-Represents :
      (s : Store F) (v : ℕ → Option F) (i j p : ℕ)
      → i ≢ j
      → Represents s v
      → s.callable i ≡ null
      → s.callable j ≡ on_heap p
      → Represents
          (set_callable j null (set_callable i (on_heap p) s))
          (update (update v i (v j)) j none)
  steal-Represents s v i j p apart r empty e =
      let shown : Shows s j (on_heap p) (v j) = subst (λ c. Shows s j c (v j)) e (r.shows j) in
      let (f, live) = some_of (v j) shown.2 in
      let t = set_callable j null (set_heap p none s) in
      let w = update v j none in
      let freed = unheap-Represents s v j p r e in
      let taken =
        heap-Represents t w i p f freed
          (update_other s.callable j i null (λ same. apart (sym same)) ∙ empty)
          (update_self s.heap p none) in
      Represents-same (set_callable i (on_heap p) (set_heap p (some f) t)) _ _
        (λ k. update_swap s.callable i j k (on_heap p) null apart) (λ k. refl)
        (λ q. sym (update_back s.heap p q none (some f) (shown.1 ∙ live)))
        (Represents-ext _ (update w i (some f)) (update (update v i (v j)) j none)
          (λ k.
            ap (λ x. update w i x k) (sym live)
            ∙ update_swap v j i k none (v j) (λ same. apart (sym same)))
          taken)
