-- ===== src/MyFunction/Leads.antt =====
-- How the constructors and assignments of my_function/my_function.hpp copy, move and allocate.
use mathlib.Core.Path.{subst}
use low_level_cpp.Base.{
  ℕ, ◌≡◌, ◌≢◌, inl, inr, refl, sym, ap, ◌∙◌, Bool, true, false, Option, none, some, arith, ◌==◌,
  if◌then◌else◌, eq-cases,
}
use low_level_cpp.Base.Store.{update, update_self, update_other}
use low_level_cpp.MyFunction.{
  Callable, null, in_buffer, on_heap, Platform, Store, Outcome, ends, returns, bad_alloc,
  bad_function_call, undefined, set_callable, object, set_object, place, is_sbo, points_to,
  has_callable, construct_null, ended, allocate, allocate_at, clone, copy_from, move_object,
  move_from,
}
use low_level_cpp.MyFunction.Values.{Shows, Represents, Represents-ext, Represents-same}
use low_level_cpp.MyFunction.Primitives.{
  place-Represents, heap-Represents, unchanged-Represents, some_of, Represents-null, object_shown,
}
use low_level_cpp.MyFunction.Operations.{clear-Clears, set_object-Represents, steal-Represents}

-- `new` finds memory that is not in use.
abbrev pub IsAllocator : {F A R : Type 0} → Platform F A R → Type 0
IsAllocator {F = F} platform =
    (heap : ℕ → Option F) (p : ℕ) → platform.new_address heap ≡ some p → heap p ≡ none

module _ {F R : Type 0} where
  -- The operation ends with the wrappers holding `good`, or with a `bad_alloc` and `failed`.
  abbrev pub Leads : (good failed : ℕ → Option F) → Outcome F R → Type 0
  Leads good failed (ends t) = Represents t good
  Leads good failed (returns r t) = false ≡ true
  Leads good failed (bad_alloc t) = Represents t failed
  Leads good failed (bad_function_call t) = false ≡ true
  Leads good failed undefined = false ≡ true

  -- The operation ends, without an exception, with the wrappers holding `good`.
  abbrev pub Ends : (good : ℕ → Option F) → Outcome F R → Type 0
  Ends good (ends t) = Represents t good
  Ends good (returns r t) = false ≡ true
  Ends good (bad_alloc t) = false ≡ true
  Ends good (bad_function_call t) = false ≡ true
  Ends good undefined = false ≡ true

  pub Leads-ext :
      (v w failed : ℕ → Option F) (o : Outcome F R)
      → ((k : ℕ) → v k ≡ w k)
      → Leads v failed o
      → Leads w failed o
  Leads-ext v w failed (ends t) e h = Represents-ext t v w e h
  Leads-ext v w failed (returns r t) e h = h
  Leads-ext v w failed (bad_alloc t) e h = h
  Leads-ext v w failed (bad_function_call t) e h = h
  Leads-ext v w failed undefined e h = h

  pub Ends-ext :
      (v w : ℕ → Option F) (o : Outcome F R) → ((k : ℕ) → v k ≡ w k) → Ends v o → Ends w o
  Ends-ext v w (ends t) e h = Represents-ext t v w e h
  Ends-ext v w (returns r t) e h = h
  Ends-ext v w (bad_alloc t) e h = h
  Ends-ext v w (bad_function_call t) e h = h
  Ends-ext v w undefined e h = h

  pub if-holds :
      (P : Outcome F R → Type 0) (b : Bool) (x y : Outcome F R)
      → (b ≡ true → P x)
      → (b ≡ false → P y)
      → P (if b then x else y)
  if-holds P true x y h k = h refl
  if-holds P false x y h k = k refl

module _ {F A R : Type 0} (platform : Platform F A R) (allocator : IsAllocator platform) where
  pub allocate_at-Leads :
      (s : Store F) (v : ℕ → Option F) (i : ℕ) (f : F) (memory : Option ℕ)
      → platform.new_address s.heap ≡ memory
      → Represents s v
      → v i ≡ none
      → Leads (update v i (some f)) v (allocate_at platform i f s memory)
  allocate_at-Leads s v i f none e r empty = r
  allocate_at-Leads s v i f (some p) e r empty =
      heap-Represents s v i p f r (Represents-null s v i r empty) (allocator s.heap p e)

  pub allocate-Leads :
      (s : Store F) (v : ℕ → Option F) (i : ℕ) (f : F)
      → Represents s v
      → v i ≡ none
      → Leads (update v i (some f)) v (allocate platform i f s)
  allocate-Leads s v i f r empty =
      allocate_at-Leads s v i f (platform.new_address s.heap) refl r empty

  pub construct_null-Represents :
      (s : Store F) (v : ℕ → Option F) (i : ℕ)
      → Represents s v
      → v i ≡ none
      → Represents (construct_null i s) v
  construct_null-Represents s v i r empty =
      Represents-same s (construct_null i s) v
        (λ j. elim (eq-cases i j) [
          | inl this ↦
              ap (update s.callable i null) (sym this)
              ∙ update_self s.callable i null
              ∙ sym (Represents-null s v i r empty)
              ∙ ap s.callable this
          | inr other ↦ update_other s.callable i j null other
        ])
        (λ j. refl) (λ p. refl) r

  pub clone-Leads :
      (s : Store F) (v : ℕ → Option F) (i : ℕ) (b : Bool) (o : Option F)
      → Represents s v
      → v i ≡ none
      → o ≢ none
      → Leads (update v i o) v (clone platform i b o s)
  clone-Leads s v i b none r empty held = absurd (held refl)
  clone-Leads s v i true (some f) r empty held =
      place-Represents s v i f r (Represents-null s v i r empty)
  clone-Leads s v i false (some f) r empty held = allocate-Leads s v i f r empty

  pub has_callable_held :
      (s : Store F) (j : ℕ) (c : Callable) (w : Option F)
      → Shows s j c w
      → has_callable c ≡ true
      → w ≢ none
  has_callable_held s j null w h e = absurd (ground arith)
  has_callable_held s j (in_buffer k) w h e = h.2
  has_callable_held s j (on_heap p) w h e = h.2

  pub no_callable_none :
      (s : Store F) (j : ℕ) (c : Callable) (w : Option F)
      → Shows s j c w
      → has_callable c ≡ false
      → w ≡ none
  no_callable_none s j null w h e = h.1
  no_callable_none s j (in_buffer k) w h e = absurd (ground arith)
  no_callable_none s j (on_heap p) w h e = absurd (ground arith)

  pub copy_from-Leads :
      (s : Store F) (v : ℕ → Option F) (i j : ℕ)
      → Represents s v
      → v i ≡ none
      → Leads (update v i (v j)) v (copy_from platform i j s)
  unfolding copy_from
  copy_from-Leads s v i j r empty =
      let shown = object_shown s j (s.callable j) (v j) (r.shows j) in
      if-holds (Leads (update v i (v j)) v) (has_callable (s.callable j)) _ _
        (λ some_object.
          subst
            (λ o.
              Leads (update v i o) v (clone platform i (is_sbo j s) (object (s.callable j) s) s))
            shown
            (clone-Leads s v i (is_sbo j s) (object (s.callable j) s) r empty (λ e.
              has_callable_held s j (s.callable j) (v j) (r.shows j) some_object (sym shown ∙ e))))
        (λ no_object.
          unchanged-Represents s v i (v j) r
            (empty ∙ sym (no_callable_none s j (s.callable j) (v j) (r.shows j) no_object)))

  abbrev pub move_at : Callable → (i j : ℕ) → Store F → Outcome F R
  move_at c i j s =
      if has_callable c
      then if points_to j c
        then move_object platform i j (object c s) s
        else ends (set_callable j null (set_callable i c s))
      else ends s

  pub move_object-Ends :
      (s : Store F) (v : ℕ → Option F) (i j : ℕ) (f : F)
      → i ≢ j
      → Represents s v
      → v i ≡ none
      → v j ≡ some f
      → has_callable (s.callable j) ≡ true
      → Ends (update (update v i (v j)) j none) (move_object platform i j (some f) s)
  unfolding move_object
  move_object-Ends s v i j f apart r empty held some_object =
      let l = platform.leftover f in
      let s1 = set_object (s.callable j) l s in
      let v1 = update v j (some l) in
      let r1 = set_object-Represents s v j (s.callable j) l r refl some_object (r.shows j) in
      let r2 =
        place-Represents s1 v1 i f r1
          (Represents-null s1 v1 i r1 (update_other v j i (some l) (λ e. apart (sym e)) ∙ empty)) in
      let (t, same, r3, cleared) = clear-Clears (place i f s1) (update v1 i (some f)) j r2 in
      subst (λ o. Ends {R = R} (update (update v i (v j)) j none) (ended o)) (sym same)
        (Represents-ext t _ _ (λ k. ground (arith, held, apart)) r3)

  pub move_at-Ends :
      (s : Store F) (v : ℕ → Option F) (i j : ℕ) (c : Callable)
      → i ≢ j
      → Represents s v
      → v i ≡ none
      → s.callable j ≡ c
      → Shows s j c (v j)
      → Ends (update (update v i (v j)) j none) (move_at c i j s)
  move_at-Ends s v i j null apart r empty e h =
      unchanged-Represents s (update v i (v j)) j none
        (unchanged-Represents s v i (v j) r (empty ∙ sym h.1))
        (update_other v i j (v j) apart ∙ h.1)
  move_at-Ends s v i j (in_buffer k) apart r empty e (owner, shown, held) =
      let (f, live) = some_of (v j) held in
      if-holds (Ends (update (update v i (v j)) j none)) (j == k) _ _
        (λ own.
          subst (λ o. Ends (update (update v i (v j)) j none) (move_object platform i j o s))
            (sym (ap s.buffer owner ∙ shown ∙ live))
            (move_object-Ends s v i j f apart r empty live (ap has_callable e)))
        (λ other. absurd (ground (arith, owner, other)))
  move_at-Ends s v i j (on_heap p) apart r empty e h =
      steal-Represents s v i j p apart r (Represents-null s v i r empty) e

  pub move_from-Ends :
      (s : Store F) (v : ℕ → Option F) (i j : ℕ)
      → i ≢ j
      → Represents s v
      → v i ≡ none
      → Ends (update (update v i (v j)) j none) (move_from platform i j s)
  unfolding move_from is_sbo
  move_from-Ends s v i j apart r empty =
      move_at-Ends s v i j (s.callable j) apart r empty refl (r.shows j)
