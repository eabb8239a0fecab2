-- ===== src/MyFunction/Assign.antt =====
-- The constructors, assignments and the call operator of my_function/my_function.hpp.
use low_level_cpp.Base.{ℕ, ◌≡◌, ◌≢◌, refl, ap, ◌∙◌, true, Option, none, some, arith, if◌then◌else◌}
use low_level_cpp.Base.Store.{update}
use low_level_cpp.MyFunction.{
  Callable, null, in_buffer, on_heap, Platform, Store, returns, bad_function_call, object,
  set_object, has_callable, construct_null, fits_in_sbo, construct, copy_construct, move_construct,
  invoked, invoke_object, call,
}
use low_level_cpp.MyFunction.Values.{Shows, Represents}
use low_level_cpp.MyFunction.Primitives.{place-Represents, Represents-null, object_shown}
use low_level_cpp.MyFunction.Operations.{set_object-Represents}
use low_level_cpp.MyFunction.Leads.{
  IsAllocator, Leads, Ends, if-holds, allocate-Leads, construct_null-Represents, copy_from-Leads,
  move_from-Ends,
}

module _ {F A R : Type 0} (platform : Platform F A R) (allocator : IsAllocator platform) where
  -- Where the wrappers hold `v`, a constructor on memory that is not in use makes a wrapper of an
  -- object; if memory runs out, nothing has changed.
  pub construct_at-Leads :
      (s : Store F) (v : ℕ → Option F) (i : ℕ) (f : F)
      → Represents s v
      → v i ≡ none
      → Leads (update v i (some f)) v (construct platform i f s)
  unfolding construct
  construct_at-Leads s v i f r empty =
      let s' = construct_null i s in
      let r' = construct_null-Represents platform allocator s v i r empty in
      if-holds (Leads (update v i (some f)) v) (fits_in_sbo platform f) _ _
        (λ fits. place-Represents s' v i f r' (Represents-null s' v i r' empty))
        (λ large. allocate-Leads platform allocator s' v i f r' empty)

  -- Where the wrappers hold `v`, a constructor on memory that is not in use makes a wrapper of a
  -- copy of what another holds, or takes that away from the other. If memory runs out, nothing has
  -- changed; a move asks for none.
  pub construct_copies :
      (s : Store F) (v : ℕ → Option F) (i j : ℕ)
      → Represents s v
      → v i ≡ none
      → i ≢ j
      → Leads (update v i (v j)) v (copy_construct platform i j s)
        × Ends (update (update v i (v j)) j none) (move_construct platform i j s)
  unfolding copy_construct move_construct
  construct_copies s v i j r empty apart =
      let s' = construct_null i s in
      let r' = construct_null-Represents platform allocator s v i r empty in
      (
        copy_from-Leads platform allocator s' v i j r' empty,
        move_from-Ends platform allocator s' v i j apart r' empty,
      )

  pub held_has_callable :
      (s : Store F) (j : ℕ) (c : Callable) (w : Option F)
      → Shows s j c w
      → w ≢ none
      → has_callable c ≡ true
  held_has_callable s j null w h e = absurd (e h.1)
  held_has_callable s j (in_buffer k) w h e = refl
  held_has_callable s j (on_heap p) w h e = refl

  -- A call of a wrapper that holds an object returns what the object returns, and the object is
  -- what the call makes of it; a call of one that holds nothing throws, and changes nothing.
  pub call-invoke :
      (s : Store F) (v : ℕ → Option F) (i : ℕ) (a : A)
      → Represents s v
      → ((f : F)
          → v i ≡ some f
          → (t : Store F) × (call platform i a s ≡ returns (platform.invoke a f).1 t)
            × Represents t (update v i (some (platform.invoke a f).0)))
        × (v i ≡ none → call platform i a s ≡ bad_function_call s)
  unfolding call
  call-invoke s v i a r =
      let c = s.callable i in
      (
        (λ f held.
            let some_object =
              held_has_callable s i c (v i) (r.shows i) (λ e. ground (arith, held, e)) in
            (
              set_object c (platform.invoke a f).0 s,
              ap
                    (λ b.
                      if b
                      then invoked platform c (invoke_object platform a (object c s)) s
                      else bad_function_call s)
                    some_object
                  ∙ ap (λ o. invoked platform c (invoke_object platform a o) s)
                      (object_shown s i c (v i) (r.shows i) ∙ held),
              set_object-Represents s v i c (platform.invoke a f).0 r refl some_object (r.shows i),
            )),
        λ empty.
            ap
              (λ k.
                if has_callable k
                then invoked platform k (invoke_object platform a (object k s)) s
                else bad_function_call s)
              (Represents-null s v i r empty),
      )
