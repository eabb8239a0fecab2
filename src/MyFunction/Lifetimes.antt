-- ===== src/MyFunction/Lifetimes.antt =====
-- The wrappers of my_function/my_function.hpp that are alive in a program, and what they hold.
use low_level_cpp.Base.{
  ℕ, ◌≡◌, ◌≢◌, refl, ap, Bool, true, false, not, ◌&&◌, Option, none, some, arith, if◌then◌else◌,
}
use low_level_cpp.Base.Store.{update}
use low_level_cpp.MyFunction.{
  Store, Outcome, ends, returns, bad_alloc, bad_function_call, undefined,
}
use low_level_cpp.MyFunction.Values.{Represents}
use low_level_cpp.MyFunction.Leads.{Leads, Ends}

-- The wrappers of a program: those that have been constructed and not yet destroyed are alive.
pub record Wrappers (F : Type 0) : Type 0 where
  pub store : Store F
  pub alive : ℕ → Bool

pub apart : (alive : ℕ → Bool) (i j : ℕ) → (not (alive i) && alive j) ≡ true → i ≢ j
apart alive i j e same = ground (arith, e, ap alive same)

module _ {F : Type 0} where
  -- A wrapper that is not alive holds nothing.
  abbrev pub Rests : (ℕ → Bool) → (ℕ → Option F) → Type 0
  Rests alive v = (i : ℕ) → alive i ≡ false → v i ≡ none

  -- The wrappers that the program goes on with hold something.
  abbrev pub Goes : Option (Wrappers F) → Type 0
  Goes o =
      (w : Wrappers F) × (o ≡ some w) × (v : ℕ → Option F) × Represents w.store v × Rests w.alive v

  pub if-Goes :
      (b : Bool) (w : Wrappers F) (v : ℕ → Option F) (o : Option (Wrappers F))
      → Represents w.store v
      → Rests w.alive v
      → (b ≡ true → Goes o)
      → Goes (if b then o else some w)
  if-Goes true w v o r q k = k refl
  if-Goes false w v o r q k = (w, refl, v, r, q)

  -- A wrapper that is alive holds whatever it likes.
  pub Rests-update :
      (alive : ℕ → Bool) (v : ℕ → Option F) (i : ℕ) (o : Option F)
      → Rests alive v
      → alive i ≡ true
      → Rests alive (update v i o)
  Rests-update alive v i o q on k off = ground (arith, q k off)

  pub Rests-none :
      (alive : ℕ → Bool) (v : ℕ → Option F) (i : ℕ) → Rests alive v → Rests alive (update v i none)
  Rests-none alive v i q k off = ground (arith, q k off)

  pub Rests-born :
      (alive : ℕ → Bool) (v : ℕ → Option F) (i : ℕ) (o : Option F)
      → Rests alive v
      → Rests (update alive i true) (update v i o)
  Rests-born alive v i o q k off = ground (arith, off, q k)

  pub Rests-dead :
      (alive : ℕ → Bool) (v : ℕ → Option F) (i : ℕ)
      → Rests alive v
      → Rests (update alive i false) (update v i none)
  Rests-dead alive v i q k off = ground (arith, off, q k)

module _ {F R : Type 0} where
  -- Exceptions are caught, and the program goes on; `born` are the wrappers that are alive then, and
  -- `unborn` those that are when memory ran out.
  abbrev pub settle : (born unborn : ℕ → Bool) → Outcome F R → Option (Wrappers F)
  settle born unborn (ends s) = some (record { store = s; alive = born })
  settle born unborn (returns r s) = some (record { store = s; alive = born })
  settle born unborn (bad_alloc s) = some (record { store = s; alive = unborn })
  settle born unborn (bad_function_call s) = some (record { store = s; alive = born })
  settle born unborn undefined = none

  pub Leads-Goes :
      (born unborn : ℕ → Bool) (good failed : ℕ → Option F) (o : Outcome F R)
      → Leads good failed o
      → Rests born good
      → Rests unborn failed
      → Goes (settle born unborn o)
  Leads-Goes born unborn good failed (ends t) h b u = (_, refl, good, h, b)
  Leads-Goes born unborn good failed (returns r t) h b u = absurd (ground (arith, h))
  Leads-Goes born unborn good failed (bad_alloc t) h b u = (_, refl, failed, h, u)
  Leads-Goes born unborn good failed (bad_function_call t) h b u = absurd (ground (arith, h))
  Leads-Goes born unborn good failed undefined h b u = absurd (ground (arith, h))

  pub Ends-Goes :
      (born unborn : ℕ → Bool) (good : ℕ → Option F) (o : Outcome F R)
      → Ends good o
      → Rests born good
      → Goes (settle born unborn o)
  Ends-Goes born unborn good (ends t) h b = (_, refl, good, h, b)
  Ends-Goes born unborn good (returns r t) h b = absurd (ground (arith, h))
  Ends-Goes born unborn good (bad_alloc t) h b = absurd (ground (arith, h))
  Ends-Goes born unborn good (bad_function_call t) h b = absurd (ground (arith, h))
  Ends-Goes born unborn good undefined h b = absurd (ground (arith, h))
