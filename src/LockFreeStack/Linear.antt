-- ===== src/LockFreeStack/Linear.antt =====
-- Runs of the lock-free stack against the abstract stack.
use mathlib.Core.Path.{subst}
use low_level_cpp.Base.{
  ℕ, ◌+◌, ◌^◌, ◌<◌, ◌≡◌, ◌≢◌, inl, inr, refl, sym, ap, ◌∙◌, true, false, none, some, List, [], ◌∷◌,
  arith, if◌then◌else◌, count, eq-cases, ==_refl,
}
use low_level_cpp.Base.Chain.{Ptr, nullptr, Chain, Chain-update}
use low_level_cpp.Base.Store.{update, update_self, update_other}
use low_level_cpp.LockFreeStack.{
  TaggedPointer, Pc, idle, push_loading, push_linking, push_ready, pop_loading, pop_loaded,
  pop_tagging, pop_ready, pop_taken, System, Label, silent, observes, calls_push, calls_pop, pushes,
  pops, returns, same_top, read_next, moved, count_tag, link_node, set_top, delete_node, make_node,
}
use low_level_cpp.LockFreeStack.Abstract.{
  Abstract, resting, must_push, must_pop, found_empty, must_return, with_duty, found, begin, look,
  put, take_first, take, return, allow,
}
use low_level_cpp.LockFreeStack.Invariant.{Owns, keys_of, IsStack, Simulates}
use low_level_cpp.LockFreeStack.Steps.{
  top_held, mine, mine-Settled, stays-Simulates, fetches-Simulates, installs-Simulates,
  deletes-Simulates, makes-Simulates,
}

-- The abstract stack allows the label of a step, and simulates what the step leaves.
pub record Allows (a : Abstract) (r : System × Label) : Type 0 where
  pub after : Abstract
  pub allowed : allow r.1 a ≡ some after
  pub simulates : Simulates r.0 after

module _ (s : System) (a : Abstract) (sim : Simulates s a) where
  pub still : Allows a (s, silent)
  still = record { after = a; allowed = refl; simulates = sim }

  -- Whether the top is null says what the stack holds.
  found_by_top :
      (nodes : List Ptr) (ks : List ℕ)
      → IsStack s.stack nodes ks
      → (s.stack.top.node ≡ nullptr → found ks ≡ found_empty)
        × (s.stack.top.node ≢ nullptr → found ks ≡ must_pop)
  found_by_top [] [] is = (λ null. refl, λ other. absurd (other is.chain))
  found_by_top [] (k ∷ ks) is = absurd (ground (arith, is.keys))
  found_by_top (p ∷ nodes) [] is = absurd (ground (arith, is.keys))
  found_by_top (p ∷ nodes) (k ∷ ks) is =
      (λ null. absurd (is.chain.1 (sym is.chain.0 ∙ null)), λ other. refl)

  module _ (i : ℕ) where
    -- `pop` loads the top, at its start or where its exchange fails.
    pub loads_pop :
        (p : Pc)
        → s.pc i ≡ p
        → a.duty i ≡ must_pop
        → Allows a (moved i (pop_loaded s.stack.top) s.stack s, observes i)
    loads_pop p here owes =
        let kind = found_by_top sim.nodes a.keys sim.stack in
        let set = update_self a.duty i (found a.keys) in
        record {
          after = with_duty i (found a.keys) a;
          allowed = ap (λ d. look i d a) owes;
          simulates =
              stays-Simulates s a sim i p here (pop_loaded s.stack.top)
                (with_duty i (found a.keys) a) refl
                (λ j ne. update_other a.duty i j (found a.keys) ne) (λ x h. absurd h)
                (λ t h. absurd h) (λ x t h. inr h) tt
                (λ null. set ∙ kind.0 null, λ other. set ∙ kind.1 other);
        }

    pub loads_push :
        (n : Ptr) (p : Pc)
        → s.pc i ≡ p
        → ((x : Ptr) → n ≡ x → Owns p x)
        → a.duty i ≡ must_push (s.stack.key n)
        → Allows a (moved i (push_linking n s.stack.top) s.stack s, silent)
    loads_push n p here own owes = record {
      after = a;
      allowed = refl;
      simulates =
          stays-Simulates s a sim i p here (push_linking n s.stack.top) a refl (λ j ne. refl) own
            (λ t h. absurd h) (λ x t h. inr h) tt owes;
    }

    pub links :
        (n : Ptr) (old : TaggedPointer)
        → s.pc i ≡ push_linking n old
        → s.stack.tag_counter + 1 < 2 ^ 64
        → Allows a (
          moved i
              (push_ready n old s.stack.tag_counter)
              (count_tag (link_node n old.node s.stack))
              s,
          silent,
        )
    links n old here small =
        let (nonnull, live, out) = (mine s a sim i _ here).owned n refl in
        record {
          after = a;
          allowed = refl;
          simulates =
              fetches-Simulates s a sim i (push_linking n old) here
                (push_ready n old s.stack.tag_counter) (update s.stack.next n old.node) small
                (λ x free. update_other s.stack.next n x old.node free)
                (Chain-update s.stack.next n old.node s.stack.top.node sim.nodes out
                  sim.stack.chain)
                (λ x h. h) (λ t h. h) (λ x t h. h) (update_self s.stack.next n old.node)
                (mine-Settled s a sim i _ here);
        }

    pub tags_pop :
        (n : Ptr) (old : TaggedPointer)
        → s.pc i ≡ pop_tagging old n
        → s.stack.tag_counter + 1 < 2 ^ 64
        → Allows a (moved i (pop_ready old n s.stack.tag_counter) (count_tag s.stack) s, silent)
    tags_pop n old here small = record {
      after = a;
      allowed = refl;
      simulates =
          fetches-Simulates s a sim i (pop_tagging old n) here (pop_ready old n s.stack.tag_counter)
            s.stack.next small (λ x free. refl) sim.stack.chain (λ x h. h) (λ t h. h) (λ x t h. h)
            (mine s a sim i _ here).knows (mine-Settled s a sim i _ here);
    }

    pub reads_next :
        (old : TaggedPointer) (garbage : Ptr)
        → s.pc i ≡ pop_loaded old
        → old.node ≢ nullptr
        → Allows a
            (moved i (pop_tagging old (read_next old.node garbage s.stack)) s.stack s, silent)
    reads_next old garbage here nonnull = record {
      after = a;
      allowed = refl;
      simulates =
          stays-Simulates s a sim i (pop_loaded old) here
            (pop_tagging old (read_next old.node garbage s.stack)) a refl (λ j ne. refl) (λ x h. h)
            (λ t h. h) (λ x t h. inl h)
            (
              nonnull,
              λ e f.
                  let held = top_held s.stack sim.nodes a.keys old.node sim.stack e nonnull in
                  ap (λ b. if b then s.stack.next old.node else garbage)
                    (sym (sim.stack.live old.node held)),
            )
            ((mine-Settled s a sim i _ here).1 nonnull);
    }

    pub returns_zero :
        (old : TaggedPointer)
        → s.pc i ≡ pop_loaded old
        → old.node ≡ nullptr
        → Allows a (moved i idle s.stack s, returns i 0)
    returns_zero old here null = record {
      after = with_duty i resting a;
      allowed = ap (λ d. return i 0 d a) ((mine-Settled s a sim i _ here).0 null);
      simulates =
          stays-Simulates s a sim i (pop_loaded old) here idle (with_duty i resting a) refl
            (λ j ne. update_other a.duty i j resting ne) (λ x h. absurd h) (λ t h. absurd h)
            (λ x t h. absurd h) tt (update_self a.duty i resting);
    }

    pub returns_key :
        (p : Ptr)
        → s.pc i ≡ pop_taken p
        → Allows a (moved i idle (delete_node p s.stack) s, returns i (s.stack.key p))
    returns_key p here = record {
      after = with_duty i resting a;
      allowed =
          ap (λ d. return i (s.stack.key p) d a) (mine-Settled s a sim i _ here)
          ∙ ap (λ b. if b then some (with_duty i resting a) else none) (==_refl (s.stack.key p));
      simulates =
          deletes-Simulates s a sim i (pop_taken p) here p (with_duty i resting a) refl refl
            (λ j ne. update_other a.duty i j resting ne) (update_self a.duty i resting);
    }

    pub makes :
        (k : ℕ) (p : Ptr)
        → s.pc i ≡ idle
        → p ≢ nullptr
        → s.stack.live p ≡ false
        → Allows a (moved i (push_loading p) (make_node k p s.stack) s, calls_push i k)
    makes k p here nonnull dead = record {
      after = with_duty i (must_push k) a;
      allowed = ap (λ d. begin i d (must_push k) a) (mine-Settled s a sim i _ here);
      simulates =
          makes-Simulates s a sim i idle here k p (with_duty i (must_push k) a) nonnull dead refl
            (λ j ne. update_other a.duty i j (must_push k) ne) (update_self a.duty i (must_push k));
    }

    pub starts_pop : s.pc i ≡ idle → Allows a (moved i pop_loading s.stack s, calls_pop i)
    starts_pop here = record {
      after = with_duty i must_pop a;
      allowed = ap (λ d. begin i d must_pop a) (mine-Settled s a sim i _ here);
      simulates =
          stays-Simulates s a sim i idle here pop_loading (with_duty i must_pop a) refl
            (λ j ne. update_other a.duty i j must_pop ne) (λ x h. h) (λ t h. h) (λ x t h. absurd h)
            tt (update_self a.duty i must_pop);
    }

    same_node :
        (old : TaggedPointer) → same_top s.stack.top old ≡ true → old.node ≡ s.stack.top.node
    same_node old same = ground arith

    same_tag : (old : TaggedPointer) → same_top s.stack.top old ≡ true → old.tag ≡ s.stack.top.tag
    same_tag old same = ground arith

    pub pushes_key :
        (n : Ptr) (old : TaggedPointer) (tag : ℕ)
        → s.pc i ≡ push_ready n old tag
        → same_top s.stack.top old ≡ true
        → Allows a (moved i idle (set_top n tag s.stack) s, pushes i (s.stack.key n))
    pushes_key n old tag here same =
        let me = mine s a sim i _ here in
        let (nonnull, live, out) = me.owned n refl in
        let next : s.stack.next n ≡ s.stack.top.node = me.knows ∙ same_node old same in
        let pushed : Abstract = record {
          keys = s.stack.key n ∷ a.keys;
          duty = update a.duty i resting;
        } in
        record {
          after = pushed;
          allowed =
              ap (λ d. put i (s.stack.key n) d a) (mine-Settled s a sim i _ here)
              ∙ ap (λ b. if b then some pushed else none) (==_refl (s.stack.key n));
          simulates =
              installs-Simulates s a sim i (push_ready n old tag) here idle n tag (n ∷ sim.nodes)
                pushed refl (λ x free none_there. ground (arith, free))
                (record {
                  chain = (
                    refl,
                    nonnull,
                    subst (λ h. Chain s.stack.next h sim.nodes) (sym next) sim.stack.chain,
                  );
                  distinct = λ x. elim (eq-cases n x) [
                    | inl this ↦ ground (arith, out, ap (λ y. count y sim.nodes) this)
                    | inr other ↦ ground (arith, sim.stack.distinct x)
                  ];
                  live = λ x h. elim (eq-cases n x) [
                    | inl this ↦ ap s.stack.live (sym this) ∙ live
                    | inr other ↦ sim.stack.live x (ground arith)
                  ];
                  top_seen = inl (me.reserved tag refl).0;
                  keys = ap (λ ks. s.stack.key n ∷ ks) sim.stack.keys;
                })
                (λ j ne. update_other a.duty i j resting ne)
                (record {
                  owned = λ x h. absurd h;
                  seen = λ x t h. absurd h;
                  reserved = λ t h. absurd h;
                  knows = tt;
                })
                (update_self a.duty i resting)
                (λ j ne. record {
                  nodes = λ x h. absurd h;
                  tags = λ t h. absurd h;
                  comes = λ x t h. absurd h;
                  came = λ x t r h. absurd h;
                });
        }

    takes_head :
        (n : Ptr) (old : TaggedPointer) (tag : ℕ) (nodes : List Ptr)
        → s.pc i ≡ pop_ready old n tag
        → same_top s.stack.top old ≡ true
        → sim.nodes ≡ nodes
        → IsStack s.stack nodes a.keys
        → Allows a (moved i (pop_taken old.node) (set_top n tag s.stack) s, pops i)
    takes_head n old tag [] here same e is =
        absurd ((mine s a sim i _ here).knows.0 (same_node old same ∙ is.chain))
    takes_head n old tag (p ∷ nodes) here same e is =
        let me = mine s a sim i _ here in
        let node : old.node ≡ p = same_node old same ∙ is.chain.0 in
        let next : s.stack.next p ≡ n =
          ap s.stack.next (sym node) ∙ me.knows.1 (same_node old same) (same_tag old same) in
        let out : count old.node nodes ≡ 0 = ground (arith, is.distinct old.node) in
        let after_take : Abstract = record {
          keys = keys_of s.stack.key nodes;
          duty = update a.duty i (must_return (s.stack.key p));
        } in
        record {
          after = after_take;
          allowed =
              ap (λ d. take i d a) (mine-Settled s a sim i _ here)
              ∙ ap (λ ks. take_first i ks a) (sym is.keys);
          simulates =
              installs-Simulates s a sim i (pop_ready old n tag) here (pop_taken old.node) n tag
                nodes after_take refl (λ x free none_there. ground (arith, ap (count x) e))
                (record {
                  chain = subst (λ h. Chain s.stack.next h nodes) next is.chain.2;
                  distinct = λ x. ground (arith, is.distinct x);
                  live = λ x h. is.live x (ground arith);
                  top_seen = inl (me.reserved tag refl).0;
                  keys = refl;
                })
                (λ j ne. update_other a.duty i j (must_return (s.stack.key p)) ne)
                (record {
                  owned = λ x h.
                      subst (λ y. (y ≢ nullptr) × (s.stack.live y ≡ true) × (count y nodes ≡ 0)) h
                        (me.knows.0, is.live old.node (ground arith), out);
                  seen = λ x t h. absurd h;
                  reserved = λ t h. absurd h;
                  knows = tt;
                })
                (update_self a.duty i (must_return (s.stack.key p))
                  ∙ ap (λ q. must_return (s.stack.key q)) (sym node))
                (λ j ne. record {
                  nodes = λ x h k.
                      let none_there = ((sim.thread j).owned x k).2 in
                      let there =
                        top_held s.stack sim.nodes a.keys old.node sim.stack (same_node old same)
                          me.knows.0 in
                      omega (arith, ap (λ y. count y sim.nodes) h);
                  tags = λ t h. absurd h;
                  comes = λ x t h. absurd h;
                  came = λ x t r h. absurd h;
                });
        }

    pub takes_node :
        (n : Ptr) (old : TaggedPointer) (tag : ℕ)
        → s.pc i ≡ pop_ready old n tag
        → same_top s.stack.top old ≡ true
        → Allows a (moved i (pop_taken old.node) (set_top n tag s.stack) s, pops i)
    takes_node n old tag here same = takes_head n old tag sim.nodes here same refl sim.stack
