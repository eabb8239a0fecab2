-- ===== src/LockFreeStack/Steps.antt =====
-- The steps of one thread against the abstract stack.
use mathlib.Core.Path.{subst}
use low_level_cpp.Base.{
  ℕ, ◌+◌, ◌%◌, ◌^◌, ◌≤◌, ◌<◌, ◌≡◌, ◌≢◌, ◌⊎◌, inl, inr, refl, sym, ap, ◌∙◌, true, false, List, [],
  ◌∷◌, arith, count, eq-cases,
}
use low_level_cpp.Base.Chain.{Ptr, nullptr, Chain, Chain-update}
use low_level_cpp.Base.Store.{update, update_self, update_other}
use low_level_cpp.LockFreeStack.{
  LockFreeStack, Pc, idle, push_loading, System, moved, count_tag, set_top, delete_node, make_node,
}
use low_level_cpp.LockFreeStack.Abstract.{Abstract, resting, must_push}
use low_level_cpp.LockFreeStack.Invariant.{
  Owns, Reserves, Sees, IsSeen, Knows, Settled, IsThread, Apart, keys_of, IsStack, Simulates,
}
use low_level_cpp.LockFreeStack.Threads.{
  Apart-weaken, Apart-fetch, Knows-frame, Settled-frame, moved-Simulates,
}

-- The top is one of the nodes.
pub top_held :
    (s : LockFreeStack) (nodes : List Ptr) (contents : List ℕ) (a : Ptr)
    → IsStack s nodes contents
    → a ≡ s.top.node
    → a ≢ nullptr
    → 0 < count a nodes
top_held s [] contents a is e nonnull = absurd (nonnull (e ∙ is.chain))
top_held s (p ∷ nodes) contents a is e nonnull = ground (arith, is.chain.0)

IsSeen-later : (c d a t : ℕ) → c ≤ d → IsSeen c a t → IsSeen d a t
IsSeen-later c d a t le (inl below) = inl (omega arith)
IsSeen-later c d a t le (inr null) = inr null

keys_same :
    (k l : Ptr → ℕ) (nodes : List Ptr)
    → ((a : Ptr) → 0 < count a nodes → l a ≡ k a)
    → keys_of l nodes ≡ keys_of k nodes
keys_same k l [] same = refl
keys_same k l (p ∷ nodes) same =
    rw (same p (ground arith), keys_same k l nodes (λ a h. same a (ground arith)))

module _ (s : System) (a : Abstract) (sim : Simulates s a) (i : ℕ) (p : Pc)
    (here : s.pc i ≡ p) where
  pub mine : IsThread s.stack sim.nodes p
  mine = subst (IsThread s.stack sim.nodes) here (sim.thread i)

  pub mine-Settled : Settled s.stack (a.duty i) p
  mine-Settled = subst (Settled s.stack (a.duty i)) here (sim.settled i)

  pub others : (j : ℕ) → i ≢ j → Apart p (s.pc j)
  others j ne = subst (λ x. Apart x (s.pc j)) here (sim.apart i j ne)

  -- A step that leaves the stack alone.
  pub stays-Simulates :
      (p' : Pc) (a' : Abstract)
      → a'.keys ≡ a.keys
      → ((j : ℕ) → i ≢ j → a'.duty j ≡ a.duty j)
      → ((x : Ptr) → Owns p' x → Owns p x)
      → ((t : ℕ) → Reserves p' t → Reserves p t)
      → ((x : Ptr) (t : ℕ)
          → Sees p' x t
          → Sees p x t ⊎ ((s.stack.top.node ≡ x) × (s.stack.top.tag ≡ t)))
      → Knows s.stack p'
      → Settled s.stack (a'.duty i) p'
      → Simulates (moved i p' s.stack s) a'
  stays-Simulates p' a' keys duty own reserve see knows settled =
      moved-Simulates s i p' s.stack sim.nodes a a' sim
        (subst (IsStack s.stack sim.nodes) (sym keys) sim.stack)
        (record {
          owned = λ x h. mine.owned x (own x h);
          seen = λ x t h. elim (see x t h) [
            | inl old ↦ mine.seen x t old
            | inr (node, tag) ↦
                subst (λ y. IsSeen s.stack.tag_counter y t) node
                  (subst (IsSeen s.stack.tag_counter s.stack.top.node) tag sim.stack.top_seen)
          ];
          reserved = λ t h. mine.reserved t (reserve t h);
          knows = knows;
        })
        settled
        (λ j ne. record {
          thread = sim.thread j;
          settled = subst (λ o. Settled s.stack o (s.pc j)) (sym (duty j ne)) (sim.settled j);
          apart =
              Apart-weaken s.stack sim.nodes p p' (s.pc j) (sim.thread j) (others j ne) own reserve
                see;
        })

  -- A step that fetches a tag and may link a node that the thread owns.
  pub fetches-Simulates :
      (p' : Pc) (next' : Ptr → Ptr)
      → s.stack.tag_counter + 1 < 2 ^ 64
      → ((x : Ptr) → (Owns p x → ⊥) → next' x ≡ s.stack.next x)
      → Chain next' s.stack.top.node sim.nodes
      → ((x : Ptr) → Owns p' x → Owns p x)
      → ((t : ℕ) → Reserves p' t → s.stack.tag_counter ≡ t)
      → ((x : Ptr) (t : ℕ) → Sees p' x t → Sees p x t)
      → Knows (count_tag (record (s.stack) { next = next' })) p'
      → Settled (count_tag (record (s.stack) { next = next' })) (a.duty i) p'
      → Simulates (moved i p' (count_tag (record (s.stack) { next = next' })) s) a
  fetches-Simulates p' next' small same chain own reserve see knows settled =
      let grows : (s.stack.tag_counter + 1) % 2 ^ 64 ≡ s.stack.tag_counter + 1 = omega arith in
      let later = IsSeen-later s.stack.tag_counter ((s.stack.tag_counter + 1) % 2 ^ 64) in
      moved-Simulates s i p' (count_tag (record (s.stack) { next = next' })) sim.nodes a a sim
        (record {
          chain = chain;
          distinct = sim.stack.distinct;
          live = sim.stack.live;
          top_seen = later _ _ (omega arith) sim.stack.top_seen;
          keys = sim.stack.keys;
        })
        (record {
          owned = λ x h. mine.owned x (own x h);
          seen = λ x t h. later x t (omega arith) (mine.seen x t (see x t h));
          reserved = λ t h. (
            omega (arith, reserve t h),
            λ e. elim sim.stack.top_seen [
              | inl below ↦ absurd (omega (arith, reserve t h))
              | inr null ↦ null
            ],
          );
          knows = knows;
        })
        settled
        (λ j ne. record {
          thread = record {
            owned = (sim.thread j).owned;
            seen = λ x t h. later x t (omega arith) ((sim.thread j).seen x t h);
            reserved =
                λ t h. let (below, fresh) = (sim.thread j).reserved t h in (omega arith, fresh);
            knows =
                Knows-frame s.stack (count_tag (record (s.stack) { next = next' })) (s.pc j)
                  (λ x h. same x (λ mine'. (others j ne).nodes x mine' h))
                  (λ x t v nonnull e f. (
                    e,
                    f,
                    same x (λ mine'.
                        let held = top_held s.stack sim.nodes a.keys x sim.stack e nonnull in
                        omega (arith, (mine.owned x mine').2)),
                  ))
                  (sim.thread j).knows;
          };
          settled =
              Settled-frame s.stack (count_tag (record (s.stack) { next = next' })) (a.duty j)
                (s.pc j) (λ x h. refl) (sim.settled j);
          apart =
              Apart-fetch s.stack sim.nodes p p' (s.pc j) (sim.thread j) (others j ne) own reserve
                see;
        })

  -- A compare-and-exchange that succeeds, with a tag that the thread fetched.
  pub installs-Simulates :
      (p' : Pc) (n tag : ℕ) (nodes' : List Ptr) (a' : Abstract)
      → Reserves p tag
      → ((x : Ptr) → (Owns p x → ⊥) → count x sim.nodes ≡ 0 → count x nodes' ≡ 0)
      → IsStack (set_top n tag s.stack) nodes' a'.keys
      → ((j : ℕ) → i ≢ j → a'.duty j ≡ a.duty j)
      → IsThread (set_top n tag s.stack) nodes' p'
      → Settled (set_top n tag s.stack) (a'.duty i) p'
      → ((j : ℕ) → i ≢ j → Apart p' (s.pc j))
      → Simulates (moved i p' (set_top n tag s.stack) s) a'
  installs-Simulates p' n tag nodes' a' mine_tag clear stack duty thread settled apart =
      moved-Simulates s i p' (set_top n tag s.stack) nodes' a a' sim stack thread settled (λ j ne.
        record {
          thread = record {
            owned = λ x h.
                let (nonnull, live, out) = (sim.thread j).owned x h in
                (nonnull, live, clear x (λ mine'. (others j ne).nodes x mine' h) out);
            seen = (sim.thread j).seen;
            reserved = λ t h. (
              ((sim.thread j).reserved t h).0,
              λ e. absurd ((others j ne).tags tag mine_tag (subst (Reserves (s.pc j)) (sym e) h)),
            );
            knows =
                Knows-frame s.stack (set_top n tag s.stack) (s.pc j) (λ x h. refl)
                  (λ x t v nonnull e f.
                    absurd
                      (nonnull ((others j ne).comes x tag mine_tag (subst (Sees (s.pc j) x) f v))))
                  (sim.thread j).knows;
          };
          settled =
              subst (λ o. Settled (set_top n tag s.stack) o (s.pc j)) (sym (duty j ne))
                (Settled-frame s.stack (set_top n tag s.stack) (a.duty j) (s.pc j) (λ x h. refl)
                  (sim.settled j));
          apart = apart j ne;
        })

  -- The thread deletes a node that it owns.
  pub deletes-Simulates :
      (n : Ptr) (a' : Abstract)
      → Owns p n
      → a'.keys ≡ a.keys
      → ((j : ℕ) → i ≢ j → a'.duty j ≡ a.duty j)
      → a'.duty i ≡ resting
      → Simulates (moved i idle (delete_node n s.stack) s) a'
  deletes-Simulates n a' mine_node keys duty rests =
      let (nonnull, live, out) = mine.owned n mine_node in
      moved-Simulates s i idle (delete_node n s.stack) sim.nodes a a' sim
        (record {
          chain = sim.stack.chain;
          distinct = sim.stack.distinct;
          live = λ x h.
              update_other s.stack.live n x false
                (λ e. omega (arith, ap (λ y. count y sim.nodes) e))
              ∙ sim.stack.live x h;
          top_seen = sim.stack.top_seen;
          keys = sim.stack.keys ∙ sym keys;
        })
        (record {
          owned = λ x h. absurd h;
          seen = λ x t h. absurd h;
          reserved = λ t h. absurd h;
          knows = tt;
        })
        rests
        (λ j ne. record {
          thread = record {
            owned = λ x h.
                let (nonnull', live', out') = (sim.thread j).owned x h in
                (
                  nonnull',
                  update_other s.stack.live n x false
                        (λ e. (others j ne).nodes x (subst (Owns p) e mine_node) h)
                      ∙ live',
                  out',
                );
            seen = (sim.thread j).seen;
            reserved = (sim.thread j).reserved;
            knows =
                Knows-frame s.stack (delete_node n s.stack) (s.pc j) (λ x h. refl)
                  (λ x t v nn e f. (e, f, refl)) (sim.thread j).knows;
          };
          settled =
              subst (λ o. Settled (delete_node n s.stack) o (s.pc j)) (sym (duty j ne))
                (Settled-frame s.stack (delete_node n s.stack) (a.duty j) (s.pc j) (λ x h. refl)
                  (sim.settled j));
          apart = record {
            nodes = λ x h. absurd h;
            tags = λ t h. absurd h;
            comes = λ x t h. absurd h;
            came = λ x t r h. absurd h;
          };
        })

  -- The thread makes a node where there was none.
  pub makes-Simulates :
      (k : ℕ) (n : Ptr) (a' : Abstract)
      → n ≢ nullptr
      → s.stack.live n ≡ false
      → a'.keys ≡ a.keys
      → ((j : ℕ) → i ≢ j → a'.duty j ≡ a.duty j)
      → a'.duty i ≡ must_push k
      → Simulates (moved i (push_loading n) (make_node k n s.stack) s) a'
  makes-Simulates k n a' nonnull dead keys duty calls =
      let apart_live : (x : Ptr) → s.stack.live x ≡ true → n ≢ x =
        λ x live e. ground (arith, ap s.stack.live e) in
      let out : count n sim.nodes ≡ 0 = elim (eq-cases (count n sim.nodes) 0) [
        | inl none_there ↦ none_there
        | inr some_there ↦ absurd (apart_live n (sim.stack.live n (omega arith)) refl)
      ] in
      moved-Simulates s i (push_loading n) (make_node k n s.stack) sim.nodes a a' sim
        (record {
          chain =
              Chain-update s.stack.next n nullptr s.stack.top.node sim.nodes out sim.stack.chain;
          distinct = sim.stack.distinct;
          live = λ x h. ground (arith, sim.stack.live x h);
          top_seen = sim.stack.top_seen;
          keys =
              keys_same s.stack.key (update s.stack.key n k) sim.nodes
                (λ x h. update_other s.stack.key n x k (apart_live x (sim.stack.live x h)))
              ∙ sim.stack.keys
              ∙ sym keys;
        })
        (record {
          owned = λ x e.
              subst
                (λ y.
                  (y ≢ nullptr) × (update s.stack.live n true y ≡ true) × (count y sim.nodes ≡ 0))
                e (nonnull, update_self s.stack.live n true, out);
          seen = λ x t h. absurd h;
          reserved = λ t h. absurd h;
          knows = tt;
        })
        (calls ∙ ap must_push (sym (update_self s.stack.key n k)))
        (λ j ne. record {
          thread = record {
            owned = λ x h.
                let (nonnull', live', out') = (sim.thread j).owned x h in
                (nonnull', update_other s.stack.live n x true (apart_live x live') ∙ live', out');
            seen = (sim.thread j).seen;
            reserved = (sim.thread j).reserved;
            knows =
                Knows-frame s.stack (make_node k n s.stack) (s.pc j)
                  (λ x h.
                    update_other s.stack.next n x nullptr
                      (apart_live x ((sim.thread j).owned x h).1))
                  (λ x t v nn e f. (
                    e,
                    f,
                    update_other s.stack.next n x nullptr (
                        apart_live x
                          (sim.stack.live x (top_held s.stack sim.nodes a.keys x sim.stack e nn))),
                  ))
                  (sim.thread j).knows;
          };
          settled =
              subst (λ o. Settled (make_node k n s.stack) o (s.pc j)) (sym (duty j ne))
                (Settled-frame s.stack (make_node k n s.stack) (a.duty j) (s.pc j)
                  (λ x h.
                    update_other s.stack.key n x k (apart_live x ((sim.thread j).owned x h).1))
                  (sim.settled j));
          apart = record {
            nodes = λ x e h. apart_live x ((sim.thread j).owned x h).1 e;
            tags = λ t h. absurd h;
            comes = λ x t h. absurd h;
            came = λ x t r h. absurd h;
          };
        })
