-- ===== src/LockFreeStack/Threads.antt =====
-- How a step of one thread leaves what the others know and own.
use mathlib.Core.Path.{subst}
use low_level_cpp.Base.{ℕ, ◌≡◌, ◌≢◌, ◌⊎◌, inl, inr, refl, sym, ap, ◌∙◌, List, arith, eq-cases}
use low_level_cpp.Base.Chain.{Ptr, nullptr}
use low_level_cpp.Base.Store.{update, update_self, update_other}
use low_level_cpp.LockFreeStack.{
  LockFreeStack, Pc, idle, push_loading, push_linking, push_ready, pop_loading, pop_loaded,
  pop_tagging, pop_ready, pop_taken, System, moved,
}
use low_level_cpp.LockFreeStack.Abstract.{Duty, must_push, must_return, Abstract}
use low_level_cpp.LockFreeStack.Invariant.{
  Owns, Reserves, Sees, Knows, Settled, IsThread, Apart, IsStack, Simulates,
}

pub Apart-sym : (p q : Pc) → Apart p q → Apart q p
Apart-sym p q a = record {
  nodes = λ x h k. a.nodes x k h;
  tags = λ t h k. a.tags t k h;
  comes = λ x t r v. a.came x t r v;
  came = λ x t r v. a.comes x t r v;
}

-- A thread that gives up what it had, or that loads the top.
pub Apart-weaken :
    (s : LockFreeStack) (nodes : List Ptr) (p p' q : Pc)
    → IsThread s nodes q
    → Apart p q
    → ((a : Ptr) → Owns p' a → Owns p a)
    → ((t : ℕ) → Reserves p' t → Reserves p t)
    → ((a : Ptr) (t : ℕ) → Sees p' a t → Sees p a t ⊎ ((s.top.node ≡ a) × (s.top.tag ≡ t)))
    → Apart p' q
Apart-weaken s nodes p p' q thread apart own reserve see = record {
  nodes = λ a h. apart.nodes a (own a h);
  tags = λ t h. apart.tags t (reserve t h);
  comes = λ a t h. apart.comes a t (reserve t h);
  came = λ a t r v. elim (see a t v) [
    | inl old ↦ apart.came a t r old
    | inr (node, tag) ↦ sym node ∙ (thread.reserved t r).1 tag
  ];
}

-- A thread that fetches the next tag.
pub Apart-fetch :
    (s : LockFreeStack) (nodes : List Ptr) (p p' q : Pc)
    → IsThread s nodes q
    → Apart p q
    → ((a : Ptr) → Owns p' a → Owns p a)
    → ((t : ℕ) → Reserves p' t → s.tag_counter ≡ t)
    → ((a : Ptr) (t : ℕ) → Sees p' a t → Sees p a t)
    → Apart p' q
Apart-fetch s nodes p p' q thread apart own reserve see = record {
  nodes = λ a h. apart.nodes a (own a h);
  tags = λ t h k. omega (arith, reserve t h, (thread.reserved t k).0);
  comes = λ a t h v. elim (thread.seen a t v) [
    | inl below ↦ absurd (omega (arith, reserve t h))
    | inr null ↦ null
  ];
  came = λ a t r v. apart.came a t r (see a t v);
}

pub Knows-frame :
    (s t : LockFreeStack) (q : Pc)
    → ((a : Ptr) → Owns q a → t.next a ≡ s.next a)
    → ((a : Ptr) (tag : ℕ)
        → Sees q a tag
        → a ≢ nullptr
        → a ≡ t.top.node
        → tag ≡ t.top.tag
        → (a ≡ s.top.node) × (tag ≡ s.top.tag) × (t.next a ≡ s.next a))
    → Knows s q
    → Knows t q
Knows-frame s t idle own see k = tt
Knows-frame s t (push_loading n) own see k = tt
Knows-frame s t (push_linking n old) own see k = tt
Knows-frame s t (push_ready n old r) own see k = own n refl ∙ k
Knows-frame s t pop_loading own see k = tt
Knows-frame s t (pop_loaded old) own see k = tt
Knows-frame s t (pop_tagging old n) own see (nonnull, next) = (
  nonnull,
  λ e f. let (e', f', same) = see old.node old.tag (refl, refl) nonnull e f in same ∙ next e' f',
)
Knows-frame s t (pop_ready old n r) own see (nonnull, next) = (
  nonnull,
  λ e f. let (e', f', same) = see old.node old.tag (refl, refl) nonnull e f in same ∙ next e' f',
)
Knows-frame s t (pop_taken p) own see k = tt

pub Settled-frame :
    (s t : LockFreeStack) (duty : Duty) (q : Pc)
    → ((a : Ptr) → Owns q a → t.key a ≡ s.key a)
    → Settled s duty q
    → Settled t duty q
Settled-frame s t duty idle own h = h
Settled-frame s t duty (push_loading n) own h = h ∙ ap must_push (sym (own n refl))
Settled-frame s t duty (push_linking n old) own h = h ∙ ap must_push (sym (own n refl))
Settled-frame s t duty (push_ready n old r) own h = h ∙ ap must_push (sym (own n refl))
Settled-frame s t duty pop_loading own h = h
Settled-frame s t duty (pop_loaded old) own h = h
Settled-frame s t duty (pop_tagging old n) own h = h
Settled-frame s t duty (pop_ready old n r) own h = h
Settled-frame s t duty (pop_taken p) own h = h ∙ ap must_return (sym (own p refl))

-- A thread beside the one that moves.
pub record Beside (t : LockFreeStack) (nodes : List Ptr) (duty : Duty) (p' q : Pc) : Type 0 where
  pub thread : IsThread t nodes q
  pub settled : Settled t duty q
  pub apart : Apart p' q

-- The system after a step of thread `i`.
pub moved-Simulates :
    (s : System) (i : ℕ) (p : Pc) (t : LockFreeStack) (nodes : List Ptr) (a a' : Abstract)
    → Simulates s a
    → IsStack t nodes a'.keys
    → IsThread t nodes p
    → Settled t (a'.duty i) p
    → ((j : ℕ) → i ≢ j → Beside t nodes (a'.duty j) p (s.pc j))
    → Simulates (moved i p t s) a'
moved-Simulates s i p t nodes a a' sim stack thread settled beside = record {
  nodes = nodes;
  stack = stack;
  thread = λ j. elim (eq-cases i j) [
    | inl this ↦ subst (IsThread t nodes) (sym (at_self j this)) thread
    | inr other ↦
        subst (IsThread t nodes) (sym (update_other s.pc i j p other)) (beside j other).thread
  ];
  settled = λ j. elim (eq-cases i j) [
    | inl this ↦
        subst (λ j'. Settled t (a'.duty j') (update s.pc i p j')) this
          (subst (Settled t (a'.duty i)) (sym (update_self s.pc i p)) settled)
    | inr other ↦
        subst (Settled t (a'.duty j)) (sym (update_other s.pc i j p other)) (beside j other).settled
  ];
  apart = λ j k ne. elim (eq-cases i j) [
    | inl this ↦
        let other : i ≢ k = λ e. ne (sym this ∙ e) in
        subst (λ x. Apart x (update s.pc i p k)) (sym (at_self j this))
          (subst (Apart p) (sym (update_other s.pc i k p other)) (beside k other).apart)
    | inr apart ↦ elim (eq-cases i k) [
      | inl that ↦ subst (Apart (update s.pc i p j)) (sym (at_self k that)) (
          subst (λ x. Apart x p) (sym (update_other s.pc i j p apart))
            (Apart-sym p (s.pc j) (beside j apart).apart))
      | inr other ↦
          subst (λ x. Apart x (update s.pc i p k)) (sym (update_other s.pc i j p apart))
            (subst (Apart (s.pc j)) (sym (update_other s.pc i k p other)) (sim.apart j k ne))
    ]
  ];
}
  where
    at_self : (j : ℕ) → i ≡ j → update s.pc i p j ≡ p
    at_self j e = ap (update s.pc i p) (sym e) ∙ update_self s.pc i p
