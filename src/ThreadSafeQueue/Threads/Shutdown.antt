-- ===== src/ThreadSafeQueue/Threads/Shutdown.antt =====
-- The queue of Thread_Safe_Queue after a shutdown.
use low_level_cpp.Base.{
  ℕ, zero, suc, ◌-◌, ◌≡◌, refl, sym, ap, ◌∙◌, Bool, true, false, Option, none, some, List, [], ◌∷◌,
  arith, length,
}
use mathlib.Core.Path.{subst}
use low_level_cpp.ThreadSafeQueue.{
  Queue, Locked, returns, push, try_push, take_front, pop, try_pop, shutdown,
}
use low_level_cpp.ThreadSafeQueue.Threads.{
  System, Action, call_push, resume_push, wake_push, call_try_push, call_pop, resume_pop, wake_pop,
  call_try_pop, call_shutdown, pick, wake_picked, wake_popper, run_pusher, run_popper,
  notify_not_full, after_push, after_pop, perform, run,
}
use low_level_cpp.ThreadSafeQueue.Threads.Choice.{Picked, nobody, somebody, pick-Picked}

module _ {A : Type 0} where
  push_over : (v : A) (q : Queue A) → q.done ≡ true → push v q ≡ returns q false false
  unfolding push
  push_over v q over = ground arith

  try_push_over : (v : A) (q : Queue A) → q.done ≡ true → try_push v q ≡ returns q false false
  unfolding try_push
  try_push_over v q over = ground arith

  pop_over : (q : Queue A) → q.done ≡ true → pop q ≡ take_front q.queue q
  unfolding pop
  pop_over q over = ground arith

  -- The queue is shut down with the values `l` accepted, and no thread waits.
  pub record IsOver (l : List A) (s : System A) : Type 0 where
    pub done : s.shared.done ≡ true
    pub accepted : s.accepted ≡ l
    pub no_pusher : s.push_waiting ≡ []
    pub no_popper : s.pop_waiting ≡ 0

  pick-none : (k : ℕ) (s : System A) → s.push_waiting ≡ [] → pick k s.push_waiting ≡ none
  pick-none k s e = ap (pick k) e

  notify_over : (k : ℕ) (s : System A) → s.push_waiting ≡ [] → notify_not_full k s ≡ s
  notify_over k s e = ap (λ r. wake_picked r s) (pick-none k s e)

  after_push-IsOver :
      (l : List A) (v : A) (r : Locked A Bool) (s : System A)
      → r ≡ returns s.shared false false
      → IsOver l s
      → IsOver l (after_push v r s)
  after_push-IsOver l v r s e over = subst (λ r. IsOver l (after_push v r s)) (sym e) over

  module _ (l : List A) (k : ℕ) (s : System A) (over : IsOver l s) where
    front-IsOver : (items : List A) → IsOver l (after_pop k (take_front items s.shared) s)
    front-IsOver [] = record {
      done = over.done;
      accepted = over.accepted;
      no_pusher = over.no_pusher;
      no_popper = over.no_popper;
    }
    front-IsOver (v ∷ rest) = subst (IsOver l) (sym (notify_over k _ over.no_pusher)) (record {
      done = over.done;
      accepted = over.accepted;
      no_pusher = over.no_pusher;
      no_popper = over.no_popper;
    })

    front-pop_woken :
        (items : List A) → (after_pop k (take_front items s.shared) s).pop_woken ≡ s.pop_woken
    front-pop_woken [] = refl
    front-pop_woken (v ∷ rest) = ap (λ t. t.pop_woken) (notify_over k _ over.no_pusher)

    pop-IsOver : IsOver l (after_pop k (pop s.shared) s)
    pop-IsOver =
        subst (λ r. IsOver l (after_pop k r s)) (sym (pop_over s.shared over.done))
          (front-IsOver s.shared.queue)

    pop-pop_woken : (after_pop k (pop s.shared) s).pop_woken ≡ s.pop_woken
    pop-pop_woken =
        ap (λ r. (after_pop k r s).pop_woken) (pop_over s.shared over.done)
        ∙ front-pop_woken s.shared.queue

  fewer_pushers :
      (l : List A) (s : System A) (others : List A)
      → IsOver l s
      → IsOver l (record s { push_woken = others })
  fewer_pushers l s others over = record {
    done = over.done;
    accepted = over.accepted;
    no_pusher = over.no_pusher;
    no_popper = over.no_popper;
  }

  fewer_poppers :
      (l : List A) (s : System A) (n : ℕ) → IsOver l s → IsOver l (record s { pop_woken = n })
  fewer_poppers l s n over = record {
    done = over.done;
    accepted = over.accepted;
    no_pusher = over.no_pusher;
    no_popper = over.no_popper;
  }

  run_pusher-IsOver :
      (l : List A) (r : Option (A × List A)) (s : System A) → IsOver l s → IsOver l (run_pusher r s)
  run_pusher-IsOver l none s over = over
  run_pusher-IsOver l (some (v, others)) s over =
      after_push-IsOver l v _ _ (push_over v s.shared over.done) (fewer_pushers l s others over)

  run_popper-IsOver :
      (l : List A) (k n : ℕ) (s : System A) → IsOver l s → IsOver l (run_popper k n s)
  run_popper-IsOver l k zero s over = over
  run_popper-IsOver l k (suc n) s over = pop-IsOver l k _ (fewer_poppers l s n over)

  leaving_lem :
      (l : List A) (t : System A)
      → IsOver l t
      → (r : Option (A × List A)) → Picked t.push_woken r
      → length (run_pusher r t).push_woken ≡ length t.push_woken - 1
  leaving_lem l t over none (nobody e) = omega arith
  leaving_lem l t over _ (somebody v others e) =
      ap (λ r. length (after_push v r (record t { push_woken = others })).push_woken)
        (push_over v t.shared over.done)
      ∙ omega arith

  perform-IsOver : (l : List A) (a : Action A) (s : System A) → IsOver l s → IsOver l (perform a s)
  unfolding perform shutdown try_pop
  perform-IsOver l (call_push v) s over =
      after_push-IsOver l v _ s (push_over v s.shared over.done) over
  perform-IsOver l (resume_push i) s over = run_pusher-IsOver l (pick i s.push_woken) s over
  perform-IsOver l (wake_push i) s over =
      subst (IsOver l) (sym (notify_over i s over.no_pusher)) over
  perform-IsOver l (call_try_push v) s over =
      after_push-IsOver l v _ s (try_push_over v s.shared over.done) over
  perform-IsOver l (call_pop k) s over = pop-IsOver l k s over
  perform-IsOver l (resume_pop k) s over = run_popper-IsOver l k s.pop_woken s over
  perform-IsOver l wake_pop s over =
      subst (IsOver l) (sym (ap (λ n. wake_popper n s) over.no_popper)) over
  perform-IsOver l (call_try_pop k) s over = front-IsOver l k s over s.shared.queue
  perform-IsOver l call_shutdown s over = record {
    done = refl;
    accepted = over.accepted;
    no_pusher = refl;
    no_popper = refl;
  }

  run-IsOver :
      (l : List A) (actions : List (Action A)) (s : System A)
      → IsOver l s
      → IsOver l (run actions s)
  unfolding run
  run-IsOver l [] s over = over
  run-IsOver l (a ∷ actions) s over = run-IsOver l actions (perform a s) (perform-IsOver l a s over)

  shutdown-IsOver : (s : System A) → IsOver s.accepted (perform call_shutdown s)
  unfolding perform shutdown
  shutdown-IsOver s = record { done = refl; accepted = refl; no_pusher = refl; no_popper = refl }

  -- After a shutdown in any state, whatever the threads do, the queue stays shut down, no value is
  -- accepted and no thread waits; and each woken thread that runs leaves push or pop for good.
  pub nothing_after_shutdown :
      (s : System A) (actions : List (Action A)) (k : ℕ)
      → let t = run actions (perform call_shutdown s) in
        IsOver s.accepted t
        × (length (perform (resume_push k) t).push_woken ≡ length t.push_woken - 1)
        × ((perform (resume_pop k) t).pop_woken ≡ t.pop_woken - 1)
  unfolding perform
  nothing_after_shutdown s actions k =
      let t = run actions (perform call_shutdown s) in
      let over = run-IsOver s.accepted actions (perform call_shutdown s) (shutdown-IsOver s) in
      (over, pusher_leaves _ k _ over, popper_leaves _ k _ over _ refl)
    where
      pusher_leaves :
          (l : List A) (k : ℕ) (t : System A)
          → IsOver l t
          → length (perform (resume_push k) t).push_woken ≡ length t.push_woken - 1
      pusher_leaves l k t over = leaving_lem l t over _ (pick-Picked k t.push_woken)

      popper_leaves :
          (l : List A) (k : ℕ) (t : System A)
          → IsOver l t
          → (n : ℕ) → t.pop_woken ≡ n
          → (run_popper k n t).pop_woken ≡ n - 1
      popper_leaves l k t over zero e = e
      popper_leaves l k t over (suc n) e =
          pop-pop_woken l k _ (fewer_poppers l t n over) ∙ omega arith
