-- ===== src/ThreadSafeQueue/Threads/Safety.antt =====
-- What holds of the queue whatever the threads do.
use low_level_cpp.Base.{
  ℕ, zero, suc, ◌+◌, ◌≤◌, ◌<◌, ◌≡◌, inl, inr, refl, sym, ap, ◌∙◌, Bool, false, Option, none, List,
  [], ◌∷◌, ◌++◌, arith, length, length-append,
}
use mathlib.Core.List.{append-nil, append_assoc}
use low_level_cpp.ThreadSafeQueue.{Locked, waits, shutdown}
use low_level_cpp.ThreadSafeQueue.Outcomes.{
  Pushed, blocked, rejected, entered, push-Pushed, try_push-Pushed, Popped, idle, nothing, left,
  pop-Popped, try_pop-Popped,
}
use low_level_cpp.ThreadSafeQueue.Threads.Choice.{Picked, nobody, somebody, pick-Picked}
use low_level_cpp.ThreadSafeQueue.Threads.{
  System, Action, call_push, resume_push, wake_push, call_try_push, call_pop, resume_pop, wake_pop,
  call_try_pop, call_shutdown, wake_picked, wake_popper, run_pusher, run_popper, notify_not_full,
  notify_not_empty, after_push, after_pop, perform, run,
}

module _ {A : Type 0} (max_size : ℕ) where
  -- `more_push` and `more_pop` count notifications that are still to come.
  pub record Holds (more_push more_pop : ℕ) (s : System A) : Type 0 where
    pub fifo : s.accepted ≡ s.taken ++ s.shared.queue
    pub sized : s.shared.max_size ≡ max_size
    pub bounded : length s.shared.queue ≤ s.shared.max_size
    pub push_heard :
        0 < length s.push_waiting
        → (s.shared.done ≡ false)
          × (s.shared.max_size ≤ length s.shared.queue + length s.push_woken + more_push)
    pub pop_heard :
        0 < s.pop_waiting
        → (s.shared.done ≡ false) × (length s.shared.queue ≤ s.pop_woken + more_pop)

  wake_picked-Holds :
      (s : System A) (r : Option (A × List A))
      → Picked s.push_waiting r
      → Holds 1 0 s
      → Holds 0 0 (wake_picked r s)
  wake_picked-Holds s none (nobody e) h = record {
    fifo = h.fifo;
    sized = h.sized;
    bounded = h.bounded;
    push_heard = λ waiting. absurd (omega arith);
    pop_heard = h.pop_heard;
  }
  wake_picked-Holds s _ (somebody v others e) h = record {
    fifo = h.fifo;
    sized = h.sized;
    bounded = h.bounded;
    push_heard =
        λ waiting. let (running, le) = h.push_heard (omega arith) in (running, omega arith);
    pop_heard = h.pop_heard;
  }

  notify_not_full-Holds : (k : ℕ) (s : System A) → Holds 1 0 s → Holds 0 0 (notify_not_full k s)
  notify_not_full-Holds k s h = wake_picked-Holds s _ (pick-Picked k s.push_waiting) h

  notify_not_empty-Holds : (s : System A) → Holds 0 1 s → Holds 0 0 (notify_not_empty s)
  notify_not_empty-Holds s h = go s.pop_waiting refl
    where
      go : (n : ℕ) → s.pop_waiting ≡ n → Holds 0 0 (wake_popper n s)
      go zero e = record {
        fifo = h.fifo;
        sized = h.sized;
        bounded = h.bounded;
        push_heard = h.push_heard;
        pop_heard = λ waiting. absurd (omega arith);
      }
      go (suc n) e = record {
        fifo = h.fifo;
        sized = h.sized;
        bounded = h.bounded;
        push_heard = h.push_heard;
        pop_heard =
            λ waiting. let (running, le) = h.pop_heard (omega arith) in (running, omega arith);
      }

  Holds-more : (e f : ℕ) (s : System A) → Holds 0 0 s → Holds e f s
  Holds-more e f s h = record {
    fifo = h.fifo;
    sized = h.sized;
    bounded = h.bounded;
    push_heard = λ waiting. let (running, le) = h.push_heard waiting in (running, omega arith);
    pop_heard = λ waiting. let (running, le) = h.pop_heard waiting in (running, omega arith);
  }

  after_push-Holds :
      (v : A) (r : Locked A Bool) (s : System A)
      → Pushed v s.shared r
      → Holds 1 0 s
      → Holds 0 0 (after_push v r s)
  after_push-Holds v waits s (blocked running full) h = record {
    fifo = h.fifo;
    sized = h.sized;
    bounded = h.bounded;
    push_heard = λ waiting. (running, omega arith);
    pop_heard = h.pop_heard;
  }
  after_push-Holds v _ s (rejected why) h = record {
    fifo = h.fifo;
    sized = h.sized;
    bounded = h.bounded;
    push_heard = λ waiting.
        let (running, le) = h.push_heard waiting in
        (running, elim why [ inl over ↦ absurd (ground arith) | inr full ↦ omega arith ]);
    pop_heard = h.pop_heard;
  }
  after_push-Holds v _ s (entered room) h = notify_not_empty-Holds _ (record {
    fifo = ap (λ l. l ++ v ∷ []) h.fifo ∙ append_assoc s.taken s.shared.queue (v ∷ []);
    sized = h.sized;
    bounded = omega (arith, length-append s.shared.queue (v ∷ []));
    push_heard = λ waiting.
        let (running, le) = h.push_heard waiting in
        (running, omega (arith, length-append s.shared.queue (v ∷ [])));
    pop_heard = λ waiting.
        let (running, le) = h.pop_heard waiting in
        (running, omega (arith, length-append s.shared.queue (v ∷ [])));
  })

  after_pop-Holds :
      (k : ℕ) (r : Locked A (Option A)) (s : System A)
      → Popped s.shared r
      → Holds 0 1 s
      → Holds 0 0 (after_pop k r s)
  after_pop-Holds k waits s (idle running none_left) h = record {
    fifo = h.fifo;
    sized = h.sized;
    bounded = h.bounded;
    push_heard = h.push_heard;
    pop_heard = λ waiting. (running, omega arith);
  }
  after_pop-Holds k _ s (nothing none_left) h = record {
    fifo = h.fifo ∙ ap (λ l. l ++ s.shared.queue) (sym (append-nil s.taken));
    sized = h.sized;
    bounded = h.bounded;
    push_heard = h.push_heard;
    pop_heard = λ waiting. let (running, le) = h.pop_heard waiting in (running, omega arith);
  }
  after_pop-Holds k _ s (left v rest e) h =
      let count : length s.shared.queue ≡ suc (length rest) = ap length e in
      notify_not_full-Holds k _ (record {
        fifo = h.fifo ∙ ap (λ l. s.taken ++ l) e ∙ sym (append_assoc s.taken (v ∷ []) rest);
        sized = h.sized;
        bounded = omega (arith, h.bounded);
        push_heard = λ waiting. let (running, le) = h.push_heard waiting in (running, omega arith);
        pop_heard = λ waiting. let (running, le) = h.pop_heard waiting in (running, omega arith);
      })

  run_pusher-Holds :
      (s : System A) (r : Option (A × List A))
      → Picked s.push_woken r
      → Holds 0 0 s
      → Holds 0 0 (run_pusher r s)
  run_pusher-Holds s none p h = h
  run_pusher-Holds s _ (somebody v others e) h =
      after_push-Holds v _ _ (push-Pushed v s.shared) (record {
        fifo = h.fifo;
        sized = h.sized;
        bounded = h.bounded;
        push_heard = λ waiting. let (running, le) = h.push_heard waiting in (running, omega arith);
        pop_heard = h.pop_heard;
      })

  run_popper-Holds :
      (k n : ℕ) (s : System A) → s.pop_woken ≡ n → Holds 0 0 s → Holds 0 0 (run_popper k n s)
  run_popper-Holds k zero s e h = h
  run_popper-Holds k (suc n) s e h = after_pop-Holds k _ _ (pop-Popped s.shared) (record {
    fifo = h.fifo;
    sized = h.sized;
    bounded = h.bounded;
    push_heard = h.push_heard;
    pop_heard = λ waiting. let (running, le) = h.pop_heard waiting in (running, omega arith);
  })

  pub perform-Holds : (a : Action A) (s : System A) → Holds 0 0 s → Holds 0 0 (perform a s)
  unfolding perform shutdown
  perform-Holds (call_push v) s h =
      after_push-Holds v _ s (push-Pushed v s.shared) (Holds-more 1 0 s h)
  perform-Holds (resume_push i) s h = run_pusher-Holds s _ (pick-Picked i s.push_woken) h
  perform-Holds (wake_push i) s h = notify_not_full-Holds i s (Holds-more 1 0 s h)
  perform-Holds (call_try_push v) s h =
      after_push-Holds v _ s (try_push-Pushed v s.shared) (Holds-more 1 0 s h)
  perform-Holds (call_pop k) s h = after_pop-Holds k _ s (pop-Popped s.shared) (Holds-more 0 1 s h)
  perform-Holds (resume_pop k) s h = run_popper-Holds k s.pop_woken s refl h
  perform-Holds wake_pop s h = notify_not_empty-Holds s (Holds-more 0 1 s h)
  perform-Holds (call_try_pop k) s h =
      after_pop-Holds k _ s (try_pop-Popped s.shared) (Holds-more 0 1 s h)
  perform-Holds call_shutdown s h = record {
    fifo = h.fifo;
    sized = h.sized;
    bounded = h.bounded;
    push_heard = λ waiting. absurd (omega arith);
    pop_heard = λ waiting. absurd (omega arith);
  }

  pub run-Holds :
      (actions : List (Action A)) (s : System A) → Holds 0 0 s → Holds 0 0 (run actions s)
  unfolding run
  run-Holds [] s h = h
  run-Holds (a ∷ actions) s h = run-Holds actions (perform a s) (perform-Holds a s h)
