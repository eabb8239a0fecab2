-- ===== src/ThreadSafeQueue/Threads/Promises.antt =====
-- What the threads of a queue can rely on, from the constructor on.
use low_level_cpp.Base.{
  ℕ, zero, suc, ◌≤◌, ◌<◌, ◌≡◌, inl, inr, refl, sym, ap, false, some, List, [], ◌∷◌, ◌++◌, arith,
  length, zero-cases,
}
use low_level_cpp.Base.Int.{ℤ, pos, negsuc}
use low_level_cpp.ThreadSafeQueue.{Queue, thread_safe_queue}
use low_level_cpp.ThreadSafeQueue.Threads.{System, Action, run, fresh}
use low_level_cpp.ThreadSafeQueue.Threads.Safety.{Holds, run-Holds}

module _ {A : Type 0} where
  record IsNew (q : Queue A) : Type 0 where
    positive : 0 < q.max_size
    no_items : q.queue ≡ []
    open_ : q.done ≡ false

  thread_safe_queue-IsNew :
      (max_size : ℤ) (q : Queue A) → thread_safe_queue max_size ≡ some q → IsNew q
  unfolding thread_safe_queue
  thread_safe_queue-IsNew (pos zero) q e = absurd (ground arith)
  thread_safe_queue-IsNew (pos (suc n)) q e = record {
    positive = ground arith;
    no_items = ground arith;
    open_ = ground arith;
  }
  thread_safe_queue-IsNew (negsuc n) q e = absurd (ground arith)

  max_size_kept :
      (max_size : ℤ) (q : Queue A) → thread_safe_queue max_size ≡ some q → pos q.max_size ≡ max_size
  unfolding thread_safe_queue
  max_size_kept (pos zero) q e = absurd (ground arith)
  max_size_kept (pos (suc n)) q e = ap pos (ground arith)
  max_size_kept (negsuc n) q e = absurd (ground arith)

  fresh-Holds : (q : Queue A) → IsNew q → Holds q.max_size 0 0 (fresh q)
  fresh-Holds q new = record {
    fifo = sym new.no_items;
    sized = refl;
    bounded = ground (arith, new.no_items);
    push_heard = λ waiting. absurd (omega arith);
    pop_heard = λ waiting. absurd (omega arith);
  }

  run-Holds_new :
      (max_size : ℤ) (q : Queue A) (actions : List (Action A))
      → thread_safe_queue max_size ≡ some q
      → Holds q.max_size 0 0 (run actions (fresh q))
  run-Holds_new max_size q actions made =
      run-Holds q.max_size actions (fresh q)
        (fresh-Holds q (thread_safe_queue-IsNew max_size q made))

  -- From a queue that the constructor made, whatever the threads do: the values taken so far,
  -- followed by the queue, are the values accepted so far, in order, and the queue is never longer
  -- than the size given to the constructor.
  pub first_in_first_out :
      (max_size : ℤ) (q : Queue A) (actions : List (Action A))
      → thread_safe_queue max_size ≡ some q
      → let s = run actions (fresh q) in
        (s.accepted ≡ s.taken ++ s.shared.queue)
        × (length s.shared.queue ≤ q.max_size)
        × (pos q.max_size ≡ max_size)
  first_in_first_out max_size q actions made =
      let h = run-Holds_new max_size q actions made in
      (h.fifo, omega (arith, h.bounded, h.sized), max_size_kept max_size q made)

  no_items_left : (xs : List A) → length xs ≤ 0 → xs ≡ []
  no_items_left [] le = refl
  no_items_left (x ∷ xs) le = absurd (omega arith)

  module _ (cap : ℕ) (s : System A) (h : Holds cap 0 0 s) (size : 0 < cap)
      (pushers : s.push_woken ≡ []) (poppers : s.pop_woken ≡ 0) where
    not_both : 0 < length s.push_waiting → 0 < s.pop_waiting → ⊥
    not_both push_waits pop_waits =
        omega (
          arith,
          (h.push_heard push_waits).1,
          (h.pop_heard pop_waits).1,
          h.sized,
          ap length pushers,
        )

    push_settled :
        0 < length s.push_waiting
        → (s.shared.done ≡ false) × (length s.shared.queue ≡ cap) × (s.pop_waiting ≡ 0)
    push_settled waiting =
        let (running, le) = h.push_heard waiting in
        (
          running,
          omega (arith, h.bounded, h.sized, ap length pushers),
          elim (zero-cases s.pop_waiting) [
            | inl none_waits ↦ none_waits
            | inr some_wait ↦ absurd (not_both waiting some_wait)
          ],
        )

    pop_settled :
        0 < s.pop_waiting → (s.shared.done ≡ false) × (s.shared.queue ≡ []) × (s.push_waiting ≡ [])
    pop_settled waiting =
        let (running, le) = h.pop_heard waiting in
        (
          running,
          no_items_left s.shared.queue (omega arith),
          elim (zero-cases (length s.push_waiting)) [
            | inl none_waits ↦ no_items_left s.push_waiting (omega arith)
            | inr some_wait ↦ absurd (not_both some_wait waiting)
          ],
        )

  -- From a queue that the constructor made, whenever no thread that was woken is left to run: if
  -- threads wait in push then the queue is full, not shut down, and none waits in pop; if threads
  -- wait in pop then the queue is empty, not shut down, and none waits in push.
  pub no_lost_wakeup :
      (max_size : ℤ) (q : Queue A) (actions : List (Action A))
      → thread_safe_queue max_size ≡ some q
      → let s = run actions (fresh q) in
        s.push_woken ≡ []
        → s.pop_woken ≡ 0
        → (0 < length s.push_waiting
            → (s.shared.done ≡ false) × (length s.shared.queue ≡ q.max_size) × (s.pop_waiting ≡ 0))
          × (0 < s.pop_waiting
              → (s.shared.done ≡ false) × (s.shared.queue ≡ []) × (s.push_waiting ≡ []))
  no_lost_wakeup max_size q actions made pushers poppers =
      let h = run-Holds_new max_size q actions made in
      let size = (thread_safe_queue-IsNew max_size q made).positive in
      (
        push_settled q.max_size _ h size pushers poppers,
        pop_settled q.max_size _ h size pushers poppers,
      )
