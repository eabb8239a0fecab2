-- ===== src/ThreadSafeQueue/Threads.antt =====
-- Any number of threads on a queue of Thread_Safe_Queue/thread_safe_queue.cpp, in any order. A step
-- is what one thread does from when it gets the mutex until it gives the mutex back.
pub mod Choice
pub mod Promises
pub mod Safety
pub mod Shutdown
use low_level_cpp.Base.{
  ℕ, zero, suc, ◌+◌, Bool, true, false, Option, none, some, List, [], ◌∷◌, ◌++◌, if◌then◌else◌,
  length,
}
use low_level_cpp.ThreadSafeQueue.{
  Queue, Locked, waits, returns, push, try_push, pop, try_pop, shutdown,
}

-- The threads in `push` have the value that they bring. A woken thread was notified, or woke up
-- without a reason, and needs the mutex to test its predicate again.
pub record System (A : Type 0) : Type 0 where
  pub shared : Queue A
  pub push_waiting : List A
  pub push_woken : List A
  pub pop_waiting : ℕ
  pub pop_woken : ℕ
  pub accepted : List A
  pub taken : List A

-- A number says which thread is notified, or runs on, where there is a choice.
pub data Action (A : Type 0) : Type 0 where
  call_push : A → Action A
  resume_push : ℕ → Action A
  wake_push : ℕ → Action A
  call_try_push : A → Action A
  call_pop : ℕ → Action A
  resume_pop : ℕ → Action A
  wake_pop : Action A
  call_try_pop : ℕ → Action A
  call_shutdown : Action A

module _ {A : Type 0} where
  abbrev pub behind : A → Option (A × List A) → Option (A × List A)
  behind x none = none
  behind x (some (z, others)) = some (z, x ∷ others)

  -- The element at a position, or the last one, and the others.
  abbrev pub pick : ℕ → List A → Option (A × List A)
  pick k [] = none
  pick k (x ∷ []) = some (x, [])
  pick zero (x ∷ y ∷ xs) = some (x, y ∷ xs)
  pick (suc k) (x ∷ y ∷ xs) = behind x (pick k (y ∷ xs))

  abbrev pub wake_picked : Option (A × List A) → System A → System A
  wake_picked none s = s
  wake_picked (some (v, others)) s = record s {
    push_waiting = others;
    push_woken = v ∷ s.push_woken;
  }

  -- `not_full_.notify_one()`
  abbrev pub notify_not_full : ℕ → System A → System A
  notify_not_full k s = wake_picked (pick k s.push_waiting) s

  abbrev pub wake_popper : ℕ → System A → System A
  wake_popper zero s = s
  wake_popper (suc n) s = record s { pop_waiting = n; pop_woken = suc s.pop_woken }

  -- `not_empty_.notify_one()`
  abbrev pub notify_not_empty : System A → System A
  notify_not_empty s = wake_popper s.pop_waiting s

  -- What a call of `push` or `try_push` with a value leaves behind.
  abbrev pub after_push : A → Locked A Bool → System A → System A
  after_push v waits s = record s { push_waiting = s.push_waiting ++ v ∷ [] }
  after_push v (returns q notifies result) s =
      let t : System A = record s {
        shared = q;
        accepted = if result then s.accepted ++ v ∷ [] else s.accepted;
      } in
      if notifies then notify_not_empty t else t

  abbrev pub values : Option A → List A
  values none = []
  values (some v) = v ∷ []

  abbrev pub after_pop : ℕ → Locked A (Option A) → System A → System A
  after_pop k waits s = record s { pop_waiting = suc s.pop_waiting }
  after_pop k (returns q notifies result) s =
      let t : System A = record s { shared = q; taken = s.taken ++ values result } in
      if notifies then notify_not_full k t else t

  abbrev pub run_pusher : Option (A × List A) → System A → System A
  run_pusher none s = s
  run_pusher (some (v, others)) s =
      after_push v (push v s.shared) (record s { push_woken = others })

  abbrev pub run_popper : ℕ → ℕ → System A → System A
  run_popper k zero s = s
  run_popper k (suc n) s = after_pop k (pop s.shared) (record s { pop_woken = n })

  unfoldable pub perform : Action A → System A → System A
  unfolding push try_push pop try_pop shutdown
  perform (call_push v) s = after_push v (push v s.shared) s
  perform (resume_push i) s = run_pusher (pick i s.push_woken) s
  perform (wake_push i) s = notify_not_full i s
  perform (call_try_push v) s = after_push v (try_push v s.shared) s
  perform (call_pop k) s = after_pop k (pop s.shared) s
  perform (resume_pop k) s = run_popper k s.pop_woken s
  perform wake_pop s = notify_not_empty s
  perform (call_try_pop k) s = after_pop k (try_pop s.shared) s
  perform call_shutdown s = record s {
    shared = shutdown s.shared;
    push_waiting = [];
    push_woken = s.push_waiting ++ s.push_woken;
    pop_waiting = 0;
    pop_woken = s.pop_waiting + s.pop_woken;
  }

  unfoldable pub run : List (Action A) → System A → System A
  unfolding perform
  run [] s = s
  run (a ∷ actions) s = run actions (perform a s)

  -- No thread has used the queue.
  abbrev pub fresh : Queue A → System A
  fresh q = record {
    shared = q;
    push_waiting = [];
    push_woken = [];
    pop_waiting = 0;
    pop_woken = 0;
    accepted = [];
    taken = [];
  }
