-- ===== src/ThreadSafeQueue.antt =====
-- Thread_Safe_Queue/thread_safe_queue.h and thread_safe_queue.cpp: a bounded queue between threads.
-- Here stand the parts of its functions that run under the mutex.
pub mod Outcomes
mod Tests
pub mod Threads
use low_level_cpp.Base.{
  ℕ, zero, suc, ◌+◌, Bool, true, false, ◌||◌, not, Option, none, some, List, [], ◌∷◌, ◌++◌, ltb,
  if◌then◌else◌, length,
}
use low_level_cpp.Base.Int.{ℤ, pos, negsuc}

pub record Queue (A : Type 0) : Type 0 where
  pub max_size : ℕ
  pub queue : List A
  pub done : Bool

-- What a function does when it holds the mutex: it waits on its condition variable, or it returns
-- `result`, having notified one thread that waits on the other condition variable or not.
pub data Locked (A R : Type 0) : Type 0 where
  waits : Locked A R
  returns : (after : Queue A) → (notifies : Bool) → (result : R) → Locked A R

module _ {A : Type 0} where
  -- The constructor: `none` is the exception.
  unfoldable pub thread_safe_queue : ℤ → Option (Queue A)
  thread_safe_queue (pos zero) = none
  thread_safe_queue (pos (suc n)) = some (record { max_size = suc n; queue = []; done = false })
  thread_safe_queue (negsuc n) = none

  abbrev pub has_space : Queue A → Bool
  has_space q = ltb (length q.queue) q.max_size

  abbrev pub has_item : Queue A → Bool
  has_item q = ltb 0 (length q.queue)

  abbrev pub push_back : A → Queue A → Queue A
  push_back value q = record q { queue = q.queue ++ value ∷ [] }

  -- One test of the predicate of the `wait`, and what follows when it holds.
  unfoldable pub push : A → Queue A → Locked A Bool
  push value q =
      if q.done || has_space q
      then if q.done then returns q false false else returns (push_back value q) true true
      else waits

  unfoldable pub try_push : A → Queue A → Locked A Bool
  try_push value q =
      if q.done || not (has_space q)
      then returns q false false
      else returns (push_back value q) true true

  -- The end of `pop`, and all of `try_pop`.
  abbrev pub take_front : List A → Queue A → Locked A (Option A)
  take_front [] q = returns q false none
  take_front (value ∷ rest) q = returns (record q { queue = rest }) true (some value)

  unfoldable pub pop : Queue A → Locked A (Option A)
  pop q = if q.done || has_item q then take_front q.queue q else waits

  unfoldable pub try_pop : Queue A → Locked A (Option A)
  try_pop q = take_front q.queue q

  -- Both condition variables notify all of their threads.
  unfoldable pub shutdown : Queue A → Queue A
  shutdown q = record q { done = true }

  unfoldable pub size : Queue A → ℕ
  size q = length q.queue

  unfoldable pub empty : Queue A → Bool
  empty q = not (has_item q)

  unfoldable pub capacity : Queue A → ℕ
  capacity q = q.max_size

  unfoldable pub is_shutdown : Queue A → Bool
  is_shutdown q = q.done
