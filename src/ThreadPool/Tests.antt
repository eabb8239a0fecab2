-- ===== src/ThreadPool/Tests.antt =====
-- The pool at small runs, and its theorems at them.
use low_level_cpp.Base.{ℕ, ◌+◌, ◌≡◌, refl, arith, List, [], ◌∷◌, ◌++◌, count}
use low_level_cpp.ThreadPool.{
  not_called, notified, joined, Action, enqueues, notifies, looks, completes, stops, notifies_all,
  joins, perform, run, look, enqueue, thread_pool,
}
use low_level_cpp.ThreadPool.Promises.{each_task_once, joined_complete, never_stuck}

-- Two workers; one waits before the first task comes.
abbrev actions : List Action
actions = looks ∷ enqueues 7 ∷ notifies ∷ enqueues 8 ∷ notifies ∷ looks ∷ looks ∷ completes 8 ∷ []

both_run : let s = run actions (thread_pool 2) in (s.started ≡ 7 ∷ 8 ∷ []) × (s.running ≡ 7 ∷ [])
unfolding run perform look enqueue
both_run = (refl, refl)

each_task_once_example :
    let s = run actions (thread_pool 2) in
    (s.accepted ≡ s.started ++ s.pool.tasks)
    × ((task : ℕ) → count task s.started ≡ count task s.completed + count task s.running)
each_task_once_example = each_task_once 2 actions

-- A task that comes before the destructor is called is done before it ends.
abbrev to_the_end : List Action
to_the_end =
    looks
    ∷ enqueues 7
    ∷ stops
    ∷ enqueues 8
    ∷ notifies
    ∷ looks
    ∷ notifies_all
    ∷ completes 7
    ∷ looks
    ∷ looks
    ∷ joins
    ∷ []

ends : let s = run to_the_end (thread_pool 2) in (s.destructor ≡ joined) × (s.accepted ≡ 7 ∷ [])
unfolding run perform look enqueue
ends = (refl, refl)

joined_complete_example :
    let s = run to_the_end (thread_pool 2) in
    (s.pool.tasks ≡ [])
    × (s.running ≡ [])
    × ((task : ℕ) → count task s.completed ≡ count task s.accepted)
joined_complete_example = joined_complete 2 to_the_end (omega arith) ends.0

-- Everything is done, and both workers wait.
abbrev quiet : List Action
quiet = looks ∷ looks ∷ enqueues 7 ∷ notifies ∷ looks ∷ completes 7 ∷ looks ∷ []

is_quiet : let s = run quiet (thread_pool 2) in (s.looking ≡ 0) × (s.running ≡ []) × (s.unsent ≡ 0)
unfolding run perform look enqueue
is_quiet = (refl, refl, refl)

never_stuck_example :
    let s = run quiet (thread_pool 2) in
    (s.destructor ≡ not_called → s.pool.tasks ≡ []) × (s.destructor ≡ notified → s.returned ≡ 2)
never_stuck_example = never_stuck 2 quiet (omega arith) is_quiet.0 is_quiet.1 is_quiet.2
