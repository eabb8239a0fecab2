-- ===== src/ThreadPool/Promises.antt =====
-- What the pool promises to those who enqueue tasks, and to the one who destroys it.
use low_level_cpp.Base.{
  ℕ, ◌+◌, ◌≤◌, ◌<◌, ◌≡◌, inl, inr, refl, ap, ◌∙◌, false, List, [], ◌∷◌, ◌++◌, arith, count, length,
  count-append, zero-cases,
}
use low_level_cpp.ThreadPool.{not_called, notified, joined, Action, run, thread_pool}
use low_level_cpp.ThreadPool.Invariant.{called, woken, over, thread_pool-Holds}

empty : (xs : List ℕ) → length xs ≤ 0 → xs ≡ []
empty [] le = refl
empty (x ∷ xs) le = absurd (omega arith)

-- At any time, the tasks that were accepted are those that were started, followed by the queue, in the
-- order in which they came; and each task that was started is running or completed, as often as it
-- was started.
pub each_task_once :
    (num_threads : ℕ) (actions : List Action)
    → let s = run actions (thread_pool num_threads) in
      (s.accepted ≡ s.started ++ s.pool.tasks)
      × ((task : ℕ) → count task s.started ≡ count task s.completed + count task s.running)
each_task_once num_threads actions =
    let h = thread_pool-Holds num_threads actions in (h.order, h.done)

-- When the destructor of a pool with workers is through its joins, the queue is empty, no task runs,
-- and every task that was accepted is completed, as often as it was accepted.
pub joined_complete :
    (num_threads : ℕ) (actions : List Action)
    → 0 < num_threads
    → let s = run actions (thread_pool num_threads) in
      s.destructor ≡ joined
      → (s.pool.tasks ≡ [])
        × (s.running ≡ [])
        × ((task : ℕ) → count task s.completed ≡ count task s.accepted)
joined_complete num_threads actions some_threads end =
    let h = thread_pool-Holds num_threads actions in
    let all = h.ended (ap over end) in
    let none_left = (h.left (omega (arith, h.sized))).1 in
    let idle = empty (run actions (thread_pool num_threads)).running (omega (arith, h.workers)) in
    (
      none_left,
      idle,
      λ task. omega (
        arith,
        h.done task,
        ap (count task) h.order,
        ap (count task) none_left,
        ap (count task) idle,
        count-append task (run actions (thread_pool num_threads)).started
            (run actions (thread_pool num_threads)).pool.tasks,
      ),
    )

-- When no worker looks or runs a task and no notification is on its way: before the destructor is
-- called, a pool with workers has no task in the queue; and behind `notify_all` every worker has
-- returned, so that the joins end.
pub never_stuck :
    (num_threads : ℕ) (actions : List Action)
    → 0 < num_threads
    → let s = run actions (thread_pool num_threads) in
      s.looking ≡ 0
      → s.running ≡ []
      → s.unsent ≡ 0
      → (s.destructor ≡ not_called → s.pool.tasks ≡ [])
        × (s.destructor ≡ notified → s.returned ≡ num_threads)
never_stuck num_threads actions some_threads looking running unsent =
    let h = thread_pool-Holds num_threads actions in
    let s = run actions (thread_pool num_threads) in
    let none_returned : s.pool.stop ≡ false → s.returned ≡ 0 = λ running_on.
      elim (zero-cases s.returned) [
        | inl e ↦ e
        | inr some_left ↦ absurd (ground (arith, (h.left some_left).0))
      ] in
    (
      (λ e. empty s.pool.tasks (
          omega (
            arith,
            h.heard (
                omega (
                  arith,
                  h.workers,
                  h.sized,
                  none_returned (h.stop ∙ ap called e),
                  ap length running,
                )),
          ))),
      λ e. omega (arith, h.awake (ap woken e), h.workers, h.sized, ap length running),
    )
