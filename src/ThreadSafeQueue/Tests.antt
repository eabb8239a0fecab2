-- ===== src/ThreadSafeQueue/Tests.antt =====
-- The queue at small runs, and its theorems at them.
use low_level_cpp.Base.{ℕ, ◌≤◌, ◌<◌, ◌≡◌, ◌-◌, refl, false, some, List, [], ◌∷◌, ◌++◌, length}
use low_level_cpp.Base.Int.{pos}
use low_level_cpp.ThreadSafeQueue.{Queue, push, pop, thread_safe_queue}
use low_level_cpp.ThreadSafeQueue.Threads.{
  Action, call_push, resume_push, call_pop, resume_pop, call_shutdown, perform, run, fresh,
}
use low_level_cpp.ThreadSafeQueue.Threads.Promises.{first_in_first_out, no_lost_wakeup}
use low_level_cpp.ThreadSafeQueue.Threads.Shutdown.{IsOver, nothing_after_shutdown}

abbrev one_place : Queue ℕ
one_place = record { max_size = 1; queue = []; done = false }

made : thread_safe_queue {A = ℕ} (pos 1) ≡ some one_place
unfolding thread_safe_queue
made = refl

-- A value waits for its place, and enters after a pop.
abbrev actions : List (Action ℕ)
actions = call_push 7 ∷ call_push 8 ∷ call_pop 0 ∷ resume_push 0 ∷ []

eight_enters :
    ((run actions (fresh one_place)).taken ≡ 7 ∷ [])
    × ((run actions (fresh one_place)).shared.queue ≡ 8 ∷ [])
unfolding run perform push pop
eight_enters = (refl, refl)

first_in_first_out_example :
    let s = run actions (fresh one_place) in
    (s.accepted ≡ s.taken ++ s.shared.queue) × (length s.shared.queue ≤ 1) × (pos 1 ≡ pos 1)
first_in_first_out_example = first_in_first_out (pos 1) one_place actions made

-- The second value still waits.
abbrev stuck : List (Action ℕ)
stuck = call_push 7 ∷ call_push 8 ∷ []

no_woken :
    ((run stuck (fresh one_place)).push_woken ≡ []) × ((run stuck (fresh one_place)).pop_woken ≡ 0)
unfolding run perform push
no_woken = (refl, refl)

no_lost_wakeup_example :
    let s = run stuck (fresh one_place) in
    (0 < length s.push_waiting
      → (s.shared.done ≡ false) × (length s.shared.queue ≡ 1) × (s.pop_waiting ≡ 0))
    × (0 < s.pop_waiting → (s.shared.done ≡ false) × (s.shared.queue ≡ []) × (s.push_waiting ≡ []))
no_lost_wakeup_example = no_lost_wakeup (pos 1) one_place stuck made no_woken.0 no_woken.1

nothing_after_shutdown_example :
    let t = run actions (perform call_shutdown (fresh one_place)) in
    IsOver [] t
    × (length (perform (resume_push 0) t).push_woken ≡ length t.push_woken - 1)
    × ((perform (resume_pop 0) t).pop_woken ≡ t.pop_woken - 1)
nothing_after_shutdown_example = nothing_after_shutdown (fresh one_place) actions 0
