-- ===== src/ThreadPool.antt =====
-- Thread-Pool/main.cpp: workers that take tasks from a queue, until the destructor stops them. A task
-- is a number here, and running it takes a time but does nothing to the pool.
pub mod Invariant
pub mod Promises
mod Tests
use low_level_cpp.Base.{
  ℕ, zero, suc, ◌+◌, Bool, true, false, ◌||◌, ◌&&◌, not, Option, none, some, List, [], ◌∷◌, ◌++◌,
  ◌==◌, ltb, if◌then◌else◌, count, erase, length,
}

pub record ThreadPool : Type 0 where
  pub tasks : List ℕ
  pub stop : Bool

abbrev pub has_task : ThreadPool → Bool
has_task p = ltb 0 (length p.tasks)

-- What a worker does when it holds the mutex: it waits, it returns, or it goes off with a task.
pub data Look : Type 0 where
  waits : Look
  leaves : Look
  takes : (task : ℕ) → ThreadPool → Look

abbrev pub take_task : List ℕ → ThreadPool → Look
take_task [] p = waits
take_task (task ∷ rest) p = takes task (record p { tasks = rest })

unfoldable pub look : ThreadPool → Look
look p =
    if p.stop || has_task p
    then if p.stop && not (has_task p) then leaves else take_task p.tasks p
    else waits

-- The locked part of `enqueue`; `none` is the exception.
unfoldable pub enqueue : ℕ → ThreadPool → Option ThreadPool
enqueue task p = if p.stop then none else some (record p { tasks = p.tasks ++ task ∷ [] })

-- How far the destructor has come: not called, behind its locked part, behind `notify_all`, or behind
-- the joins.
pub data Destructor : Type 0 where
  not_called : Destructor
  stopped : Destructor
  notified : Destructor
  joined : Destructor

-- `looking` workers need the mutex to test the predicate, `waiting` ones wait on the condition variable,
-- `returned` ones have ended. `unsent` counts the calls of `enqueue` that are about to notify.
pub record System : Type 0 where
  pub pool : ThreadPool
  pub threads : ℕ
  pub looking : ℕ
  pub waiting : ℕ
  pub returned : ℕ
  pub running : List ℕ
  pub unsent : ℕ
  pub destructor : Destructor
  pub accepted : List ℕ
  pub started : List ℕ
  pub completed : List ℕ

pub data Action : Type 0 where
  enqueues : ℕ → Action
  notifies : Action
  looks : Action
  completes : ℕ → Action
  wakes : Action  -- a wake-up for no reason
  stops : Action
  notifies_all : Action
  joins : Action

abbrev pub enqueued : ℕ → Option ThreadPool → System → System
enqueued task none s = s
enqueued task (some p) s = record s {
  pool = p;
  unsent = suc s.unsent;
  accepted = s.accepted ++ task ∷ [];
}

abbrev pub wake_one : ℕ → System → System
wake_one zero s = s
wake_one (suc n) s = record s { waiting = n; looking = suc s.looking }

abbrev pub notify_one : ℕ → System → System
notify_one zero s = s
notify_one (suc n) s = wake_one s.waiting (record s { unsent = n })

-- A worker that was looking, and what it does.
abbrev pub looked : Look → System → System
looked waits s = record s { waiting = suc s.waiting }
looked leaves s = record s { returned = suc s.returned }
looked (takes task p) s = record s {
  pool = p;
  running = task ∷ s.running;
  started = s.started ++ task ∷ [];
}

abbrev pub look_once : ℕ → System → System
look_once zero s = s
look_once (suc n) s = looked (look s.pool) (record s { looking = n })

abbrev pub complete : ℕ → System → System
complete task s =
    if ltb 0 (count task s.running)
    then record s {
      running = erase task s.running;
      looking = suc s.looking;
      completed = task ∷ s.completed;
    }
    else s

abbrev pub stop_pool : Destructor → System → System
stop_pool not_called s = record s { pool = record (s.pool) { stop = true }; destructor = stopped }
stop_pool called s = s

abbrev pub notify_all : Destructor → System → System
notify_all stopped s = record s {
  waiting = 0;
  looking = s.waiting + s.looking;
  destructor = notified;
}
notify_all other s = s

-- The joins end when every worker has returned.
abbrev pub join : Destructor → System → System
join notified s = if s.returned == s.threads then record s { destructor = joined } else s
join other s = s

unfoldable pub perform : Action → System → System
unfolding enqueue look
perform (enqueues task) s = enqueued task (enqueue task s.pool) s
perform notifies s = notify_one s.unsent s
perform looks s = look_once s.looking s
perform (completes task) s = complete task s
perform wakes s = wake_one s.waiting s
perform stops s = stop_pool s.destructor s
perform notifies_all s = notify_all s.destructor s
perform joins s = join s.destructor s

unfoldable pub run : List Action → System → System
unfolding perform
run [] s = s
run (a ∷ actions) s = run actions (perform a s)

-- The constructor: each worker starts by looking.
abbrev pub thread_pool : ℕ → System
thread_pool num_threads = record {
  pool = record { tasks = []; stop = false };
  threads = num_threads;
  looking = num_threads;
  waiting = 0;
  returned = 0;
  running = [];
  unsent = 0;
  destructor = not_called;
  accepted = [];
  started = [];
  completed = [];
}
