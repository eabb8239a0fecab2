-- ===== src/ThreadPool/Invariant.antt =====
-- Which worker is where, and which task.
use mathlib.Core.Path.{subst}
use mathlib.Core.List.{append_assoc}
use low_level_cpp.Base.{
  ℕ, zero, suc, ◌+◌, ◌≤◌, ◌<◌, ◌≡◌, inl, inr, refl, sym, ap, ◌∙◌, Bool, true, false, none, some,
  List, [], ◌∷◌, ◌++◌, arith, ◌==◌, ltb, if◌then◌else◌, count, erase, length, count-erase,
  length-erase, count-append, length-append, Bool-cases,
}
use low_level_cpp.ThreadPool.{
  ThreadPool, has_task, Look, waits, leaves, takes, take_task, look, enqueue, Destructor,
  not_called, stopped, notified, joined, System, Action, enqueues, notifies, looks, completes,
  wakes, stops, notifies_all, joins, enqueued, wake_one, notify_one, looked, look_once, complete,
  stop_pool, notify_all, join, perform, run, thread_pool,
}

abbrev pub called : Destructor → Bool
called not_called = false
called stopped = true
called notified = true
called joined = true

-- Behind `notify_all`.
abbrev pub woken : Destructor → Bool
woken not_called = false
woken stopped = false
woken notified = true
woken joined = true

abbrev pub over : Destructor → Bool
over not_called = false
over stopped = false
over notified = false
over joined = true

-- Of a pool with `num` workers; `more` of them are looking that the field does not count.
pub record Holds (num more : ℕ) (s : System) : Type 0 where
  pub sized : s.threads ≡ num
  pub workers : s.looking + more + s.waiting + s.returned + length s.running ≡ s.threads
  pub stop : s.pool.stop ≡ called s.destructor
  pub heard : 0 < s.waiting → length s.pool.tasks ≤ s.looking + more + s.unsent
  pub awake : woken s.destructor ≡ true → s.waiting ≡ 0
  pub left : 0 < s.returned → (s.pool.stop ≡ true) × (s.pool.tasks ≡ [])
  pub order : s.accepted ≡ s.started ++ s.pool.tasks
  pub done : (a : ℕ) → count a s.started ≡ count a s.completed + count a s.running
  pub ended : over s.destructor ≡ true → s.returned ≡ s.threads

wake_one-Holds :
    {num : ℕ} (n : ℕ) (s : System) → s.waiting ≡ n → Holds num 0 s → Holds num 0 (wake_one n s)
wake_one-Holds zero s e h = h
wake_one-Holds (suc n) s e h = record {
  sized = h.sized;
  workers = omega (arith, h.workers);
  stop = h.stop;
  heard = λ w. omega (arith, h.heard (omega arith));
  awake = λ w. omega (arith, h.awake w);
  left = h.left;
  order = h.order;
  done = h.done;
  ended = h.ended;
}

notify_one-Holds :
    {num : ℕ} (n : ℕ) (s : System) → s.unsent ≡ n → Holds num 0 s → Holds num 0 (notify_one n s)
notify_one-Holds zero s e h = h
notify_one-Holds {num = num} (suc n) s e h = go s.waiting refl
  where
    go : (w : ℕ) → s.waiting ≡ w → Holds num 0 (wake_one w (record s { unsent = n }))
    go zero f = record {
      sized = h.sized;
      workers = h.workers;
      stop = h.stop;
      heard = λ w. absurd (omega arith);
      awake = h.awake;
      left = h.left;
      order = h.order;
      done = h.done;
      ended = h.ended;
    }
    go (suc w) f = record {
      sized = h.sized;
      workers = omega (arith, h.workers);
      stop = h.stop;
      heard = λ _. omega (arith, h.heard (omega arith));
      awake = λ k. omega (arith, h.awake k);
      left = h.left;
      order = h.order;
      done = h.done;
      ended = h.ended;
    }

woken-called : (d : Destructor) → woken d ≡ true → called d ≡ true
woken-called not_called e = e
woken-called stopped e = refl
woken-called notified e = refl
woken-called joined e = refl

-- What a worker finds.
data Finds (p : ThreadPool) : Look → Type 0 where
  idle : p.stop ≡ false → length p.tasks ≡ 0 → Finds p waits
  finished : p.stop ≡ true → p.tasks ≡ [] → Finds p leaves
  busy :
      (task : ℕ)
      → (rest : List ℕ) → p.tasks ≡ task ∷ rest
      → Finds p (takes task (record p { tasks = rest }))

no_tasks : (xs : List ℕ) → ltb 0 (length xs) ≡ false → xs ≡ []
no_tasks [] e = refl
no_tasks (x ∷ xs) e = absurd (ground arith)

take_task-Finds :
    (p : ThreadPool) (xs : List ℕ) → p.tasks ≡ xs → has_task p ≡ true → Finds p (take_task xs p)
take_task-Finds p [] e some_left = absurd (ground (arith, ap length e))
take_task-Finds p (x ∷ xs) e some_left = busy x xs e

look-Finds : (p : ThreadPool) → Finds p (look p)
unfolding look
look-Finds p = elim (Bool-cases (has_task p)) [
  | inl some_left ↦
      let e : look p ≡ take_task p.tasks p = ground arith in
      subst (Finds p) (sym e) (take_task-Finds p p.tasks refl some_left)
  | inr none_left ↦ elim (Bool-cases p.stop) [
    | inl stop ↦
        let e : look p ≡ leaves = ground arith in
        subst (Finds p) (sym e) (finished stop (no_tasks p.tasks none_left))
    | inr running ↦
        let e : look p ≡ waits = ground arith in
        subst (Finds p) (sym e) (idle running (ap length (no_tasks p.tasks none_left)))
  ]
]

looked-Holds :
    {num : ℕ} (s : System) (r : Look) → Finds s.pool r → Holds num 1 s → Holds num 0 (looked r s)
looked-Holds s _ (idle running none_left) h = record {
  sized = h.sized;
  workers = omega (arith, h.workers);
  stop = h.stop;
  heard = λ w. omega arith;
  awake = λ w. absurd (ground (arith, woken-called s.destructor w, h.stop));
  left = h.left;
  order = h.order;
  done = h.done;
  ended = h.ended;
}
looked-Holds s _ (finished stop none_left) h = record {
  sized = h.sized;
  workers = omega (arith, h.workers);
  stop = h.stop;
  heard = λ w. omega (arith, ap length none_left);
  awake = h.awake;
  left = λ _. (stop, none_left);
  order = h.order;
  done = h.done;
  ended = λ o. omega (arith, h.ended o, h.workers);
}
looked-Holds s _ (busy task rest e) h = record {
  sized = h.sized;
  workers = omega (arith, h.workers);
  stop = h.stop;
  heard = λ w. omega (arith, h.heard w, ap length e);
  awake = h.awake;
  left = λ r. absurd (ground (arith, h.left r, e));
  order = h.order ∙ ap (λ l. s.started ++ l) e ∙ sym (append_assoc s.started (task ∷ []) rest);
  done = λ a. ground (arith, h.done a, count-append a s.started (task ∷ []));
  ended = h.ended;
}

look_once-Holds :
    {num : ℕ} (n : ℕ) (s : System) → s.looking ≡ n → Holds num 0 s → Holds num 0 (look_once n s)
look_once-Holds zero s e h = h
look_once-Holds (suc n) s e h =
    looked-Holds (record s { looking = n }) _ (look-Finds s.pool)
      (record {
        sized = h.sized;
        workers = omega (arith, h.workers);
        stop = h.stop;
        heard = λ w. omega (arith, h.heard w);
        awake = h.awake;
        left = h.left;
        order = h.order;
        done = h.done;
        ended = h.ended;
      })

enqueued-Holds :
    {num : ℕ} (task : ℕ) (s : System)
    → Holds num 0 s
    → Holds num 0 (enqueued task (enqueue task s.pool) s)
unfolding enqueue
enqueued-Holds {num = num} task s h = elim (Bool-cases s.pool.stop) [
  | inl stop ↦
      subst (λ r. Holds num 0 (enqueued task r s))
        (sym (
          ap (λ b. if b then none else some (record (s.pool) { tasks = s.pool.tasks ++ task ∷ [] }))
            stop))
        h
  | inr running ↦
      subst (λ r. Holds num 0 (enqueued task r s))
        (sym (
          ap (λ b. if b then none else some (record (s.pool) { tasks = s.pool.tasks ++ task ∷ [] }))
            running))
        (record {
          sized = h.sized;
          workers = h.workers;
          stop = h.stop;
          heard = λ w. omega (arith, h.heard w, length-append s.pool.tasks (task ∷ []));
          awake = h.awake;
          left = λ r. absurd (ground (arith, h.left r));
          order =
              ap (λ l. l ++ task ∷ []) h.order ∙ append_assoc s.started s.pool.tasks (task ∷ []);
          done = h.done;
          ended = h.ended;
        })
]

complete-Holds : {num : ℕ} (task : ℕ) (s : System) → Holds num 0 s → Holds num 0 (complete task s)
complete-Holds {num = num} task s h = elim (Bool-cases (ltb 0 (count task s.running))) [
  | inl held ↦
      let some_left : 0 < count task s.running = ground arith in
      subst (λ (t : System). Holds num 0 t)
        (sym (
          ap
            (λ (b : Bool).
              if b
              then record s {
                running = erase task s.running;
                looking = suc s.looking;
                completed = task ∷ s.completed;
              }
              else s)
            held))
        (record {
          sized = h.sized;
          workers = omega (arith, h.workers, length-erase task s.running);
          stop = h.stop;
          heard = λ w. omega (arith, h.heard w);
          awake = h.awake;
          left = h.left;
          order = h.order;
          done = λ a. ground (arith, h.done a, count-erase task a s.running);
          ended = λ o. omega (arith, h.ended o, h.workers, length-erase task s.running);
        })
  | inr absent ↦
      subst (λ (t : System). Holds num 0 t)
        (sym (
          ap
            (λ (b : Bool).
              if b
              then record s {
                running = erase task s.running;
                looking = suc s.looking;
                completed = task ∷ s.completed;
              }
              else s)
            absent))
        h
]

stop_pool-Holds :
    {num : ℕ} (d : Destructor) (s : System)
    → s.destructor ≡ d
    → Holds num 0 s
    → Holds num 0 (stop_pool d s)
stop_pool-Holds not_called s e h = record {
  sized = h.sized;
  workers = h.workers;
  stop = refl;
  heard = h.heard;
  awake = λ w. absurd (ground arith);
  left = λ r. (refl, (h.left r).1);
  order = h.order;
  done = h.done;
  ended = λ o. absurd (ground arith);
}
stop_pool-Holds stopped s e h = h
stop_pool-Holds notified s e h = h
stop_pool-Holds joined s e h = h

notify_all-Holds :
    {num : ℕ} (d : Destructor) (s : System)
    → s.destructor ≡ d
    → Holds num 0 s
    → Holds num 0 (notify_all d s)
notify_all-Holds not_called s e h = h
notify_all-Holds stopped s e h = record {
  sized = h.sized;
  workers = omega (arith, h.workers);
  stop = h.stop ∙ ap called e;
  heard = λ w. absurd (omega arith);
  awake = λ w. refl;
  left = h.left;
  order = h.order;
  done = h.done;
  ended = λ o. absurd (ground arith);
}
notify_all-Holds notified s e h = h
notify_all-Holds joined s e h = h

join-Holds :
    {num : ℕ} (d : Destructor) (s : System)
    → s.destructor ≡ d
    → Holds num 0 s
    → Holds num 0 (join d s)
join-Holds not_called s e h = h
join-Holds stopped s e h = h
join-Holds {num = num} notified s e h = elim (Bool-cases (s.returned == s.threads)) [
  | inl all ↦
      subst (λ (t : System). Holds num 0 t)
        (sym (ap (λ (b : Bool). if b then record s { destructor = joined } else s) all))
        (record {
          sized = h.sized;
          workers = h.workers;
          stop = h.stop ∙ ap called e;
          heard = h.heard;
          awake = λ w. h.awake (ap woken e);
          left = h.left;
          order = h.order;
          done = h.done;
          ended = λ o. ground arith;
        })
  | inr some_left ↦
      subst (λ (t : System). Holds num 0 t)
        (sym (ap (λ (b : Bool). if b then record s { destructor = joined } else s) some_left)) h
]
join-Holds joined s e h = h

perform-Holds : {num : ℕ} (a : Action) (s : System) → Holds num 0 s → Holds num 0 (perform a s)
unfolding perform
perform-Holds (enqueues task) s h = enqueued-Holds task s h
perform-Holds notifies s h = notify_one-Holds s.unsent s refl h
perform-Holds looks s h = look_once-Holds s.looking s refl h
perform-Holds (completes task) s h = complete-Holds task s h
perform-Holds wakes s h = wake_one-Holds s.waiting s refl h
perform-Holds stops s h = stop_pool-Holds s.destructor s refl h
perform-Holds notifies_all s h = notify_all-Holds s.destructor s refl h
perform-Holds joins s h = join-Holds s.destructor s refl h

run-Holds :
    {num : ℕ} (actions : List Action) (s : System) → Holds num 0 s → Holds num 0 (run actions s)
unfolding run
run-Holds [] s h = h
run-Holds (a ∷ actions) s h = run-Holds actions (perform a s) (perform-Holds a s h)

-- The workers are where they can be, and the tasks too, whatever the threads do.
pub thread_pool-Holds :
    (num_threads : ℕ) (actions : List Action)
    → Holds num_threads 0 (run actions (thread_pool num_threads))
thread_pool-Holds num_threads actions = run-Holds actions (thread_pool num_threads) (record {
  sized = refl;
  workers = omega arith;
  stop = refl;
  heard = λ w. absurd (omega arith);
  awake = λ w. refl;
  left = λ r. absurd (omega arith);
  order = refl;
  done = λ a. refl;
  ended = λ o. absurd (ground arith);
})
