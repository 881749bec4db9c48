-- ===== src/ThreadPool/Invariant.antt =====
-- The counters of the pool and the order of its tasks, at every time between two steps.
use fastcgi_container.Base.{
  ℕ, ◌+◌, ◌≡◌, refl, ◌∙◌, inl, inr, Bool, true, false, List, [], ◌∷◌, ◌++◌, append-nil,
  append_assoc, arith, leb, Bool-cases, length,
}
use fastcgi_container.ThreadPool.{
  Report, no_task, good, bad, Worker, ready, waiting, handling, ended, Pool, Effect, silent,
  not_started, queue_full, Event, start, stop, add_task, enter, handled, create, thread_at,
  set_thread, start_pool, stop_pool, add, report, take_task, seek, visit, finish, step, run,
}
use fastcgi_container.ThreadPool.Counts.{
  is_busy, busy_threads, busy_threads_new, is_live, busy_threads-set_thread,
}
use fastcgi_container.ThreadPool.Tallied.{
  IsConsistent, report-IsTallied, quiet-IsTallied, take-IsTallied, append-IsConsistent, IsTallied,
}

module _ {ℓ} {T : Type ℓ} where
  -- What a thread that is not busy any more makes of the queue: `n` counts the others.
  take_task-IsConsistent :
      (i n : ℕ) (tasks : List T) (p : Pool T) (es : List (Effect T))
      → p.tasks ≡ tasks
      → ((w : Worker T) → busy_threads (set_thread i w p.threads) ≡ n + is_busy w)
      → IsTallied n p es
      → IsConsistent (take_task i tasks p).0 (es ++ (take_task i tasks p).1 ∷ [])
  unfolding take_task
  take_task-IsConsistent i n [] p es h others c =
      quiet-IsTallied n _ p.started p (set_thread i waiting p.threads) es silent refl
        (omega (arith, others waiting)) c
  take_task-IsConsistent i n (task ∷ tasks) p es h others c =
      take-IsTallied n _ p (set_thread i (handling task) p.threads) es task tasks h
        (others (handling task)) c

  seek-IsConsistent :
      (i n : ℕ) (p : Pool T) (es : List (Effect T))
      → ((w : Worker T) → busy_threads (set_thread i w p.threads) ≡ n + is_busy w)
      → IsTallied n p es
      → IsConsistent (seek i p).0 (es ++ (seek i p).1 ∷ [])
  unfolding seek
  seek-IsConsistent i n p es others c = elim (Bool-cases p.started) [
    | inl e ↦ simp e (take_task-IsConsistent i n p.tasks p es refl others c)
    | inr e ↦ simp e (
        quiet-IsTallied n _ false p (set_thread i ended p.threads) es silent refl
          (omega (arith, others ended)) c)
  ]

  -- The count of the other threads.
  others_lem :
      (i : ℕ) (v w : Worker T) (ws : List (Worker T))
      → thread_at i ws ≡ v
      → is_live v ≡ true
      → busy_threads (set_thread i w ws) ≡ busy_threads (set_thread i ended ws) + is_busy w
  others_lem i v w ws h live =
      omega (
        arith,
        busy_threads-set_thread i w v ws h live,
        busy_threads-set_thread i ended v ws h live,
      )

  report_keeps : (r : Report) (p : Pool T) → (report r p).threads ≡ p.threads
  unfolding report
  report_keeps no_task p = refl
  report_keeps good p = refl
  report_keeps bad p = refl

  visit-IsConsistent :
      (i : ℕ) (v : Worker T) (p : Pool T) (es : List (Effect T))
      → thread_at i p.threads ≡ v
      → IsConsistent p es
      → IsConsistent (visit i v p).0 (es ++ (visit i v p).1 ∷ [])
  unfolding visit
  visit-IsConsistent i (ready r) p es h c =
      let n = busy_threads (set_thread i ended p.threads) in
      let all : n + is_busy {T = T} (ready r) ≡ busy_threads p.threads =
        busy_threads-set_thread i ended (ready r) p.threads h refl ∙ omega arith in
      seek-IsConsistent i n (report r p) es
        (λ w. rw report_keeps (others_lem i (ready r) w p.threads h refl))
        (report-IsTallied r n p es (rw all c))
  visit-IsConsistent i waiting p es h c =
      seek-IsConsistent i (busy_threads p.threads) p es
        (λ w. omega (arith, busy_threads-set_thread i w waiting p.threads h refl)) c
  visit-IsConsistent i (handling task) p es h c =
      quiet-IsTallied _ _ p.started p p.threads es silent refl refl c
  visit-IsConsistent i ended p es h c =
      quiet-IsTallied _ _ p.started p p.threads es silent refl refl c

  finish-IsConsistent :
      (i : ℕ) (v : Worker T) (returned : Bool) (p : Pool T) (es : List (Effect T))
      → thread_at i p.threads ≡ v
      → IsConsistent p es
      → IsConsistent (finish i v returned p) (es ++ silent ∷ [])
  unfolding finish
  finish-IsConsistent i (handling task) true p es h c =
      quiet-IsTallied _ _ p.started p (set_thread i (ready good) p.threads) es silent refl
        (omega (arith, busy_threads-set_thread i (ready good) (handling task) p.threads h refl)) c
  finish-IsConsistent i (handling task) false p es h c =
      quiet-IsTallied _ _ p.started p (set_thread i (ready bad) p.threads) es silent refl
        (omega (arith, busy_threads-set_thread i (ready bad) (handling task) p.threads h refl)) c
  finish-IsConsistent i (ready r) returned p es h c =
      quiet-IsTallied _ _ p.started p p.threads es silent refl refl c
  finish-IsConsistent i waiting returned p es h c =
      quiet-IsTallied _ _ p.started p p.threads es silent refl refl c
  finish-IsConsistent i ended returned p es h c =
      quiet-IsTallied _ _ p.started p p.threads es silent refl refl c

  start-IsConsistent :
      (p : Pool T) (es : List (Effect T))
      → IsConsistent p es
      → IsConsistent (start_pool p) (es ++ silent ∷ [])
  unfolding start_pool
  start-IsConsistent p es c = elim (Bool-cases p.started) [
    | inl e ↦ simp e (quiet-IsTallied _ _ p.started p p.threads es silent refl refl c)
    | inr e ↦ simp e (
        quiet-IsTallied _ _ true p _ es silent refl (busy_threads_new p.threads_number p.threads) c)
  ]

  add-IsConsistent :
      (task : T) (p : Pool T) (es : List (Effect T))
      → IsConsistent p es
      → IsConsistent (add task p).0 (es ++ (add task p).1 ∷ [])
  unfolding add
  add-IsConsistent task p es c = elim (Bool-cases p.started) [
    | inr e ↦ simp e (quiet-IsTallied _ _ p.started p p.threads es not_started refl refl c)
    | inl e ↦ elim (Bool-cases (leb p.queue_length (length p.tasks))) [
      | inl f ↦ simp (e, f) (quiet-IsTallied _ _ p.started p p.threads es queue_full refl refl c)
      | inr f ↦ simp (e, f) (append-IsConsistent task true p es (ground arith) c)
    ]
  ]

  step-IsConsistent :
      (e : Event T) (p : Pool T) (es : List (Effect T))
      → IsConsistent p es
      → IsConsistent (step e p).0 (es ++ (step e p).1 ∷ [])
  unfolding step stop_pool
  step-IsConsistent start p es c = start-IsConsistent p es c
  step-IsConsistent stop p es c = quiet-IsTallied _ _ false p p.threads es silent refl refl c
  step-IsConsistent (add_task task) p es c = add-IsConsistent task p es c
  step-IsConsistent (enter i) p es c = visit-IsConsistent i (thread_at i p.threads) p es refl c
  step-IsConsistent (handled i returned) p es c =
      finish-IsConsistent i (thread_at i p.threads) returned p es refl c

  run-IsTallied :
      (events : List (Event T)) (p : Pool T) (es : List (Effect T))
      → IsConsistent p es
      → IsConsistent (run events p).0 (es ++ (run events p).1)
  unfolding run
  run-IsTallied [] p es c = rw append-nil c
  run-IsTallied (e ∷ events) p es c =
      rw (← append_assoc es ((step e p).1 ∷ []) (run events (step e p).0).1)
        (run-IsTallied events (step e p).0 (es ++ (step e p).1 ∷ []) (step-IsConsistent e p es c))

  -- After every sequence of steps of the owner and the threads from a new pool, up to multiples of
  -- 2 ^ 64: the counter of busy threads is the number of threads that handle a task or have one to
  -- report, and the tasks that were let in are as many as those counted as good or bad, those with
  -- threads and those in the queue together. The queue is not longer than its limit; and the tasks
  -- let in, in order, are those that threads took, in order, and then the queue.
  pub run-IsConsistent :
      (threads_number queue_length : ℕ) (events : List (Event T))
      → IsConsistent
          (run events (create threads_number queue_length)).0
          (run events (create threads_number queue_length)).1
  unfolding create
  run-IsConsistent threads_number queue_length events =
      run-IsTallied events (create threads_number queue_length) []
        (record { busy = refl; tally = refl; room = omega arith; order = refl })
