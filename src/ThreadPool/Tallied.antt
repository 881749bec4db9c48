-- ===== src/ThreadPool/Tallied.antt =====
-- The relation between the counters and what happened, and the steps that keep it.
use fastcgi_container.Base.{
  ℕ, ◌+◌, ◌%◌, ◌^◌, ◌≤◌, ◌<◌, ◌≡◌, refl, ap, ◌∙◌, Bool, true, false, List, [], ◌∷◌, ◌++◌,
  append-nil, append_assoc, arith, length, length-append,
}
use fastcgi_container.ThreadPool.{
  Report, no_task, good, bad, Worker, ready, Pool, Effect, silent, accepted, not_started,
  queue_full, taken, report,
}
use fastcgi_container.ThreadPool.Counts.{
  accepted_of, taken_of, is_busy, busy_threads, accepted_of-append, taken_of-append,
}

module _ {ℓ} {T : Type ℓ} where
  -- `p` is the pool after the effects `es`, with `n` threads to count as busy.
  pub record IsTallied (n : ℕ) (p : Pool T) (es : List (Effect T)) : Type ℓ where
    pub busy : p.busy ≡ n % 2 ^ 64
    pub tally : (p.good + p.bad + n + length p.tasks) % 2 ^ 64 ≡ length (accepted_of es) % 2 ^ 64
    pub room : length p.tasks ≤ p.queue_length
    pub order : accepted_of es ≡ taken_of es ++ p.tasks

  abbrev pub IsConsistent : Pool T → List (Effect T) → Type ℓ
  IsConsistent p es = IsTallied (busy_threads p.threads) p es

  pub report-IsTallied :
      (r : Report) (n : ℕ) (p : Pool T) (es : List (Effect T))
      → IsTallied (n + is_busy {T = T} (ready r)) p es
      → IsTallied n (report r p) es
  unfolding report
  report-IsTallied no_task n p es c = record {
    busy = omega (arith, c.busy);
    tally = omega (arith, c.tally);
    room = c.room;
    order = c.order;
  }
  report-IsTallied good n p es c = record {
    busy = omega (arith, c.busy);
    tally = omega (arith, c.tally);
    room = c.room;
    order = c.order;
  }
  report-IsTallied bad n p es c = record {
    busy = omega (arith, c.busy);
    tally = omega (arith, c.tally);
    room = c.room;
    order = c.order;
  }

  -- An effect that neither lets in nor takes a task.
  abbrev is_quiet : Effect T → Bool
  is_quiet (accepted task) = false
  is_quiet (taken task) = false
  is_quiet _ = true

  accepted_of_quiet :
      (es : List (Effect T)) (e : Effect T)
      → is_quiet e ≡ true
      → (accepted_of (es ++ e ∷ []) ≡ accepted_of es) × (taken_of (es ++ e ∷ []) ≡ taken_of es)
  accepted_of_quiet es silent h = (
    accepted_of-append es (silent ∷ []) ∙ append-nil (accepted_of es),
    taken_of-append es (silent ∷ []) ∙ append-nil (taken_of es),
  )
  accepted_of_quiet es not_started h = (
    accepted_of-append es (not_started ∷ []) ∙ append-nil (accepted_of es),
    taken_of-append es (not_started ∷ []) ∙ append-nil (taken_of es),
  )
  accepted_of_quiet es queue_full h = (
    accepted_of-append es (queue_full ∷ []) ∙ append-nil (accepted_of es),
    taken_of-append es (queue_full ∷ []) ∙ append-nil (taken_of es),
  )
  accepted_of_quiet es (accepted task) h = ground arith
  accepted_of_quiet es (taken task) h = ground arith

  -- A quiet step that leaves everything but `started` and the threads.
  pub quiet-IsTallied :
      (n k : ℕ) (b : Bool) (p : Pool T) (ws : List (Worker T)) (es : List (Effect T)) (e : Effect T)
      → is_quiet e ≡ true
      → k ≡ n
      → IsTallied n p es
      → IsTallied k (record p { started = b; threads = ws }) (es ++ e ∷ [])
  quiet-IsTallied n k b p ws es e h same c =
      let (a, t) = accepted_of_quiet es e h in
      record {
        busy = rw same c.busy;
        tally = rw (a, same) c.tally;
        room = c.room;
        order = rw (a, t) c.order;
      }

  pub take-IsTallied :
      (n k : ℕ) (p : Pool T) (ws : List (Worker T)) (es : List (Effect T)) (task : T)
      (tasks : List T)
      → p.tasks ≡ task ∷ tasks
      → k ≡ n + 1
      → IsTallied n p es
      → IsTallied k
          (record p { threads = ws; tasks = tasks; busy = (p.busy + 1) % 2 ^ 64 })
          (es ++ taken task ∷ [])
  take-IsTallied n k p ws es task tasks h same c =
      let a : accepted_of (es ++ taken task ∷ []) ≡ accepted_of es =
        accepted_of-append es (taken task ∷ []) ∙ append-nil (accepted_of es) in
      let size = ap length h in
      record {
        busy = omega (arith, c.busy);
        tally = rw a (omega (arith, c.tally, size));
        room = omega (arith, c.room, size);
        order =
            rw
              (
                a,
                taken_of-append es (taken task ∷ []),
                append_assoc (taken_of es) (task ∷ []) tasks,
                c.order,
                h,
              )
              refl;
      }

  pub append-IsConsistent :
      (task : T) (b : Bool) (p : Pool T) (es : List (Effect T))
      → length p.tasks < p.queue_length
      → IsConsistent p es
      → IsConsistent
          (record p { started = b; tasks = p.tasks ++ task ∷ [] })
          (es ++ accepted task ∷ [])
  append-IsConsistent task b p es room c =
      let a = accepted_of-append es (accepted task ∷ []) in
      let t : taken_of (es ++ accepted task ∷ []) ≡ taken_of es =
        taken_of-append es (accepted task ∷ []) ∙ append-nil (taken_of es) in
      record {
        busy = c.busy;
        tally = omega (
          arith,
          c.tally,
          ap length a,
          length-append (accepted_of es) (task ∷ []),
          length-append p.tasks (task ∷ []),
        );
        room = omega (arith, room, length-append p.tasks (task ∷ []));
        order = rw (a, t, c.order) (append_assoc (taken_of es) p.tasks (task ∷ []));
      }
