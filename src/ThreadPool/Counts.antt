-- ===== src/ThreadPool/Counts.antt =====
-- What the effects of a run add up to, and how many threads are busy.
use fastcgi_container.Base.{
  ℕ, zero, suc, ◌+◌, ◌≡◌, refl, ap, Bool, true, false, List, [], ◌∷◌, ◌++◌, arith, replicate,
}
use fastcgi_container.ThreadPool.{
  no_task, good, bad, Worker, ready, handling, ended, Effect, silent, accepted, not_started,
  queue_full, taken, thread_at, set_thread,
}

module _ {ℓ} {T : Type ℓ} where
  -- The tasks that `addTask` let in, and those that threads took.
  abbrev pub accepted_of : List (Effect T) → List T
  accepted_of [] = []
  accepted_of (accepted task ∷ es) = task ∷ accepted_of es
  accepted_of (_ ∷ es) = accepted_of es

  abbrev pub taken_of : List (Effect T) → List T
  taken_of [] = []
  taken_of (taken task ∷ es) = task ∷ taken_of es
  taken_of (_ ∷ es) = taken_of es

  -- A thread that handles a task, or that has one to report.
  abbrev pub is_busy : Worker T → ℕ
  is_busy (handling task) = 1
  is_busy (ready good) = 1
  is_busy (ready bad) = 1
  is_busy _ = 0

  abbrev pub busy_threads : List (Worker T) → ℕ
  busy_threads [] = 0
  busy_threads (w ∷ ws) = is_busy w + busy_threads ws

  pub accepted_of-append :
      (xs ys : List (Effect T)) → accepted_of (xs ++ ys) ≡ accepted_of xs ++ accepted_of ys
  accepted_of-append [] ys = refl
  accepted_of-append (accepted task ∷ xs) ys = ap (◌∷◌ task) (accepted_of-append xs ys)
  accepted_of-append (silent ∷ xs) ys = accepted_of-append xs ys
  accepted_of-append (not_started ∷ xs) ys = accepted_of-append xs ys
  accepted_of-append (queue_full ∷ xs) ys = accepted_of-append xs ys
  accepted_of-append (taken task ∷ xs) ys = accepted_of-append xs ys

  pub taken_of-append : (xs ys : List (Effect T)) → taken_of (xs ++ ys) ≡ taken_of xs ++ taken_of ys
  taken_of-append [] ys = refl
  taken_of-append (taken task ∷ xs) ys = ap (◌∷◌ task) (taken_of-append xs ys)
  taken_of-append (silent ∷ xs) ys = taken_of-append xs ys
  taken_of-append (not_started ∷ xs) ys = taken_of-append xs ys
  taken_of-append (queue_full ∷ xs) ys = taken_of-append xs ys
  taken_of-append (accepted task ∷ xs) ys = taken_of-append xs ys

  pub busy_threads_new :
      (n : ℕ) (ws : List (Worker T))
      → busy_threads (ws ++ replicate n (ready no_task)) ≡ busy_threads ws
  busy_threads_new zero [] = refl
  busy_threads_new (suc n) [] = omega (arith, busy_threads_new n [])
  busy_threads_new n (w ∷ ws) = omega (arith, busy_threads_new n ws)

  abbrev pub is_live : Worker T → Bool
  is_live ended = false
  is_live _ = true

  pub busy_threads-set_thread :
      (i : ℕ) (w v : Worker T) (ws : List (Worker T))
      → thread_at i ws ≡ v
      → is_live v ≡ true
      → busy_threads (set_thread i w ws) + is_busy v ≡ busy_threads ws + is_busy w
  busy_threads-set_thread i w v [] h live = ground (arith, ap is_live h)
  busy_threads-set_thread zero w v (u ∷ ws) h live = omega (arith, ap is_busy h)
  busy_threads-set_thread (suc i) w v (u ∷ ws) h live =
      omega (arith, busy_threads-set_thread i w v ws h live)
