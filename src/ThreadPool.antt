-- ===== src/ThreadPool.antt =====
-- include/details/thread_pool.h: `ThreadPool`, as steps of its owner and of its threads.
--
-- A step is what one thread does while it holds the mutex, or the end of a task. A thread that waits
-- on the condition may go on at any time, since the condition may wake it for no reason; that the
-- pool notifies it is not modelled. Copying a task and creating a thread throw nothing.
pub mod Counts
pub mod Tallied
pub mod Invariant
use fastcgi_container.Base.{
  ℕ, zero, suc, ◌+◌, ◌-◌, ◌*◌, ◌/◌, ◌%◌, ◌^◌, ◌≤◌, ◌<◌, ◌≡◌, refl, sym, ap, ◌∙◌, ◌≢◌, ◌↔◌, ◌⊎◌, inl,
  inr, Bool, true, false, not, ◌&&◌, ◌||◌, Option, none, some, List, [], ◌∷◌, ◌++◌, append-nil,
  append_assoc, arith, ltb, leb, ◌==◌, if◌then◌else◌, ==_iff, ==_refl, Bool-cases, Option-cases,
  table, table-entry, length, take, drop, length-append, length-take, length-drop, take-append-drop,
  take-append, drop-append, replicate, length-replicate, take_front, drop_front, take_all, all, All,
  Bytes, IsBytes, codes, equal, equal_iff, lex_less, char_key, le_bytes, le_value, sub64,
  le_value-le_bytes, sub64_le, is_space, is_alnum, is_upper, is_lower, is_digit, between, to_upper,
  to_lower,
}

-- The local variable `state` of `workMethod`.
pub data Report : Type 0 where
  no_task good bad : Report

pub data Worker {ℓ} (T : Type ℓ) : Type ℓ where
  -- In front of the mutex, with a task to report or not.
  ready : Report → Worker T
  waiting : Worker T
  handling : T → Worker T
  ended : Worker T

pub record Pool {ℓ} (T : Type ℓ) : Type ℓ where
  pub started : Bool
  pub threads_number : ℕ
  pub queue_length : ℕ
  pub busy : ℕ
  pub good : ℕ
  pub bad : ℕ
  pub tasks : List T
  pub threads : List (Worker T)

-- What a step does that others see.
pub data Effect {ℓ} (T : Type ℓ) : Type ℓ where
  silent : Effect T
  accepted : T → Effect T
  -- The exceptions of `addTask`.
  not_started queue_full : Effect T
  taken : T → Effect T

pub data Event {ℓ} (T : Type ℓ) : Type ℓ where
  start stop : Event T
  add_task : T → Event T
  -- The thread of this number takes the mutex.
  enter : ℕ → Event T
  -- `handleTask` of this thread returns, or throws where the flag is `false`.
  handled : ℕ → Bool → Event T

module _ {ℓ} {T : Type ℓ} where
  unfoldable pub create : ℕ → ℕ → Pool T
  create threads_number queue_length = record {
    started = false;
    threads_number = threads_number;
    queue_length = queue_length;
    busy = 0;
    good = 0;
    bad = 0;
    tasks = [];
    threads = [];
  }

  abbrev pub thread_at : ℕ → List (Worker T) → Worker T
  thread_at i [] = ended
  thread_at zero (w ∷ ws) = w
  thread_at (suc i) (w ∷ ws) = thread_at i ws

  abbrev pub set_thread : ℕ → Worker T → List (Worker T) → List (Worker T)
  set_thread i v [] = []
  set_thread zero v (w ∷ ws) = v ∷ ws
  set_thread (suc i) v (w ∷ ws) = w ∷ set_thread i v ws

  abbrev pub move : ℕ → Worker T → Pool T → Pool T
  move i w p = record p { threads = set_thread i w p.threads }

  unfoldable pub start_pool : Pool T → Pool T
  start_pool p = if p.started then p else record p {
    threads = p.threads ++ replicate p.threads_number (ready no_task);
    started = true;
  }

  unfoldable pub stop_pool : Pool T → Pool T
  stop_pool p = record p { started = false }

  unfoldable pub add : T → Pool T → Pool T × Effect T
  add task p =
      if not p.started
      then (p, not_started)
      else if leb p.queue_length (length p.tasks)
      then (p, queue_full)
      else (record p { tasks = p.tasks ++ task ∷ [] }, accepted task)

  -- The `switch` on `state`; the counters are 64 bits wide.
  unfoldable pub report : Report → Pool T → Pool T
  report no_task p = p
  report good p = record p { good = (p.good + 1) % 2 ^ 64; busy = (p.busy + (2 ^ 64 - 1)) % 2 ^ 64 }
  report bad p = record p { bad = (p.bad + 1) % 2 ^ 64; busy = (p.busy + (2 ^ 64 - 1)) % 2 ^ 64 }

  -- What a thread does with the queue once the pool is started.
  unfoldable pub take_task : ℕ → List T → Pool T → Pool T × Effect T
  take_task i [] p = (move i waiting p, silent)
  take_task i (task ∷ tasks) p = (
    move i (handling task) (record p { tasks = tasks; busy = (p.busy + 1) % 2 ^ 64 }),
    taken task,
  )

  -- A round of the inner loop.
  unfoldable pub seek : ℕ → Pool T → Pool T × Effect T
  unfolding take_task
  seek i p = if not p.started then (move i ended p, silent) else take_task i p.tasks p

  unfoldable pub visit : ℕ → Worker T → Pool T → Pool T × Effect T
  unfolding seek report
  visit i (ready r) p = seek i (report r p)
  visit i waiting p = seek i p
  visit i (handling task) p = (p, silent)
  visit i ended p = (p, silent)

  unfoldable pub finish : ℕ → Worker T → Bool → Pool T → Pool T
  finish i (handling task) true p = move i (ready good) p
  finish i (handling task) false p = move i (ready bad) p
  finish i _ returned p = p

  unfoldable pub step : Event T → Pool T → Pool T × Effect T
  unfolding start_pool stop_pool add visit finish
  step start p = (start_pool p, silent)
  step stop p = (stop_pool p, silent)
  step (add_task task) p = add task p
  step (enter i) p = visit i (thread_at i p.threads) p
  step (handled i returned) p = (finish i (thread_at i p.threads) returned p, silent)

  -- The steps one after the other, with their effects.
  unfoldable pub run : List (Event T) → Pool T → Pool T × List (Effect T)
  unfolding step
  run [] p = (p, [])
  run (e ∷ es) p =
      let (q, effect) = step e p in let (r, effects) = run es q in (r, effect ∷ effects)
