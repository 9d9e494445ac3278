-- ===== src/Concurrency/ThreadPool.antt =====
-- include/liteim/concurrency/ThreadPool.hpp and src/concurrency/ThreadPool.cpp. A task is known by a number.
-- Each function is a section of the code under `mutex_`, or a worker's run of a task; Steps puts them in any
-- order.
pub mod Steps
pub mod Workers
pub mod Invariant
pub mod Shutdown
use lite_im.Prelude.{
  ℕ, zero, suc, ◌+◌, Bool, true, false, not, ◌&&◌, ◌||◌, List, [], ◌∷◌, ◌++◌, Option, none, some,
  length, ltb, ◌==◌, if◌then◌else◌,
}
use lite_im.Status.{Status, error, success, invalid_argument, resource_exhausted, internal_error}

-- Where a worker is in `workerLoop`: at the wait, in a task, or out.
pub data Worker : Type 0 where
  waiting : Worker
  executing : ℕ → Worker
  returned : Worker

pub record ThreadPool : Type 0 where
  pub worker_count : ℕ
  pub max_pending_tasks : ℕ
  pub tasks : List ℕ
  pub workers : List Worker
  pub running : Bool

abbrev pub new_pool : ℕ → ℕ → ThreadPool
new_pool worker_count max_pending_tasks = record {
  worker_count = worker_count;
  max_pending_tasks = max_pending_tasks;
  tasks = [];
  workers = [];
  running = false;
}

abbrev pub is_empty : List Worker → Bool
is_empty [] = true
is_empty (w ∷ ws) = false

unfoldable pub spawn : ℕ → List Worker
spawn zero = []
spawn (suc n) = waiting ∷ spawn n

-- `start`; `spawn_fails` is whether a thread cannot be made, in which case those made before are joined.
unfoldable pub start : ThreadPool → Bool → ThreadPool × Status
start p spawn_fails =
    if p.worker_count == 0
    then (p, error invalid_argument "thread pool worker count must be greater than zero")
    else if p.running || not (is_empty p.workers)
    then (p, error invalid_argument "thread pool has already started")
    else if spawn_fails
    then (
      record p { running = false; workers = []; tasks = [] },
      error internal_error "failed to start thread pool workers",
    )
    else (record p { running = true; workers = spawn p.worker_count }, success)

-- `submit`; no task is the empty function.
unfoldable pub submit : ThreadPool → Option ℕ → ThreadPool × Status
submit p none = (p, error invalid_argument "thread pool task must not be empty")
submit p (some task) =
    if not p.running
    then (p, error invalid_argument "thread pool is not accepting new tasks")
    else if ltb 0 p.max_pending_tasks && not (ltb (length p.tasks) p.max_pending_tasks)
    then (p, error resource_exhausted "thread pool pending task queue is full")
    else (record p { tasks = p.tasks ++ (task ∷ []) }, success)

-- `stop` up to the joins. Where it returns at once, the flag is down already.
unfoldable pub stop : ThreadPool → ThreadPool
stop p = if not p.running && is_empty p.workers then p else record p { running = false }

-- The end of `stop`, when all workers are joined.
unfoldable pub clear_workers : ThreadPool → ThreadPool
clear_workers p = record p { workers = [] }

-- A round of `workerLoop`: what the wait lets through, or the end of a task.
unfoldable pub worker_loop : ThreadPool → Worker → ThreadPool × Worker
worker_loop p waiting = elim p.tasks [
  | [] ↦ (p, if p.running then waiting else returned)
  | task ∷ tasks ↦ (record p { tasks = tasks }, executing task)
]
worker_loop p (executing task) = (p, waiting)
worker_loop p returned = (p, returned)

unfoldable pub pending_task_count : ThreadPool → ℕ
pending_task_count p = length p.tasks
