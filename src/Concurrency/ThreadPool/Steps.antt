-- ===== src/Concurrency/ThreadPool/Steps.antt =====
-- The steps of a pool, with what has been accepted, taken and finished so far.
use lite_im.Prelude.{ℕ, ◌≡◌, Bool, true, false, List, [], ◌∷◌, ◌++◌, Option, none, some, All}
use lite_im.Status.{is_ok}
use lite_im.Concurrency.ThreadPool.{
  Worker, waiting, executing, returned, ThreadPool, new_pool, start, submit, stop, clear_workers,
  worker_loop,
}

pub record World : Type 0 where
  pub pool : ThreadPool
  pub accepted : List ℕ
  pub taken : List ℕ
  pub finished : List ℕ

abbrev pub new_world : ℕ → ℕ → World
new_world worker_count max_pending_tasks = record {
  pool = new_pool worker_count max_pending_tasks;
  accepted = [];
  taken = [];
  finished = [];
}

-- The task, where `submit` takes it.
abbrev pub accepted_by : Option ℕ → Bool → List ℕ
accepted_by (some task) true = task ∷ []
accepted_by (some task) false = []
accepted_by none ok = []

-- The task of a worker.
abbrev pub task_of : Worker → List ℕ
task_of waiting = []
task_of (executing task) = task ∷ []
task_of returned = []

abbrev pub after_submit : World → Option ℕ → World
after_submit w task =
    let done = submit w.pool task in
    record w { pool = done.0; accepted = w.accepted ++ accepted_by task (is_ok done.1) }

-- A worker goes round, the others `before` and `after` it stay where they are.
abbrev pub after_worker : World → List Worker → Worker → List Worker → World
after_worker w before v after =
    let done = worker_loop w.pool v in
    record {
      pool = record done.0 { workers = before ++ (done.1 ∷ after) };
      accepted = w.accepted;
      taken = w.taken ++ task_of done.1;
      finished = w.finished ++ task_of v;
    }

-- What may happen next: calls from any thread, and rounds of the workers.
pub data Step (w : World) : World → Type 0 where
  start_step : (spawn_fails : Bool) → Step w (record w { pool = (start w.pool spawn_fails).0 })
  submit_step : (task : Option ℕ) → Step w (after_submit w task)
  stop_step : Step w (record w { pool = stop w.pool })
  join_step :
      All (λ v. v ≡ returned) w.pool.workers → Step w (record w { pool = clear_workers w.pool })
  worker_step :
      (before : List Worker) (v : Worker) (after : List Worker)
      → w.pool.workers ≡ before ++ (v ∷ after)
      → Step w (after_worker w before v after)

-- What a new pool may have come to.
pub data Reachable (worker_count max_pending_tasks : ℕ) : World → Type 0 where
  begin : Reachable worker_count max_pending_tasks (new_world worker_count max_pending_tasks)
  then_step :
      {v w : World}
      → Reachable worker_count max_pending_tasks v
      → Step v w
      → Reachable worker_count max_pending_tasks w
