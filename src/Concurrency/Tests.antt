-- ===== src/Concurrency/Tests.antt =====
-- A run of a pool with one worker and room for one task, and the theorems at it.
use lite_im.Prelude.{ℕ, ◌<◌, ◌≡◌, refl, false, [], ◌∷◌, some}
use lite_im.Concurrency.ThreadPool.{
  waiting, executing, start, spawn, submit, stop, clear_workers, worker_loop,
}
use lite_im.Concurrency.ThreadPool.Workers.{count}
use lite_im.Concurrency.ThreadPool.Steps.{
  World, new_world, after_submit, after_worker, Reachable, begin, then_step, start_step,
  submit_step, stop_step, join_step, worker_step,
}
use lite_im.Concurrency.ThreadPool.Invariant.{IsSound, Reachable-IsSound, stopped_done}
use lite_im.Concurrency.ThreadPool.Shutdown.{remaining, after_worker-remaining, stopped_drains}

abbrev started : World
started = record (new_world 1 1) { pool = (start (new_world 1 1).pool false).0 }

-- The second task does not fit.
abbrev loaded : World
loaded = after_submit (after_submit started (some 5)) (some 6)

abbrev stopped : World
stopped = let w = after_worker loaded [] waiting [] in record w { pool = stop w.pool }

abbrev finished : World
finished = after_worker (after_worker stopped [] (executing 5) []) [] waiting []

abbrev joined : World
joined = record finished { pool = clear_workers finished.pool }

stopped-Reachable : Reachable 1 1 stopped
unfolding start spawn submit
stopped-Reachable =
    let a = then_step begin (start_step false) in
    let b = then_step (then_step a (submit_step (some 5))) (submit_step (some 6)) in
    then_step (then_step b (worker_step [] waiting [] refl)) stop_step

joined-Reachable : Reachable 1 1 joined
unfolding start spawn submit stop worker_loop
joined-Reachable =
    let a = then_step stopped-Reachable (worker_step [] (executing 5) [] refl) in
    let b = then_step a (worker_step [] waiting [] refl) in then_step b (join_step (refl, tt))

one_accepted : joined.accepted ≡ 5 ∷ []
unfolding start spawn submit
one_accepted = refl

Reachable-IsSound_example : IsSound joined
Reachable-IsSound_example = Reachable-IsSound joined-Reachable

stopped_done_example : count 5 joined.finished ≡ count 5 joined.accepted
unfolding clear_workers
stopped_done_example = stopped_done joined-Reachable refl 5

stopped_drains_example :
    (end : World) × Reachable 1 1 end
    × (end.pool.workers ≡ [])
    × ((t : ℕ) → count t end.finished ≡ count t stopped.accepted)
unfolding stop start spawn submit worker_loop
stopped_drains_example = stopped_drains stopped-Reachable refl

after_worker-remaining_example :
    (remaining (after_worker stopped [] (executing 5) []).pool < remaining stopped.pool)
    × ((after_worker stopped [] (executing 5) []).pool.running ≡ false)
unfolding stop start spawn submit worker_loop
after_worker-remaining_example = after_worker-remaining stopped [] (executing 5) [] refl refl refl
