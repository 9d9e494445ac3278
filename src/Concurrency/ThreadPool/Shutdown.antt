-- ===== src/Concurrency/ThreadPool/Shutdown.antt =====
-- What `stop` waits for comes about: the workers of a stopped pool finish its queue and leave.
use lite_im.Prelude.{
  ℕ, zero, suc, ◌+◌, ◌*◌, ◌≤◌, ◌<◌, ◌≡◌, ◌⊎◌, refl, ap, ◌∙◌, true, false, List, [], ◌∷◌, ◌++◌, some,
  length, All, arith, List-cases, inl, inr,
}
use lite_im.Status.{is_ok}
use lite_im.Concurrency.ThreadPool.{
  Worker, waiting, executing, returned, ThreadPool, worker_loop, clear_workers, submit,
}
use lite_im.Concurrency.ThreadPool.Workers.{is_returned, count}
use lite_im.Concurrency.ThreadPool.Invariant.{stopped_done}
use lite_im.Concurrency.ThreadPool.Steps.{
  World, after_worker, join_step, worker_step, Reachable, then_step,
}

-- What a worker has still to do besides the queue.
abbrev pub effort : List Worker → ℕ
effort [] = 0
effort (waiting ∷ vs) = 1 + effort vs
effort (executing task ∷ vs) = 2 + effort vs
effort (returned ∷ vs) = effort vs

-- A bound on the rounds until all workers of a stopped pool have left.
abbrev pub remaining : ThreadPool → ℕ
remaining p = 2 * length p.tasks + effort p.workers

effort-append : (us vs : List Worker) → effort (us ++ vs) ≡ effort us + effort vs
effort-append [] vs = omega arith
effort-append (waiting ∷ us) vs = let k = effort-append us vs in omega (arith, k)
effort-append (executing task ∷ us) vs = let k = effort-append us vs in omega (arith, k)
effort-append (returned ∷ us) vs = effort-append us vs

-- In a stopped pool, each round of a worker that has not left, whichever it is, brings the pool closer to
-- its end: it leaves, or takes a task, or finishes one; and the pool stays stopped.
pub after_worker-remaining :
    (w : World) (us : List Worker) (v : Worker) (vs : List Worker)
    → w.pool.workers ≡ us ++ (v ∷ vs)
    → w.pool.running ≡ false
    → is_returned v ≡ false
    → (remaining (after_worker w us v vs).pool < remaining w.pool)
      × ((after_worker w us v vs).pool.running ≡ false)
unfolding worker_loop
after_worker-remaining w us waiting vs e r n = elim (List-cases w.pool.tasks) [
  | inl q ↦
      let a = ap effort e ∙ effort-append us (waiting ∷ vs) in
      let b = effort-append us (returned ∷ vs) in
      let l = ap (λ ts. length ts) q in rw (worker_loop, q, r) (omega (arith, a, b, l), refl)
  | inr (task, tasks, q) ↦
      let a = ap effort e ∙ effort-append us (waiting ∷ vs) in
      let b = effort-append us (executing task ∷ vs) in
      let l = ap (λ ts. length ts) q in rw (worker_loop, q) (omega (arith, a, b, l), r)
]
after_worker-remaining w us (executing task) vs e r n =
    let a = ap effort e ∙ effort-append us (executing task ∷ vs) in
    let b = effort-append us (waiting ∷ vs) in (omega (arith, a, b), r)
after_worker-remaining w us returned vs e r n = absurd (ground (arith, n))

-- A worker that has not left, among the others.
pub record Unfinished (ws : List Worker) : Type 0 where
  pub before : List Worker
  pub worker : Worker
  pub after : List Worker
  pub place : ws ≡ before ++ (worker ∷ after)
  pub stays : is_returned worker ≡ false

unjoined_cases : (ws : List Worker) → All (λ v. v ≡ returned) ws ⊎ Unfinished ws
unjoined_cases [] = inl tt
unjoined_cases (waiting ∷ ws) =
    inr (record { before = []; worker = waiting; after = ws; place = refl; stays = refl })
unjoined_cases (executing task ∷ ws) =
    inr (record { before = []; worker = executing task; after = ws; place = refl; stays = refl })
unjoined_cases (returned ∷ ws) = elim (unjoined_cases ws) [
  | inl a ↦ inl (refl, a)
  | inr u ↦ inr (record {
    before = returned ∷ u.before;
    worker = u.worker;
    after = u.after;
    place = ap (λ vs. returned ∷ vs) u.place;
    stays = u.stays;
  })
]

-- What a world comes to when its workers are let go on, and are joined.
pub record Drained (n m : ℕ) (w : World) : Type 0 where
  pub end : World
  pub end_Reachable : Reachable n m end
  pub joined : end.pool.workers ≡ []
  pub same_accepted : end.accepted ≡ w.accepted

drain :
    {n m : ℕ} (fuel : ℕ) (w : World)
    → Reachable n m w
    → w.pool.running ≡ false
    → remaining w.pool < fuel
    → Drained n m w
unfolding clear_workers
drain zero w r stopped l = absurd (omega (arith, l))
drain (suc fuel) w r stopped l = elim (unjoined_cases w.pool.workers) [
  | inl a ↦ record {
    end = record w { pool = clear_workers w.pool };
    end_Reachable = then_step r (join_step a);
    joined = refl;
    same_accepted = refl;
  }
  | inr u ↦
      let less = after_worker-remaining w u.before u.worker u.after u.place stopped u.stays in
      let d =
        drain fuel (after_worker w u.before u.worker u.after)
          (then_step r (worker_step u.before u.worker u.after u.place)) less.1
          (let k = less.0 in omega (arith, k, l)) in
      record {
        end = d.end;
        end_Reachable = d.end_Reachable;
        joined = d.joined;
        same_accepted = d.same_accepted;
      }
]

-- From wherever a pool was stopped, its workers can go on until all have left and are joined, and then
-- every task that the pool had accepted has been finished, as often as it was accepted.
pub stopped_drains :
    {n m : ℕ} {w : World}
    → Reachable n m w
    → w.pool.running ≡ false
    → (end : World) × Reachable n m end
      × (end.pool.workers ≡ [])
      × ((t : ℕ) → count t end.finished ≡ count t w.accepted)
stopped_drains {w = w} r stopped =
    let d = drain (suc (remaining w.pool)) w r stopped (omega arith) in
    (
      d.end,
      d.end_Reachable,
      d.joined,
      λ t. stopped_done d.end_Reachable d.joined t ∙ ap (count t) d.same_accepted,
    )

-- `submit` takes a task exactly when the pool is running and its queue has no limit or is below it; the
-- task is then the last in the queue, and else the pool is as it was.
pub submit_cases :
    (p : ThreadPool) (task : ℕ)
    → ((is_ok (submit p (some task)).1 ≡ true)
        × (p.running ≡ true)
        × ((p.max_pending_tasks ≡ 0) ⊎ (length p.tasks < p.max_pending_tasks))
        × ((submit p (some task)).0 ≡ record p { tasks = p.tasks ++ (task ∷ []) }))
      ⊎ ((is_ok (submit p (some task)).1 ≡ false)
          × ((p.running ≡ false)
              ⊎ ((0 < p.max_pending_tasks) × (p.max_pending_tasks ≤ length p.tasks)))
          × ((submit p (some task)).0 ≡ p))
unfolding submit
submit_cases p task = ground arith
