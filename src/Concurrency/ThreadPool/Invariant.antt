-- ===== src/Concurrency/ThreadPool/Invariant.antt =====
-- What holds of a pool in whatever order its threads go on: tasks are taken in the order in which they
-- were accepted, each is run once, and no worker leaves while there are tasks.
use lite_im.Prelude.{
  ℕ, zero, suc, ◌+◌, ◌≤◌, ◌≡◌, refl, ap, sym, subst, ◌∙◌, Bool, true, false, not, ◌&&◌, ◌||◌, List,
  [], ◌∷◌, ◌++◌, append-nil, append_assoc, Option, none, some, length, ltb, ◌==◌, length-append,
  All, arith, Bool-cases, List-cases, if_elim, inl, inr,
}
use lite_im.Status.{Status, is_ok}
use lite_im.Concurrency.ThreadPool.{
  Worker, waiting, executing, returned, ThreadPool, start, spawn, submit, stop, clear_workers,
  worker_loop, is_empty,
}
use lite_im.Concurrency.ThreadPool.Workers.{
  count, in_progress, is_returned, has_returned, count-append, has_returned-append, is_empty-append,
  spawn-in_progress, spawn-has_returned, joined-in_progress, joined-has_returned,
  in_progress-middle,
}
use lite_im.Concurrency.ThreadPool.Steps.{
  World, new_world, accepted_by, task_of, after_submit, after_worker, Step, start_step, submit_step,
  stop_step, join_step, worker_step, Reachable, begin, then_step,
}

pub record IsSound (w : World) : Type 0 where
  pub in_order : w.accepted ≡ w.taken ++ w.pool.tasks
  pub once : (t : ℕ) → count t w.taken ≡ count t w.finished + count t (in_progress w.pool.workers)
  pub bounded :
      ltb 0 w.pool.max_pending_tasks ≡ true → length w.pool.tasks ≤ w.pool.max_pending_tasks
  pub idle : is_empty w.pool.workers ≡ true → w.pool.tasks ≡ []
  pub alive : w.pool.running ≡ true → is_empty w.pool.workers ≡ false
  pub over : has_returned w.pool.workers ≡ true → (w.pool.running ≡ false) × (w.pool.tasks ≡ [])

new_world-IsSound : (n m : ℕ) → IsSound (new_world n m)
new_world-IsSound n m = record {
  in_order = refl;
  once = λ t. refl;
  bounded = λ h. omega arith;
  idle = λ h. refl;
  alive = λ h. ground (arith, h);
  over = λ h. ground (arith, h);
}

spawn-is_empty : (n : ℕ) → (n == 0) ≡ false → is_empty (spawn n) ≡ false
unfolding spawn
spawn-is_empty zero h = ground (arith, h)
spawn-is_empty (suc n) h = refl

empty-in_progress : (vs : List Worker) → is_empty vs ≡ true → in_progress vs ≡ []
empty-in_progress [] e = refl
empty-in_progress (v ∷ vs) e = ground (arith, e)

start-IsSound :
    (w : World) (fails : Bool) → IsSound w → IsSound (record w { pool = (start w.pool fails).0 })
unfolding start
start-IsSound w fails s =
    let P : ThreadPool × Status → Type 0 = λ r. IsSound (record w { pool = r.0 }) in
    if_elim P (w.pool.worker_count == 0) (λ _. s)
      (λ n.
        if_elim P (w.pool.running || not (is_empty w.pool.workers)) (λ _. s)
          (λ free.
            let e : is_empty w.pool.workers ≡ true = ground (arith, free) in
            let none_in : in_progress w.pool.workers ≡ [] = empty-in_progress w.pool.workers e in
            if_elim P fails
              (λ _. record {
                in_order = s.in_order ∙ ap (λ ts. w.taken ++ ts) (s.idle e);
                once = λ t. s.once t ∙ ap (λ vs. count t w.finished + count t vs) none_in;
                bounded = λ _. omega arith;
                idle = λ _. refl;
                alive = λ r. absurd (ground (arith, r));
                over = λ h. absurd (ground (arith, h));
              })
              (λ _. record {
                in_order = s.in_order;
                once = λ t.
                    s.once t
                    ∙ ap (λ vs. count t w.finished + count t vs)
                        (none_in ∙ sym (spawn-in_progress w.pool.worker_count));
                bounded = s.bounded;
                idle = λ h. s.idle e;
                alive = λ r. spawn-is_empty w.pool.worker_count n;
                over = λ h.
                    absurd (let k = spawn-has_returned w.pool.worker_count in ground (arith, h, k));
              })))

unchanged-IsSound : (w : World) → IsSound w → IsSound (record w { accepted = w.accepted ++ [] })
unchanged-IsSound w s = rw (append-nil w.accepted) s

submit-IsSound : (w : World) (task : Option ℕ) → IsSound w → IsSound (after_submit w task)
unfolding submit
submit-IsSound w none s = unchanged-IsSound w s
submit-IsSound w (some task) s =
    let P : ThreadPool × Status → Type 0 = λ r.
      IsSound
        (record w { pool = r.0; accepted = w.accepted ++ accepted_by (some task) (is_ok r.1) }) in
    if_elim P (not w.pool.running) (λ _. unchanged-IsSound w s)
      (λ r.
        if_elim P
          (ltb 0 w.pool.max_pending_tasks
            && not (ltb (length w.pool.tasks) w.pool.max_pending_tasks))
          (λ _. unchanged-IsSound w s)
          (λ room. record {
            in_order =
                ap (λ ts. ts ++ (task ∷ [])) s.in_order
                ∙ append_assoc w.taken w.pool.tasks (task ∷ []);
            once = s.once;
            bounded =
                λ m. let l = length-append w.pool.tasks (task ∷ []) in ground (arith, room, m, l);
            idle = λ h. let a = s.alive in absurd (ground (arith, h, a, r));
            alive = s.alive;
            over = λ h. let o = s.over h in absurd (ground (arith, o.0, r));
          }))

stop-IsSound : (w : World) → IsSound w → IsSound (record w { pool = stop w.pool })
unfolding stop
stop-IsSound w s = record {
  in_order = let a = s.in_order in ground (arith, a);
  once = λ t. let a = s.once t in ground (arith, a);
  bounded = let a = s.bounded in ground (arith, a);
  idle = let a = s.idle in ground (arith, a);
  alive = let a = s.alive in ground (arith, a);
  over = let a = s.over in ground (arith, a);
}

-- Where all have left, or none are there, no task is pending and none is taken any more.
joined_over :
    (w : World)
    → IsSound w
    → All (λ v. v ≡ returned) w.pool.workers
    → (w.pool.running ≡ false) × (w.pool.tasks ≡ [])
joined_over w s a = elim (Bool-cases (is_empty w.pool.workers)) [
  | inl e ↦ let r = s.alive in (ground (arith, r, e), s.idle e)
  | inr e ↦ s.over (joined-has_returned w.pool.workers a e)
]

join-IsSound :
    (w : World)
    → IsSound w
    → All (λ v. v ≡ returned) w.pool.workers
    → IsSound (record w { pool = clear_workers w.pool })
unfolding clear_workers
join-IsSound w s a = record {
  in_order = s.in_order;
  once = λ t.
      s.once t ∙ ap (λ vs. count t w.finished + count t vs) (joined-in_progress w.pool.workers a);
  bounded = s.bounded;
  idle = λ _. (joined_over w s a).1;
  alive = λ r. absurd (ground (arith, r, (joined_over w s a).0));
  over = λ h. absurd (ground (arith, h));
}

-- A worker takes the first task.
taken-IsSound :
    (w : World) (us vs : List Worker) (task : ℕ) (tasks : List ℕ)
    → w.pool.workers ≡ us ++ (waiting ∷ vs)
    → w.pool.tasks ≡ task ∷ tasks
    → IsSound w
    → IsSound (record {
      pool = record w.pool { tasks = tasks; workers = us ++ (executing task ∷ vs) };
      accepted = w.accepted;
      taken = w.taken ++ (task ∷ []);
      finished = w.finished ++ [];
    })
taken-IsSound w us vs task tasks e q s = record {
  in_order = s.in_order ∙ ap (λ ts. w.taken ++ ts) q ∙ sym (append_assoc w.taken (task ∷ []) tasks);
  once = λ t.
      let o =
        subst (λ ws. count t w.taken ≡ count t w.finished + count t (in_progress ws)) e
          (s.once t) in
      let a = in_progress-middle t us waiting vs in
      let b = in_progress-middle t us (executing task) vs in
      rw (append-nil w.finished, count-append t w.taken (task ∷ [])) (omega (arith, o, a, b));
  bounded = λ m.
      let b = subst (λ ts. length ts ≤ w.pool.max_pending_tasks) q (s.bounded m) in
      omega (arith, b);
  idle = λ h. absurd (let k = is_empty-append us (executing task) vs in ground (arith, h, k));
  alive = λ _. is_empty-append us (executing task) vs;
  over = λ h.
      let a = has_returned-append us (waiting ∷ vs) in
      let b = has_returned-append us (executing task ∷ vs) in
      let o = s.over (rw (e, a) (sym b ∙ h)) in absurd (ground (arith, o.1, q));
}

-- A worker goes back to the wait, stays there, or leaves.
back-IsSound :
    (w : World) (us : List Worker) (v v' : Worker) (vs : List Worker)
    → w.pool.workers ≡ us ++ (v ∷ vs)
    → task_of v' ≡ []
    → (is_returned v' ≡ true
        → is_returned v ≡ false
        → (w.pool.running ≡ false) × (w.pool.tasks ≡ []))
    → IsSound w
    → IsSound (record {
      pool = record w.pool { workers = us ++ (v' ∷ vs) };
      accepted = w.accepted;
      taken = w.taken ++ [];
      finished = w.finished ++ task_of v;
    })
back-IsSound w us v v' vs e free leaves s = record {
  in_order = rw (append-nil w.taken) s.in_order;
  once = λ t.
      let o =
        subst (λ ws. count t w.taken ≡ count t w.finished + count t (in_progress ws)) e
          (s.once t) in
      let a = in_progress-middle t us v vs in
      let b =
        in_progress-middle t us v' vs
        ∙ ap (λ ts. count t (in_progress us) + (count t ts + count t (in_progress vs))) free in
      rw (append-nil w.taken, count-append t w.finished (task_of v)) (omega (arith, o, a, b));
  bounded = s.bounded;
  idle = λ h. absurd (let k = is_empty-append us v' vs in ground (arith, h, k));
  alive = λ _. is_empty-append us v' vs;
  over = λ h.
      let a = ap has_returned e ∙ has_returned-append us (v ∷ vs) in
      let b = sym (has_returned-append us (v' ∷ vs)) ∙ h in
      let o = s.over in ground (arith, a, b, o, leaves);
}

worker-IsSound :
    (w : World) (us : List Worker) (v : Worker) (vs : List Worker)
    → w.pool.workers ≡ us ++ (v ∷ vs)
    → IsSound w
    → IsSound (after_worker w us v vs)
unfolding worker_loop
worker-IsSound w us waiting vs e s = elim (List-cases w.pool.tasks) [
  | inl q ↦
      let P : Worker → Type 0 = λ v'. IsSound (record {
        pool = record w.pool { workers = us ++ (v' ∷ vs) };
        accepted = w.accepted;
        taken = w.taken ++ task_of v';
        finished = w.finished ++ [];
      }) in
      rw (worker_loop, q)
        (if_elim P w.pool.running
          (λ _. back-IsSound w us waiting waiting vs e refl (λ h. absurd (ground (arith, h))) s)
          (λ r. back-IsSound w us waiting returned vs e refl (λ _ _. (r, q)) s))
  | inr (task, tasks, q) ↦ rw (worker_loop, q) (taken-IsSound w us vs task tasks e q s)
]
worker-IsSound w us (executing task) vs e s =
    back-IsSound w us (executing task) waiting vs e refl (λ h. absurd (ground (arith, h))) s
worker-IsSound w us returned vs e s =
    back-IsSound w us returned returned vs e refl (λ _ h. absurd (ground (arith, h))) s

Step-IsSound : (v w : World) → Step v w → IsSound v → IsSound w
Step-IsSound v w (start_step fails) s = start-IsSound v fails s
Step-IsSound v w (submit_step task) s = submit-IsSound v task s
Step-IsSound v w stop_step s = stop-IsSound v s
Step-IsSound v w (join_step a) s = join-IsSound v s a
Step-IsSound v w (worker_step us u vs e) s = worker-IsSound v us u vs e s

-- Whatever calls are made and however the workers go on: the accepted tasks are those taken so far, in
-- the order in which they were accepted, and then the pending ones; a task was taken as often as it was
-- finished or is being run; the queue is within its limit, if it has one; no task is pending where there
-- are no workers, a running pool has workers, and none of them leaves before the pool is stopped and its
-- queue is empty.
pub Reachable-IsSound : {n m : ℕ} {w : World} → Reachable n m w → IsSound w
Reachable-IsSound {n} {m} begin = new_world-IsSound n m
Reachable-IsSound (then_step {v} {w} r s) = Step-IsSound v w s (Reachable-IsSound r)

-- When a pool has no workers, so that `stop` has returned, all tasks that it ever accepted have been
-- finished, each as often as it was accepted.
pub stopped_done :
    {n m : ℕ} {w : World}
    → Reachable n m w
    → w.pool.workers ≡ []
    → (t : ℕ) → count t w.finished ≡ count t w.accepted
stopped_done {w = w} r e t =
    let s = Reachable-IsSound r in
    let idle = s.idle (rw (e) refl) in
    let o = s.once t ∙ ap (λ vs. count t w.finished + count t (in_progress vs)) e in
    rw (s.in_order, idle, append-nil w.taken) (omega (arith, o))
