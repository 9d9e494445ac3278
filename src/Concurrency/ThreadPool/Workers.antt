-- ===== src/Concurrency/ThreadPool/Workers.antt =====
-- The tasks that workers are in, and the workers that have left.
use lite_im.Prelude.{
  ℕ, zero, suc, ◌+◌, ◌≡◌, refl, ◌∙◌, Bool, true, false, ◌||◌, List, [], ◌∷◌, ◌++◌, ◌==◌,
  if◌then◌else◌, All, arith,
}
use lite_im.Concurrency.ThreadPool.{Worker, waiting, executing, returned, spawn, is_empty}
use lite_im.Concurrency.ThreadPool.Steps.{task_of}

-- How often a task occurs.
abbrev pub count : ℕ → List ℕ → ℕ
count t [] = 0
count t (x ∷ xs) = if x == t then suc (count t xs) else count t xs

abbrev pub in_progress : List Worker → List ℕ
in_progress [] = []
in_progress (v ∷ vs) = task_of v ++ in_progress vs

abbrev pub is_returned : Worker → Bool
is_returned waiting = false
is_returned (executing task) = false
is_returned returned = true

abbrev pub has_returned : List Worker → Bool
has_returned [] = false
has_returned (v ∷ vs) = is_returned v || has_returned vs

pub count-append : (t : ℕ) (xs ys : List ℕ) → count t (xs ++ ys) ≡ count t xs + count t ys
count-append t [] ys = omega arith
count-append t (x ∷ xs) ys = ground (arith, count-append t xs ys)

pub in_progress-append :
    (t : ℕ) (us vs : List Worker)
    → count t (in_progress (us ++ vs)) ≡ count t (in_progress us) + count t (in_progress vs)
in_progress-append t [] vs = omega arith
in_progress-append t (u ∷ us) vs =
    count-append t (task_of u) (in_progress (us ++ vs))
    ∙ (let k = in_progress-append t us vs in
        let n = count-append t (task_of u) (in_progress us) in omega (arith, k, n))

pub has_returned-append :
    (us vs : List Worker) → has_returned (us ++ vs) ≡ (has_returned us || has_returned vs)
has_returned-append [] vs = refl
has_returned-append (u ∷ us) vs = ground (arith, has_returned-append us vs)

pub is_empty-append :
    (us : List Worker) (v : Worker) (vs : List Worker) → is_empty (us ++ (v ∷ vs)) ≡ false
is_empty-append [] v vs = refl
is_empty-append (u ∷ us) v vs = refl

pub spawn-in_progress : (n : ℕ) → in_progress (spawn n) ≡ []
unfolding spawn
spawn-in_progress zero = refl
spawn-in_progress (suc n) = spawn-in_progress n

pub spawn-has_returned : (n : ℕ) → has_returned (spawn n) ≡ false
unfolding spawn
spawn-has_returned zero = refl
spawn-has_returned (suc n) = spawn-has_returned n

pub joined-in_progress : (vs : List Worker) → All (λ v. v ≡ returned) vs → in_progress vs ≡ []
joined-in_progress [] a = refl
joined-in_progress (v ∷ vs) a = rw (a.0) (joined-in_progress vs a.1)

pub joined-has_returned :
    (vs : List Worker) → All (λ v. v ≡ returned) vs → is_empty vs ≡ false → has_returned vs ≡ true
joined-has_returned [] a e = ground (arith, e)
joined-has_returned (v ∷ vs) a e = rw (a.0) refl

-- One worker among the others.
pub in_progress-middle :
    (t : ℕ) (us : List Worker) (v : Worker) (vs : List Worker)
    → count t (in_progress (us ++ (v ∷ vs)))
      ≡ count t (in_progress us) + (count t (task_of v) + count t (in_progress vs))
in_progress-middle t us v vs =
    let a = in_progress-append t us (v ∷ vs) in
    let b = count-append t (task_of v) (in_progress vs) in omega (arith, a, b)

pub count_one : (t x : ℕ) → count t (x ∷ []) ≡ (if x == t then 1 else 0)
count_one t x = ground arith
