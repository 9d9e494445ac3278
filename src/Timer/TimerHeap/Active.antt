-- ===== src/Timer/TimerHeap/Active.antt =====
-- The timers that are still to fire, in the order in which they will.
use lite_im.Prelude.{
  ℕ, ◌≤◌, ◌<◌, ◌≡◌, ◌≢◌, refl, Bool, true, false, List, [], ◌∷◌, length, if◌then◌else◌, All, arith,
  if_elim,
}
use lite_im.Prelude.Assoc.{Map, insert, erase, find-insert, find-erase}
use lite_im.Timer.TimerHeap.{HeapEntry, TimerEntry, TimerHeap, is_after, is_current, remove_stale}

abbrev pub keep : (HeapEntry → Bool) → List HeapEntry → List HeapEntry
keep p [] = []
keep p (e ∷ es) = if p e then e ∷ keep p es else keep p es

-- The entries of the heap whose timers have been neither cancelled nor fired.
abbrev pub active : TimerHeap → List HeapEntry
active h = keep (is_current h.timers) h.heap

abbrev pub Absent : ℕ → List HeapEntry → Type 0
Absent i = All (λ e. e.timer_id ≢ i)

abbrev pub Below : ℕ → List HeapEntry → Type 0
Below n = All (λ e. e.timer_id < n)

-- No two entries of one timer.
abbrev pub Distinct : List HeapEntry → Type 0
Distinct [] = Unit {0}
Distinct (e ∷ es) = Absent e.timer_id es × Distinct es

-- Whether the first entry may come out before the second.
abbrev pub Before : HeapEntry → HeapEntry → Type 0
Before x y = is_after x y ≡ false

abbrev pub Sorted : List HeapEntry → Type 0
Sorted [] = Unit {0}
Sorted (e ∷ es) = All (Before e) es × Sorted es

-- A heap that came about by calls: its entries are in order, each id was pushed once, and is below the next.
pub record IsValid (h : TimerHeap) : Type 0 where
  pub sorted : Sorted h.heap
  pub distinct : Distinct h.heap
  pub below : Below h.next_timer_id h.heap

pub keep-erase :
    (timers : Map TimerEntry) (i : ℕ) (es : List HeapEntry)
    → Absent i es
    → keep (is_current (erase i timers)) es ≡ keep (is_current timers) es
keep-erase timers i [] a = refl
keep-erase timers i (e ∷ es) a =
    ground (arith, find-erase i e.timer_id timers, keep-erase timers i es a.1)

pub keep-insert :
    (timers : Map TimerEntry) (i : ℕ) (t : TimerEntry) (es : List HeapEntry)
    → Below i es
    → keep (is_current (insert i t timers)) es ≡ keep (is_current timers) es
keep-insert timers i t [] b = refl
keep-insert timers i t (e ∷ es) b =
    ground (arith, find-insert i e.timer_id t timers, keep-insert timers i t es b.1)

-- What is left behind the stale top entries.
pub remove_stale-keep :
    (timers : Map TimerEntry) (es : List HeapEntry)
    → keep (is_current timers) (remove_stale timers es) ≡ keep (is_current timers) es
unfolding remove_stale
remove_stale-keep timers [] = refl
remove_stale-keep timers (e ∷ es) = ground (arith, remove_stale-keep timers es)

pub keep-All :
    (P : HeapEntry → Type 0) (p : HeapEntry → Bool) (es : List HeapEntry)
    → All P es
    → All P (keep p es)
keep-All P p [] a = a
keep-All P p (e ∷ es) a =
    if_elim (All P) (p e) (λ _. (a.0, keep-All P p es a.1)) (λ _. keep-All P p es a.1)

-- Nothing is kept where the test fails throughout.
pub keep_none :
    (p : HeapEntry → Bool) (es : List HeapEntry) → All (λ e. p e ≡ false) es → keep p es ≡ []
keep_none p [] a = refl
keep_none p (e ∷ es) a = ground (arith, keep_none p es a.1)

pub length-keep : (p : HeapEntry → Bool) (es : List HeapEntry) → length (keep p es) ≤ length es
length-keep p [] = omega arith
length-keep p (e ∷ es) = ground (arith, length-keep p es)

-- The heap without its stale top entries is still a heap.
pub remove_stale-All :
    (P : HeapEntry → Type 0) (timers : Map TimerEntry) (es : List HeapEntry)
    → All P es
    → All P (remove_stale timers es)
unfolding remove_stale
remove_stale-All P timers [] a = a
remove_stale-All P timers (e ∷ es) a =
    if_elim (All P) (is_current timers e) (λ _. a) (λ _. remove_stale-All P timers es a.1)

pub remove_stale-Sorted :
    (timers : Map TimerEntry) (es : List HeapEntry) → Sorted es → Sorted (remove_stale timers es)
unfolding remove_stale
remove_stale-Sorted timers [] a = a
remove_stale-Sorted timers (e ∷ es) a =
    if_elim Sorted (is_current timers e) (λ _. a) (λ _. remove_stale-Sorted timers es a.1)

pub remove_stale-Distinct :
    (timers : Map TimerEntry) (es : List HeapEntry)
    → Distinct es
    → Distinct (remove_stale timers es)
unfolding remove_stale
remove_stale-Distinct timers [] a = a
remove_stale-Distinct timers (e ∷ es) a =
    if_elim Distinct (is_current timers e) (λ _. a) (λ _. remove_stale-Distinct timers es a.1)

-- The entry on top is that of a timer that is still there.
pub remove_stale-is_current :
    (timers : Map TimerEntry) (es : List HeapEntry) (e : HeapEntry) (rest : List HeapEntry)
    → remove_stale timers es ≡ e ∷ rest
    → is_current timers e ≡ true
unfolding remove_stale
remove_stale-is_current timers [] e rest q = ground arith
remove_stale-is_current timers (x ∷ es) e rest q =
    ground (arith, remove_stale-is_current timers es e rest)

-- It drops entries only.
pub length-keep-remove_stale :
    (p : HeapEntry → Bool) (timers : Map TimerEntry) (es : List HeapEntry)
    → length (keep p (remove_stale timers es)) ≤ length (keep p es)
unfolding remove_stale
length-keep-remove_stale p timers [] = omega arith
length-keep-remove_stale p timers (e ∷ es) = ground (arith, length-keep-remove_stale p timers es)
