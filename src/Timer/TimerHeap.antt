-- ===== src/Timer/TimerHeap.antt =====
-- include/liteim/timer/TimerHeap.hpp and src/timer/TimerHeap.cpp. A time is a number of milliseconds of
-- the monotonic clock. `std::priority_queue` is a list in the order of `Compare`, its top in front;
-- `timers_` is a map. A callback is known by a number, and what it does to the heap (it may add and
-- cancel timers) is the parameter `run`.
pub mod Active
pub mod Order
pub mod Calls
pub mod Expire
use lite_im.Prelude.{
  ℕ, zero, suc, ◌+◌, Bool, true, false, not, ◌&&◌, List, [], ◌∷◌, ◌++◌, Option, none, some, length,
  ltb, ◌==◌, if◌then◌else◌,
}
use lite_im.Prelude.Assoc.{Map, find, insert, erase}

pub record HeapEntry : Type 0 where
  pub expiration_ms : ℕ
  pub timer_id : ℕ

pub record TimerEntry : Type 0 where
  pub expiration_ms : ℕ
  pub callback : Option ℕ

pub record TimerHeap : Type 0 where
  pub next_timer_id : ℕ
  pub heap : List HeapEntry
  pub timers : Map TimerEntry

abbrev pub new_heap : TimerHeap
new_heap = record { next_timer_id = 1; heap = []; timers = [] }

-- `Compare`: whether the first entry comes out after the second.
unfoldable pub is_after : HeapEntry → HeapEntry → Bool
is_after lhs rhs =
    if lhs.expiration_ms == rhs.expiration_ms
    then ltb rhs.timer_id lhs.timer_id
    else ltb rhs.expiration_ms lhs.expiration_ms

-- `heap_.push`.
unfoldable pub push : HeapEntry → List HeapEntry → List HeapEntry
push e [] = e ∷ []
push e (x ∷ xs) = if is_after e x then x ∷ push e xs else e ∷ x ∷ xs

-- The heap with the new timer, and its id. Ids are 64-bit and do not run out.
unfoldable pub add : TimerHeap → ℕ → Option ℕ → TimerHeap × ℕ
add h expiration_ms callback =
    let timer_id : ℕ = h.next_timer_id in
    (
      record {
        next_timer_id = suc timer_id;
        heap = push (record { expiration_ms = expiration_ms; timer_id = timer_id }) h.heap;
        timers =
            insert timer_id (record { expiration_ms = expiration_ms; callback = callback })
              h.timers;
      },
      timer_id,
    )

unfoldable pub cancel : TimerHeap → ℕ → TimerHeap
cancel h timer_id = record h { timers = erase timer_id h.timers }

abbrev pub matches : Option TimerEntry → HeapEntry → Bool
matches none e = false
matches (some t) e = t.expiration_ms == e.expiration_ms

-- Whether a heap entry belongs to a timer that is still there.
abbrev pub is_current : Map TimerEntry → HeapEntry → Bool
is_current timers e = matches (find e.timer_id timers) e

-- `removeStaleTopEntries`.
unfoldable pub remove_stale : Map TimerEntry → List HeapEntry → List HeapEntry
remove_stale timers [] = []
remove_stale timers (e ∷ es) = if is_current timers e then e ∷ es else remove_stale timers es

unfoldable pub remove_stale_top_entries : TimerHeap → TimerHeap
unfolding remove_stale
remove_stale_top_entries h = record h { heap = remove_stale h.timers h.heap }

-- `if (callback) callback();`
unfoldable pub call_back : (ℕ → TimerHeap → TimerHeap) → Option ℕ → TimerHeap → TimerHeap
call_back run none h = h
call_back run (some c) h = run c h

-- The heap, the number of timers fired, and their ids in the order of firing.
pub record Popped : Type 0 where
  pub heap : TimerHeap
  pub fired_count : ℕ
  pub fired : List ℕ

module _ (run : ℕ → TimerHeap → TimerHeap) (now_ms : ℕ) where
  -- The loop of `popExpired`, with rounds as fuel.
  unfoldable pub pop_loop : ℕ → TimerHeap → ℕ → List ℕ → Popped
  unfolding call_back
  pop_loop zero h count log = record { heap = h; fired_count = count; fired = log }
  pop_loop (suc fuel) h count log = elim (remove_stale h.timers h.heap) [
    | [] ↦ record { heap = record h { heap = [] }; fired_count = count; fired = log }
    | e ∷ es ↦
        let stop : Popped = record {
          heap = record h { heap = e ∷ es };
          fired_count = count;
          fired = log;
        } in
        let skipped = pop_loop fuel (record h { heap = es }) count log in
        let fire = λ (t : TimerEntry).
          pop_loop fuel
            (call_back run t.callback (record h { heap = es; timers = erase e.timer_id h.timers }))
            (count + 1) (log ++ (e.timer_id ∷ [])) in
        if ltb now_ms e.expiration_ms then stop else elim (find e.timer_id h.timers) [
          | none ↦ skipped
          | some t ↦ if not (t.expiration_ms == e.expiration_ms) then skipped else fire t
        ]
  ]

  -- One round more than the heap has entries is enough where no callback adds a timer that is due.
  unfoldable pub pop_expired : TimerHeap → Popped
  pop_expired h = pop_loop (suc (length h.heap)) h 0 []

-- The time of the timer that is due next; `none` is -1.
unfoldable pub next_expiration_milliseconds : TimerHeap → TimerHeap × Option ℕ
unfolding remove_stale_top_entries
next_expiration_milliseconds h = (
  remove_stale_top_entries h,
  elim (remove_stale h.timers h.heap) [ [] ↦ none | e ∷ es ↦ some e.expiration_ms ],
)

unfoldable pub active_timer_count : TimerHeap → ℕ
active_timer_count h = length h.timers

unfoldable pub empty : TimerHeap → Bool
unfolding active_timer_count
empty h = active_timer_count h == 0

unfoldable pub clear : TimerHeap → TimerHeap
clear h = record h { heap = []; timers = [] }
