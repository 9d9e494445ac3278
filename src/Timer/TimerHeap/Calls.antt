-- ===== src/Timer/TimerHeap/Calls.antt =====
-- What `add`, `cancel`, `nextExpirationMilliseconds` and `clear` do to the timers that are still to fire.
use lite_im.Prelude.{ℕ, ◌≡◌, refl, ap, ◌∙◌, not, List, [], ◌∷◌, Option, none, some, ◌==◌, arith}
use lite_im.Prelude.Assoc.{Map, insert, erase, find-insert, find-erase}
use lite_im.Timer.TimerHeap.{
  HeapEntry, TimerEntry, TimerHeap, new_heap, push, add, cancel, is_current, remove_stale,
  remove_stale_top_entries, next_expiration_milliseconds,
}
use lite_im.Timer.TimerHeap.Active.{
  keep, active, IsValid, keep-insert, remove_stale-keep, remove_stale-All, remove_stale-Sorted,
  remove_stale-Distinct,
}
use lite_im.Timer.TimerHeap.Order.{
  push-All, push-Sorted, push-Distinct, above-Absent, Below-suc, keep-push,
}

pub new_heap-IsValid : IsValid new_heap
new_heap-IsValid = record { sorted = tt; distinct = tt; below = tt }

pub add-IsValid : (h : TimerHeap) (t : ℕ) (c : Option ℕ) → IsValid h → IsValid (add h t c).0
unfolding add
add-IsValid h t c v = record {
  sorted = push-Sorted _ h.heap v.sorted;
  distinct = push-Distinct _ h.heap (above-Absent h.next_timer_id h.heap v.below) v.distinct;
  below = push-All _ _ h.heap (omega arith) (Below-suc h.next_timer_id h.heap v.below);
}

pub cancel-IsValid : (h : TimerHeap) (i : ℕ) → IsValid h → IsValid (cancel h i)
unfolding cancel
cancel-IsValid h i v = record { sorted = v.sorted; distinct = v.distinct; below = v.below }

pub remove_stale_top_entries-IsValid :
    (h : TimerHeap) → IsValid h → IsValid (remove_stale_top_entries h)
unfolding remove_stale_top_entries
remove_stale_top_entries-IsValid h v = record {
  sorted = remove_stale-Sorted h.timers h.heap v.sorted;
  distinct = remove_stale-Distinct h.timers h.heap v.distinct;
  below = remove_stale-All _ h.timers h.heap v.below;
}

-- In a valid heap, `add` puts a timer with a new id among the active ones, at its place in the order of
-- time and id, and all others stay as they are.
pub active-add :
    (h : TimerHeap) (t : ℕ) (c : Option ℕ)
    → IsValid h
    → active (add h t c).0
      ≡ push (record { expiration_ms = t; timer_id = h.next_timer_id }) (active h)
unfolding add
active-add h t c v =
    let e : HeapEntry = record { expiration_ms = t; timer_id = h.next_timer_id } in
    let x : TimerEntry = record { expiration_ms = t; callback = c } in
    let timers = insert h.next_timer_id x h.timers in
    keep-push (is_current timers) e h.heap
      (ground (arith, find-insert h.next_timer_id h.next_timer_id x h.timers)) v.sorted
    ∙ ap (push e) (keep-insert h.timers h.next_timer_id x h.heap v.below)

keep-keep-erase :
    (timers : Map TimerEntry) (i : ℕ) (es : List HeapEntry)
    → keep (is_current (erase i timers)) es
      ≡ keep (λ e. not (e.timer_id == i)) (keep (is_current timers) es)
keep-keep-erase timers i [] = refl
keep-keep-erase timers i (e ∷ es) =
    ground (arith, find-erase i e.timer_id timers, keep-keep-erase timers i es)

-- `cancel` takes exactly the timer of that id, if there is one, from the active ones.
pub active-cancel :
    (h : TimerHeap) (i : ℕ) → active (cancel h i) ≡ keep (λ e. not (e.timer_id == i)) (active h)
unfolding cancel
active-cancel h i = keep-keep-erase h.timers i h.heap

abbrev pub first_time : List HeapEntry → Option ℕ
first_time [] = none
first_time (e ∷ es) = some e.expiration_ms

first_time-remove_stale :
    (timers : Map TimerEntry) (es : List HeapEntry)
    → elim (remove_stale timers es) [ [] ↦ none | e ∷ _ ↦ some e.expiration_ms ]
      ≡ first_time (keep (is_current timers) es)
unfolding remove_stale
first_time-remove_stale timers [] = refl
first_time-remove_stale timers (e ∷ es) = ground (arith, first_time-remove_stale timers es)

-- `nextExpirationMilliseconds` answers with the time of the first active timer, or -1 where there is none,
-- and the active timers stay the same.
pub next_expiration_milliseconds-active :
    (h : TimerHeap)
    → ((next_expiration_milliseconds h).1 ≡ first_time (active h))
      × (active (next_expiration_milliseconds h).0 ≡ active h)
unfolding next_expiration_milliseconds remove_stale_top_entries
next_expiration_milliseconds-active h =
    (first_time-remove_stale h.timers h.heap, remove_stale-keep h.timers h.heap)
