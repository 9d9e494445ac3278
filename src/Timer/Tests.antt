-- ===== src/Timer/Tests.antt =====
-- Runs of the timer heap, and the theorems at concrete heaps.
use lite_im.Prelude.{
  ℕ, ◌≡◌, refl, ap, ◌∙◌, List, [], ◌∷◌, ◌++◌, Bool, not, ◌==◌, Option, none, some, length,
}
use lite_im.Timer.TimerHeap.{
  HeapEntry, TimerHeap, new_heap, push, add, cancel, pop_loop, pop_expired,
  next_expiration_milliseconds, remove_stale, is_after,
}
use lite_im.Timer.TimerHeap.Active.{keep, active, IsValid}
use lite_im.Timer.TimerHeap.Order.{keep-push_skip}
use lite_im.Timer.TimerHeap.Calls.{
  new_heap-IsValid, add-IsValid, cancel-IsValid, active-add, first_time,
  next_expiration_milliseconds-active,
}
use lite_im.Timer.TimerHeap.Expire.{is_due, due, IsQuiet, IsFired, pop_expired-IsFired}

-- Three timers, the second of which is cancelled.
abbrev two_timers : TimerHeap
two_timers = cancel (add (add (add new_heap 30 (some 7)).0 10 none).0 20 (some 8)).0 2

two_timers-IsValid : IsValid two_timers
two_timers-IsValid =
    let three =
      add-IsValid _ 20 (some 8)
        (add-IsValid _ 10 none (add-IsValid new_heap 30 (some 7) new_heap-IsValid)) in
    cancel-IsValid _ 2 three

-- A callback that starts its timer again, for a later time.
abbrev again : ℕ → TimerHeap → TimerHeap
again c h = (add h 100 (some c)).0

again-IsQuiet : IsQuiet again 50
unfolding add
again-IsQuiet c h v =
    let e : HeapEntry = record { expiration_ms = 100; timer_id = h.next_timer_id } in
    (
      add-IsValid h 100 (some c) v,
      keep-push_skip (is_due 50) e h.heap refl,
      ap (keep (is_due 50)) (active-add h 100 (some c) v)
          ∙ keep-push_skip (is_due 50) e (active h) refl,
    )

fires_in_order : (pop_expired again 50 two_timers).fired ≡ 3 ∷ 1 ∷ []
unfolding pop_expired pop_loop add cancel remove_stale push is_after lite_im.Prelude.Assoc.find
    lite_im.Prelude.Assoc.erase lite_im.Prelude.Assoc.insert
fires_in_order = refl

pop_expired-IsFired_example : IsFired 50 0 [] (due 50 two_timers) (pop_expired again 50 two_timers)
pop_expired-IsFired_example =
    pop_expired-IsFired again 50 two_timers again-IsQuiet two_timers-IsValid

next_expiration_milliseconds-active_example :
    ((next_expiration_milliseconds two_timers).1 ≡ first_time (active two_timers))
    × (active (next_expiration_milliseconds two_timers).0 ≡ active two_timers)
next_expiration_milliseconds-active_example = next_expiration_milliseconds-active two_timers
