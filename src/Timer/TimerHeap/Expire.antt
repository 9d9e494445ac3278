-- ===== src/Timer/TimerHeap/Expire.antt =====
-- `popExpired` fires every timer that is due, once and in order.
use lite_im.Prelude.{
  ℕ, zero, suc, ◌+◌, ◌≤◌, ◌<◌, ◌≡◌, refl, ap, sym, ◌∙◌, Bool, true, false, not, List, [], ◌∷◌, ◌++◌,
  append-nil, append_assoc, map, Option, none, some, length, ltb, ◌==◌, All, arith, Bool-cases,
  Option-cases, inl, inr, ltb→lt, List-cases, subst,
}
use lite_im.Prelude.Assoc.{Map, find, erase}
use lite_im.Timer.TimerHeap.{
  HeapEntry, TimerEntry, TimerHeap, Popped, is_after, call_back, pop_loop, pop_expired, is_current,
  remove_stale,
}
use lite_im.Timer.TimerHeap.Active.{
  keep, active, Absent, Below, Distinct, Before, Sorted, IsValid, keep-erase, keep_none,
  length-keep, length-keep-remove_stale, remove_stale-keep, remove_stale-is_current, keep-All,
  remove_stale-All, remove_stale-Sorted, remove_stale-Distinct,
}

abbrev pub is_due : ℕ → HeapEntry → Bool
is_due now_ms e = not (ltb now_ms e.expiration_ms)

-- The timers that are due, in the order of their times.
abbrev pub due : ℕ → TimerHeap → List HeapEntry
due now_ms h = keep (is_due now_ms) (active h)

abbrev pub ids : List HeapEntry → List ℕ
ids es = map (λ e. e.timer_id) es

-- Callbacks that leave the timers that are due as they are: they may add timers for later, and cancel
-- those.
abbrev pub IsQuiet : (ℕ → TimerHeap → TimerHeap) → ℕ → Type 0
IsQuiet run now_ms =
    (c : ℕ) (h : TimerHeap)
    → IsValid h
    → IsValid (run c h)
      × (keep (is_due now_ms) (run c h).heap ≡ keep (is_due now_ms) h.heap)
      × (due now_ms (run c h) ≡ due now_ms h)

-- What a loop that starts with this count and log comes to.
pub record IsFired (now_ms count : ℕ) (log : List ℕ) (es : List HeapEntry) (p : Popped)
    : Type 0 where
  pub fired_lem : p.fired ≡ log ++ ids es
  pub count_lem : p.fired_count ≡ count + length es
  pub rest_lem : due now_ms p.heap ≡ []
  pub valid_lem : IsValid p.heap

call_back-IsQuiet :
    (run : ℕ → TimerHeap → TimerHeap) (now_ms : ℕ)
    → IsQuiet run now_ms
    → (c : Option ℕ) (h : TimerHeap) → IsValid h
    → IsValid (call_back run c h)
      × (keep (is_due now_ms) (call_back run c h).heap ≡ keep (is_due now_ms) h.heap)
      × (due now_ms (call_back run c h) ≡ due now_ms h)
unfolding call_back
call_back-IsQuiet run now_ms q none h v = (v, refl, refl)
call_back-IsQuiet run now_ms q (some c) h v = q c h v

later-All :
    (now_ms : ℕ) (e : HeapEntry) (es : List HeapEntry)
    → now_ms < e.expiration_ms
    → All (Before e) es
    → All (λ x. is_due now_ms x ≡ false) es
unfolding is_after
later-All now_ms e [] l a = tt
later-All now_ms e (x ∷ es) l a = (ground (arith, a.0), later-All now_ms e es l a.1)

-- A current entry has its timer.
is_current-cases :
    (timers : Map TimerEntry) (e : HeapEntry)
    → is_current timers e ≡ true
    → (t : TimerEntry) × (find e.timer_id timers ≡ some t)
      × ((t.expiration_ms == e.expiration_ms) ≡ true)
is_current-cases timers e h = elim (Option-cases (find e.timer_id timers)) [
  | inl q ↦ ground (arith)
  | inr (t, q) ↦ (t, q, ground (arith))
]

module _ (run : ℕ → TimerHeap → TimerHeap) (now_ms : ℕ) where
  -- The three ways a round of the loop ends.
  pop_loop_empty :
      (fuel : ℕ) (h : TimerHeap) (count : ℕ) (log : List ℕ)
      → remove_stale h.timers h.heap ≡ []
      → pop_loop run now_ms (suc fuel) h count log
        ≡ record { heap = record h { heap = [] }; fired_count = count; fired = log }
  unfolding pop_loop
  pop_loop_empty fuel h count log q = rw (pop_loop, q)

  pop_loop_stop :
      (fuel : ℕ) (h : TimerHeap) (count : ℕ) (log : List ℕ) (e : HeapEntry) (es : List HeapEntry)
      → remove_stale h.timers h.heap ≡ e ∷ es
      → ltb now_ms e.expiration_ms ≡ true
      → pop_loop run now_ms (suc fuel) h count log
        ≡ record { heap = record h { heap = e ∷ es }; fired_count = count; fired = log }
  unfolding pop_loop
  pop_loop_stop fuel h count log e es q l = rw (pop_loop, q, l)

  pop_loop_fire :
      (fuel : ℕ) (h : TimerHeap) (count : ℕ) (log : List ℕ) (e : HeapEntry) (es : List HeapEntry)
      (t : TimerEntry)
      → remove_stale h.timers h.heap ≡ e ∷ es
      → ltb now_ms e.expiration_ms ≡ false
      → find e.timer_id h.timers ≡ some t
      → (t.expiration_ms == e.expiration_ms) ≡ true
      → pop_loop run now_ms (suc fuel) h count log
        ≡ pop_loop run now_ms fuel
            (call_back run t.callback (record h { heap = es; timers = erase e.timer_id h.timers }))
            (count + 1)
            (log ++ (e.timer_id ∷ []))
  unfolding pop_loop
  pop_loop_fire fuel h count log e es t q l f m = rw (pop_loop, q, l, f, m)

  stop-IsFired :
      (count : ℕ) (log : List ℕ) (es : List HeapEntry) (g : TimerHeap)
      → es ≡ []
      → due now_ms g ≡ []
      → IsValid g
      → IsFired now_ms count log es (record { heap = g; fired_count = count; fired = log })
  stop-IsFired count log es g n d v = record {
    fired_lem = rw (n) (sym (append-nil log));
    count_lem = rw (n) (omega arith);
    rest_lem = d;
    valid_lem = v;
  }

  -- A round that fires a timer, and what the other rounds come to.
  IsFired-fire :
      (count : ℕ) (log : List ℕ) (e : HeapEntry) (es : List HeapEntry) (p : Popped)
      → IsFired now_ms (count + 1) (log ++ (e.timer_id ∷ [])) es p
      → IsFired now_ms count log (e ∷ es) p
  IsFired-fire count log e es p f = record {
    fired_lem = f.fired_lem ∙ append_assoc log (e.timer_id ∷ []) (ids es);
    count_lem = let c = f.count_lem in ground arith;
    rest_lem = f.rest_lem;
    valid_lem = f.valid_lem;
  }

-- A valid heap without its top entry, and without that entry's timer.
tail-IsValid :
    (h : TimerHeap) (e : HeapEntry) (es : List HeapEntry) (timers : Map TimerEntry)
    → remove_stale h.timers h.heap ≡ e ∷ es
    → IsValid h
    → IsValid (record h { heap = es; timers = timers }) × Absent e.timer_id es × All (Before e) es
tail-IsValid h e es timers q v =
    let s = subst Sorted q (remove_stale-Sorted h.timers h.heap v.sorted) in
    let d = subst Distinct q (remove_stale-Distinct h.timers h.heap v.distinct) in
    let b = subst (Below h.next_timer_id) q (remove_stale-All _ h.timers h.heap v.below) in
    (record { sorted = s.1; distinct = d.1; below = b.1 }, d.0, s.0)

top-IsValid :
    (h : TimerHeap) (e : HeapEntry) (es : List HeapEntry)
    → remove_stale h.timers h.heap ≡ e ∷ es
    → IsValid h
    → IsValid (record h { heap = e ∷ es })
top-IsValid h e es q v = record {
  sorted = subst Sorted q (remove_stale-Sorted h.timers h.heap v.sorted);
  distinct = subst Distinct q (remove_stale-Distinct h.timers h.heap v.distinct);
  below = subst (Below h.next_timer_id) q (remove_stale-All _ h.timers h.heap v.below);
}

active-top :
    (h : TimerHeap) (e : HeapEntry) (es : List HeapEntry)
    → remove_stale h.timers h.heap ≡ e ∷ es
    → active h ≡ e ∷ keep (is_current h.timers) es
active-top h e es q =
    let c = remove_stale-is_current h.timers h.heap e es q in
    sym (remove_stale-keep h.timers h.heap) ∙ ap (keep (is_current h.timers)) q ∙ ground arith

-- Where the top entry is not due, no timer is.
due-none :
    (now_ms : ℕ) (h : TimerHeap) (e : HeapEntry) (es : List HeapEntry)
    → active h ≡ e ∷ keep (is_current h.timers) es
    → All (Before e) es
    → ltb now_ms e.expiration_ms ≡ true
    → due now_ms h ≡ []
due-none now_ms h e es top a later =
    let rest : List HeapEntry = keep (is_current h.timers) es in
    rw (top) (
      keep_none (is_due now_ms) (e ∷ rest) (
        ground (arith, later),
        later-All now_ms e rest (omega (arith, ltb→lt now_ms e.expiration_ms later))
            (keep-All (Before e) (is_current h.timers) es a),
      ))

-- The timers that are due once the top one was taken out.
due-fire :
    (now_ms : ℕ) (h : TimerHeap) (e : HeapEntry) (es : List HeapEntry)
    → active h ≡ e ∷ keep (is_current h.timers) es
    → Absent e.timer_id es
    → ltb now_ms e.expiration_ms ≡ false
    → due now_ms h ≡ e ∷ due now_ms (record h { heap = es; timers = erase e.timer_id h.timers })
due-fire now_ms h e es top a early =
    let same = keep-erase h.timers e.timer_id es a in rw (top, same) (ground (arith, early))

-- A round uses up a heap entry that is due.
fuel_left :
    (now_ms fuel : ℕ) (h : TimerHeap) (e : HeapEntry) (es : List HeapEntry)
    → remove_stale h.timers h.heap ≡ e ∷ es
    → ltb now_ms e.expiration_ms ≡ false
    → length (keep (is_due now_ms) h.heap) < suc fuel
    → length (keep (is_due now_ms) es) < fuel
fuel_left now_ms fuel h e es r early l =
    let n = length-keep-remove_stale (is_due now_ms) h.timers h.heap in
    let k =
      subst (λ xs. length (keep (is_due now_ms) xs) ≤ length (keep (is_due now_ms) h.heap)) r n in
    ground (arith, k, early)

pop_loop-IsFired :
    (run : ℕ → TimerHeap → TimerHeap) (now_ms : ℕ)
    → IsQuiet run now_ms
    → (fuel : ℕ) (h : TimerHeap) (count : ℕ) (log : List ℕ) → IsValid h
    → length (keep (is_due now_ms) h.heap) < fuel
    → IsFired now_ms count log (due now_ms h) (pop_loop run now_ms fuel h count log)
pop_loop-IsFired run now_ms q zero h count log v l = absurd (omega (arith, l))
pop_loop-IsFired run now_ms q (suc fuel) h count log v l =
    elim (List-cases (remove_stale h.timers h.heap)) [
      | inl r ↦
          let none_left : active h ≡ [] =
            sym (remove_stale-keep h.timers h.heap) ∙ ap (keep (is_current h.timers)) r in
          rw (pop_loop_empty run now_ms fuel h count log r) (
            stop-IsFired run now_ms count log (due now_ms h) (record h { heap = [] })
              (ap (keep (is_due now_ms)) none_left) refl
              (record { sorted = tt; distinct = tt; below = tt }))
      | inr (e, es, r) ↦
          let top = active-top h e es r in
          let t = tail-IsValid h e es h.timers r v in
          elim (Bool-cases (ltb now_ms e.expiration_ms)) [
            | inl later ↦
                let none_due = due-none now_ms h e es top t.2 later in
                let same = remove_stale-keep h.timers h.heap in
                rw (pop_loop_stop run now_ms fuel h count log e es r later) (
                  stop-IsFired run now_ms count log (due now_ms h) (record h { heap = e ∷ es })
                    none_due
                    (ap (λ xs. keep (is_due now_ms) (keep (is_current h.timers) xs)) (sym r)
                      ∙ ap (keep (is_due now_ms)) same
                      ∙ none_due)
                    (top-IsValid h e es r v))
            | inr early ↦
                let (timer, f, m) =
                  is_current-cases h.timers e (remove_stale-is_current h.timers h.heap e es r) in
                let h' : TimerHeap = record h { heap = es; timers = erase e.timer_id h.timers } in
                let c =
                  call_back-IsQuiet run now_ms q timer.callback h'
                    (tail-IsValid h e es (erase e.timer_id h.timers) r v).0 in
                let more =
                  pop_loop-IsFired run now_ms q fuel (call_back run timer.callback h') (count + 1)
                    (log ++ (e.timer_id ∷ [])) c.0
                    (rw (c.1) (fuel_left now_ms fuel h e es r early l)) in
                rw
                  (
                    pop_loop_fire run now_ms fuel h count log e es timer r early f m,
                    due-fire now_ms h e es top t.1 early,
                  )
                  (IsFired-fire run now_ms count log e (due now_ms h')
                    (pop_loop run now_ms fuel (call_back run timer.callback h') (count + 1)
                      (log ++ (e.timer_id ∷ [])))
                    (rw (sym c.2) more))
          ]
    ]

-- Where the heap is valid and the callbacks leave the due timers alone, `popExpired` ends with no due
-- timer left and a valid heap; it has fired exactly the timers that were due, in the order of their times
-- (of their ids, where the times are equal), and returns how many they were.
pub pop_expired-IsFired :
    (run : ℕ → TimerHeap → TimerHeap) (now_ms : ℕ) (h : TimerHeap)
    → IsQuiet run now_ms
    → IsValid h
    → IsFired now_ms 0 [] (due now_ms h) (pop_expired run now_ms h)
unfolding pop_expired
pop_expired-IsFired run now_ms h q v =
    pop_loop-IsFired run now_ms q (suc (length h.heap)) h 0 [] v
      (let n = length-keep (is_due now_ms) h.heap in omega (arith, n))
