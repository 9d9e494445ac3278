-- ===== src/Timer/TimerHeap/Order.antt =====
-- The heap's order, and what `add`, `cancel` and the other calls do to the timers that are still to fire.
use lite_im.Prelude.{
  ℕ, suc, ◌≡◌, ◌≢◌, refl, sym, Bool, true, false, List, [], ◌∷◌, All, arith, Bool-cases, if_elim,
  inl, inr,
}
use lite_im.Timer.TimerHeap.{HeapEntry, is_after, push}
use lite_im.Timer.TimerHeap.Active.{keep, Absent, Below, Distinct, Before, Sorted, keep-All}

Before-total : (x y : HeapEntry) → is_after x y ≡ true → Before y x
unfolding is_after
Before-total x y h = ground arith

Before-trans : (x y z : HeapEntry) → Before x y → Before y z → Before x z
unfolding is_after
Before-trans x y z h k = ground arith

Before-All :
    (x y : HeapEntry) (es : List HeapEntry) → Before x y → All (Before y) es → All (Before x) es
Before-All x y [] b a = a
Before-All x y (e ∷ es) b a = (Before-trans x y e b a.0, Before-All x y es b a.1)

pub push-All :
    (P : HeapEntry → Type 0) (e : HeapEntry) (es : List HeapEntry)
    → P e
    → All P es
    → All P (push e es)
unfolding push
push-All P e [] p a = (p, a)
push-All P e (x ∷ es) p a =
    if_elim (All P) (is_after e x) (λ _. (a.0, push-All P e es p a.1)) (λ _. (p, a))

pub push-Sorted : (e : HeapEntry) (es : List HeapEntry) → Sorted es → Sorted (push e es)
unfolding push
push-Sorted e [] s = (tt, tt)
push-Sorted e (x ∷ es) s =
    if_elim Sorted (is_after e x)
      (λ h. (push-All (Before x) e es (Before-total e x h) s.0, push-Sorted e es s.1))
      (λ h. ((h, Before-All e x es h s.0), s))

pub above-Absent : (n : ℕ) (es : List HeapEntry) → Below n es → Absent n es
above-Absent n [] b = b
above-Absent n (e ∷ es) b = (omega (arith, b.0), above-Absent n es b.1)

pub Below-suc : (n : ℕ) (es : List HeapEntry) → Below n es → Below (suc n) es
Below-suc n [] b = b
Below-suc n (e ∷ es) b = (omega (arith, b.0), Below-suc n es b.1)

pub push-Distinct :
    (e : HeapEntry) (es : List HeapEntry)
    → Absent e.timer_id es
    → Distinct es
    → Distinct (push e es)
unfolding push
push-Distinct e [] a d = (tt, tt)
push-Distinct e (x ∷ es) a d =
    if_elim Distinct (is_after e x)
      (λ _. (
        push-All (λ z. z.timer_id ≢ x.timer_id) e es (λ q. a.0 (sym q)) d.0,
        push-Distinct e es a.1 d.1,
      ))
      (λ _. (a, d))

-- An entry that comes out before all others is put in front.
push_first : (e : HeapEntry) (es : List HeapEntry) → All (Before e) es → push e es ≡ e ∷ es
unfolding push
push_first e [] a = refl
push_first e (x ∷ es) a = ground (arith, a.0)

pub keep-push :
    (p : HeapEntry → Bool) (e : HeapEntry) (es : List HeapEntry)
    → p e ≡ true
    → Sorted es
    → keep p (push e es) ≡ push e (keep p es)
unfolding push
keep-push p e [] t s = ground arith
keep-push p e (x ∷ es) t s = elim (Bool-cases (is_after e x)) [
  | inl h ↦ ground (arith, keep-push p e es t s.1)
  | inr h ↦
      ground (arith, push_first e (keep p es) (keep-All (Before e) p es (Before-All e x es h s.0)))
]

pub keep-push_skip :
    (p : HeapEntry → Bool) (e : HeapEntry) (es : List HeapEntry)
    → p e ≡ false
    → keep p (push e es) ≡ keep p es
unfolding push
keep-push_skip p e [] t = ground arith
keep-push_skip p e (x ∷ es) t = ground (arith, keep-push_skip p e es t)
