-- ===== src/Service/Action/Ensures.antt =====
-- What an action ensures where it succeeds: one rule for each way to build it.
use lite_im.Prelude.{◌≡◌, refl, subst, Bool, true, false, if◌then◌else◌, if_elim}
use lite_im.Status.{Status, Result, ok, err}
use lite_im.Service.Action.{Action, pure, raise, lift, observe, unless, examine, ◌>>=◌, ◌>>◌}

abbrev pub Returned : {S A : Type 0} → (A → S → Type 0) → Result A × S → Type 0
Returned Q (ok a, s) = Q a s
Returned Q (err e, s) = Unit {0}

pub record Ensures {S A : Type 0} (m : Action S A) (s : S) (Q : A → S → Type 0) : Type 0 where
  pub returned : Returned Q (m s)

module _ {S A : Type 0} {Q : A → S → Type 0} where
  pub pure-Ensures : (a : A) (s : S) → Q a s → Ensures (pure a) s Q
  pure-Ensures a s h = record { returned = h }

  pub raise-Ensures : (e : Status) (s : S) → Ensures (raise e) s Q
  raise-Ensures e s = record { returned = tt }

  -- What is ensured holds of a result that is known.
  pub Ensures_ok : {m : Action S A} {s s' : S} {a : A} → Ensures m s Q → m s ≡ (ok a, s') → Q a s'
  Ensures_ok h e = subst (Returned Q) e h.returned

  pub weaken-Ensures :
      {P : A → S → Type 0} {m : Action S A} {s : S}
      → Ensures m s P
      → ((a : A) (s' : S) → P a s' → Q a s')
      → Ensures m s Q
  weaken-Ensures {P} {m} {s} g h = record { returned = of_result (m s) g.returned }
    where
      of_result : (p : Result A × S) → Returned P p → Returned Q p
      of_result (ok a, s') k = h a s' k
      of_result (err e, s') k = tt

  -- An action that never succeeds ensures anything.
  pub never_ok-Ensures :
      (m : Action S A) (s : S) → ((a : A) (s' : S) → m s ≡ (ok a, s') → ⊥) → Ensures m s Q
  never_ok-Ensures m s h = record { returned = of_failure (m s) (λ a s' e. h a s' e) }
    where
      of_failure : (p : Result A × S) → ((a : A) (s' : S) → p ≡ (ok a, s') → ⊥) → Returned Q p
      of_failure (ok a, s') h = absurd (h a s' refl)
      of_failure (err e, s') h = tt

  -- What is known of the results of an action.
  pub each_ok-Ensures :
      (m : Action S A) (s : S) → ((a : A) (s' : S) → m s ≡ (ok a, s') → Q a s') → Ensures m s Q
  each_ok-Ensures m s h = record { returned = of_result (m s) (λ a s' e. h a s' e) }
    where
      of_result : (p : Result A × S) → ((a : A) (s' : S) → p ≡ (ok a, s') → Q a s') → Returned Q p
      of_result (ok a, s') h = h a s' refl
      of_result (err e, s') h = tt

  pub lift-Ensures : (r : Result A) (s : S) → ((a : A) → r ≡ ok a → Q a s) → Ensures (lift r) s Q
  lift-Ensures (ok a) s h = record { returned = h a refl }
  lift-Ensures (err e) s h = record { returned = tt }

  pub if-Ensures :
      (test : Bool) {m m' : Action S A} (s : S)
      → (test ≡ true → Ensures m s Q)
      → (test ≡ false → Ensures m' s Q)
      → Ensures (if test then m else m') s Q
  if-Ensures test {m} {m'} s h h' = if_elim (λ c. Ensures c s Q) test {x = m} {y = m'} h h'

module _ {S A B : Type 0} {f : A → Action S B} {Q : B → S → Type 0} where
  of_bound :
      (p : Result A × S)
      → ((a : A) (s1 : S) → p ≡ (ok a, s1) → Ensures (f a) s1 Q)
      → Returned Q (let (r, s') = p in elim r [ ok a ↦ f a s' | err e ↦ (err e, s') ])
  of_bound (ok a, s1) h = (h a s1 refl).returned
  of_bound (err e, s1) h = tt

  pub >>=-Ensures :
      (m : Action S A) (s : S)
      → ((a : A) (s1 : S) → m s ≡ (ok a, s1) → Ensures (f a) s1 Q)
      → Ensures (m >>= f) s Q
  unfolding ◌>>=◌
  >>=-Ensures m s h = record { returned = of_bound (m s) h }

  -- A value that the code computed, and that is an error or not.
  pub lift_then-Ensures :
      (r : Result A) (s : S) → ((a : A) → r ≡ ok a → Ensures (f a) s Q) → Ensures (lift r >>= f) s Q
  unfolding ◌>>=◌
  lift_then-Ensures (ok a) s h = record { returned = (h a refl).returned }
  lift_then-Ensures (err e) s h = record { returned = tt }

  pub observe_then-Ensures :
      (read : S → A) (s : S)
      → ((a : A) → read s ≡ a → Ensures (f a) s Q)
      → Ensures (observe read >>= f) s Q
  unfolding ◌>>=◌
  observe_then-Ensures read s h = record { returned = (h (read s) refl).returned }

  -- What the action before ensures is there for what follows.
  pub then-Ensures :
      {P : A → S → Type 0} (m : Action S A) (s : S)
      → Ensures m s P
      → ((a : A) (s1 : S) → P a s1 → Ensures (f a) s1 Q)
      → Ensures (m >>= f) s Q
  then-Ensures {P} m s g h = >>=-Ensures m s (λ a s1 e. h a s1 (Ensures_ok g e))

module _ {S B : Type 0} {m : Action S B} {Q : B → S → Type 0} where
  -- What follows a guard.
  pub unless-Ensures :
      (test : Bool) (e : Status) (s : S)
      → (test ≡ false → Ensures m s Q)
      → Ensures (unless test e >> m) s Q
  unfolding ◌>>=◌
  unless-Ensures true e s h = record { returned = tt }
  unless-Ensures false e s h = record { returned = (h refl).returned }

module _ {S A B : Type 0} {Q : B → S → Type 0} where
  -- One part for a call that succeeded, one for a call that failed.
  pub examine-Ensures :
      (m : Action S A) (f : Result A → Action S B) (s : S)
      → ((a : A) (s1 : S) → m s ≡ (ok a, s1) → Ensures (f (ok a)) s1 Q)
      → ((e : Status) (s1 : S) → m s ≡ (err e, s1) → Ensures (f (err e)) s1 Q)
      → Ensures (examine m f) s Q
  unfolding examine
  examine-Ensures m f s h h' = record { returned = of_result (m s) h h' }
    where
      of_result :
          (p : Result A × S)
          → ((a : A) (s1 : S) → p ≡ (ok a, s1) → Ensures (f (ok a)) s1 Q)
          → ((e : Status) (s1 : S) → p ≡ (err e, s1) → Ensures (f (err e)) s1 Q)
          → Returned Q (f p.0 p.1)
      of_result (ok a, s1) h h' = (h a s1 refl).returned
      of_result (err e, s1) h h' = (h' e s1 refl).returned
