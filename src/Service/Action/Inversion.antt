-- ===== src/Service/Action/Inversion.antt =====
-- What is known of the parts of an action that succeeded.
use lite_im.Prelude.{◌≡◌, refl, ap, Bool, true, false, not, arith}
use lite_im.Status.{Status, Result, ok, err}
use lite_im.Service.Action.{Action, unless, ◌>>=◌}

module _ {S A B : Type 0} (f : A → Action S B) (s'' : S) (b : B) where
  bound_inversion :
      (p : Result A × S)
      → (let (r, s') = p in elim r [ ok a ↦ f a s' | err e ↦ (err e, s') ]) ≡ (ok b, s'')
      → (a : A) × (s' : S) × (p ≡ (ok a, s')) × (f a s' ≡ (ok b, s''))
  bound_inversion (ok a, s') e = (a, s', refl, e)
  bound_inversion (err x, s') e = absurd (ground (arith, e))

  -- What made an action succeed.
  pub >>=_inversion :
      (m : Action S A) (s : S)
      → (m >>= f) s ≡ (ok b, s'')
      → (a : A) × (s' : S) × (m s ≡ (ok a, s')) × (f a s' ≡ (ok b, s''))
  unfolding ◌>>=◌
  >>=_inversion m s e = bound_inversion (m s) e

module _ {S : Type 0} where
  pub unless_inversion :
      (test : Bool) (e : Status) (s s' : S) (u : Unit {0})
      → unless (not test) e s ≡ (ok u, s')
      → (test ≡ true) × (s ≡ s')
  unless_inversion true e s s' u q = (refl, ap (λ p. p.1) q)
  unless_inversion false e s s' u q = absurd (let k = ap (λ p. p.0) q in ground (arith, k))

module _ {S A B : Type 0} (m : Action S A) (f : A → Action S B) {s s' : S} where
  pub >>=_ok : {a : A} → m s ≡ (ok a, s') → (m >>= f) s ≡ f a s'
  unfolding ◌>>=◌
  >>=_ok e = ap (λ p. let (r, z) = p in elim r [ ok a ↦ f a z | err x ↦ (err x, z) ]) e

  pub >>=_err : {e : Status} → m s ≡ (err e, s') → (m >>= f) s ≡ (err e, s')
  unfolding ◌>>=◌
  >>=_err e = ap (λ p. let (r, z) = p in elim r [ ok a ↦ f a z | err x ↦ (err x, z) ]) e
