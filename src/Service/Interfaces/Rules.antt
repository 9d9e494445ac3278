-- ===== src/Service/Interfaces/Rules.antt =====
-- What a branch on the error of a call ensures.
use lite_im.Prelude.{◌≡◌, ◌≢◌, refl, ◌⊎◌, inl, inr, arith}
use lite_im.Status.{
  ErrorCode, not_found, already_exists, invalid_argument, io_error, parse_error, config_error,
  internal_error, resource_exhausted, Status, err,
}
use lite_im.Service.Action.{Action}
use lite_im.Service.Action.Ensures.{Ensures, raise-Ensures}
use lite_im.Service.Interfaces.{
  else_raise, if_not_found, else_raise_unless_exists, if_already_exists,
}

module _ {S A : Type 0} {Q : A → S → Type 0} where
  else_raise-Ensures :
      (m : Action S A) (e : Status) (c : ErrorCode) (s : S)
      → (c ≡ not_found → Ensures m s Q)
      → Ensures (else_raise m e c) s Q
  else_raise-Ensures m e not_found s h = h refl
  else_raise-Ensures m e _ s h = raise-Ensures e s

  pub if_not_found-Ensures :
      (m : Action S A) (e : Status) (s : S)
      → (e.code ≡ not_found → Ensures m s Q)
      → Ensures (if_not_found m e) s Q
  if_not_found-Ensures m e s h = else_raise-Ensures m e e.code s h

  else_raise_unless_exists-Ensures :
      (m : Action S A) (e : Status) (c : ErrorCode) (s : S)
      → (c ≡ already_exists → Ensures m s Q)
      → Ensures (else_raise_unless_exists m e c) s Q
  else_raise_unless_exists-Ensures m e already_exists s h = h refl
  else_raise_unless_exists-Ensures m e _ s h = raise-Ensures e s

  pub if_already_exists-Ensures :
      (m : Action S A) (e : Status) (s : S)
      → (e.code ≡ already_exists → Ensures m s Q)
      → Ensures (if_already_exists m e) s Q
  if_already_exists-Ensures m e s h = else_raise_unless_exists-Ensures m e e.code s h

module _ {S A : Type 0} (m : Action S A) (e : Status) (s : S) where
  else_raise_cases :
      (c : ErrorCode)
      → ((c ≡ not_found) × (else_raise m e c s ≡ m s))
        ⊎ ((c ≢ not_found) × (else_raise m e c s ≡ (err e, s)))
  else_raise_cases not_found = inl (refl, refl)
  else_raise_cases ErrorCode.ok = inr ((λ q. ground (arith, q)), refl)
  else_raise_cases invalid_argument = inr ((λ q. ground (arith, q)), refl)
  else_raise_cases already_exists = inr ((λ q. ground (arith, q)), refl)
  else_raise_cases io_error = inr ((λ q. ground (arith, q)), refl)
  else_raise_cases parse_error = inr ((λ q. ground (arith, q)), refl)
  else_raise_cases config_error = inr ((λ q. ground (arith, q)), refl)
  else_raise_cases internal_error = inr ((λ q. ground (arith, q)), refl)
  else_raise_cases resource_exhausted = inr ((λ q. ground (arith, q)), refl)

  -- Both branches.
  pub if_not_found_cases :
      ((e.code ≡ not_found) × (if_not_found m e s ≡ m s))
      ⊎ ((e.code ≢ not_found) × (if_not_found m e s ≡ (err e, s)))
  if_not_found_cases = else_raise_cases e.code
