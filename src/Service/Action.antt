-- ===== src/Service/Action.antt =====
-- A handler's calls: each changes the state of what it calls, and fails or not. `if (!status.isOk()) return
-- status;` behind a call is `>>=`.
pub mod Inversion
pub mod Ensures
use lite_im.Prelude.{Bool, true, false}
use lite_im.Status.{Status, Result, ok, err}

abbrev pub Action : Type 0 → Type 0 → Type 0
Action S A = S → Result A × S

module _ {S A : Type 0} where
  abbrev pub pure : A → Action S A
  pure a s = (ok a, s)

  abbrev pub raise : Status → Action S A
  raise e s = (err e, s)

  -- What is read of the state.
  abbrev pub observe : (S → A) → Action S A
  observe f s = (ok (f s), s)

  abbrev pub lift : Result A → Action S A
  lift r s = (r, s)

infixl 5 ◌>>=◌ ◌>>◌
unfoldable pub ◌>>=◌ : {S A B : Type 0} → Action S A → (A → Action S B) → Action S B
◌>>=◌ m f s = let (r, s') = m s in elim r [ ok a ↦ f a s' | err e ↦ (err e, s') ]

abbrev pub ◌>>◌ : {S B : Type 0} → Action S (Unit {0}) → Action S B → Action S B
m >> k = m >>= λ _. k

-- `if (test) return status;`
abbrev pub unless : {S : Type 0} → Bool → Status → Action S (Unit {0})
unless true e = raise e
unless false e = pure tt

-- A call whose result, failed or not, decides what follows.
unfoldable pub examine : {S A B : Type 0} → Action S A → (Result A → Action S B) → Action S B
examine m f s = let (r, s') = m s in f r s'
