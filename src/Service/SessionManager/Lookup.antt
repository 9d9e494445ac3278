-- ===== src/Service/SessionManager/Lookup.antt =====
-- What a lookup by session leaves of the table: it takes bindings away that are stale.
use lite_im.Prelude.{
  ℕ, ◌≡◌, ◌≢◌, refl, ◌⊎◌, inl, inr, false, Option, none, some, ◌==◌, Bool-cases, Option-cases,
  arith,
}
use lite_im.Prelude.Assoc.{Map, find, erase, find-erase}
use lite_im.Status.{Result, ok, err}
use lite_im.Service.SessionManager.{
  Live, UserBinding, SessionManager, is_gone, erase_binding_locked, user_of, bound_user_of,
  get_user_by_session,
}
use lite_im.Service.SessionManager.Invariant.{session_id_of}

-- The user's binding is as it was, or gone.
abbrev pub IsKept : SessionManager → SessionManager → ℕ → Type 0
IsKept m m' u = (session_id_of m' u ≡ session_id_of m u) ⊎ (session_id_of m' u ≡ none)

-- The session is bound to the user that was found, and to nobody where none was.
abbrev pub IsLookedUp : ℕ → SessionManager → Result ℕ → Type 0
IsLookedUp id m (ok u) = find id m.sessions ≡ some u
IsLookedUp id m (err e) = find id m.sessions ≡ none

abbrev IsShrunk : SessionManager → ℕ → SessionManager × Result ℕ → Type 0
IsShrunk m id (m', r) = ((u : ℕ) → IsKept m m' u) × IsLookedUp id m' r

erased_none : (id : ℕ) (m : Map ℕ) → find id (erase id m) ≡ none
erased_none id m = ground (arith, find-erase id id m)

user_of-IsShrunk :
    (live : Live) (m : SessionManager) (id bound : ℕ) (b : Option UserBinding)
    → find id m.sessions ≡ some bound
    → IsShrunk m id (user_of live m id bound b)
unfolding user_of erase_binding_locked
user_of-IsShrunk live m id bound none f = ((λ u. inl refl), erased_none id m.sessions)
user_of-IsShrunk live m id bound (some b) f = elim (Bool-cases (b.session_id == id)) [
  | inr e ↦ rw (e) ((λ u. inl refl), erased_none id m.sessions)
  | inl e ↦ elim (Bool-cases (is_gone live b.session)) [
    | inr g ↦ rw (e, g) ((λ u. inl refl), f)
    | inl g ↦
        rw (e, g)
          (
            (λ u. elim (Bool-cases (bound == u)) [
              | inl q ↦ inr (ground (arith, q, find-erase bound u m.users))
              | inr q ↦ inl (ground (arith, q, find-erase bound u m.users))
            ]),
            erased_none id m.sessions,
          )
  ]
]

-- A lookup by session leaves each user's binding as it was or takes it away; afterwards the session is bound to
-- the user that was found, and to nobody where none was.
pub get_user_by_session-IsShrunk :
    (live : Live) (m : SessionManager) (id : ℕ)
    → id ≢ 0
    → IsShrunk m id (get_user_by_session live m id)
unfolding get_user_by_session bound_user_of
get_user_by_session-IsShrunk live m id z =
    let positive : (id == 0) ≡ false = ground (arith, z) in
    elim (Option-cases (find id m.sessions)) [
      | inl f ↦ rw (positive, f) ((λ u. inl refl), f)
      | inr (u, f) ↦ rw (positive, f) (user_of-IsShrunk live m id u (find u m.users) f)
    ]
