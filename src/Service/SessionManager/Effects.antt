-- ===== src/Service/SessionManager/Effects.antt =====
-- What a login and a logout change in the table, and what the later calls see of it.
use lite_im.Prelude.{
  ℕ, ◌≡◌, ◌≢◌, ap, ◌∙◌, ◌↔◌, true, false, Option, none, some, arith, ◌==◌, if◌then◌else◌,
}
use lite_im.Prelude.Assoc.{find, erase, find-insert, find-erase}
use lite_im.Status.{Status, is_ok, Result, ok, err}
use lite_im.Status.{error, invalid_argument}
use lite_im.Service.SessionManager.{
  SessionInfo, Live, UserBinding, SessionManager, erase_binding_locked, Bound, to_close,
  bind_locked, bound_to_other, bind_user, unbind_user, bound_here, is_gone, session_of, user_of,
  bound_user_of, get_session_by_user, get_user_by_session,
}
use lite_im.Service.SessionManager.Invariant.{session_id_of}

-- A refused login leaves the table alone and closes nothing.
pub bind_user_refused :
    (live : Live) (m : SessionManager) (u : ℕ) (session : Option (ℕ × SessionInfo))
    → is_ok (bind_user live m u session).status ≡ false
    → ((bind_user live m u session).manager ≡ m) × ((bind_user live m u session).closes ≡ none)
unfolding bind_user bind_locked
bind_user_refused live m u none e = ground arith
bind_user_refused live m u (some (h, info)) e = ground arith

-- A session that is closed is not bound.
pub bind_user_closed :
    (live : Live) (m : SessionManager) (u h : ℕ) (info : SessionInfo)
    → u ≢ 0
    → info.id ≢ 0
    → info.closed ≡ true
    → bind_user live m u (some (h, info))
      ≡ record { manager = m; closes = none; status = error invalid_argument "session is closed" }
unfolding bind_user
bind_user_closed live m u h info zu zi c = ground arith

-- The maps after a login that is accepted.
bind_locked-find_user :
    (live : Live) (m : SessionManager) (u s h : ℕ) (old : Option UserBinding) (v : ℕ)
    → find v (bind_locked live m u s h old).manager.users
      ≡ (if u == v then some (record { session_id = s; session = h }) else find v m.users)
unfolding bind_locked
bind_locked-find_user live m u s h none v =
    ground (arith, find-insert u v (record { session_id = s; session = h }) m.users)
bind_locked-find_user live m u s h (some old) v = ground (
  arith,
  find-insert u v (record { session_id = s; session = h }) m.users,
  find-insert u v (record { session_id = old.session_id; session = h }) m.users,
)

bind_locked-find_session :
    (live : Live) (m : SessionManager) (u s h : ℕ) (old : Option UserBinding)
    → find s (bind_locked live m u s h old).manager.sessions ≡ some u
unfolding bind_locked
bind_locked-find_session live m u s h none = ground (arith, find-insert s s u m.sessions)
bind_locked-find_session live m u s h (some old) =
    ground
      (arith, find-insert s s u m.sessions, find-insert s s u (erase old.session_id m.sessions))

module _ (live : Live) (m : SessionManager) (u h : ℕ) (info : SessionInfo)
    (good : is_ok (bind_user live m u (some (h, info))).status ≡ true) where
  accepted :
      (u ≢ 0)
      × (info.id ≢ 0)
      × (info.closed ≡ false)
      × (bound_to_other (find info.id m.sessions) u ≡ false)
      × (bind_user live m u (some (h, info)) ≡ bind_locked live m u info.id h (find u m.users))
  unfolding bind_user
  accepted = (ground arith, ground arith, ground arith, ground arith, ground arith)

  abbrev after : SessionManager
  after = (bind_user live m u (some (h, info))).manager

  find_user-after :
      (v : ℕ)
      → find v after.users
        ≡ (if u == v then some (record { session_id = info.id; session = h }) else find v m.users)
  find_user-after v =
      ap (λ (r : Bound). find v r.manager.users) accepted.4
      ∙ bind_locked-find_user live m u info.id h (find u m.users) v

  find_session-after : find info.id after.sessions ≡ some u
  find_session-after =
      ap (λ (r : Bound). find info.id r.manager.sessions) accepted.4
      ∙ bind_locked-find_session live m u info.id h (find u m.users)

  bound-after : find u after.users ≡ some (record { session_id = info.id; session = h })
  bound-after = ground (arith, find_user-after u)

-- An accepted login names a user and an open session, binds the two, and leaves the binding of every
-- other user as it was.
pub bind_user_accepted :
    (live : Live) (m : SessionManager) (u h : ℕ) (info : SessionInfo)
    → is_ok (bind_user live m u (some (h, info))).status ≡ true
    → (u ≢ 0)
      × (info.id ≢ 0)
      × (info.closed ≡ false)
      × ((v : ℕ)
          → session_id_of (bind_user live m u (some (h, info))).manager v
            ≡ (if u == v then some info.id else session_id_of m v))
bind_user_accepted live m u h info good =
    let a = accepted live m u h info good in
    (a.0, a.1, a.2, λ v. ground (arith, find_user-after live m u h info good v))

-- Right after a login both lookups find it, as long as the session object is alive and open, and neither
-- changes the table.
pub get_session_by_user-bind_user :
    (live : Live) (m : SessionManager) (u h : ℕ) (info : SessionInfo)
    → is_ok (bind_user live m u (some (h, info))).status ≡ true
    → live h ≡ some info
    → let n = (bind_user live m u (some (h, info))).manager in
      (get_session_by_user live n u ≡ (n, ok h)) × (get_user_by_session live n info.id ≡ (n, ok u))
unfolding get_session_by_user get_user_by_session is_gone
get_session_by_user-bind_user live m u h info good l =
    let a = accepted live m u h info good in
    let b = bound-after live m u h info good in
    let s = find_session-after live m u h info good in
    let open_session : is_gone live h ≡ false = ground arith in
    let positive : (u == 0) ≡ false = ground arith in
    let session_positive : (info.id == 0) ≡ false = ground arith in
    let same : (info.id == info.id) ≡ true = ground arith in
    (
      rw (positive, b, session_of, open_session),
      rw (session_positive, s, bound_user_of, b, user_of, same, open_session),
    )

-- The close of a connection that a later login has replaced logs nobody out: to unbind the user from any
-- other session than the one of the last login changes nothing.
pub unbind_user-bind_user :
    (live : Live) (m : SessionManager) (u h s : ℕ) (info : SessionInfo)
    → is_ok (bind_user live m u (some (h, info))).status ≡ true
    → s ≢ info.id
    → let n = (bind_user live m u (some (h, info))).manager in
      ((unbind_user n u s).manager ≡ n) × ((unbind_user n u s).removed ≡ false)
unfolding unbind_user bound_here
unbind_user-bind_user live m u h s info good other =
    let b = bound-after live m u h info good in (ground arith, ground arith)

-- A second login of a user takes the place of the first: the old session is closed if it is another
-- object that is still alive and open, and in any case is bound to nobody any more.
pub bind_user_replaces :
    (live : Live) (m : SessionManager) (u h : ℕ) (info : SessionInfo) (old : UserBinding)
    → is_ok (bind_user live m u (some (h, info))).status ≡ true
    → find u m.users ≡ some old
    → old.session_id ≢ info.id
    → ((bind_user live m u (some (h, info))).closes ≡ to_close live old.session h)
      × (find old.session_id (bind_user live m u (some (h, info))).manager.sessions ≡ none)
unfolding bind_locked
bind_user_replaces live m u h info old good e other =
    let a = accepted live m u h info good in
    let moved : (old.session_id == info.id) ≡ false = ground arith in
    rw (a.4, e)
      (
        ground arith,
        ground (
          arith,
          find-insert info.id old.session_id u (erase old.session_id m.sessions),
          find-erase old.session_id old.session_id m.sessions,
        ),
      )

-- To unbind removes a binding exactly when the user is bound to that very session; then this user is
-- bound to none, and every other binding is as before. Otherwise the table is unchanged.
pub unbind_user_exact :
    (m : SessionManager) (u s : ℕ)
    → u ≢ 0
    → s ≢ 0
    → ((unbind_user m u s).status ≡ lite_im.Status.success)
      × (((unbind_user m u s).removed ≡ true) ↔ (session_id_of m u ≡ some s))
      × ((unbind_user m u s).removed ≡ false → (unbind_user m u s).manager ≡ m)
      × ((v : ℕ)
          → (unbind_user m u s).removed ≡ true
          → session_id_of (unbind_user m u s).manager v
            ≡ (if u == v then none else session_id_of m v))
unfolding unbind_user bound_here erase_binding_locked
unbind_user_exact m u s p q =
    (ground arith, ground arith, ground arith, λ v r. ground (arith, find-erase u v m.users))

bind_locked-ok :
    (live : Live) (m : SessionManager) (u s h : ℕ) (old : Option UserBinding)
    → is_ok (bind_locked live m u s h old).status ≡ true
unfolding bind_locked
bind_locked-ok live m u s h none = ground arith
bind_locked-ok live m u s h (some old) = ground arith

-- A login of a user on an open session that is bound to nobody else is accepted.
pub bind_user_ok :
    (live : Live) (m : SessionManager) (u h : ℕ) (info : SessionInfo)
    → u ≢ 0
    → info.id ≢ 0
    → info.closed ≡ false
    → bound_to_other (find info.id m.sessions) u ≡ false
    → is_ok (bind_user live m u (some (h, info))).status ≡ true
unfolding bind_user
bind_user_ok live m u h info zu zi o free =
    let positive : (u == 0) ≡ false = ground (arith, zu) in
    let session_positive : (info.id == 0) ≡ false = ground (arith, zi) in
    rw (positive, session_positive, o, free) (bind_locked-ok live m u info.id h (find u m.users))
