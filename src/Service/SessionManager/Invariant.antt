-- ===== src/Service/SessionManager/Invariant.antt =====
-- The two maps of a session manager are inverse to one another.
use lite_im.Prelude.{
  ℕ, ◌≡◌, ap, ◌↔◌, inl, inr, true, false, not, List, [], ◌∷◌, Option, none, some, arith, ◌==◌,
  Bool-cases, Option-cases, ==_iff, if_elim,
}
use lite_im.Prelude.Assoc.{find, insert, erase, find-insert, find-erase}
use lite_im.Status.{Result}
use lite_im.Service.SessionManager.{
  SessionInfo, Live, UserBinding, SessionManager, new_manager, erase_binding_locked, Bound,
  bind_locked, bound_to_other, bind_user, unbind_user, get_session_by_user, get_user_by_session,
  Unbound, bound_here, is_gone, session_of, user_of, bound_user_of,
}

-- The session that a user is bound to.
abbrev pub id_of : Option UserBinding → Option ℕ
id_of none = none
id_of (some b) = some b.session_id

abbrev pub session_id_of : SessionManager → ℕ → Option ℕ
session_id_of m u = id_of (find u m.users)

-- A user is bound to a session exactly when the session is bound to the user.
abbrev pub IsConsistent : SessionManager → Type 0
IsConsistent m = (u s : ℕ) → (session_id_of m u ≡ some s) ↔ (find s m.sessions ≡ some u)

new_manager-IsConsistent : IsConsistent new_manager
unfolding find
new_manager-IsConsistent u s = ground arith

erase_binding_locked-IsConsistent :
    (m : SessionManager) (u s : ℕ)
    → IsConsistent m
    → session_id_of m u ≡ some s
    → IsConsistent (erase_binding_locked m u s)
unfolding erase_binding_locked
erase_binding_locked-IsConsistent m u s c b u' s' =
    ground
      (arith, find-erase u u' m.users, find-erase s s' m.sessions, c u s, c u' s', c u s', c u' s)

-- The maps after a user was bound to a session, and its old session, if any, forgotten.
rebound-IsConsistent :
    (m : SessionManager) (u s h : ℕ)
    → IsConsistent m
    → bound_to_other (find s m.sessions) u ≡ false
    → (old : UserBinding) → find u m.users ≡ some old
    → IsConsistent (record {
      users = insert u (record { session_id = s; session = h }) m.users;
      sessions = insert s u (erase old.session_id m.sessions);
    })
unfolding bound_to_other
rebound-IsConsistent m u s h c free old e u' s' = ground (
  arith,
  find-insert u u' (record { session_id = s; session = h }) m.users,
  find-insert s s' u (erase old.session_id m.sessions),
  find-erase old.session_id s' m.sessions,
  c u' s',
  c u' s,
  c u old.session_id,
  c u' old.session_id,
)

fresh-IsConsistent :
    (m : SessionManager) (u s h : ℕ)
    → IsConsistent m
    → bound_to_other (find s m.sessions) u ≡ false
    → find u m.users ≡ none
    → IsConsistent (record {
      users = insert u (record { session_id = s; session = h }) m.users;
      sessions = insert s u m.sessions;
    })
unfolding bound_to_other
fresh-IsConsistent m u s h c free e u' s' = ground (
  arith,
  find-insert u u' (record { session_id = s; session = h }) m.users,
  find-insert s s' u m.sessions,
  c u' s',
  c u' s,
  c u s',
)

same-IsConsistent :
    (m : SessionManager) (u s h : ℕ)
    → IsConsistent m
    → session_id_of m u ≡ some s
    → IsConsistent (record {
      users = insert u (record { session_id = s; session = h }) m.users;
      sessions = insert s u m.sessions;
    })
same-IsConsistent m u s h c e u' s' = ground (
  arith,
  find-insert u u' (record { session_id = s; session = h }) m.users,
  find-insert s s' u m.sessions,
  c u' s',
  c u' s,
  c u s',
  c u s,
)

bind_locked-IsConsistent :
    (live : Live) (m : SessionManager) (u s h : ℕ)
    → IsConsistent m
    → bound_to_other (find s m.sessions) u ≡ false
    → IsConsistent (bind_locked live m u s h (find u m.users)).manager
unfolding bind_locked
bind_locked-IsConsistent live m u s h c free = elim (Option-cases (find u m.users)) [
  | inl e ↦ rw (e, bind_locked) (fresh-IsConsistent m u s h c free e)
  | inr (old, e) ↦ elim (Bool-cases (old.session_id == s)) [
    | inl same ↦
        let eq : old.session_id ≡ s = (==_iff _ _).0 same in
        rw (e, bind_locked, same, eq) (same-IsConsistent m u s h c (rw e (ap some eq)))
    | inr moved ↦ rw (e, bind_locked, moved) (rebound-IsConsistent m u s h c free old e)
  ]
]

bind_user-IsConsistent :
    (live : Live) (m : SessionManager) (u : ℕ) (session : Option (ℕ × SessionInfo))
    → IsConsistent m
    → IsConsistent (bind_user live m u session).manager
unfolding bind_user
bind_user-IsConsistent live m u none c = if_elim Keeps (u == 0) (λ _. c) (λ _. c)
  where
    Keeps : Bound → Type 0
    Keeps r = IsConsistent r.manager
bind_user-IsConsistent live m u (some (h, info)) c =
    if_elim Keeps (u == 0) (λ _. c)
      λ _.
        if_elim Keeps (info.id == 0) (λ _. c)
          λ _.
            if_elim Keeps info.closed (λ _. c)
              λ _.
                if_elim Keeps (bound_to_other (find info.id m.sessions) u) (λ _. c)
                  (bind_locked-IsConsistent live m u info.id h c)
  where
    Keeps : Bound → Type 0
    Keeps r = IsConsistent r.manager

here-session_id_of :
    (m : SessionManager) (u s : ℕ)
    → bound_here (find u m.users) s ≡ true
    → session_id_of m u ≡ some s
unfolding bound_here
here-session_id_of m u s e = ground arith

unbind_user-IsConsistent :
    (m : SessionManager) (u s : ℕ) → IsConsistent m → IsConsistent (unbind_user m u s).manager
unfolding unbind_user
unbind_user-IsConsistent m u s c =
    if_elim Keeps (u == 0) (λ _. c)
      λ _.
        if_elim Keeps (s == 0) (λ _. c)
          λ _.
            if_elim Keeps (not (bound_here (find u m.users) s)) (λ _. c)
              λ e.
                erase_binding_locked-IsConsistent m u s c (here-session_id_of m u s (ground arith))
  where
    Keeps : Unbound → Type 0
    Keeps r = IsConsistent r.manager

abbrev KeepsFirst : SessionManager × Result ℕ → Type 0
KeepsFirst r = IsConsistent r.0

get_session_by_user-IsConsistent :
    (live : Live) (m : SessionManager) (u : ℕ)
    → IsConsistent m
    → IsConsistent (get_session_by_user live m u).0
unfolding get_session_by_user
get_session_by_user-IsConsistent live m u c =
    if_elim KeepsFirst (u == 0) (λ _. c)
      λ _. elim (Option-cases (find u m.users)) [
        | inl e ↦ rw (e, session_of) c
        | inr (b, e) ↦
            rw (e, session_of)
              (if_elim KeepsFirst (is_gone live b.session)
                (λ _. erase_binding_locked-IsConsistent m u b.session_id c (rw e)) (λ _. c))
      ]

-- A session whose user is bound elsewhere, or not at all, does not occur.
bound_user-session_id_of :
    (m : SessionManager) (s u : ℕ)
    → IsConsistent m
    → find s m.sessions ≡ some u
    → (b : UserBinding) × (find u m.users ≡ some b) × (b.session_id ≡ s)
bound_user-session_id_of m s u c e = elim (Option-cases (find u m.users)) [
  | inl n ↦ absurd (ground (arith, c u s))
  | inr (b, g) ↦ (b, g, ground (arith, c u s))
]

get_user_by_session-IsConsistent :
    (live : Live) (m : SessionManager) (s : ℕ)
    → IsConsistent m
    → IsConsistent (get_user_by_session live m s).0
unfolding get_user_by_session
get_user_by_session-IsConsistent live m s c =
    if_elim KeepsFirst (s == 0) (λ _. c)
      λ _. elim (Option-cases (find s m.sessions)) [
        | inl e ↦ rw (e, bound_user_of) c
        | inr (u, e) ↦
            let (b, g, same) = bound_user-session_id_of m s u c e in
            let here : (b.session_id == s) ≡ true = (==_iff _ _).1 same in
            rw (e, bound_user_of, g, user_of, here)
              (if_elim KeepsFirst (is_gone live b.session)
                (λ _. erase_binding_locked-IsConsistent m u s c (rw g (ap some same))) (λ _. c))
      ]

-- The calls of the server: each sees the session objects as they are when it is made.
pub data Call : Type 0 where
  binds : Live → ℕ → Option (ℕ × SessionInfo) → Call
  unbinds : ℕ → ℕ → Call
  asks_session : Live → ℕ → Call
  asks_user : Live → ℕ → Call

abbrev pub call : SessionManager → Call → SessionManager
call m (binds live u session) = (bind_user live m u session).manager
call m (unbinds u s) = (unbind_user m u s).manager
call m (asks_session live u) = (get_session_by_user live m u).0
call m (asks_user live s) = (get_user_by_session live m s).0

unfoldable pub calls : SessionManager → List Call → SessionManager
calls m [] = m
calls m (c ∷ cs) = calls (call m c) cs

call-IsConsistent : (m : SessionManager) (c : Call) → IsConsistent m → IsConsistent (call m c)
call-IsConsistent m (binds live u session) v = bind_user-IsConsistent live m u session v
call-IsConsistent m (unbinds u s) v = unbind_user-IsConsistent m u s v
call-IsConsistent m (asks_session live u) v = get_session_by_user-IsConsistent live m u v
call-IsConsistent m (asks_user live s) v = get_user_by_session-IsConsistent live m s v

calls-IsConsistent_from :
    (m : SessionManager) (cs : List Call) → IsConsistent m → IsConsistent (calls m cs)
unfolding calls
calls-IsConsistent_from m [] v = v
calls-IsConsistent_from m (c ∷ cs) v =
    calls-IsConsistent_from (call m c) cs (call-IsConsistent m c v)

-- After any calls, in any order and whatever happens to the session objects in between, a user is bound
-- to a session exactly when the session is bound to that user: the two maps stay inverse.
pub calls-IsConsistent : (cs : List Call) → IsConsistent (calls new_manager cs)
calls-IsConsistent cs = calls-IsConsistent_from new_manager cs new_manager-IsConsistent
