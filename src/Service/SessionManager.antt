-- ===== src/Service/SessionManager.antt =====
-- include/liteim/service/SessionManager.hpp and src/service/SessionManager.cpp: the table of users and
-- the TCP sessions they are logged in on. A session object is known by a handle. What a `weak_ptr` gives
-- is a function from handles, `none` once the object is gone; one call sees one such function, and runs
-- as one step, as it holds the mutex.
pub mod Invariant
pub mod Effects
pub mod Lookup
use lite_im.Prelude.{
  ℕ, Bool, true, false, not, ◌&&◌, ◌||◌, [], Option, none, some, length, ◌==◌, if◌then◌else◌,
}
use lite_im.Prelude.Assoc.{Map, find, insert, erase}
use lite_im.Status.{
  Status, success, error, invalid_argument, already_exists, not_found, Result, ok, err,
}

-- What the code asks a live session object.
pub record SessionInfo : Type 0 where
  pub id : ℕ
  pub closed : Bool

abbrev pub Live : Type 0
Live = ℕ → Option SessionInfo

pub record UserBinding : Type 0 where
  pub session_id : ℕ
  pub session : ℕ

pub record SessionManager : Type 0 where
  pub users : Map UserBinding
  pub sessions : Map ℕ

abbrev pub new_manager : SessionManager
new_manager = record { users = []; sessions = [] }

unfoldable pub erase_binding_locked : SessionManager → ℕ → ℕ → SessionManager
erase_binding_locked m user_id session_id = record {
  users = erase user_id m.users;
  sessions = erase session_id m.sessions;
}

-- The manager after `bindUser`, the session that it closes, and the status.
pub record Bound : Type 0 where
  pub manager : SessionManager
  pub closes : Option ℕ
  pub status : Status

abbrev refused : SessionManager → Status → Bound
refused m s = record { manager = m; closes = none; status = s }

-- `old_session != nullptr && old_session != session && !old_session->closed()`.
unfoldable pub to_close : Live → ℕ → ℕ → Option ℕ
to_close live old session = elim (live old) [
  | none ↦ none
  | some info ↦ if not (old == session) && not info.closed then some old else none
]

-- The part of `bindUser` under the lock, for a session that is not bound to another user.
unfoldable pub bind_locked : Live → SessionManager → ℕ → ℕ → ℕ → Option UserBinding → Bound
bind_locked live m user_id session_id session none = record {
  manager = record {
    users = insert user_id (record { session_id = session_id; session = session }) m.users;
    sessions = insert session_id user_id m.sessions;
  };
  closes = none;
  status = success;
}
bind_locked live m user_id session_id session (some old) =
    if old.session_id == session_id
    then record {
      manager = record {
        users = insert user_id (record { session_id = old.session_id; session = session }) m.users;
        sessions = insert session_id user_id m.sessions;
      };
      closes = none;
      status = success;
    }
    else record {
      manager = record {
        users = insert user_id (record { session_id = session_id; session = session }) m.users;
        sessions = insert session_id user_id (erase old.session_id m.sessions);
      };
      closes = to_close live old.session session;
      status = success;
    }

-- Whether the session is bound to a user, and that user is another one.
unfoldable pub bound_to_other : Option ℕ → ℕ → Bool
bound_to_other none user_id = false
bound_to_other (some other) user_id = not (other == user_id)

-- `session` is a null pointer, or a handle with what the object answers.
unfoldable pub bind_user : Live → SessionManager → ℕ → Option (ℕ × SessionInfo) → Bound
bind_user live m user_id none =
    if user_id == 0
    then refused m (error invalid_argument "user id must be positive")
    else refused m (error invalid_argument "session must not be null")
bind_user live m user_id (some (session, info)) =
    if user_id == 0
    then refused m (error invalid_argument "user id must be positive")
    else if info.id == 0
    then refused m (error invalid_argument "session id must be positive")
    else if info.closed
    then refused m (error invalid_argument "session is closed")
    else if bound_to_other (find info.id m.sessions) user_id
    then refused m (error already_exists "session is already bound to another user")
    else bind_locked live m user_id info.id session (find user_id m.users)

unfoldable pub bound_here : Option UserBinding → ℕ → Bool
bound_here none session_id = false
bound_here (some b) session_id = b.session_id == session_id

-- The manager, `removed` and the status.
pub record Unbound : Type 0 where
  pub manager : SessionManager
  pub removed : Bool
  pub status : Status

unfoldable pub unbind_user : SessionManager → ℕ → ℕ → Unbound
unbind_user m user_id session_id =
    if user_id == 0
    then record {
      manager = m;
      removed = false;
      status = error invalid_argument "user id must be positive";
    }
    else if session_id == 0
    then record {
      manager = m;
      removed = false;
      status = error invalid_argument "session id must be positive";
    }
    else if not (bound_here (find user_id m.users) session_id)
    then record { manager = m; removed = false; status = success }
    else record {
      manager = erase_binding_locked m user_id session_id;
      removed = true;
      status = success;
    }

-- `locked_session == nullptr || locked_session->closed()`.
unfoldable pub is_gone : Live → ℕ → Bool
is_gone live session = elim (live session) [ none ↦ true | some info ↦ info.closed ]

session_of : Live → SessionManager → ℕ → Option UserBinding → SessionManager × Result ℕ
session_of live m user_id none = (m, err (error not_found "user is not bound to a session"))
session_of live m user_id (some b) =
    if is_gone live b.session
    then (
      erase_binding_locked m user_id b.session_id,
      err (error not_found "user session is no longer alive"),
    )
    else (m, ok b.session)

unfoldable pub get_session_by_user : Live → SessionManager → ℕ → SessionManager × Result ℕ
unfolding session_of
get_session_by_user live m user_id =
    if user_id == 0
    then (m, err (error invalid_argument "user id must be positive"))
    else session_of live m user_id (find user_id m.users)

-- The second half of `getUserBySession`, once the session is known to be bound to a user.
user_of : Live → SessionManager → ℕ → ℕ → Option UserBinding → SessionManager × Result ℕ
user_of live m session_id bound_user_id none = (
  record m { sessions = erase session_id m.sessions },
  err (error not_found "session binding is stale"),
)
user_of live m session_id bound_user_id (some b) =
    if not (b.session_id == session_id)
    then (
      record m { sessions = erase session_id m.sessions },
      err (error not_found "session binding is stale"),
    )
    else if is_gone live b.session
    then (
      erase_binding_locked m bound_user_id session_id,
      err (error not_found "session is no longer alive"),
    )
    else (m, ok bound_user_id)

bound_user_of : Live → SessionManager → ℕ → Option ℕ → SessionManager × Result ℕ
unfolding user_of
bound_user_of live m session_id none = (m, err (error not_found "session is not bound to a user"))
bound_user_of live m session_id (some u) = user_of live m session_id u (find u m.users)

unfoldable pub get_user_by_session : Live → SessionManager → ℕ → SessionManager × Result ℕ
unfolding bound_user_of
get_user_by_session live m session_id =
    if session_id == 0
    then (m, err (error invalid_argument "session id must be positive"))
    else bound_user_of live m session_id (find session_id m.sessions)

unfoldable pub get_bound_user_by_session : SessionManager → ℕ → Result ℕ
get_bound_user_by_session m session_id =
    if session_id == 0
    then err (error invalid_argument "session id must be positive")
    else elim (find session_id m.sessions) [
      | none ↦ err (error not_found "session is not bound to a user")
      | some u ↦ ok u
    ]

unfoldable pub user_count : SessionManager → ℕ
user_count m = length m.users

unfoldable pub session_count : SessionManager → ℕ
session_count m = length m.sessions
