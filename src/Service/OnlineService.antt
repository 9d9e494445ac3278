-- ===== src/Service/OnlineService.antt =====
-- include/liteim/service/OnlineService.hpp and src/service/OnlineService.cpp: who is online, in the table of
-- sessions and in the cache. The state is the table, the cache's, and the sessions that were closed. No other
-- call of the service or of the table runs between the calls that one `bindUser` makes; but a session may
-- close, or its object be gone, in the meantime, so its two calls of the table see what is alive for themselves.
pub mod Presence
mod Tests
use lite_im.Prelude.{
  ℕ, Bool, true, false, not, List, [], ◌∷◌, ◌++◌, Option, none, some, ◌==◌, if◌then◌else◌,
}
use lite_im.Status.{
  Status, success, error, is_ok, invalid_argument, already_exists, not_found, Result, ok, err,
  check,
}
use lite_im.Protocol.Bytes.{Bytes}
use lite_im.Service.Action.{Action, pure, raise, lift, unless, examine, ◌>>=◌, ◌>>◌}
use lite_im.Service.Interfaces.{if_not_found}
use lite_im.Service.SessionManager
use lite_im.Service.SessionManager.{SessionManager, SessionInfo, Live, Bound, Unbound}

pub record OnlineSession : Type 0 where
  pub user_id : ℕ
  pub session_id : ℕ
  pub server_id : Bytes
  pub last_active_time_ms : ℕ

-- The calls of `ICache`.
pub record PresenceCache (C : Type 0) : Type 0 where
  pub set_user_online : OnlineSession → ℕ → Action C (Unit {0})
  pub refresh_user_online : ℕ → ℕ → Action C (Unit {0})
  pub set_user_offline : ℕ → Action C (Unit {0})

pub record OnlineState (C : Type 0) : Type 0 where
  pub sessions : SessionManager
  pub cache : C
  pub closed : List ℕ

-- A session that is given to the service: its handle, what it answers, and the time of its last activity.
pub record GivenSession : Type 0 where
  pub handle : ℕ
  pub info : SessionInfo
  pub last_active_time_ms : ℕ

unfoldable pub validate_session : ℕ → Option GivenSession → Result GivenSession
validate_session user_id none =
    if user_id == 0
    then err (error invalid_argument "user id must be positive")
    else err (error invalid_argument "session must not be null")
validate_session user_id (some session) =
    if user_id == 0
    then err (error invalid_argument "user id must be positive")
    else if session.info.id == 0
    then err (error invalid_argument "session id must be positive")
    else if session.info.closed
    then err (error invalid_argument "session is closed")
    else ok session

abbrev pub to_list : Option ℕ → List ℕ
to_list none = []
to_list (some h) = h ∷ []

module _ {C : Type 0} where
  -- A call of the table, or of the cache.
  abbrev pub in_sessions :
      {A : Type 0} → (SessionManager → SessionManager × Result A) → Action (OnlineState C) A
  in_sessions f s = let (m, r) = f s.sessions in (r, record s { sessions = m })

  abbrev pub in_cache : {A : Type 0} → Action C A → Action (OnlineState C) A
  in_cache f s = let (r, c) = f s.cache in (r, record s { cache = c })

-- What is alive when `bindUser` looks the session up, and when it binds it; and whether the session is closed
-- by then.
pub record Moments : Type 0 where
  pub at_lookup : Live
  pub at_bind : Live
  pub closed_at_bind : Bool

module _ {C : Type 0} (moments : Moments) (cache : PresenceCache C) (server_id : Bytes)
    (online_ttl : ℕ) where
  -- `bindUser` of the table, and what follows where it fails.
  abbrev pub compensate : Bound → ℕ → Action (OnlineState C) (Unit {0})
  compensate bound user_id s =
      if is_ok bound.status
      then (ok tt, record s { sessions = bound.manager; closed = s.closed ++ to_list bound.closes })
      else (
        err bound.status,
        record s { sessions = bound.manager; cache = (cache.set_user_offline user_id s.cache).1 },
      )

  abbrev pub bind_in_sessions : ℕ → GivenSession → Action (OnlineState C) (Unit {0})
  bind_in_sessions user_id session s =
      compensate
        (SessionManager.bind_user moments.at_bind s.sessions user_id
          (some (session.handle, record session.info { closed = moments.closed_at_bind })))
        user_id s

  -- From `setUserOnline` on.
  abbrev pub publish : ℕ → GivenSession → Action (OnlineState C) (Unit {0})
  publish user_id session = do
    in_cache (
        cache.set_user_online
          (record {
            user_id = user_id;
            session_id = session.info.id;
            server_id = server_id;
            last_active_time_ms = session.last_active_time_ms;
          })
          online_ttl)
    bind_in_sessions user_id session

  abbrev pub if_free : ℕ → GivenSession → Result ℕ → Action (OnlineState C) (Unit {0})
  if_free user_id session (ok already_bound_user) =
      if not (already_bound_user == user_id)
      then raise (error already_exists "session is already bound to another user")
      else publish user_id session
  if_free user_id session (err e) = if_not_found (publish user_id session) e

  unfoldable pub bind_user : ℕ → Option GivenSession → Action (OnlineState C) (Unit {0})
  bind_user user_id session = do
    given ← lift (validate_session user_id session)
    examine
        (in_sessions (λ m. SessionManager.get_user_by_session moments.at_lookup m given.info.id))
        (if_free user_id given)

module _ {C : Type 0} (live : Live) (cache : PresenceCache C) (online_ttl : ℕ) where
  abbrev pub after_unbind : Unbound → ℕ → Action (OnlineState C) (Unit {0})
  after_unbind unbound user_id s =
      if not (is_ok unbound.status)
      then (err unbound.status, record s { sessions = unbound.manager })
      else if not unbound.removed
      then (ok tt, record s { sessions = unbound.manager })
      else in_cache (cache.set_user_offline user_id) (record s { sessions = unbound.manager })

  unfoldable pub unbind_user : ℕ → ℕ → Action (OnlineState C) (Unit {0})
  unbind_user user_id session_id s =
      after_unbind (SessionManager.unbind_user s.sessions user_id session_id) user_id s

  abbrev pub unbind_bound : ℕ → Result ℕ → Action (OnlineState C) (Unit {0})
  unbind_bound session_id (ok user_id) = unbind_user user_id session_id
  unbind_bound session_id (err e) = if_not_found (pure tt) e

  unfoldable pub unbind_session : ℕ → Action (OnlineState C) (Unit {0})
  unbind_session session_id s =
      unbind_bound session_id (SessionManager.get_bound_user_by_session s.sessions session_id) s

  unfoldable pub refresh_user_online : ℕ → ℕ → Action (OnlineState C) (Unit {0})
  refresh_user_online user_id session_id = do
    bound_user_id ← in_sessions (λ m. SessionManager.get_user_by_session live m session_id)
    unless (not (bound_user_id == user_id)) (error not_found "session is not bound to this user")
    in_cache (cache.refresh_user_online user_id online_ttl)
