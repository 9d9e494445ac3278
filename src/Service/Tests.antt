-- ===== src/Service/Tests.antt =====
-- Runs of the services, and the theorems at these inputs.
use lite_im.Prelude.{◌≡◌, refl, true, false, [], ◌∷◌, none, some, arith, ◌==◌, if◌then◌else◌}
use lite_im.Prelude.Assoc.{find}
use lite_im.Status.{is_ok, ok}
use lite_im.Service.SessionManager.{
  SessionInfo, Live, UserBinding, SessionManager, new_manager, bind_user, unbind_user,
  get_session_by_user, get_user_by_session, to_close,
}
use lite_im.Service.SessionManager.Invariant.{
  IsConsistent, binds, unbinds, asks_session, asks_user, calls, calls-IsConsistent,
}
use lite_im.Service.SessionManager.Effects.{
  get_session_by_user-bind_user, unbind_user-bind_user, bind_user_replaces,
}

-- User 7 is on session 1 (object 10), and logs in again on session 2 (object 20).
abbrev first_info : SessionInfo
first_info = record { id = 1; closed = false }

abbrev second_info : SessionInfo
second_info = record { id = 2; closed = false }

abbrev both_live : Live
both_live h = if h == 10 then some first_info else if h == 20 then some second_info else none

abbrev logged_in : SessionManager
logged_in = record {
  users = (7, record { session_id = 1; session = 10 }) ∷ [];
  sessions = (1, 7) ∷ [];
}

calls-IsConsistent_example : IsConsistent (
    calls new_manager (
      binds both_live 7 (some (10, first_info))
      ∷ binds both_live 7 (some (20, second_info))
      ∷ unbinds 7 1
      ∷ asks_session both_live 7
      ∷ asks_user both_live 2
      ∷ []))
calls-IsConsistent_example = calls-IsConsistent (
    binds both_live 7 (some (10, first_info))
    ∷ binds both_live 7 (some (20, second_info))
    ∷ unbinds 7 1
    ∷ asks_session both_live 7
    ∷ asks_user both_live 2
    ∷ [])

again : is_ok (bind_user both_live logged_in 7 (some (20, second_info))).status ≡ true
unfolding bind_user find lite_im.Service.SessionManager.bound_to_other
    lite_im.Service.SessionManager.bind_locked
again = refl

get_session_by_user-bind_user_example :
    let n = (bind_user both_live logged_in 7 (some (20, second_info))).manager in
    (get_session_by_user both_live n 7 ≡ (n, ok 20))
    × (get_user_by_session both_live n 2 ≡ (n, ok 7))
get_session_by_user-bind_user_example =
    get_session_by_user-bind_user both_live logged_in 7 20 second_info again refl

unbind_user-bind_user_example :
    let n = (bind_user both_live logged_in 7 (some (20, second_info))).manager in
    ((unbind_user n 7 1).manager ≡ n) × ((unbind_user n 7 1).removed ≡ false)
unbind_user-bind_user_example =
    unbind_user-bind_user both_live logged_in 7 20 1 second_info again (omega arith)

bind_user_replaces_example :
    ((bind_user both_live logged_in 7 (some (20, second_info))).closes ≡ some 10)
    × (find 1 (bind_user both_live logged_in 7 (some (20, second_info))).manager.sessions ≡ none)
unfolding to_close
bind_user_replaces_example =
    bind_user_replaces both_live logged_in 7 20 second_info
      (record { session_id = 1; session = 10 }) again (unfold find in refl) (omega arith)
