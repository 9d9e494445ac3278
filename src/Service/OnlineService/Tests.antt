-- ===== src/Service/OnlineService/Tests.antt =====
-- The online service with a cache that is a map, and the theorem at it.
use lite_im.Prelude.{refl, ℕ, ◌≡◌, ap, sym, ◌∙◌, Bool, true, false, [], Option, none, some, arith}
use lite_im.Prelude.Assoc.{Map, find, insert, erase, find-insert, find-erase, find-nil}
use lite_im.Status.{Result, ok}
use lite_im.Service.SessionManager.{SessionInfo, Live, UserBinding, new_manager}
use lite_im.Service.SessionManager.Invariant.{session_id_of}
use lite_im.Service.OnlineService.{PresenceCache, OnlineState, GivenSession, Moments, bind_user}
use lite_im.Service.OnlineService.Presence.{IsLawful, IsPresent, Kept, bind_user-IsPresent}

abbrev cache : PresenceCache (Map ℕ)
cache = record {
  set_user_online = λ o ttl c. (ok tt, insert o.user_id o.session_id c);
  refresh_user_online = λ u ttl c. (ok tt, c);
  set_user_offline = λ u c. (ok tt, erase u c);
}

abbrev online : Map ℕ → ℕ → Option ℕ
online c u = find u c

cache-IsLawful : IsLawful cache online
cache-IsLawful = record {
  set_online = λ o ttl c c' u e.
      let same : insert o.user_id o.session_id c ≡ c' = ap (λ p. p.1) e in
      ap (find u) (sym same) ∙ find-insert o.user_id u o.session_id c;
  set_offline = λ v c u d. let e = find-erase v u c in ground (arith, d, e);
  set_online_fails = λ o ttl c c' x u e. absurd (let k = ap (λ p. p.0) e in ground (arith, k));
}

abbrev open_session : SessionInfo
open_session = record { id = 9; closed = false }

abbrev live : Live
live h = some open_session

abbrev nobody : OnlineState (Map ℕ)
nobody = record { sessions = new_manager; cache = []; closed = [] }

abbrev given : Option GivenSession
given = some (record { handle = 1; info = open_session; last_active_time_ms = 0 })

abbrev five : ℕ
five = 5

abbrev nine : ℕ
nine = 9

abbrev moments : Bool → Moments
moments closed = record { at_lookup = live; at_bind = live; closed_at_bind = closed }

nobody-IsPresent :
    (closed : Bool) (u : ℕ) → IsPresent (moments closed) cache [] 60 online cache-IsLawful u nobody
nobody-IsPresent closed u id q =
    absurd (let k = find-nil {V = UserBinding} u in ground (arith, q, k))

abbrev logged_in : Bool → Result (Unit {0}) × OnlineState (Map ℕ)
logged_in closed = bind_user (moments closed) cache [] 60 five given nobody

-- A user who logs in is bound and online; where the session closes meanwhile, he is neither.
five_is_bound :
    (session_id_of (logged_in false).1.sessions five ≡ some nine)
    × (session_id_of (logged_in true).1.sessions five ≡ none)
    × (online (logged_in true).1.cache five ≡ none)
unfolding bind_user lite_im.Service.Action.◌>>=◌ lite_im.Service.Action.examine
    lite_im.Service.OnlineService.validate_session
    lite_im.Service.SessionManager.get_user_by_session lite_im.Service.SessionManager.bind_user
    lite_im.Service.SessionManager.bind_locked lite_im.Service.SessionManager.bound_to_other find
    insert erase
five_is_bound = (refl, refl, refl)

-- A second login, on session 8, that closes meanwhile: the user is bound to session 9 still, and offline.
abbrev second_login : Result (Unit {0}) × OnlineState (Map ℕ)
second_login =
    bind_user (moments true) cache [] 60 five
      (some
        (record { handle = 2; info = record { id = 8; closed = false }; last_active_time_ms = 0 }))
      (logged_in false).1

bound_and_offline :
    (session_id_of second_login.1.sessions five ≡ some nine)
    × (online second_login.1.cache five ≡ none)
unfolding bind_user lite_im.Service.Action.◌>>=◌ lite_im.Service.Action.examine
    lite_im.Service.OnlineService.validate_session
    lite_im.Service.SessionManager.get_user_by_session lite_im.Service.SessionManager.bind_user
    lite_im.Service.SessionManager.bind_locked lite_im.Service.SessionManager.bound_to_other find
    insert erase
bound_and_offline = (refl, refl)

bind_user-IsPresent_example :
    Kept (moments true) cache [] 60 online cache-IsLawful five given (logged_in true)
bind_user-IsPresent_example =
    bind_user-IsPresent (moments true) cache [] 60 online cache-IsLawful five given nobody
      (nobody-IsPresent true)
