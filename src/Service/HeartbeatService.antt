-- ===== src/Service/HeartbeatService.antt =====
-- include/liteim/service/HeartbeatService.hpp and src/service/HeartbeatService.cpp.
mod Tests
use lite_im.Prelude.{
  ℕ, ◌≡◌, ◌≢◌, refl, ap, sym, ◌∙◌, ◌⊎◌, inl, inr, Bool, true, false, [], Option, none, some,
  if◌then◌else◌, arith,
}
use lite_im.Status.{ErrorCode, Status, error, invalid_argument, not_found, Result, ok, err}
use lite_im.Protocol.MessageType.{heartbeat_response}
use lite_im.Protocol.Packet.{Packet}
use lite_im.Service.Action.{Action, pure, raise, observe, examine, ◌>>=◌}
use lite_im.Service.Interfaces.{if_not_found}
use lite_im.Service.Interfaces.Rules.{if_not_found_cases}
use lite_im.Service.Records.{Session, RouterRequest, response_packet}

-- The calls of the online service.
pub record HeartbeatCalls (S : Type 0) : Type 0 where
  pub is_closed : Session → S → Bool
  pub get_user_by_session : ℕ → Action S ℕ
  pub refresh_user_online : ℕ → ℕ → Action S (Unit {0})

abbrev pub not_active_status : Status
not_active_status = error invalid_argument "session is not active"

abbrev pub alive : RouterRequest → Packet
alive request = response_packet heartbeat_response request []

module _ {S : Type 0} (calls : HeartbeatCalls S) where
  -- A refresh that fails is logged only.
  abbrev pub refresh : RouterRequest → ℕ → ℕ → Action S Packet
  refresh request user_id session_id =
      examine (calls.refresh_user_online user_id session_id) (λ r. pure (alive request))

  -- Nobody needs to be logged in.
  abbrev pub answer : RouterRequest → ℕ → Result ℕ → Action S Packet
  answer request session_id (ok user_id) = refresh request user_id session_id
  answer request session_id (err e) = if_not_found (pure (alive request)) e

  abbrev pub heartbeat_of : RouterRequest → Session → Action S Packet
  heartbeat_of request session = do
    closed ← observe (calls.is_closed session)
    if closed
        then raise not_active_status
        else examine (calls.get_user_by_session session.id) (answer request session.id)

  unfoldable pub handle_heartbeat : RouterRequest → Action S Packet
  handle_heartbeat request = elim request.session [
    | none ↦ raise not_active_status
    | some session ↦ heartbeat_of request session
  ]

  -- The lookup of the user failed, and not because there is none.
  abbrev pub IsFailure : Session → Status → S → S → Type 0
  IsFailure session e s s' =
      (calls.get_user_by_session session.id s ≡ (err e, s')) × (e.code ≢ not_found)

  module _ (request : RouterRequest) (session : Session) (s : S) where
    answer_cases :
        (r : Result ℕ × S)
        → calls.get_user_by_session session.id s ≡ r
        → (s' : S) × ((answer request session.id r.0 r.1 ≡ (ok (alive request), s'))
            ⊎ ((e : Status) × (answer request session.id r.0 r.1 ≡ (err e, s'))
                × IsFailure session e s s'))
    unfolding examine
    answer_cases (ok user_id, s1) q =
        ((calls.refresh_user_online user_id session.id s1).1, inl refl)
    answer_cases (err e, s1) q = elim (if_not_found_cases (pure {S = S} (alive request)) e s1) [
      | inl h ↦ (s1, inl h.1)
      | inr h ↦ (s1, inr (e, h.1, (q, h.0)))
    ]

    -- A heartbeat on an open session is answered with an empty body and the number of the request, whether or
    -- not a user is logged in there and whether or not his entry in the cache could be refreshed; only a lookup
    -- of the user that fails for another reason than that there is none makes it fail, with that error.
    pub handle_heartbeat_cases :
        request.session ≡ some session
        → calls.is_closed session s ≡ false
        → (s' : S) × ((handle_heartbeat request s ≡ (ok (alive request), s'))
            ⊎ ((e : Status) × (handle_heartbeat request s ≡ (err e, s'))
                × IsFailure session e s s'))
    unfolding handle_heartbeat ◌>>=◌ examine
    handle_heartbeat_cases has is_open =
        rw (has, is_open) (answer_cases (calls.get_user_by_session session.id s) refl)
