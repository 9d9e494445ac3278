-- ===== src/Service/HeartbeatService/Tests.antt =====
-- A heartbeat of a session where nobody is logged in, and the theorem at it.
use lite_im.Prelude.{ℕ, ◌≡◌, refl, ◌⊎◌, false, [], some}
use lite_im.Status.{Status, error, not_found, internal_error, ok, err}
use lite_im.Service.Records.{Session, RouterRequest}
use lite_im.Service.HeartbeatService.{
  HeartbeatCalls, alive, handle_heartbeat, IsFailure, handle_heartbeat_cases,
}

abbrev calls : HeartbeatCalls ℕ
calls = record {
  is_closed = λ session s. false;
  get_user_by_session = λ id s. (err (error not_found "nobody"), s);
  refresh_user_online = λ user id s. (err (error internal_error "no cache"), s);
}

abbrev client : Session
client = record { id = 9; peer_ip = [] }

abbrev beat : RouterRequest
beat = record { session = some client; seq_id = 4; fields = [] }

handle_heartbeat_cases_example :
    (s' : ℕ) × ((handle_heartbeat calls beat 0 ≡ (ok (alive beat), s'))
      ⊎ ((e : Status) × (handle_heartbeat calls beat 0 ≡ (err e, s'))
          × IsFailure calls client e 0 s'))
handle_heartbeat_cases_example = handle_heartbeat_cases calls beat client 0 refl refl
