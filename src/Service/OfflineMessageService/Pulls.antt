-- ===== src/Service/OfflineMessageService/Pulls.antt =====
-- When a pull succeeds.
use lite_im.Prelude.{ℕ, ◌≡◌, refl, List, [], Option, none, some}
use lite_im.Status.{ok}
use lite_im.Protocol.Bytes.{Bytes}
use lite_im.Protocol.MessageType.{offline_messages_response}
use lite_im.Protocol.Packet.{Packet}
use lite_im.Service.Action.{raise, examine}
use lite_im.Service.Action.Ensures.{
  Ensures, Ensures_ok, pure-Ensures, raise-Ensures, lift_then-Ensures, >>=-Ensures, then-Ensures,
  examine-Ensures,
}
use lite_im.Service.Records.{Session, OfflineMessageRecord, RouterRequest, response_packet}
use lite_im.Service.Interfaces.{OnlineSessions, UnreadCache, not_logged_in_status}
use lite_im.Service.Interfaces.Rules.{if_not_found-Ensures}
use lite_im.Service.OfflineMessageService.{
  OfflineStorage, request_limit, append_messages, user_of, current_user_id, handle_offline_messages,
}

module _ {S : Type 0} (online_service : OnlineSessions S) (storage : OfflineStorage S)
    (cache : UnreadCache S) (max_messages_per_pull : ℕ) (request : RouterRequest) where
  -- The online service knows the user of the request's session.
  abbrev pub IsUser : ℕ → S → S → Type 0
  IsUser user_id s s' =
      (session : Session) × (request.session ≡ some session)
      × (online_service.get_user_by_session session.id s ≡ (ok user_id, s'))

  current_user_of-IsUser :
      (o : Option Session) (s : S)
      → request.session ≡ o
      → Ensures
          (elim o [
            | none ↦ raise not_logged_in_status
            | some session ↦
                examine
                  (online_service.get_user_by_session session.id)
                  (user_of online_service storage cache max_messages_per_pull)
          ])
          s
          (λ user_id s'. IsUser user_id s s')
  current_user_of-IsUser none s q = raise-Ensures _ s
  current_user_of-IsUser (some session) s q =
      examine-Ensures _ _ s (λ user_id s1 e. pure-Ensures user_id s1 (session, q, e))
        (λ x s1 e. if_not_found-Ensures _ x s1 (λ c. raise-Ensures _ s1))

  pub current_user_id-IsUser :
      (s : S)
      → Ensures
          (current_user_id online_service storage cache max_messages_per_pull request)
          s
          (λ user_id s'. IsUser user_id s s')
  unfolding current_user_id
  current_user_id-IsUser s = current_user_of-IsUser request.session s refl

  pub record Pulled (packet : Packet) (s s' : S) : Type 0 where
    pub user_id : ℕ
    pub limit : ℕ
    pub messages : List OfflineMessageRecord
    pub body : Bytes
    pub user_state : S
    pub is_user : IsUser user_id s user_state
    pub has_limit : request_limit max_messages_per_pull request.fields ≡ ok limit
    pub are_waiting : storage.get_offline_messages user_id limit user_state ≡ (ok messages, s')
    pub has_body : append_messages messages [] ≡ ok body
    pub is_answer : packet ≡ response_packet offline_messages_response request body

  handle_offline_messages-Ensures :
      (s : S)
      → Ensures
          (handle_offline_messages online_service storage cache max_messages_per_pull request)
          s
          (λ packet s'. Pulled packet s s')
  unfolding handle_offline_messages
  handle_offline_messages-Ensures s = then-Ensures _ s (current_user_id-IsUser s) (λ user_id s1 u.
      lift_then-Ensures _ s1 (λ limit l. >>=-Ensures _ s1 (λ messages s2 w.
        lift_then-Ensures _ s2 (λ body b. pure-Ensures _ s2 (record {
          user_id = user_id;
          limit = limit;
          messages = messages;
          body = body;
          user_state = s1;
          is_user = u;
          has_limit = l;
          are_waiting = w;
          has_body = b;
          is_answer = refl;
        })))))

  -- A pull succeeds only for a user on the session of the request, and answers with all the messages that the
  -- storage gave for this user and the limit of the request, in its order; nothing is marked as delivered.
  pub handle_offline_messages-Pulled :
      (packet : Packet) (s s' : S)
      → handle_offline_messages online_service storage cache max_messages_per_pull request s
        ≡ (ok packet, s')
      → Pulled packet s s'
  handle_offline_messages-Pulled packet s s' q = Ensures_ok (handle_offline_messages-Ensures s) q
