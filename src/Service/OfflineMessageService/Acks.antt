-- ===== src/Service/OfflineMessageService/Acks.antt =====
-- When an acknowledgement succeeds.
use lite_im.Prelude.{ℕ, ◌≡◌, ◌≢◌, true, List, [], ◌∷◌, ◌++◌}
use lite_im.Status.{Status, is_ok, Result, ok}
use lite_im.Protocol.Bytes.{Bytes}
use lite_im.Protocol.MessageType.{offline_messages_ack_response}
use lite_im.Protocol.Tlv
use lite_im.Protocol.Packet.{Packet}
use lite_im.Protocol.TlvCodec.{get_repeated_uint64}
use lite_im.Protocol.TlvCodec.Records.{TlvRecord, body_bytes}
use lite_im.Service.Action.Ensures.{Ensures}
use lite_im.Service.Records.{OfflineMessageRecord, delivered_value, RouterRequest, response_packet}
use lite_im.Service.Interfaces.{OnlineSessions, UnreadCache}
use lite_im.Service.MessagePacketBuilder.RoundTrip.{number_field}
use lite_im.Service.OfflineMessageService.{OfflineStorage, collect, clear_unread}
use lite_im.Service.OfflineMessageService.Pulls.{IsUser}

abbrev pub acked_records : List OfflineMessageRecord → List TlvRecord
acked_records [] = []
acked_records (m ∷ ms) =
    (number_field Tlv.message_id m.message.message_id ∷ [])
    ++ ((number_field Tlv.delivery_status delivered_value ∷ []) ++ acked_records ms)

module _ {S : Type 0} (online_service : OnlineSessions S) (storage : OfflineStorage S)
    (cache : UnreadCache S) (max_messages_per_pull : ℕ) (request : RouterRequest) where
  pub record Acked (packet : Packet) (s s' : S) : Type 0 where
    pub user_id : ℕ
    pub message_ids : List ℕ
    pub acked_messages : List OfflineMessageRecord
    pub user_state : S
    pub acked_state : S
    pub clear_result : Result (Unit {0})
    pub is_user :
        IsUser online_service storage cache max_messages_per_pull request user_id s user_state
    pub has_ids : (get_repeated_uint64 request.fields Tlv.message_id).0 ≡ message_ids
    pub ids_read : is_ok (get_repeated_uint64 request.fields Tlv.message_id).1 ≡ true
    pub some_ids : message_ids ≢ []
    pub are_acked :
        storage.ack_offline_messages user_id message_ids user_state
        ≡ (ok acked_messages, acked_state)
    pub are_cleared :
        clear_unread online_service storage cache max_messages_per_pull user_id
          (collect [] acked_messages)
          acked_state
        ≡ (clear_result, s')
    pub is_answer :
        packet
        ≡ response_packet offline_messages_ack_response request
            (body_bytes (acked_records acked_messages))
