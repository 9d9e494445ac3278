-- ===== src/Service/ChatService/Ack.antt =====
-- When `handleDeliveryAck` succeeds.
use lite_im.Prelude.{ℕ, ◌≡◌, ◌≢◌, ap, sym, ◌∙◌, [], ◌∷◌, ◌==◌, arith}
use lite_im.Status.{ok}
use lite_im.Protocol.MessageType.{delivery_ack_response}
use lite_im.Protocol.Tlv
use lite_im.Protocol.Packet.{Packet}
use lite_im.Protocol.TlvCodec.{get_uint64}
use lite_im.Protocol.TlvCodec.Records.{body_bytes}
use lite_im.Service.Action.Ensures.{
  Ensures, Ensures_ok, lift_then-Ensures, pure-Ensures, unless-Ensures, >>=-Ensures, then-Ensures,
}
use lite_im.Service.Records.{MessageRecord, RouterRequest, response_packet, delivered_value}
use lite_im.Service.Interfaces.{OnlineSessions, MessageStorage, UnreadCache}
use lite_im.Service.MessagePacketBuilder.RoundTrip.{
  Written, append_uint64-Written, bind_result-Written, number_field,
}
use lite_im.Service.ChatService.{append_ack, handle_delivery_ack}
use lite_im.Service.ChatService.Sent.{IsLoggedIn, current_user_id-IsLoggedIn}

append_ack-Written :
    (message : MessageRecord)
    → Written (append_ack message) [] (
        number_field Tlv.message_id message.message_id
        ∷ number_field Tlv.delivery_status delivered_value
        ∷ [])
append_ack-Written message =
    bind_result-Written _ _ _
      (append_uint64-Written Tlv.message_id message.message_id [] (omega arith) (omega arith))
      (λ b. append_uint64-Written Tlv.delivery_status delivered_value b (omega arith) (omega arith))

module _ {S : Type 0} (online_service : OnlineSessions S) (storage : MessageStorage S)
    (cache : UnreadCache S) where
  pub record Acknowledged (request : RouterRequest) (packet : Packet) (s s' : S) : Type 0 where
    pub user_id : ℕ
    pub message_id : ℕ
    pub message : MessageRecord
    pub user_state : S
    pub is_logged_in : IsLoggedIn online_service storage cache request user_id s user_state
    pub has_message_id : get_uint64 request.fields Tlv.message_id ≡ ok message_id
    pub some_message : message_id ≢ 0
    pub is_acknowledged :
        storage.ack_private_message_delivery user_id message_id user_state ≡ (ok message, s')
    pub is_answer :
        packet
        ≡ response_packet delivery_ack_response request (
            body_bytes (
              number_field Tlv.message_id message.message_id
              ∷ number_field Tlv.delivery_status delivered_value
              ∷ []))

  handle_delivery_ack-Ensures :
      (request : RouterRequest) (s : S)
      → Ensures
          (handle_delivery_ack online_service storage cache request)
          s
          (λ packet s'. Acknowledged request packet s s')
  unfolding handle_delivery_ack
  handle_delivery_ack-Ensures request s =
      then-Ensures _ s (current_user_id-IsLoggedIn online_service storage cache request s)
        (λ user_id s1 l. lift_then-Ensures _ s1 (λ message_id m.
          unless-Ensures (message_id == 0) _ s1 (λ n. >>=-Ensures _ s1 (λ message s2 a.
            lift_then-Ensures _ s2 (λ body b.
              let same = sym b ∙ (append_ack-Written message).written_as in
              pure-Ensures _ s2 (record {
                user_id = user_id;
                message_id = message_id;
                message = message;
                user_state = s1;
                is_logged_in = l;
                has_message_id = m;
                some_message = λ q. ground (arith, n, q);
                is_acknowledged = a;
                is_answer =
                    ap (response_packet delivery_ack_response request) (ground (arith, same));
              }))))))

  -- A delivery is acknowledged only for a user on an open session and for a message that the request names,
  -- and the storage has recorded it for this user; the response names the message as delivered.
  pub handle_delivery_ack-Acknowledged :
      (request : RouterRequest) (packet : Packet) (s s' : S)
      → handle_delivery_ack online_service storage cache request s ≡ (ok packet, s')
      → Acknowledged request packet s s'
  handle_delivery_ack-Acknowledged request packet s s' q =
      Ensures_ok (handle_delivery_ack-Ensures request s) q
