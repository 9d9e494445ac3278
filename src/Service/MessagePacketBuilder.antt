-- ===== src/Service/MessagePacketBuilder.antt =====
-- include/liteim/service/MessagePacketBuilder.hpp and src/service/MessagePacketBuilder.cpp: the fields of a
-- message at the end of a packet's body.
pub mod RoundTrip
pub mod ReadBack
mod Tests
use lite_im.Prelude.{ℕ, [], ◌∷◌}
use lite_im.Status.{Result, ok}
use lite_im.Protocol.Bytes.{Bytes}
use lite_im.Protocol.Tlv
use lite_im.Protocol.TlvCodec.{append_string, append_uint64}
use lite_im.Service.Fields.{bind_result, appended}
use lite_im.Service.Records.{ConversationType, type_value, MessageRecord}

unfoldable pub append_conversation_type : ConversationType → Bytes → Result Bytes
append_conversation_type type body =
    appended (append_uint64 Tlv.conversation_type (type_value type) body)

-- No field where the client gave no id.
unfoldable pub append_client_message_id : Bytes → Bytes → Result Bytes
append_client_message_id [] body = ok body
append_client_message_id (b ∷ bs) body =
    appended (append_string Tlv.client_message_id (b ∷ bs) body)

unfoldable pub append_message_fields : MessageRecord → Bytes → Result Bytes
unfolding append_conversation_type append_client_message_id
append_message_fields message body =
    bind_result (appended (append_uint64 Tlv.message_id message.message_id body)) (λ b1.
      bind_result (append_conversation_type message.conversation.type b1) (λ b2.
        bind_result (appended (append_uint64 Tlv.conversation_id message.conversation.id b2)) (λ b3.
          bind_result (appended (append_uint64 Tlv.sender_id message.sender_id b3)) (λ b4.
            bind_result (appended (append_uint64 Tlv.receiver_id message.receiver_id b4)) (λ b5.
              bind_result (appended (append_string Tlv.message_text message.text b5)) (λ b6.
                bind_result (append_client_message_id message.client_msg_id b6)
                  (λ b7. appended (append_uint64 Tlv.timestamp_ms message.created_at_ms b7))))))))
