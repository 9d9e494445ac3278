-- ===== src/Service/OfflineMessageService/Body.antt =====
-- The body of a response to a pull.
use lite_im.Prelude.{
  ℕ, ◌+◌, ◌*◌, ◌≤◌, ◌≡◌, ap, ◌∙◌, List, [], ◌∷◌, ◌++◌, length, length-append, All, arith,
}
use lite_im.Status.{ok}
use lite_im.Protocol.Bytes.{Bytes}
use lite_im.Protocol.Tlv
use lite_im.Protocol.ByteOrder.Values.{length-be}
use lite_im.Protocol.Packet.{max_packet_body_length}
use lite_im.Protocol.TlvCodec.Records.{TlvRecord, record_bytes, body_bytes, length-record_bytes}
use lite_im.Service.Records.{type_value, MessageRecord, OfflineMessageRecord}
use lite_im.Service.ChatService.{max_message_text_bytes, max_client_message_id_bytes}
use lite_im.Service.MessagePacketBuilder.RoundTrip.{
  Written, nothing-Written, bind_result-Written, number_field, text_field, id_records,
  message_records, append_message_fields-Written, body_bytes-append,
}
use lite_im.Service.OfflineMessageService.{append_messages, hard_max_messages_per_pull}

-- A message whose text and client id are within the limits of the chat service.
pub record IsSmall (m : MessageRecord) : Type 0 where
  pub text_small : length m.text ≤ max_message_text_bytes
  pub client_id_small : length m.client_msg_id ≤ max_client_message_id_bytes

abbrev pub all_records : List OfflineMessageRecord → List TlvRecord
all_records [] = []
all_records (m ∷ ms) = message_records m.message ++ all_records ms

abbrev pub AreSmall : List OfflineMessageRecord → Type 0
AreSmall ms = All (λ (m : OfflineMessageRecord). IsSmall m.message) ms

append_messages-Written :
    (ms : List OfflineMessageRecord) (body : Bytes)
    → AreSmall ms
    → Written (append_messages ms body) body (all_records ms)
unfolding append_messages
append_messages-Written [] body h = nothing-Written body
append_messages-Written (m ∷ ms) body h =
    let text = h.0.text_small in
    let id = h.0.client_id_small in
    bind_result-Written _ _ _
      (append_message_fields-Written m.message body (omega (arith, text)) (omega (arith, id)))
      (λ b. append_messages-Written ms b h.1)

length-body_bytes-append :
    (rs rs' : List TlvRecord)
    → length (body_bytes (rs ++ rs')) ≡ length (body_bytes rs) + length (body_bytes rs')
length-body_bytes-append rs rs' =
    ap (λ (bs : Bytes). length bs) (body_bytes-append rs rs')
    ∙ length-append (body_bytes rs) (body_bytes rs')

length-number :
    (type v : ℕ) (rs : List TlvRecord)
    → length (body_bytes (number_field type v ∷ rs)) ≡ 14 + length (body_bytes rs)
length-number type v rs = omega (
  arith,
  length-append (record_bytes (number_field type v)) (body_bytes rs),
  length-record_bytes (number_field type v),
  length-be 8 v,
)

length-text :
    (type : ℕ) (v : Bytes) (rs : List TlvRecord)
    → length (body_bytes (text_field type v ∷ rs)) ≡ 6 + length v + length (body_bytes rs)
length-text type v rs = omega (
  arith,
  length-append (record_bytes (text_field type v)) (body_bytes rs),
  length-record_bytes (text_field type v),
)

length-id :
    (id : Bytes) (rs : List TlvRecord)
    → length (body_bytes (id_records id ++ rs)) ≤ 6 + length id + length (body_bytes rs)
length-id [] rs = omega arith
length-id (b ∷ bs) rs = omega (arith, length-text Tlv.client_message_id (b ∷ bs) rs)

message_size : (m : MessageRecord) → IsSmall m → length (body_bytes (message_records m)) ≤ 8352
message_size m h =
    let text = h.text_small in
    let id = h.client_id_small in
    let last : List TlvRecord = number_field Tlv.timestamp_ms m.created_at_ms ∷ [] in
    let r7 = id_records m.client_msg_id ++ last in
    let r6 = text_field Tlv.message_text m.text ∷ r7 in
    let r5 = number_field Tlv.receiver_id m.receiver_id ∷ r6 in
    let r4 = number_field Tlv.sender_id m.sender_id ∷ r5 in
    let r3 = number_field Tlv.conversation_id m.conversation.id ∷ r4 in
    let r2 = number_field Tlv.conversation_type (type_value m.conversation.type) ∷ r3 in
    omega (
      arith,
      text,
      id,
      length-number Tlv.message_id m.message_id r2,
      length-number Tlv.conversation_type (type_value m.conversation.type) r3,
      length-number Tlv.conversation_id m.conversation.id r4,
      length-number Tlv.sender_id m.sender_id r5,
      length-number Tlv.receiver_id m.receiver_id r6,
      length-text Tlv.message_text m.text r7,
      length-id m.client_msg_id last,
      length-number Tlv.timestamp_ms m.created_at_ms [],
    )

messages_size :
    (ms : List OfflineMessageRecord)
    → AreSmall ms
    → length (body_bytes (all_records ms)) ≤ 8352 * length ms
messages_size [] h = omega arith
messages_size (m ∷ ms) h = omega (
  arith,
  length-body_bytes-append (message_records m.message) (all_records ms),
  message_size m.message h.0,
  messages_size ms h.1,
)

-- The messages of one pull always fit a packet: where they are no more than the hard limit, and each is within
-- the limits of the chat service, their fields make a body that is no longer than a packet may have.
pub append_messages_fits :
    (ms : List OfflineMessageRecord)
    → length ms ≤ hard_max_messages_per_pull
    → AreSmall ms
    → (body : Bytes) × (append_messages ms [] ≡ ok body) × (length body ≤ max_packet_body_length)
append_messages_fits ms n h = (
  body_bytes (all_records ms),
  (append_messages-Written ms [] h).written_as,
  omega (arith, n, messages_size ms h),
)
