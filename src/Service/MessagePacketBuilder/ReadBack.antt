-- ===== src/Service/MessagePacketBuilder/ReadBack.antt =====
-- What a client reads from the fields of a message.
use lite_im.Prelude.{ℕ, ◌≤◌, ◌<◌, ◌^◌, ◌≡◌, refl, ◌∙◌, [], ◌∷◌, ◌++◌, length, All, arith}
use lite_im.Status.{Result, ok, err, error, not_found}
use lite_im.Protocol.Bytes.{Bytes, bytes}
use lite_im.Protocol.Tlv
use lite_im.Protocol.ByteOrder.Values.{length-be}
use lite_im.Protocol.TlvCodec.{TlvMap, parse_tlv_map, get_uint64, get_string, max_tlv_value_length}
use lite_im.Protocol.TlvCodec.Records.{Fits, body_bytes, values_of}
use lite_im.Protocol.TlvCodec.Getters.{
  getters-body_bytes, first_uint64, first_string, first_uint64-be,
}
use lite_im.Service.Records.{ConversationType, private_chat, group, type_value, MessageRecord}
use lite_im.Service.MessagePacketBuilder.{append_message_fields}
use lite_im.Service.MessagePacketBuilder.RoundTrip.{
  number_field, id_records, message_records, append_message_fields-Written,
}

-- The numbers of a message fit 64 bits, and its texts a value.
pub record FitsPacket (m : MessageRecord) : Type 0 where
  pub id_fits : m.message_id < 2 ^ 64
  pub conversation_fits : m.conversation.id < 2 ^ 64
  pub sender_fits : m.sender_id < 2 ^ 64
  pub receiver_fits : m.receiver_id < 2 ^ 64
  pub time_fits : m.created_at_ms < 2 ^ 64
  pub text_fits : length m.text ≤ max_tlv_value_length
  pub client_id_fits : length m.client_msg_id ≤ max_tlv_value_length

-- No field is there for a client that gave no id.
abbrev pub id_read : Bytes → Result Bytes
id_read [] = err (error not_found "missing required string field")
id_read (b ∷ bs) = ok (b ∷ bs)

pub record ReadAs (m : MessageRecord) (fields : TlvMap) : Type 0 where
  pub id_read_lem : get_uint64 fields Tlv.message_id ≡ ok m.message_id
  pub type_read : get_uint64 fields Tlv.conversation_type ≡ ok (type_value m.conversation.type)
  pub conversation_read : get_uint64 fields Tlv.conversation_id ≡ ok m.conversation.id
  pub sender_read : get_uint64 fields Tlv.sender_id ≡ ok m.sender_id
  pub receiver_read : get_uint64 fields Tlv.receiver_id ≡ ok m.receiver_id
  pub text_read : get_string fields Tlv.message_text ≡ ok m.text
  pub client_id_read : get_string fields Tlv.client_message_id ≡ id_read m.client_msg_id
  pub time_read : get_uint64 fields Tlv.timestamp_ms ≡ ok m.created_at_ms

number_field-Fits : (type value : ℕ) → type < 2 ^ 16 → Fits (number_field type value)
number_field-Fits type value h = record {
  type_fits = h;
  value_fits = omega (arith, length-be 8 value);
}

last-Fits :
    (id : Bytes) (time : ℕ)
    → length id ≤ max_tlv_value_length
    → All Fits (id_records id ++ (number_field Tlv.timestamp_ms time ∷ []))
last-Fits [] time h = (number_field-Fits Tlv.timestamp_ms time (omega arith), tt)
last-Fits (b ∷ bs) time h = (
  record { type_fits = omega arith; value_fits = h },
  (number_field-Fits Tlv.timestamp_ms time (omega arith), tt),
)

message_records-Fits : (m : MessageRecord) → FitsPacket m → All Fits (message_records m)
message_records-Fits m f = (
  number_field-Fits Tlv.message_id m.message_id (omega arith),
  (
    number_field-Fits Tlv.conversation_type (type_value m.conversation.type) (omega arith),
    (
      number_field-Fits Tlv.conversation_id m.conversation.id (omega arith),
      (
        number_field-Fits Tlv.sender_id m.sender_id (omega arith),
        (
          number_field-Fits Tlv.receiver_id m.receiver_id (omega arith),
          (
            record { type_fits = omega arith; value_fits = f.text_fits },
            last-Fits m.client_msg_id m.created_at_ms f.client_id_fits,
          ),
        ),
      ),
    ),
  ),
)

type_value_small : (t : ConversationType) → type_value t < 2 ^ 64
type_value_small private_chat = omega arith
type_value_small group = omega arith

time_value :
    (id : Bytes) (time : ℕ)
    → time < 2 ^ 64
    → first_uint64
        (values_of Tlv.timestamp_ms (id_records id ++ (number_field Tlv.timestamp_ms time ∷ [])))
      ≡ ok time
time_value [] time h = first_uint64-be time [] h
time_value (b ∷ bs) time h = first_uint64-be time [] h

id_value :
    (id : Bytes) (time : ℕ)
    → first_string (
        values_of Tlv.client_message_id
          (id_records id ++ (number_field Tlv.timestamp_ms time ∷ [])))
      ≡ id_read id
id_value [] time = refl
id_value (b ∷ bs) time = refl

-- The fields of a message make a body, from which a client that parses it reads the message back: every
-- number, the text, the time, and the client's id where there is one.
pub append_message_fields-ReadAs :
    (m : MessageRecord)
    → FitsPacket m
    → (body : Bytes) × (append_message_fields m [] ≡ ok body)
      × ReadAs m (parse_tlv_map (bytes body)).0
append_message_fields-ReadAs m f =
    let rs = message_records m in
    let read = λ (t : ℕ). getters-body_bytes rs t (message_records-Fits m f) in
    let after = λ (t : ℕ).
      values_of t
        (id_records m.client_msg_id ++ (number_field Tlv.timestamp_ms m.created_at_ms ∷ [])) in
    (
      body_bytes rs,
      (append_message_fields-Written m [] f.text_fits f.client_id_fits).written_as,
      record {
        id_read_lem =
            (read Tlv.message_id).1 ∙ first_uint64-be m.message_id (after Tlv.message_id) f.id_fits;
        type_read =
            (read Tlv.conversation_type).1
            ∙ first_uint64-be (type_value m.conversation.type) (after Tlv.conversation_type)
                (type_value_small m.conversation.type);
        conversation_read =
            (read Tlv.conversation_id).1
            ∙ first_uint64-be m.conversation.id (after Tlv.conversation_id) f.conversation_fits;
        sender_read =
            (read Tlv.sender_id).1
            ∙ first_uint64-be m.sender_id (after Tlv.sender_id) f.sender_fits;
        receiver_read =
            (read Tlv.receiver_id).1
            ∙ first_uint64-be m.receiver_id (after Tlv.receiver_id) f.receiver_fits;
        text_read = (read Tlv.message_text).0;
        client_id_read = (read Tlv.client_message_id).0 ∙ id_value m.client_msg_id m.created_at_ms;
        time_read =
            (read Tlv.timestamp_ms).1 ∙ time_value m.client_msg_id m.created_at_ms f.time_fits;
      },
    )
