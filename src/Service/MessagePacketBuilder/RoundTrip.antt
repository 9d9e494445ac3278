-- ===== src/Service/MessagePacketBuilder/RoundTrip.antt =====
-- A message's fields in a body, read back.
use lite_im.Prelude.{
  ℕ, ◌≤◌, ◌<◌, ◌^◌, ◌≡◌, ◌≢◌, refl, ap, ◌∙◌, sym, [], ◌∷◌, ◌++◌, List, append_assoc, append-nil,
  length, arith,
}
use lite_im.Status.{Result, ok}
use lite_im.Protocol.Bytes.{Bytes}
use lite_im.Protocol.Tlv
use lite_im.Protocol.ByteOrder.Values.{be}
use lite_im.Protocol.TlvCodec.{append_string, append_uint64, max_tlv_value_length, unknown_type}
use lite_im.Protocol.TlvCodec.Records.{TlvRecord, record_bytes, body_bytes}
use lite_im.Protocol.TlvCodec.Append.{append_value-record_bytes, append_uint64-record_bytes}
use lite_im.Service.Fields.{bind_result, appended}
use lite_im.Service.Records.{type_value, MessageRecord}
use lite_im.Service.MessagePacketBuilder.{
  append_message_fields, append_conversation_type, append_client_message_id,
}

abbrev pub number_field : ℕ → ℕ → TlvRecord
number_field type value = record { type = type; value = be 8 value }

abbrev pub text_field : ℕ → Bytes → TlvRecord
text_field type value = record { type = type; value = value }

-- `x` is the body with these records behind it.
pub record Written (x : Result Bytes) (body : Bytes) (rs : List TlvRecord) : Type 0 where
  pub written_as : x ≡ ok (body ++ body_bytes rs)

ok-Written :
    (r : TlvRecord) (body : Bytes)
    → (x : Result Bytes) → x ≡ ok (body ++ record_bytes r)
    → Written x body (r ∷ [])
ok-Written r body x h = record {
  written_as = h ∙ ap (λ bs. ok (body ++ bs)) (sym (append-nil (record_bytes r)));
}

pub append_uint64-Written :
    (type value : ℕ) (body : Bytes)
    → type ≢ unknown_type
    → type < 2 ^ 16
    → Written (appended (append_uint64 type value body)) body (number_field type value ∷ [])
append_uint64-Written type value body k h =
    ok-Written (number_field type value) body _
      (rw (append_uint64-record_bytes type value body k h) (refl))

pub append_string-Written :
    (type : ℕ) (value body : Bytes)
    → type ≢ unknown_type
    → type < 2 ^ 16
    → length value ≤ max_tlv_value_length
    → Written (appended (append_string type value body)) body (text_field type value ∷ [])
unfolding append_string
append_string-Written type value body k h l = ok-Written (text_field type value) body _ (
    rw (append_value-record_bytes type value body k (record { type_fits = h; value_fits = l }))
      (refl))

pub nothing-Written : (body : Bytes) → Written (ok body) body []
nothing-Written body = record { written_as = ap (λ bs. ok bs) (sym (append-nil body)) }

pub body_bytes-append :
    (rs rs' : List TlvRecord) → body_bytes (rs ++ rs') ≡ body_bytes rs ++ body_bytes rs'
body_bytes-append [] rs' = refl
body_bytes-append (r ∷ rs) rs' =
    ap (λ bs. record_bytes r ++ bs) (body_bytes-append rs rs')
    ∙ sym (append_assoc (record_bytes r) (body_bytes rs) (body_bytes rs'))

module _ {g : Bytes → Result Bytes} {rs' : List TlvRecord} where
  -- Some records, and those that are written behind them.
  pub bind_result-Written :
      (x : Result Bytes) (body : Bytes) (rs : List TlvRecord)
      → Written x body rs
      → ((b : Bytes) → Written (g b) b rs')
      → Written (bind_result x g) body (rs ++ rs')
  bind_result-Written x body rs h h' = record {
    written_as =
        ap (λ y. bind_result y g) h.written_as
        ∙ (h' (body ++ body_bytes rs)).written_as
        ∙ ap (λ bs. ok bs)
            (append_assoc body (body_bytes rs) (body_bytes rs')
              ∙ ap (λ bs. body ++ bs) (sym (body_bytes-append rs rs')));
  }

-- The record of a client's id, where there is one.
abbrev pub id_records : Bytes → List TlvRecord
id_records [] = []
id_records (b ∷ bs) = text_field Tlv.client_message_id (b ∷ bs) ∷ []

append_client_message_id-Written :
    (id body : Bytes)
    → length id ≤ max_tlv_value_length
    → Written (append_client_message_id id body) body (id_records id)
unfolding append_client_message_id
append_client_message_id-Written [] body l = nothing-Written body
append_client_message_id-Written (b ∷ bs) body l =
    append_string-Written Tlv.client_message_id (b ∷ bs) body (omega arith) (omega arith) l

-- What a message is in a body.
abbrev pub message_records : MessageRecord → List TlvRecord
message_records m =
    number_field Tlv.message_id m.message_id
    ∷ number_field Tlv.conversation_type (type_value m.conversation.type)
    ∷ number_field Tlv.conversation_id m.conversation.id
    ∷ number_field Tlv.sender_id m.sender_id
    ∷ number_field Tlv.receiver_id m.receiver_id
    ∷ text_field Tlv.message_text m.text
    ∷ (id_records m.client_msg_id ++ (number_field Tlv.timestamp_ms m.created_at_ms ∷ []))

-- A message whose text and client id are within the limit of a value is written as its records.
pub append_message_fields-Written :
    (m : MessageRecord) (body : Bytes)
    → length m.text ≤ max_tlv_value_length
    → length m.client_msg_id ≤ max_tlv_value_length
    → Written (append_message_fields m body) body (message_records m)
unfolding append_message_fields append_conversation_type
append_message_fields-Written m body t c =
    bind_result-Written _ _ _
      (append_uint64-Written Tlv.message_id m.message_id body (omega arith) (omega arith))
      (λ b1.
        bind_result-Written _ _ _
          (append_uint64-Written Tlv.conversation_type (type_value m.conversation.type) b1
            (omega arith) (omega arith))
          (λ b2.
            bind_result-Written _ _ _
              (append_uint64-Written Tlv.conversation_id m.conversation.id b2 (omega arith)
                (omega arith))
              (λ b3.
                bind_result-Written _ _ _
                  (append_uint64-Written Tlv.sender_id m.sender_id b3 (omega arith) (omega arith))
                  (λ b4.
                    bind_result-Written _ _ _
                      (append_uint64-Written Tlv.receiver_id m.receiver_id b4 (omega arith)
                        (omega arith))
                      (λ b5.
                        bind_result-Written _ _ _
                          (append_string-Written Tlv.message_text m.text b5 (omega arith)
                            (omega arith) t)
                          (λ b6.
                            bind_result-Written _ _ _
                              (append_client_message_id-Written m.client_msg_id b6 c)
                              (λ b7.
                                append_uint64-Written Tlv.timestamp_ms m.created_at_ms b7
                                  (omega arith) (omega arith))))))))
