-- ===== src/Service/MessageRouter/Errors.antt =====
-- What a client reads from an error response.
use lite_im.Prelude.{
  refl, ap, Bool, true, false, String, ◌≢◌, ◌⊎◌, inl, inr, ◌≤◌, ◌<◌, ◌^◌, ◌≡◌, ◌∙◌, [], ◌∷◌, length,
  All, arith, List,
}
use lite_im.Status.{
  invalid_argument, not_found, already_exists, io_error, parse_error, config_error, internal_error,
  resource_exhausted, ErrorCode, Status, to_value, to_string, ok,
}
use lite_im.Protocol.Bytes.{Bytes, bytes}
use lite_im.Protocol.Tlv
use lite_im.Protocol.ByteOrder.Values.{length-be}
use lite_im.Protocol.TlvCodec.{parse_tlv_map, get_uint64, get_string, max_tlv_value_length}
use lite_im.Protocol.TlvCodec.Records.{TlvRecord, Fits, body_bytes}
use lite_im.Protocol.TlvCodec.Getters.{getters-body_bytes, first_uint64-be}
use lite_im.Service.MessagePacketBuilder.RoundTrip.{
  Written, append_uint64-Written, append_string-Written, bind_result-Written, number_field,
  text_field,
}
use lite_im.Service.MessageRouter.{text_bytes, or_code_name, error_body}

abbrev error_text : Status → Bytes
error_text status = text_bytes (or_code_name status status.message)

abbrev error_records : Status → List TlvRecord
error_records status =
    number_field Tlv.error_code (to_value status.code)
    ∷ text_field Tlv.error_message (error_text status)
    ∷ []

error_body-Written :
    (status : Status)
    → length (error_text status) ≤ max_tlv_value_length
    → Written (error_body status) [] (error_records status)
unfolding error_body
error_body-Written status h =
    bind_result-Written _ _ _
      (append_uint64-Written Tlv.error_code (to_value status.code) [] (omega arith) (omega arith))
      (λ b.
        append_string-Written Tlv.error_message (error_text status) b (omega arith) (omega arith) h)

to_value_small : (c : ErrorCode) → to_value c < 2 ^ 64
unfolding to_value
to_value_small ErrorCode.ok = omega arith
to_value_small invalid_argument = omega arith
to_value_small not_found = omega arith
to_value_small already_exists = omega arith
to_value_small io_error = omega arith
to_value_small parse_error = omega arith
to_value_small config_error = omega arith
to_value_small internal_error = omega arith
to_value_small resource_exhausted = omega arith

to_string_small : (c : ErrorCode) → length (text_bytes (to_string c)) ≤ max_tlv_value_length
unfolding to_string text_bytes
to_string_small ErrorCode.ok = omega arith
to_string_small invalid_argument = omega arith
to_string_small not_found = omega arith
to_string_small already_exists = omega arith
to_string_small io_error = omega arith
to_string_small parse_error = omega arith
to_string_small config_error = omega arith
to_string_small internal_error = omega arith
to_string_small resource_exhausted = omega arith

-- The text of an error response: the message of the status, or the name of its code where it has none.
abbrev pub IsTextOf : Status → String → Type 0
IsTextOf status text =
    ((status.message ≡ "") × (text ≡ to_string status.code))
    ⊎ ((status.message ≢ "") × (text ≡ status.message))

abbrev is_empty_text : String → Bool
is_empty_text String.[] = true
is_empty_text (String.◌∷◌ x s) = false

or_code_name-IsTextOf :
    (c : ErrorCode) (m : String)
    → let status : Status = record { code = c; message = m } in
      IsTextOf status (or_code_name status m)
or_code_name-IsTextOf c String.[] = inl (refl, refl)
or_code_name-IsTextOf c (String.◌∷◌ x s) =
    inr ((λ q. let e = ap is_empty_text q in ground (arith, e)), refl)

error_text_small :
    (c : ErrorCode) (m : String)
    → length (text_bytes m) ≤ max_tlv_value_length
    → length (error_text (record { code = c; message = m })) ≤ max_tlv_value_length
error_text_small c String.[] h = to_string_small c
error_text_small c (String.◌∷◌ x s) h = h

-- An error response is made for every status whose message is within the limit of a value, and a client that
-- parses its body reads the code of the status, and its message, or the name of the code where the message is
-- empty.
pub error_body_read :
    (status : Status)
    → length (text_bytes status.message) ≤ max_tlv_value_length
    → (body : Bytes) × (text : String) × (error_body status ≡ ok body)
      × (get_uint64 (parse_tlv_map (bytes body)).0 Tlv.error_code ≡ ok (to_value status.code))
      × (get_string (parse_tlv_map (bytes body)).0 Tlv.error_message ≡ ok (text_bytes text))
      × IsTextOf status text
error_body_read status short =
    let rs = error_records status in
    let h = error_text_small status.code status.message short in
    let fit : All Fits rs = (
      record {
        type_fits = omega arith;
        value_fits = omega (arith, length-be 8 (to_value status.code));
      },
      (record { type_fits = omega arith; value_fits = h }, tt),
    ) in
    (
      body_bytes rs,
      or_code_name status status.message,
      (error_body-Written status h).written_as,
      (getters-body_bytes rs Tlv.error_code fit).1
          ∙ first_uint64-be (to_value status.code) [] (to_value_small status.code),
      (getters-body_bytes rs Tlv.error_message fit).0,
      or_code_name-IsTextOf status.code status.message,
    )
