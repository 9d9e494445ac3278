-- ===== src/Service/MessagePacketBuilder/Tests.antt =====
-- A message in a body, and the theorem at it.
use lite_im.Prelude.{◌≡◌, [], ◌∷◌, arith}
use lite_im.Status.{ok}
use lite_im.Protocol.Bytes.{Bytes, bytes}
use lite_im.Protocol.TlvCodec.{parse_tlv_map}
use lite_im.Service.Records.{MessageRecord, private_chat}
use lite_im.Service.MessagePacketBuilder.{append_message_fields}
use lite_im.Service.MessagePacketBuilder.ReadBack.{ReadAs, append_message_fields-ReadAs}

abbrev hello : MessageRecord
hello = record {
  message_id = 1;
  conversation = record { type = private_chat; id = 50006 };
  sender_id = 5;
  receiver_id = 6;
  text = 104 ∷ 105 ∷ [];
  created_at_ms = 1700000000000;
  client_msg_id = 99 ∷ [];
}

append_message_fields-ReadAs_example :
    (body : Bytes) × (append_message_fields hello [] ≡ ok body)
    × ReadAs hello (parse_tlv_map (bytes body)).0
append_message_fields-ReadAs_example = append_message_fields-ReadAs hello (record {
  id_fits = omega arith;
  conversation_fits = omega arith;
  sender_fits = omega arith;
  receiver_fits = omega arith;
  time_fits = omega arith;
  text_fits = omega arith;
  client_id_fits = omega arith;
})
