-- ===== src/Service/ChatService/Tests.antt =====
-- The chat service over a small store, and the theorems at it.
use lite_im.Prelude.{
  ℕ, ◌+◌, ◌*◌, ◌^◌, ◌<◌, ◌≡◌, ◌≢◌, ◌⊎◌, ◌↔◌, inl, inr, refl, Bool, true, false, List, [], ◌∷◌, ◌++◌,
  Option, none, some, length, ◌==◌, if◌then◌else◌, arith,
}
use lite_im.Status.{error, not_found, already_exists, Result, ok, err}
use lite_im.Protocol.Bytes.{Bytes}
use lite_im.Protocol.MessageType.{private_message_response, delivery_ack_response}
use lite_im.Protocol.Packet.{Packet}
use lite_im.Service.Action.{Action}
use lite_im.Service.Records.{UserRecord, MessageRecord, pushed, RouterRequest, response_packet}
use lite_im.Service.Interfaces.{OnlineSessions, MessageStorage, UnreadCache}
use lite_im.Service.MessagePacketBuilder.{append_message_fields}
use lite_im.Service.ChatService.{
  private_conversation_id, handle_private_message, handle_delivery_ack, new_message, append_ack,
}
use lite_im.Service.ChatService.Private.{Sent, handle_private_message-Sent}
use lite_im.Service.ChatService.Ack.{Acknowledged, handle_delivery_ack-Acknowledged}
use lite_im.Service.ChatService.Conversations.{private_conversation_id_iff}

-- The messages, the receivers who have one to pull, and the number of unread counts.
record Store : Type 0 where
  messages : List MessageRecord
  to_pull : List ℕ
  counts : ℕ

-- The user 5 is online in session 9, and nobody else.
abbrev sessions : OnlineSessions Store
sessions = record {
  is_closed = λ session s. false;
  send_packet = λ session packet s. (ok tt, s);
  get_user_by_session = λ id s. (ok 5, s);
  get_session_by_user = λ id s. (err (error not_found "offline"), s);
}

abbrev user_six : UserRecord
user_six = record { id = 6; name = []; password_hash = []; password_salt = []; nick = [] }

abbrev numbered : MessageRecord → MessageRecord
numbered m = record m { message_id = 1; created_at_ms = 77 }

abbrev store : MessageStorage Store
store = record {
  find_user_by_id = λ id s. (ok user_six, s);
  are_friends = λ a b s. (ok true, s);
  save_message_with_offline_recipients = λ m ids s. (
    ok (numbered m),
    record s { messages = numbered m ∷ s.messages; to_pull = ids ++ s.to_pull },
  );
  find_message_by_client_message_id = λ sender id s. (err (error not_found "none"), s);
  find_delivery_status = λ user id s. (ok pushed, s);
  save_offline_message = λ user id s. (err (error already_exists "twice"), s);
  ack_private_message_delivery =
      λ user id s. (ok (numbered (new_message 50006 6 5 (104 ∷ []) [])), s);
}

abbrev counts : UnreadCache Store
counts = record {
  incr_unread = λ key n s. (ok (s.counts + n), record s { counts = s.counts + n });
  clear_unread = λ key s. (ok tt, record s { counts = 0 });
}

abbrev eight : ℕ → Bytes
eight n = 0 ∷ 0 ∷ 0 ∷ 0 ∷ 0 ∷ 0 ∷ 0 ∷ n ∷ []

-- To the user 6: "hi".
abbrev request : RouterRequest
request = record {
  session = some (record { id = 9; peer_ip = [] });
  seq_id = 4;
  fields = (45, eight 6 ∷ []) ∷ (43, (104 ∷ 105 ∷ []) ∷ []) ∷ [];
}

abbrev ack_request : RouterRequest
ack_request = record request { fields = (42, eight 1 ∷ []) ∷ [] }

abbrev nothing_yet : Store
nothing_yet = record { messages = []; to_pull = []; counts = 0 }

abbrev body_of : Result Bytes → Bytes
body_of (ok b) = b
body_of (err e) = []

abbrev hello : MessageRecord
hello = numbered (new_message 50006 5 6 (104 ∷ 105 ∷ []) [])

abbrev reply : Packet
reply = response_packet private_message_response request (body_of (append_message_fields hello []))

abbrev ack_reply : Packet
ack_reply = response_packet delivery_ack_response ack_request (body_of (append_ack hello))

abbrev with_hello : Store
with_hello = record { messages = hello ∷ []; to_pull = 6 ∷ []; counts = 1 }

hello_sent :
    handle_private_message sessions store counts request nothing_yet ≡ (ok reply, with_hello)
unfolding handle_private_message lite_im.Service.Action.◌>>=◌
    lite_im.Service.ChatService.current_user_id lite_im.Service.Action.examine
    lite_im.Protocol.TlvCodec.get_uint64 lite_im.Protocol.TlvCodec.find_values
    lite_im.Prelude.Assoc.find lite_im.Protocol.ByteOrder.read_uint64_be
    lite_im.Protocol.TlvCodec.append_uint64 lite_im.Protocol.TlvCodec.append_value
    lite_im.Protocol.ByteOrder.append_uint64_be lite_im.Service.Fields.bounded_string
    lite_im.Protocol.TlvCodec.get_string lite_im.Service.ChatService.client_message_id
    private_conversation_id lite_im.Service.ChatService.find_receiver
    lite_im.Service.ChatService.increment_unread_for_message append_message_fields
    lite_im.Protocol.ByteOrder.append_uint16_be lite_im.Protocol.ByteOrder.append_uint32_be
    lite_im.Protocol.TlvCodec.append_string lite_im.Service.Fields.not_empty
    lite_im.Service.Fields.required_string lite_im.Service.Fields.validate_max_bytes
    lite_im.Service.MessagePacketBuilder.append_client_message_id
    lite_im.Service.MessagePacketBuilder.append_conversation_type
hello_sent = refl

ack_works :
    handle_delivery_ack sessions store counts ack_request nothing_yet ≡ (ok ack_reply, nothing_yet)
unfolding handle_delivery_ack lite_im.Service.Action.◌>>=◌
    lite_im.Service.ChatService.current_user_id lite_im.Service.Action.examine
    lite_im.Protocol.TlvCodec.get_uint64 lite_im.Protocol.TlvCodec.find_values
    lite_im.Prelude.Assoc.find lite_im.Protocol.ByteOrder.read_uint64_be
    lite_im.Protocol.TlvCodec.append_uint64 lite_im.Protocol.TlvCodec.append_value
    lite_im.Protocol.ByteOrder.append_uint64_be
ack_works = refl

handle_private_message-Sent_example :
    Sent sessions store counts request reply nothing_yet with_hello
handle_private_message-Sent_example =
    handle_private_message-Sent sessions store counts request reply nothing_yet with_hello
      hello_sent

handle_delivery_ack-Acknowledged_example :
    Acknowledged sessions store counts ack_request ack_reply nothing_yet nothing_yet
handle_delivery_ack-Acknowledged_example =
    handle_delivery_ack-Acknowledged sessions store counts ack_request ack_reply nothing_yet
      nothing_yet ack_works

abbrev five : ℕ
five = 5

abbrev six : ℕ
six = 6

abbrev number : ℕ
number = 50006

conversation_of_five : private_conversation_id 5 6 ≡ ok 50006
unfolding private_conversation_id
conversation_of_five = refl

conversation_of_six : private_conversation_id 6 5 ≡ ok 50006
unfolding private_conversation_id
conversation_of_six = refl

private_conversation_id_iff_example :
    (number ≡ number) ↔ (((five ≡ six) × (six ≡ five)) ⊎ ((five ≡ five) × (six ≡ six)))
private_conversation_id_iff_example =
    private_conversation_id_iff five six six five number number conversation_of_five
      conversation_of_six
