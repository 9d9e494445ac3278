-- ===== src/Service/OfflineMessageService/Tests.antt =====
-- The offline messages of a user who has two, and the theorems at them.
use lite_im.Prelude.{
  ℕ, suc, ◌↔◌, ◌≤◌, ◌≡◌, refl, Bool, true, false, List, [], ◌∷◌, some, length, arith,
}
use lite_im.Status.{Result, ok, err, error, not_found}
use mathlib.Core.List.{Mem}
use lite_im.Protocol.Bytes.{Bytes}
use lite_im.Protocol.MessageType.{offline_messages_ack_response}
use lite_im.Protocol.Packet.{Packet, max_packet_body_length}
use lite_im.Protocol.TlvCodec.{TlvMap}
use lite_im.Service.Records.{
  private_chat, group, ConversationKey, OfflineMessageRecord, RouterRequest, response_packet,
}
use lite_im.Service.Interfaces.{OnlineSessions, UnreadCache}
use lite_im.Service.OfflineMessageService.{
  OfflineStorage, is_valid_limit, request_limit, append_messages, append_acked_message_ids, collect,
  hard_max_messages_per_pull, handle_offline_messages,
}
use lite_im.Service.OfflineMessageService.Body.{append_messages_fits}
use lite_im.Service.OfflineMessageService.Conversations.{
  conversations_of, IsWithoutRepeats, collect_lem,
}

abbrev message : ℕ → ConversationKey → OfflineMessageRecord
message id key = record {
  offline_message_id = id;
  user_id = 6;
  message = record {
    message_id = id;
    conversation = key;
    sender_id = 5;
    receiver_id = 6;
    text = 104 ∷ 105 ∷ [];
    created_at_ms = 77;
    client_msg_id = [];
  };
}

abbrev chat : ConversationKey
chat = record { type = private_chat; id = 50006 }

abbrev waiting : List OfflineMessageRecord
waiting = message 1 chat ∷ message 2 chat ∷ message 3 (record { type = group; id = 50006 }) ∷ []

append_messages_fits_example :
    (body : Bytes) × (append_messages waiting [] ≡ ok body) × (length body ≤ max_packet_body_length)
append_messages_fits_example = append_messages_fits waiting (omega arith) (
  record { text_small = omega arith; client_id_small = omega arith },
  (
    record { text_small = omega arith; client_id_small = omega arith },
    (record { text_small = omega arith; client_id_small = omega arith }, tt),
  ),
)

collect_lem_example :
    IsWithoutRepeats (collect [] waiting)
    × ((k : ConversationKey) → Mem k (collect [] waiting) ↔ Mem k (conversations_of waiting))
collect_lem_example = collect_lem waiting

-- A request for 500 messages, and one for 3.
abbrev asks_for : ℕ → ℕ → TlvMap
asks_for high low = (48, (0 ∷ 0 ∷ 0 ∷ 0 ∷ 0 ∷ 0 ∷ high ∷ low ∷ []) ∷ []) ∷ []

many_asked : request_limit 50 (asks_for 1 244) ≡ ok 50
unfolding request_limit lite_im.Protocol.TlvCodec.get_uint64 lite_im.Protocol.TlvCodec.find_values
    lite_im.Prelude.Assoc.find lite_im.Protocol.ByteOrder.read_uint64_be
many_asked = refl

few_asked : request_limit 50 (asks_for 0 3) ≡ ok 3
unfolding request_limit lite_im.Protocol.TlvCodec.get_uint64 lite_im.Protocol.TlvCodec.find_values
    lite_im.Prelude.Assoc.find lite_im.Protocol.ByteOrder.read_uint64_be
few_asked = refl

abbrev three : ℕ
three = 3

abbrev fifty : ℕ
fifty = 50

fifty_is_valid : is_valid_limit fifty ≡ true
unfolding is_valid_limit
fifty_is_valid = refl

-- The state counts the counters that were cleared.
abbrev sessions : OnlineSessions ℕ
sessions = record {
  is_closed = λ session s. false;
  send_packet = λ session packet s. (ok tt, s);
  get_user_by_session = λ id s. (ok 6, s);
  get_session_by_user = λ id s. (err (error not_found "offline"), s);
}

abbrev store : OfflineStorage ℕ
store = record {
  get_offline_messages = λ user most s. (ok waiting, s);
  ack_offline_messages = λ user ids s. (ok waiting, s);
}

abbrev counters : UnreadCache ℕ
counters = record { incr_unread = λ key n s. (ok n, s); clear_unread = λ key s. (ok tt, suc s) }

abbrev ack_request : RouterRequest
ack_request = record {
  session = some (record { id = 9; peer_ip = [] });
  seq_id = 4;
  fields = (42, (0 ∷ 0 ∷ 0 ∷ 0 ∷ 0 ∷ 0 ∷ 0 ∷ 1 ∷ []) ∷ []) ∷ [];
}

abbrev body_of : Result Bytes → Bytes
body_of (ok b) = b
body_of (err e) = []

abbrev ack_reply : Packet
ack_reply =
    response_packet offline_messages_ack_response ack_request
      (body_of (append_acked_message_ids waiting []))
