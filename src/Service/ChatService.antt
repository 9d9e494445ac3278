-- ===== src/Service/ChatService.antt =====
-- include/liteim/service/ChatService.hpp and src/service/ChatService.cpp: private messages, over the
-- interfaces of the online service, the storage and the cache.
pub mod Delivery
pub mod Sent
pub mod Private
pub mod Ack
pub mod Conversations
mod Tests
use lite_im.Prelude.{
  ℕ, ◌+◌, ◌-◌, ◌*◌, ◌%◌, ◌^◌, min, max, Bool, true, false, not, ◌&&◌, ◌||◌, List, [], ◌∷◌, Option,
  none, some, length, ltb, ◌==◌, if◌then◌else◌,
}
use Prim.Native.Nat.{bit_or}
use lite_im.Prelude.Assoc.{find}
use lite_im.Status.{Status, error, invalid_argument, Result, ok, err}
use lite_im.Protocol.Bytes.{Bytes}
use lite_im.Protocol.MessageType.{
  private_message_response, private_message_push, delivery_ack_response,
}
use lite_im.Protocol.Tlv
use lite_im.Protocol.Packet.{Packet, default_header}
use lite_im.Protocol.TlvCodec.{TlvMap, get_uint64, append_uint64}
use lite_im.Service.Action.{Action, pure, raise, lift, observe, unless, examine, ◌>>=◌, ◌>>◌}
use lite_im.Service.Fields.{bounded_string, bind_result, appended}
use lite_im.Service.Records.{
  Session, UserRecord, MessageRecord, DeliveryStatus, pending, pushed, delivered, read_reserved,
  delivered_value, ConversationType, private_chat, UnreadKey, RouterRequest, response_packet,
}
use lite_im.Service.Interfaces.{
  OnlineSessions, MessageStorage, UnreadCache, not_logged_in_status, if_not_found,
  if_already_exists,
}
use lite_im.Service.MessagePacketBuilder.{append_message_fields}

abbrev pub small_user_id_conversation_base : ℕ
small_user_id_conversation_base = 10000

abbrev pub max_message_text_bytes : ℕ
max_message_text_bytes = 8 * 1024

abbrev pub max_client_message_id_bytes : ℕ
max_client_message_id_bytes = 64

abbrev pub invalid_receiver_status : Status
invalid_receiver_status = error invalid_argument "receiver user id is invalid"

abbrev pub invalid_message_id_status : Status
invalid_message_id_status = error invalid_argument "message id is invalid"

abbrev pub not_accepted_friend_status : Status
not_accepted_friend_status = error invalid_argument "receiver is not an accepted friend"

-- One id for two users, in either order.
unfoldable pub private_conversation_id : ℕ → ℕ → Result ℕ
private_conversation_id sender_id receiver_id =
    let left : ℕ = min sender_id receiver_id in
    let right : ℕ = max sender_id receiver_id in
    if sender_id == 0 || receiver_id == 0 || sender_id == receiver_id
    then err invalid_receiver_status
    else if ltb left small_user_id_conversation_base && ltb right small_user_id_conversation_base
    then ok (left * small_user_id_conversation_base + right)
    else if ltb (2 ^ 32 - 1) right
    then err (error invalid_argument "user id is too large for private conversation id")
    else ok (bit_or (left * 2 ^ 32 % 2 ^ 64) right)

unfoldable pub is_terminal_delivery_status : DeliveryStatus → Bool
is_terminal_delivery_status pending = false
is_terminal_delivery_status pushed = false
is_terminal_delivery_status delivered = true
is_terminal_delivery_status read_reserved = true

-- No id where the field is missing.
unfoldable pub client_message_id : TlvMap → Result Bytes
client_message_id fields = elim (find Tlv.client_message_id fields) [
  | none ↦ ok []
  | some values ↦
      bounded_string fields Tlv.client_message_id "client message id" max_client_message_id_bytes
]

-- What `getSessionByUser` found: nobody, or a session, which may be null.
pub data Receiver : Type 0 where
  offline : Receiver
  online : Option Session → Receiver

abbrev pub offline_user_ids : ℕ → Receiver → List ℕ
offline_user_ids receiver_id offline = receiver_id ∷ []
offline_user_ids receiver_id (online session) = []

-- The message before it is saved: its id and time are the storage's.
abbrev pub new_message : ℕ → ℕ → ℕ → Bytes → Bytes → MessageRecord
new_message conversation_id sender_id receiver_id text client_msg_id = record {
  message_id = 0;
  conversation = record { type = private_chat; id = conversation_id };
  sender_id = sender_id;
  receiver_id = receiver_id;
  text = text;
  created_at_ms = 0;
  client_msg_id = client_msg_id;
}

abbrev pub push_packet : Bytes → Packet
push_packet body = record {
  header = record default_header { msg_type = private_message_push };
  body = body;
}

abbrev is_empty : Bytes → Bool
is_empty bs = length bs == 0

abbrev pub append_ack : MessageRecord → Result Bytes
append_ack message =
    bind_result (appended (append_uint64 Tlv.message_id message.message_id []))
      (λ b. appended (append_uint64 Tlv.delivery_status delivered_value b))

module _ {S : Type 0} (online_service : OnlineSessions S) (storage : MessageStorage S)
    (cache : UnreadCache S) where
  -- A failure is logged only.
  unfoldable pub increment_unread_for_message : ℕ → MessageRecord → Action S (Unit {0})
  increment_unread_for_message receiver_id message =
      examine
        (cache.incr_unread (record { user_id = receiver_id; conversation = message.conversation })
          1)
        (λ r. pure tt)

  abbrev pub after_offline_save : ℕ → MessageRecord → Result (Unit {0}) → Action S (Unit {0})
  after_offline_save receiver_id message (ok u) = increment_unread_for_message receiver_id message
  after_offline_save receiver_id message (err e) = if_already_exists (pure tt) e

  unfoldable pub ensure_offline_fallback : ℕ → MessageRecord → Action S (Unit {0})
  ensure_offline_fallback receiver_id message =
      examine (storage.save_offline_message receiver_id message.message_id)
        (after_offline_save receiver_id message)

  abbrev pub delivered_of : Result DeliveryStatus → Action S Bool
  delivered_of (ok status) = pure (is_terminal_delivery_status status)
  delivered_of (err e) = if_not_found (pure false) e

  unfoldable pub is_message_already_delivered : ℕ → ℕ → Action S Bool
  is_message_already_delivered receiver_id message_id =
      examine (storage.find_delivery_status receiver_id message_id) delivered_of

  abbrev pub after_send : ℕ → MessageRecord → Result (Unit {0}) → Action S (Unit {0})
  after_send receiver_id message (ok u) = pure tt
  after_send receiver_id message (err e) = ensure_offline_fallback receiver_id message

  abbrev pub push : Session → ℕ → MessageRecord → Action S (Unit {0})
  push session receiver_id message = do
    body ← lift (append_message_fields message [])
    examine (online_service.send_packet session (push_packet body)) (after_send receiver_id message)

  unfoldable pub push_private_or_fallback : Option Session → ℕ → MessageRecord → Action S (Unit {0})
  push_private_or_fallback none receiver_id message = ensure_offline_fallback receiver_id message
  push_private_or_fallback (some session) receiver_id message = do
    closed ← observe (online_service.is_closed session)
    if closed then ensure_offline_fallback receiver_id message else push session receiver_id message

  abbrev pub user_of : Result ℕ → Action S ℕ
  user_of (ok user_id) = pure user_id
  user_of (err e) = if_not_found (raise not_logged_in_status) e

  abbrev pub user_of_open : Session → Action S ℕ
  user_of_open session = do
    closed ← observe (online_service.is_closed session)
    if closed
        then raise not_logged_in_status
        else examine (online_service.get_user_by_session session.id) user_of

  unfoldable pub current_user_id : RouterRequest → Action S ℕ
  current_user_id request = elim request.session [
    | none ↦ raise not_logged_in_status
    | some session ↦ user_of_open session
  ]

  abbrev pub receiver_of : Result (Option Session) → Action S Receiver
  receiver_of (ok session) = pure (online session)
  receiver_of (err e) = if_not_found (pure offline) e

  -- Whether the receiver is online, and with what session.
  unfoldable pub find_receiver : ℕ → Action S Receiver
  find_receiver receiver_id = examine (online_service.get_session_by_user receiver_id) receiver_of

  -- The end of `handlePrivateMessage`, which is there for each way to get to it.
  abbrev pub respond : RouterRequest → MessageRecord → Action S Packet
  respond request saved = do
    body ← lift (append_message_fields saved [])
    pure (response_packet private_message_response request body)

  -- The delivery of a message that was saved just now, or that was saved by an earlier request.
  abbrev pub deliver_new : Receiver → ℕ → MessageRecord → Action S (Unit {0})
  deliver_new offline receiver_id saved = increment_unread_for_message receiver_id saved
  deliver_new (online session) receiver_id saved =
      push_private_or_fallback session receiver_id saved

  abbrev pub deliver_again : Receiver → ℕ → MessageRecord → Action S (Unit {0})
  deliver_again offline receiver_id saved = ensure_offline_fallback receiver_id saved
  deliver_again (online session) receiver_id saved =
      push_private_or_fallback session receiver_id saved

  abbrev pub retry_delivery : RouterRequest → MessageRecord → Bool → Action S Packet
  retry_delivery request saved true = respond request saved
  retry_delivery request saved false = do
    receiver ← find_receiver saved.receiver_id
    deliver_again receiver saved.receiver_id saved
    respond request saved

  -- What follows where the client sent a message that is saved already.
  abbrev pub retry : RouterRequest → MessageRecord → Action S Packet
  retry request message = do
    saved ← storage.find_message_by_client_message_id message.sender_id message.client_msg_id
    already_delivered ← is_message_already_delivered saved.receiver_id saved.message_id
    retry_delivery request saved already_delivered

  abbrev pub after_save :
      RouterRequest → MessageRecord → Receiver → Result MessageRecord → Action S Packet
  after_save request message receiver (ok saved) = do
    deliver_new receiver message.receiver_id saved
    respond request saved
  after_save request message receiver (err e) =
      if is_empty message.client_msg_id
      then raise e
      else if_already_exists (retry request message) e

  -- `handlePrivateMessage`, from the look for the receiver's session on.
  abbrev pub save_and_deliver : RouterRequest → MessageRecord → Action S Packet
  save_and_deliver request message = do
    receiver ← find_receiver message.receiver_id
    examine
        (storage.save_message_with_offline_recipients message
          (offline_user_ids message.receiver_id receiver))
        (after_save request message receiver)

  -- From the look for the receiver on.
  abbrev pub send_to : RouterRequest → ℕ → ℕ → Bytes → Bytes → Action S Packet
  send_to request sender_id receiver_id text client_msg_id = do
    user ← storage.find_user_by_id receiver_id
    friends ← storage.are_friends sender_id receiver_id
    unless (not friends) not_accepted_friend_status
    conversation_id ← lift (private_conversation_id sender_id receiver_id)
    save_and_deliver request (new_message conversation_id sender_id receiver_id text client_msg_id)

  unfoldable pub handle_private_message : RouterRequest → Action S Packet
  handle_private_message request = do
    sender_id ← current_user_id request
    receiver_id ← lift (get_uint64 request.fields Tlv.receiver_id)
    unless (receiver_id == 0 || receiver_id == sender_id) invalid_receiver_status
    text ←
        lift (bounded_string request.fields Tlv.message_text "message text" max_message_text_bytes)
    client_msg_id ← lift (client_message_id request.fields)
    send_to request sender_id receiver_id text client_msg_id

  unfoldable pub handle_delivery_ack : RouterRequest → Action S Packet
  handle_delivery_ack request = do
    user_id ← current_user_id request
    message_id ← lift (get_uint64 request.fields Tlv.message_id)
    unless (message_id == 0) invalid_message_id_status
    message ← storage.ack_private_message_delivery user_id message_id
    body ← lift (append_ack message)
    pure (response_packet delivery_ack_response request body)
