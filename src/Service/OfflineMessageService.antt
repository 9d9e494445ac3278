-- ===== src/Service/OfflineMessageService.antt =====
-- include/liteim/service/OfflineMessageService.hpp and src/service/OfflineMessageService.cpp: a user pulls the
-- messages that wait for him, and acknowledges them.
pub mod Limits
pub mod Body
pub mod Conversations
pub mod Pulls
pub mod Acks
mod Tests
use lite_im.Prelude.{
  ℕ, Bool, true, false, not, ◌&&◌, ◌||◌, List, [], ◌∷◌, ◌++◌, Option, none, some, ltb, ◌==◌,
  if◌then◌else◌,
}
use lite_im.Prelude.Assoc.{find}
use lite_im.Status.{Status, error, invalid_argument, is_ok, Result, ok, err}
use lite_im.Protocol.Bytes.{Bytes}
use lite_im.Protocol.MessageType.{offline_messages_response, offline_messages_ack_response}
use lite_im.Protocol.Tlv
use lite_im.Protocol.Packet.{Packet}
use lite_im.Protocol.TlvCodec.{TlvMap, get_uint64, get_repeated_uint64, append_uint64}
use lite_im.Service.Action.{Action, pure, raise, lift, unless, examine, ◌>>=◌, ◌>>◌}
use lite_im.Service.Fields.{bind_result, appended}
use lite_im.Service.Records.{
  Session, ConversationKey, type_value, UnreadKey, OfflineMessageRecord, delivered_value,
  RouterRequest, response_packet,
}
use lite_im.Service.Interfaces.{OnlineSessions, UnreadCache, not_logged_in_status, if_not_found}
use lite_im.Service.MessagePacketBuilder.{append_message_fields}

abbrev pub hard_max_messages_per_pull : ℕ
hard_max_messages_per_pull = 100

abbrev pub invalid_limit_status : Status
invalid_limit_status = error invalid_argument "offline message limit must be positive"

abbrev pub invalid_ack_status : Status
invalid_ack_status = error invalid_argument "offline ack message ids must not be empty"

-- The calls of `IStorage`.
pub record OfflineStorage (S : Type 0) : Type 0 where
  pub get_offline_messages : ℕ → ℕ → Action S (List OfflineMessageRecord)
  pub ack_offline_messages : ℕ → List ℕ → Action S (List OfflineMessageRecord)

-- What the constructor lets pass.
unfoldable pub is_valid_limit : ℕ → Bool
is_valid_limit max_messages_per_pull =
    not (max_messages_per_pull == 0 || ltb hard_max_messages_per_pull max_messages_per_pull)

unfoldable pub same_conversation : ConversationKey → ConversationKey → Bool
same_conversation lhs rhs = type_value lhs.type == type_value rhs.type && lhs.id == rhs.id

unfoldable pub contains_conversation : List ConversationKey → ConversationKey → Bool
contains_conversation [] conversation = false
contains_conversation (item ∷ items) conversation =
    same_conversation item conversation || contains_conversation items conversation

-- The first loop of `clearUnreadForMessages`, from the conversations found so far.
unfoldable pub collect : List ConversationKey → List OfflineMessageRecord → List ConversationKey
collect conversations [] = conversations
collect conversations (m ∷ ms) =
    collect
      (if not (contains_conversation conversations m.message.conversation)
        then conversations ++ (m.message.conversation ∷ [])
        else conversations)
      ms

abbrev pub limit_of : ℕ → ℕ → Result ℕ
limit_of max_messages_per_pull requested_limit =
    if requested_limit == 0
    then err invalid_limit_status
    else ok (
        if ltb requested_limit max_messages_per_pull
        then requested_limit
        else max_messages_per_pull)

-- The service's own limit, where the field is missing.
abbrev pub limit_or : ℕ → Result ℕ → Option (List Bytes) → Result ℕ
limit_or max_messages_per_pull given none = ok max_messages_per_pull
limit_or max_messages_per_pull given (some values) =
    bind_result given (limit_of max_messages_per_pull)

unfoldable pub request_limit : ℕ → TlvMap → Result ℕ
request_limit max_messages_per_pull fields =
    limit_or max_messages_per_pull (get_uint64 fields Tlv.limit) (find Tlv.limit fields)

unfoldable pub append_messages : List OfflineMessageRecord → Bytes → Result Bytes
append_messages [] body = ok body
append_messages (m ∷ ms) body =
    bind_result (append_message_fields m.message body) (append_messages ms)

unfoldable pub append_acked_message_ids : List OfflineMessageRecord → Bytes → Result Bytes
append_acked_message_ids [] body = ok body
append_acked_message_ids (m ∷ ms) body =
    bind_result (appended (append_uint64 Tlv.message_id m.message.message_id body)) (λ b.
      bind_result (appended (append_uint64 Tlv.delivery_status delivered_value b))
        (append_acked_message_ids ms))

-- A status other than `Ok` of the whole call ends it, whatever ids were read before.
abbrev pub checked : List ℕ × Status → Result (List ℕ)
checked (ids, status) = if is_ok status then ok ids else err status

abbrev pub is_empty_list : List ℕ → Bool
is_empty_list [] = true
is_empty_list (n ∷ ns) = false

module _ {S : Type 0} (online_service : OnlineSessions S) (storage : OfflineStorage S)
    (cache : UnreadCache S) (max_messages_per_pull : ℕ) where
  abbrev pub user_of : Result ℕ → Action S ℕ
  user_of (ok user_id) = pure user_id
  user_of (err e) = if_not_found (raise not_logged_in_status) e

  unfoldable pub current_user_id : RouterRequest → Action S ℕ
  current_user_id request = elim request.session [
    | none ↦ raise not_logged_in_status
    | some session ↦ examine (online_service.get_user_by_session session.id) user_of
  ]

  unfoldable pub handle_offline_messages : RouterRequest → Action S Packet
  handle_offline_messages request = do
    user_id ← current_user_id request
    limit ← lift (request_limit max_messages_per_pull request.fields)
    messages ← storage.get_offline_messages user_id limit
    body ← lift (append_messages messages [])
    pure (response_packet offline_messages_response request body)

  -- The second loop of `clearUnreadForMessages`.
  unfoldable pub clear_unread : ℕ → List ConversationKey → Action S (Unit {0})
  clear_unread user_id [] = pure tt
  clear_unread user_id (k ∷ ks) = do
    cache.clear_unread (record { user_id = user_id; conversation = k })
    clear_unread user_id ks

  -- A counter that cannot be cleared is logged only.
  abbrev pub clear_and_answer : ℕ → List OfflineMessageRecord → Packet → Action S Packet
  clear_and_answer user_id messages packet =
      examine (clear_unread user_id (collect [] messages)) (λ r. pure packet)

  unfoldable pub handle_offline_messages_ack : RouterRequest → Action S Packet
  handle_offline_messages_ack request = do
    user_id ← current_user_id request
    message_ids ← lift (checked (get_repeated_uint64 request.fields Tlv.message_id))
    unless (is_empty_list message_ids) invalid_ack_status
    acked_messages ← storage.ack_offline_messages user_id message_ids
    body ← lift (append_acked_message_ids acked_messages [])
    clear_and_answer user_id acked_messages
        (response_packet offline_messages_ack_response request body)
