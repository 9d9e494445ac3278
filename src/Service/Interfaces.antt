-- ===== src/Service/Interfaces.antt =====
-- What the services call: `OnlineService`, and of `IStorage` (include/liteim/storage/IStorage.hpp) and
-- `ICache` (include/liteim/cache/ICache.hpp) the calls about messages and unread counts. `S` is the state of
-- them all, in which a session is closed or not.
pub mod Rules
use lite_im.Prelude.{ℕ, Bool, List, Option, none, some}
use lite_im.Status.{
  ErrorCode, not_found, already_exists, Status, error, invalid_argument, Result, ok, err,
}
use lite_im.Protocol.Bytes.{Bytes}
use lite_im.Protocol.Packet.{Packet}
use lite_im.Service.Action.{Action, pure, raise}
use lite_im.Service.Records.{
  Session, UserRecord, MessageRecord, DeliveryStatus, UnreadKey, ConversationKey,
}

pub record OnlineSessions (S : Type 0) : Type 0 where
  pub is_closed : Session → S → Bool
  pub send_packet : Session → Packet → Action S (Unit {0})
  pub get_user_by_session : ℕ → Action S ℕ
  pub get_session_by_user : ℕ → Action S (Option Session)

pub record MessageStorage (S : Type 0) : Type 0 where
  pub find_user_by_id : ℕ → Action S UserRecord
  pub are_friends : ℕ → ℕ → Action S Bool
  pub save_message_with_offline_recipients : MessageRecord → List ℕ → Action S MessageRecord
  pub find_message_by_client_message_id : ℕ → Bytes → Action S MessageRecord
  pub find_delivery_status : ℕ → ℕ → Action S DeliveryStatus
  pub save_offline_message : ℕ → ℕ → Action S (Unit {0})
  pub ack_private_message_delivery : ℕ → ℕ → Action S MessageRecord

pub record UnreadCache (S : Type 0) : Type 0 where
  pub incr_unread : UnreadKey → ℕ → Action S ℕ
  pub clear_unread : UnreadKey → Action S (Unit {0})

abbrev pub not_logged_in_status : Status
not_logged_in_status = error invalid_argument "session is not logged in"

module _ {S A : Type 0} where
  abbrev else_raise : Action S A → Status → ErrorCode → Action S A
  else_raise m e not_found = m
  else_raise m e _ = raise e

  -- `if (status.code() == ErrorCode::NotFound)` behind a call that failed, any other error being returned.
  abbrev pub if_not_found : Action S A → Status → Action S A
  if_not_found m e = else_raise m e e.code

  abbrev else_raise_unless_exists : Action S A → Status → ErrorCode → Action S A
  else_raise_unless_exists m e already_exists = m
  else_raise_unless_exists m e _ = raise e

  abbrev pub if_already_exists : Action S A → Status → Action S A
  if_already_exists m e = else_raise_unless_exists m e e.code
