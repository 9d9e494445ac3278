-- ===== src/Service/Records.antt =====
-- include/liteim/storage/StorageTypes.hpp, the request of include/liteim/service/MessageRouter.hpp, and what
-- the services know of a session. A `std::string` is its bytes; the time of a record's making is the number
-- that the packet carries, 64 bits without a sign.
use lite_im.Prelude.{ℕ, Option}
use lite_im.Protocol.Bytes.{Bytes}
use lite_im.Protocol.Packet.{Packet, default_header}
use lite_im.Protocol.TlvCodec.{TlvMap}

-- `UserRecord`, without the time of its making, which no handler reads.
pub record UserRecord : Type 0 where
  pub id : ℕ
  pub name : Bytes
  pub password_hash : Bytes
  pub password_salt : Bytes
  pub nick : Bytes

pub data ConversationType : Type 0 where
  private_chat group : ConversationType

-- The value of the enumerator.
abbrev pub type_value : ConversationType → ℕ
type_value private_chat = 1
type_value group = 2

pub record ConversationKey : Type 0 where
  pub type : ConversationType
  pub id : ℕ

pub record UnreadKey : Type 0 where
  pub user_id : ℕ
  pub conversation : ConversationKey

pub data DeliveryStatus : Type 0 where
  pending pushed delivered read_reserved : DeliveryStatus

abbrev pub delivered_value : ℕ
delivered_value = 2

pub record MessageRecord : Type 0 where
  pub message_id : ℕ
  pub conversation : ConversationKey
  pub sender_id : ℕ
  pub receiver_id : ℕ
  pub text : Bytes
  pub created_at_ms : ℕ
  pub client_msg_id : Bytes

pub record OfflineMessageRecord : Type 0 where
  pub offline_message_id : ℕ
  pub user_id : ℕ
  pub message : MessageRecord

-- What the handlers read of a session.
pub record Session : Type 0 where
  pub id : ℕ
  pub peer_ip : Bytes

pub record RouterRequest : Type 0 where
  pub session : Option Session
  pub seq_id : ℕ
  pub fields : TlvMap

-- A response with this type and body.
abbrev pub response_packet : ℕ → RouterRequest → Bytes → Packet
response_packet type request body = record {
  header = record default_header { msg_type = type; seq_id = request.seq_id };
  body = body;
}
