-- ===== src/Service/MessageRouter.antt =====
-- include/liteim/service/MessageRouter.hpp and src/service/MessageRouter.cpp: the table of handlers, and the
-- way from a packet to its response. `S` is the state of the sessions, of the pool and of what the handlers
-- call.
pub mod Errors
pub mod Table
pub mod Replies
pub mod Routes
mod Tests
use lite_im.Prelude.{
  ℕ, ◌%◌, ◌^◌, String, Bool, true, false, not, ◌||◌, List, [], ◌∷◌, Option, none, some, ◌==◌,
  if◌then◌else◌,
}
use Prim.Native.Char.{code}
use Prim.Native.String
use lite_im.Prelude.Assoc.{Map, find, insert}
use lite_im.Status.{
  Status, success, error, is_ok, to_value, to_string, invalid_argument, not_found, internal_error,
  Result, ok, err,
}
use lite_im.Protocol.Bytes.{Bytes, bytes}
use lite_im.Protocol.MessageType.{
  is_request_type, heartbeat_request, heartbeat_response, error_response,
}
use lite_im.Protocol.Tlv
use lite_im.Protocol.Packet.{
  PacketHeader, Packet, default_header, packet_magic, packet_version, packet_flags_none,
}
use lite_im.Protocol.TlvCodec.{TlvMap, parse_tlv_map, append_uint64, append_string}
use lite_im.Service.Action.{Action}
use lite_im.Service.Fields.{bind_result, appended}
use lite_im.Service.Records.{Session, RouterRequest}

pub data DispatchMode : Type 0 where
  inline business_thread : DispatchMode

-- How a handler ends: it returns a status, with the response where that is `Ok`, or it throws.
pub data Outcome : Type 0 where
  returned : Result Packet → Outcome
  throws_exception : String → Outcome
  throws_other : Outcome

abbrev pub Handler : Type 0 → Type 0
Handler S = RouterRequest → S → Outcome × S

pub record HandlerEntry (S : Type 0) : Type 0 where
  pub handler : Handler S
  pub mode : DispatchMode

-- What is put into the business pool: the session is not kept alive by it.
pub record RouterTask (S : Type 0) : Type 0 where
  pub session : Session
  pub handler : Handler S
  pub packet : Packet
  pub fields : TlvMap

-- What the router calls. A session is gone once nobody else holds it.
pub record RouterCalls (S : Type 0) : Type 0 where
  pub is_gone : Session → S → Bool
  pub is_closed : Session → S → Bool
  pub send_packet : Session → Packet → Action S (Unit {0})
  pub submit : RouterTask S → Action S (Unit {0})

-- The bytes of a text of the program, a character of which is one byte.
unfoldable pub text_bytes : String → Bytes
text_bytes String.[] = []
text_bytes (String.◌∷◌ c s) = code c % 256 ∷ text_bytes s

unfoldable pub handler_key : ℕ → ℕ
handler_key type = type % 2 ^ 16

module _ {S : Type 0} where
  unfoldable pub register_handler :
      ℕ → Option (Handler S) → DispatchMode → Map (HandlerEntry S) → Map (HandlerEntry S) × Status
  register_handler type handler mode handlers =
      if type == 0 || not (is_request_type type)
      then (handlers, error invalid_argument "handler message type must be a request")
      else elim handler [
        | none ↦ (handlers, error invalid_argument "message handler must not be empty")
        | some h ↦
            (insert (handler_key type) (record { handler = h; mode = mode }) handlers, success)
      ]

  abbrev pub heartbeat : Handler S
  heartbeat request s = (
    returned (
        ok
          (record { header = record default_header { msg_type = heartbeat_response }; body = [] })),
    s,
  )

  -- The table of a new router.
  unfoldable pub new_handlers : Map (HandlerEntry S)
  unfolding register_handler
  new_handlers = (register_handler heartbeat_request (some heartbeat) inline []).0

-- The header that every response gets.
abbrev pub response_header : ℕ → PacketHeader → PacketHeader
response_header seq_id header = record header {
  magic = packet_magic;
  version = packet_version;
  flags = packet_flags_none;
  seq_id = seq_id;
}

abbrev pub or_code_name : Status → String → String
or_code_name status String.[] = to_string status.code
or_code_name status (String.◌∷◌ c s) = String.◌∷◌ c s

-- The body of an error response.
unfoldable pub error_body : Status → Result Bytes
error_body status =
    bind_result (appended (append_uint64 Tlv.error_code (to_value status.code) [])) (λ body.
      appended
        (append_string Tlv.error_message (text_bytes (or_code_name status status.message)) body))

abbrev pub error_packet : Bytes → Packet
error_packet body = record {
  header = record default_header { msg_type = error_response };
  body = body;
}

abbrev pub status_of_outcome : Outcome → Result Packet
status_of_outcome (returned r) = r
status_of_outcome (throws_exception what) = err (error internal_error what)
status_of_outcome throws_other = err (error internal_error "message handler failed")

module _ {S : Type 0} (calls : RouterCalls S) where
  -- What `sendPacket` returns is not looked at.
  unfoldable pub send_response : Session → ℕ → Packet → S → S
  send_response session seq_id response s =
      if calls.is_closed session s
      then s
      else (calls.send_packet session
          (record response { header = response_header seq_id response.header }) s).1

  abbrev pub send_error_body : Session → ℕ → Result Bytes → S → S
  send_error_body session seq_id (ok body) s = send_response session seq_id (error_packet body) s
  send_error_body session seq_id (err e) s = s

  unfoldable pub send_error : Session → ℕ → Status → S → S
  send_error session seq_id status s = send_error_body session seq_id (error_body status) s

  abbrev pub finish : Session → ℕ → Result Packet × S → S
  finish session seq_id (ok response, s) = send_response session seq_id response s
  finish session seq_id (err status, s) = send_error session seq_id status s

  unfoldable pub execute_handler : Handler S → Session → ℕ → TlvMap → S → S
  execute_handler handler session seq_id fields s =
      let (outcome, s1) =
        handler (record { session = some session; seq_id = seq_id; fields = fields }) s in
      if calls.is_closed session s then s else finish session seq_id (status_of_outcome outcome, s1)

  -- What the pool's thread does.
  unfoldable pub run_task : RouterTask S → S → S
  run_task task s =
      if calls.is_gone task.session s || calls.is_closed task.session s
      then s
      else execute_handler task.handler task.session task.packet.header.seq_id task.fields s

  abbrev pub after_submit : Session → ℕ → Result (Unit {0}) × S → S
  after_submit session seq_id (ok u, s) = s
  after_submit session seq_id (err status, s) = send_error session seq_id status s

  abbrev pub dispatch : HandlerEntry S → Session → Packet → TlvMap → DispatchMode → S → S
  dispatch entry session packet fields inline s =
      execute_handler entry.handler session packet.header.seq_id fields s
  dispatch entry session packet fields business_thread s =
      after_submit session packet.header.seq_id (
        calls.submit
          (record { session = session; handler = entry.handler; packet = packet; fields = fields })
          s)

  abbrev pub dispatch_to : Option (HandlerEntry S) → Session → Packet → TlvMap → S → S
  dispatch_to none session packet fields s =
      send_error session packet.header.seq_id (error not_found "no message handler registered") s
  dispatch_to (some entry) session packet fields s =
      dispatch entry session packet fields entry.mode s

  -- `route`, with what the parser of the body gave.
  abbrev pub route_parsed : Map (HandlerEntry S) → Session → Packet → TlvMap × Status → S → S
  route_parsed handlers session packet (fields, status) s =
      if not (is_ok status)
      then send_error session packet.header.seq_id status s
      else dispatch_to (find (handler_key packet.header.msg_type) handlers) session packet fields s

  abbrev pub route_open : Map (HandlerEntry S) → Session → Packet → S → S
  route_open handlers session packet s =
      if packet.header.msg_type == 0 || not (is_request_type packet.header.msg_type)
      then send_error session packet.header.seq_id
          (error invalid_argument "message type is not a request") s
      else route_parsed handlers session packet (parse_tlv_map (bytes packet.body)) s

  unfoldable pub route : Map (HandlerEntry S) → Option Session → Packet → S → S
  route handlers none packet s = s
  route handlers (some session) packet s =
      if calls.is_closed session s then s else route_open handlers session packet s
