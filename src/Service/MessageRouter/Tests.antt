-- ===== src/Service/MessageRouter/Tests.antt =====
-- The router with a handler that answers and one that throws, and the theorems at it.
use lite_im.Prelude.{
  ℕ, ◌+◌, ◌*◌, ◌^◌, ◌<◌, ◌≤◌, ◌≡◌, ◌≢◌, ◌⊎◌, inl, inr, refl, Bool, String, true, false, not, ◌||◌,
  List, [], ◌∷◌, ◌++◌, Option, none, some, length, arith,
}
use lite_im.Prelude.Assoc.{Map}
use lite_im.Status.{Status, error, is_ok, not_found, to_value, ok}
use lite_im.Protocol.Bytes.{Bytes, bytes}
use lite_im.Protocol.MessageType.{is_request_type}
use lite_im.Protocol.Tlv
use lite_im.Protocol.Packet.{Packet, default_header}
use lite_im.Protocol.TlvCodec.{parse_tlv_map, get_uint64, get_string}
use lite_im.Service.Records.{Session}
use lite_im.Service.MessageRouter.{
  Handler, HandlerEntry, DispatchMode, inline, business_thread, RouterTask, RouterCalls, returned,
  throws_other, register_handler, new_handlers, error_body, text_bytes, run_task, dispatch, route,
}
use lite_im.Service.MessageRouter.Errors.{IsTextOf, error_body_read}
use lite_im.Service.MessageRouter.Routes.{Routed, route-Routed}
use lite_im.Service.MessageRouter.Table.{registered, route-register_handler}

-- The packets that were sent; one session, which is open.
abbrev Sent : Type 0
Sent = List Packet

abbrev calls : RouterCalls Sent
calls = record {
  is_gone = λ session s. false;
  is_closed = λ session s. false;
  send_packet = λ session packet s. (ok tt, s ++ (packet ∷ []));
  submit = λ task s. (ok tt, s);
}

abbrev client : Session
client = record { id = 9; peer_ip = [] }

abbrev ping : Packet
ping = record { header = record default_header { msg_type = 1; seq_id = 7 }; body = [] }

abbrev lookup : Packet
lookup = record { header = record default_header { msg_type = 202; seq_id = 8 }; body = [] }

abbrev throwing : Handler Sent
throwing request s = (throws_other, s)

abbrev handlers : Map (HandlerEntry Sent)
handlers = registered 202 throwing business_thread new_handlers

abbrev task : RouterTask Sent
task = record { session = client; handler = throwing; packet = lookup; fields = [] }

pong_sent :
    route calls new_handlers (some client) ping []
    ≡ record { header = record default_header { msg_type = 2; seq_id = 7 }; body = [] } ∷ []
unfolding route is_request_type parse_tlv_map lite_im.Protocol.TlvCodec.parse_loop
    lite_im.Prelude.Assoc.find new_handlers lite_im.Prelude.Assoc.insert
    lite_im.Service.MessageRouter.handler_key lite_im.Service.MessageRouter.execute_handler
    lite_im.Service.MessageRouter.send_response
pong_sent = refl

route-Routed_example :
    Routed calls handlers client ping [] (route calls handlers (some client) ping [])
route-Routed_example = route-Routed calls handlers client ping []

lookup_is_request : is_request_type 202 ≡ true
unfolding is_request_type
lookup_is_request = refl

route-register_handler_example :
    ((lookup.header.msg_type ≡ 202)
      → is_ok (parse_tlv_map (bytes lookup.body)).1 ≡ true
      → route calls handlers (some client) lookup []
        ≡ dispatch calls
            (record { handler = throwing; mode = business_thread })
            client
            lookup
            (parse_tlv_map (bytes lookup.body)).0
            business_thread
            [])
    × (lookup.header.msg_type ≢ 202
        → route calls handlers (some client) lookup []
          ≡ route calls new_handlers (some client) lookup [])
route-register_handler_example =
    route-register_handler 202 throwing business_thread new_handlers calls client lookup [] refl
      (omega arith) lookup_is_request (omega arith) (omega arith)

abbrev no_friend : Status
no_friend = error not_found "no friend"

short : length (text_bytes no_friend.message) ≤ 1024 * 1024
unfolding text_bytes
short = omega arith

error_body_read_example :
    (body : Bytes) × (text : String) × (error_body no_friend ≡ ok body)
    × (get_uint64 (parse_tlv_map (bytes body)).0 Tlv.error_code ≡ ok (to_value not_found))
    × (get_string (parse_tlv_map (bytes body)).0 Tlv.error_message ≡ ok (text_bytes text))
    × IsTextOf no_friend text
error_body_read_example = error_body_read no_friend short
