-- ===== src/Service/MessageRouter/Table.antt =====
-- A handler that was registered, and the packets that get to it.
use lite_im.Prelude.{
  ℕ, ◌^◌, ◌<◌, ◌≡◌, ◌≢◌, refl, ap, ◌∙◌, sym, Bool, true, false, not, ◌||◌, Option, some, ◌==◌,
  if◌then◌else◌, arith,
}
use lite_im.Prelude.Assoc.{Map, find, insert, find-insert}
use lite_im.Status.{Status, success, error, invalid_argument, is_ok}
use lite_im.Protocol.Bytes.{bytes}
use lite_im.Protocol.MessageType.{is_request_type}
use lite_im.Protocol.Packet.{Packet}
use lite_im.Protocol.TlvCodec.{parse_tlv_map}
use lite_im.Service.Records.{Session}
use lite_im.Service.MessageRouter.{
  Handler, HandlerEntry, DispatchMode, RouterCalls, register_handler, handler_key, dispatch,
  dispatch_to, send_error, route,
}

module _ {S : Type 0} (calls : RouterCalls S) (session : Session) (packet : Packet) (s : S) where
  -- All that the router sees of the table is the entry of the packet's type.
  abbrev route_of : Option (HandlerEntry S) → S
  route_of found =
      if calls.is_closed session s
      then s
      else if packet.header.msg_type == 0 || not (is_request_type packet.header.msg_type)
      then send_error calls session packet.header.seq_id
          (error invalid_argument "message type is not a request") s
      else if not (is_ok (parse_tlv_map (bytes packet.body)).1)
      then send_error calls session packet.header.seq_id (parse_tlv_map (bytes packet.body)).1 s
      else dispatch_to calls found session packet (parse_tlv_map (bytes packet.body)).0 s

  route-route_of :
      (handlers : Map (HandlerEntry S))
      → route calls handlers (some session) packet s
        ≡ route_of (find (handler_key packet.header.msg_type) handlers)
  unfolding route
  route-route_of handlers = refl

  route_of-some :
      (entry : HandlerEntry S)
      → calls.is_closed session s ≡ false
      → packet.header.msg_type ≢ 0
      → is_request_type packet.header.msg_type ≡ true
      → is_ok (parse_tlv_map (bytes packet.body)).1 ≡ true
      → route_of (some entry)
        ≡ dispatch calls entry session packet (parse_tlv_map (bytes packet.body)).0 entry.mode s
  route_of-some entry is_open some_type is_request parses =
      let request : (packet.header.msg_type == 0 || not (is_request_type packet.header.msg_type))
          ≡ false =
        ground (arith, some_type, is_request) in
      rw (is_open, request, parses) (refl)

module _ {S : Type 0} (type : ℕ) (handler : Handler S) (mode : DispatchMode)
    (handlers : Map (HandlerEntry S)) where
  abbrev pub registered : Map (HandlerEntry S)
  registered = (register_handler type (some handler) mode handlers).0

  find-registered :
      (key : ℕ)
      → type ≢ 0
      → is_request_type type ≡ true
      → find key registered ≡ (
          if handler_key type == key
          then some (record { handler = handler; mode = mode })
          else find key handlers)
  unfolding register_handler
  find-registered key z r =
      let accepted : (type == 0 || not (is_request_type type)) ≡ false = ground (arith, z, r) in
      let entries : Bool → Map (HandlerEntry S) × Status = λ b.
        if b then (handlers, error invalid_argument "handler message type must be a request") else (
          insert (handler_key type) (record { handler = handler; mode = mode }) handlers,
          success,
        ) in
      ap (λ b. find key (entries b).0) accepted
      ∙ find-insert (handler_key type) key (record { handler = handler; mode = mode }) handlers

  module _ (calls : RouterCalls S) (session : Session) (packet : Packet) (s : S)
      (is_open : calls.is_closed session s ≡ false) (some_type : type ≢ 0)
      (is_request : is_request_type type ≡ true) (type_fits : type < 2 ^ 16) where
    -- Once a handler is registered for a request type, a packet of this type with a body that parses goes to
    -- it, with the fields of the body and in the mode it was registered with, whatever was registered before;
    -- a packet of another type is routed as before.
    pub route-register_handler :
        packet.header.msg_type < 2 ^ 16
        → ((packet.header.msg_type ≡ type)
            → is_ok (parse_tlv_map (bytes packet.body)).1 ≡ true
            → route calls registered (some session) packet s
              ≡ dispatch calls
                  (record { handler = handler; mode = mode })
                  session
                  packet
                  (parse_tlv_map (bytes packet.body)).0
                  mode
                  s)
          × (packet.header.msg_type ≢ type
              → route calls registered (some session) packet s
                ≡ route calls handlers (some session) packet s)
    unfolding handler_key
    route-register_handler p =
        let found = find-registered (handler_key packet.header.msg_type) some_type is_request in
        let entry : HandlerEntry S = record { handler = handler; mode = mode } in
        (
          (λ same parses.
              let here : (handler_key type == handler_key packet.header.msg_type) ≡ true =
                ground (arith, same) in
              route-route_of calls session packet s registered
              ∙ ap (route_of calls session packet s) (
                  found
                  ∙ ap
                      (λ b.
                        if b
                        then some entry
                        else find (handler_key packet.header.msg_type) handlers)
                      here)
              ∙ route_of-some calls session packet s entry is_open (λ q. some_type (sym same ∙ q))
                  (ap is_request_type same ∙ is_request) parses),
          (λ other.
              let there : (handler_key type == handler_key packet.header.msg_type) ≡ false =
                ground (arith, other, p, type_fits) in
              route-route_of calls session packet s registered
              ∙ ap (route_of calls session packet s) (
                  found
                  ∙ ap
                      (λ b.
                        if b
                        then some entry
                        else find (handler_key packet.header.msg_type) handlers)
                      there)
              ∙ sym (route-route_of calls session packet s handlers)),
        )
