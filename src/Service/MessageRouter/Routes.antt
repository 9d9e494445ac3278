-- ===== src/Service/MessageRouter/Routes.antt =====
-- What `route`, and the task that it puts into the pool, come to.
use lite_im.Prelude.{
  ◌≡◌, refl, ap, ◌∙◌, true, false, not, ◌||◌, ◌⊎◌, inl, inr, Option, none, some, ◌==◌, if_elim,
  arith,
}
use lite_im.Prelude.Assoc.{Map, find}
use lite_im.Status.{Status, error, is_ok, invalid_argument, not_found, Result, ok, err}
use lite_im.Protocol.Bytes.{bytes}
use lite_im.Protocol.MessageType.{is_request_type}
use lite_im.Protocol.Packet.{Packet}
use lite_im.Protocol.TlvCodec.{parse_tlv_map}
use lite_im.Service.Records.{Session}
use lite_im.Service.MessageRouter.{
  HandlerEntry, DispatchMode, inline, business_thread, RouterTask, RouterCalls, handler_key,
  run_task, after_submit, dispatch, dispatch_to, route,
}
use lite_im.Service.MessageRouter.Replies.{
  IsRefused, send_error-IsRefused, IsExecuted, execute_handler-IsExecuted,
}

module _ {S : Type 0} (calls : RouterCalls S) where
  module _ (handlers : Map (HandlerEntry S)) (session : Session) (packet : Packet) where
    abbrev pub Refusal : Status → S → S → Type 0
    Refusal status s s' = IsRefused calls session packet.header.seq_id status s s'

    -- The tests that a packet has passed.
    abbrev pub IsOpen : S → Type 0
    IsOpen s = calls.is_closed session s ≡ false

    abbrev pub IsRequest : Type 0
    IsRequest =
        (packet.header.msg_type == 0 || not (is_request_type packet.header.msg_type)) ≡ false

    abbrev pub IsParsed : Type 0
    IsParsed = is_ok (parse_tlv_map (bytes packet.body)).1 ≡ true

    -- The ways through the router.
    pub data Routed (s s' : S) : Type 0 where
      ignored : calls.is_closed session s ≡ true → s ≡ s' → Routed s s'
      not_a_request :
          IsOpen s
          → (packet.header.msg_type == 0 || not (is_request_type packet.header.msg_type)) ≡ true
          → Refusal (error invalid_argument "message type is not a request") s s'
          → Routed s s'
      not_parsed :
          IsOpen s
          → IsRequest
          → is_ok (parse_tlv_map (bytes packet.body)).1 ≡ false
          → Refusal (parse_tlv_map (bytes packet.body)).1 s s'
          → Routed s s'
      no_handler :
          IsOpen s
          → IsRequest
          → IsParsed
          → find (handler_key packet.header.msg_type) handlers ≡ none
          → Refusal (error not_found "no message handler registered") s s'
          → Routed s s'
      handled :
          (entry : HandlerEntry S)
          → IsOpen s
          → IsRequest
          → IsParsed
          → find (handler_key packet.header.msg_type) handlers ≡ some entry
          → entry.mode ≡ inline
          → IsExecuted calls session packet.header.seq_id entry.handler
              (parse_tlv_map (bytes packet.body)).0
              s
              s'
          → Routed s s'
      submitted :
          (task : RouterTask S)
          → IsOpen s
          → IsRequest
          → IsParsed
          → find (handler_key packet.header.msg_type) handlers
            ≡ some (record { handler = task.handler; mode = business_thread })
          → task ≡ record {
            session = session;
            handler = task.handler;
            packet = packet;
            fields = (parse_tlv_map (bytes packet.body)).0;
          }
          → ((calls.submit task s ≡ (ok tt, s'))
              ⊎ ((status : Status) × (s1 : S) × (calls.submit task s ≡ (err status, s1))
                  × Refusal status s1 s'))
          → Routed s s'

    module _ (s : S) where
      after_submit_cases :
          (r : Result (Unit {0}) × S) (task : RouterTask S)
          → calls.submit task s ≡ r
          → let s' = after_submit calls session packet.header.seq_id r in
            (calls.submit task s ≡ (ok tt, s'))
            ⊎ ((status : Status) × (s1 : S) × (calls.submit task s ≡ (err status, s1))
                × Refusal status s1 s')
      after_submit_cases (ok u, s1) task e = inl e
      after_submit_cases (err status, s1) task e =
          inr (status, s1, e, send_error-IsRefused calls session packet.header.seq_id status s1)

      dispatch-Routed :
          IsOpen s
          → IsRequest
          → IsParsed
          → (entry : HandlerEntry S) (mode : DispatchMode) → entry.mode ≡ mode
          → find (handler_key packet.header.msg_type) handlers ≡ some entry
          → Routed s
              (dispatch calls entry session packet (parse_tlv_map (bytes packet.body)).0 mode s)
      dispatch-Routed o r p entry inline m f =
          handled entry o r p f m
            (execute_handler-IsExecuted calls session packet.header.seq_id entry.handler _ s)
      dispatch-Routed o r p entry business_thread m f =
          let task : RouterTask S = record {
            session = session;
            handler = entry.handler;
            packet = packet;
            fields = (parse_tlv_map (bytes packet.body)).0;
          } in
          let with_mode = ap (λ n. some (record { handler = entry.handler; mode = n })) m in
          submitted task o r p (f ∙ with_mode) refl
            (after_submit_cases (calls.submit task s) task refl)

      dispatch_to-Routed :
          IsOpen s
          → IsRequest
          → IsParsed
          → (found : Option (HandlerEntry S))
          → find (handler_key packet.header.msg_type) handlers ≡ found
          → Routed s
              (dispatch_to calls found session packet (parse_tlv_map (bytes packet.body)).0 s)
      dispatch_to-Routed o r p none f =
          no_handler o r p f (send_error-IsRefused calls session packet.header.seq_id _ s)
      dispatch_to-Routed o r p (some entry) f = dispatch-Routed o r p entry entry.mode refl f

      -- A packet that comes to the router on a closed session is dropped. Else, in this order: a packet whose
      -- type is no request, whose body does not parse, or for whose type there is no handler is refused; it
      -- is handled at once where its handler is registered so; or it is put into the pool as a task of this
      -- session, with its fields, and refused where the pool does not take it. To refuse, and to answer what
      -- a handler returned or threw, is to send one packet with the number of the request.
      pub route-Routed : Routed s (route calls handlers (some session) packet s)
      unfolding route
      route-Routed =
          let parsed = parse_tlv_map (bytes packet.body) in
          let refuse = send_error-IsRefused calls session packet.header.seq_id in
          if_elim (Routed s) (calls.is_closed session s) (λ c. ignored c refl)
            (λ o.
              if_elim (Routed s)
                (packet.header.msg_type == 0 || not (is_request_type packet.header.msg_type))
                (λ n. not_a_request o n (refuse _ s))
                (λ r.
                  if_elim (Routed s) (not (is_ok parsed.1))
                    (λ n. not_parsed o r (ground (arith, n)) (refuse _ s))
                    (λ p.
                      dispatch_to-Routed o r (ground (arith, p))
                        (find (handler_key packet.header.msg_type) handlers) refl)))

  -- A task of the pool does nothing where its session is gone or closed; else the handler runs, and what it
  -- returned or threw is answered with the number of the request.
  pub run_task-IsExecuted :
      (task : RouterTask S) (s : S)
      → (((calls.is_gone task.session s || calls.is_closed task.session s) ≡ true)
          × (run_task calls task s ≡ s))
        ⊎ IsExecuted calls task.session task.packet.header.seq_id task.handler task.fields s
            (run_task calls task s)
  unfolding run_task
  run_task-IsExecuted task s =
      if_elim
        (λ s'.
          (((calls.is_gone task.session s || calls.is_closed task.session s) ≡ true) × (s' ≡ s))
          ⊎ IsExecuted calls task.session task.packet.header.seq_id task.handler task.fields s s')
        (calls.is_gone task.session s || calls.is_closed task.session s) (λ c. inl (c, refl))
        (λ o. inr (
          execute_handler-IsExecuted calls task.session task.packet.header.seq_id task.handler
            task.fields s))
