-- ===== src/Service/MessageRouter/Replies.antt =====
-- The response to a packet, on every way through the router.
use lite_im.Prelude.{ℕ, ◌≡◌, refl, true, false, ◌⊎◌, inl, inr, some, if_elim}
use lite_im.Status.{Status, Result, ok, err}
use lite_im.Protocol.Bytes.{Bytes}
use lite_im.Protocol.Packet.{Packet}
use lite_im.Protocol.TlvCodec.{TlvMap}
use lite_im.Service.Records.{Session}
use lite_im.Service.MessageRouter.{
  Outcome, Handler, RouterCalls, response_header, error_body, error_packet, status_of_outcome,
  send_response, send_error_body, send_error, finish, execute_handler,
}

module _ {S : Type 0} (calls : RouterCalls S) (session : Session) (seq_id : ℕ) where
  -- One packet was sent, this one with the header that every response gets; or none, to a closed session.
  abbrev pub IsReplied : Packet → S → S → Type 0
  IsReplied response s s' =
      ((r : Result (Unit {0})) × (calls.is_closed session s ≡ false)
        × (calls.send_packet session
              (record response { header = response_header seq_id response.header }) s
            ≡ (r, s')))
      ⊎ ((calls.is_closed session s ≡ true) × (s ≡ s'))

  -- The error was sent, or its message is too long for a packet.
  abbrev pub IsRefused : Status → S → S → Type 0
  IsRefused status s s' =
      ((body : Bytes) × (error_body status ≡ ok body) × IsReplied (error_packet body) s s')
      ⊎ ((e : Status) × (error_body status ≡ err e) × (s ≡ s'))

  abbrev pub IsFinished : Result Packet → S → S → Type 0
  IsFinished (ok response) s s' = IsReplied response s s'
  IsFinished (err status) s s' = IsRefused status s s'

  send_response-IsReplied :
      (response : Packet) (s : S)
      → IsReplied response s (send_response calls session seq_id response s)
  unfolding send_response
  send_response-IsReplied response s =
      if_elim (IsReplied response s) (calls.is_closed session s) (λ c. inr (c, refl))
        (λ o. inl (
          (calls.send_packet session
              (record response { header = response_header seq_id response.header }) s).0,
          o,
          refl,
        ))

  pub send_error-IsRefused :
      (status : Status) (s : S) → IsRefused status s (send_error calls session seq_id status s)
  unfolding send_error
  send_error-IsRefused status s = of_body (error_body status) refl
    where
      of_body :
          (b : Result Bytes)
          → error_body status ≡ b
          → IsRefused status s (send_error_body calls session seq_id b s)
      of_body (ok body) e = inl (body, e, send_response-IsReplied (error_packet body) s)
      of_body (err x) e = inr (x, e, refl)

  finish-IsFinished :
      (r : Result Packet) (s : S) → IsFinished r s (finish calls session seq_id (r, s))
  finish-IsFinished (ok response) s = send_response-IsReplied response s
  finish-IsFinished (err status) s = send_error-IsRefused status s

  -- The handler ran, and what it returned or threw was answered; or the session was closed before.
  pub record Executed (handler : Handler S) (fields : TlvMap) (s s' : S) : Type 0 where
    pub outcome : Outcome
    pub handled_state : S
    pub is_open : calls.is_closed session s ≡ false
    pub is_handled :
        handler (record { session = some session; seq_id = seq_id; fields = fields }) s
        ≡ (outcome, handled_state)
    pub is_finished : IsFinished (status_of_outcome outcome) handled_state s'

  abbrev pub IsExecuted : Handler S → TlvMap → S → S → Type 0
  IsExecuted handler fields s s' =
      Executed handler fields s s' ⊎ ((calls.is_closed session s ≡ true) × (s ≡ s'))

  pub execute_handler-IsExecuted :
      (handler : Handler S) (fields : TlvMap) (s : S)
      → IsExecuted handler fields s (execute_handler calls handler session seq_id fields s)
  unfolding execute_handler
  execute_handler-IsExecuted handler fields s =
      let ran = handler (record { session = some session; seq_id = seq_id; fields = fields }) s in
      if_elim (IsExecuted handler fields s) (calls.is_closed session s) (λ c. inr (c, refl))
        (λ o. inl (record {
          outcome = ran.0;
          handled_state = ran.1;
          is_open = o;
          is_handled = refl;
          is_finished = finish-IsFinished (status_of_outcome ran.0) ran.1;
        }))
