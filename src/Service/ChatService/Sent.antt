-- ===== src/Service/ChatService/Sent.antt =====
-- What a private message that was answered with success has left behind.
use lite_im.Prelude.{
  ℕ, ◌≡◌, ◌≢◌, refl, subst, ◌∙◌, ◌⊎◌, inl, inr, Bool, true, false, [], Option, none, some, length,
  ◌==◌, arith,
}
use lite_im.Status.{not_found, already_exists, Status, ok, err}
use lite_im.Protocol.Bytes.{Bytes}
use lite_im.Protocol.MessageType.{private_message_response}
use lite_im.Protocol.Packet.{Packet}
use lite_im.Service.Action.{raise}
use lite_im.Service.Action.Ensures.{
  Ensures, weaken-Ensures, pure-Ensures, raise-Ensures, if-Ensures, examine-Ensures,
  lift_then-Ensures, observe_then-Ensures, >>=-Ensures, then-Ensures,
}
use lite_im.Service.Records.{Session, MessageRecord, DeliveryStatus, RouterRequest, response_packet}
use lite_im.Service.Interfaces.{OnlineSessions, MessageStorage, UnreadCache, not_logged_in_status}
use lite_im.Service.Interfaces.Rules.{if_not_found-Ensures, if_already_exists-Ensures}
use lite_im.Service.MessagePacketBuilder.{append_message_fields}
use lite_im.Service.ChatService.{
  Receiver, offline_user_ids, is_terminal_delivery_status, is_message_already_delivered,
  current_user_id, user_of_open, respond, retry_delivery, retry, save_and_deliver,
}
use lite_im.Service.ChatService.Delivery.{
  IsFound, find_receiver-IsFound, IsNewDelivered, deliver_new-IsNewDelivered, IsAgainDelivered,
  deliver_again-IsAgainDelivered,
}

module _ {S : Type 0} (online_service : OnlineSessions S) (storage : MessageStorage S)
    (cache : UnreadCache S) where
  -- The storage knows that the message was delivered, or that it was not, or nothing of it.
  abbrev pub IsKnown : ℕ → ℕ → Bool → S → S → Type 0
  IsKnown receiver_id message_id delivered s s' =
      ((status : DeliveryStatus) × (storage.find_delivery_status receiver_id message_id s
          ≡ (ok status, s'))
        × (is_terminal_delivery_status status ≡ delivered))
      ⊎ ((e : Status) × (storage.find_delivery_status receiver_id message_id s ≡ (err e, s'))
          × (e.code ≡ not_found)
          × (delivered ≡ false))

  is_message_already_delivered-IsKnown :
      (receiver_id message_id : ℕ) (s : S)
      → Ensures
          (is_message_already_delivered online_service storage cache receiver_id message_id)
          s
          (λ delivered s'. IsKnown receiver_id message_id delivered s s')
  unfolding is_message_already_delivered
  is_message_already_delivered-IsKnown receiver_id message_id s =
      examine-Ensures _ _ s (λ status s1 e. pure-Ensures _ s1 (inl (status, e, refl)))
        (λ x s1 e. if_not_found-Ensures _ x s1 (λ c. pure-Ensures false s1 (inr (x, e, c, refl))))

  -- The session of a request is open, and the online service knows its user.
  abbrev pub IsLoggedIn : RouterRequest → ℕ → S → S → Type 0
  IsLoggedIn request user_id s s' =
      (session : Session) × (request.session ≡ some session)
      × (online_service.is_closed session s ≡ false)
      × (online_service.get_user_by_session session.id s ≡ (ok user_id, s'))

  current_user_of-IsLoggedIn :
      (request : RouterRequest) (o : Option Session) (s : S)
      → request.session ≡ o
      → Ensures
          (elim o [
            | none ↦ raise not_logged_in_status
            | some session ↦ user_of_open online_service storage cache session
          ])
          s
          (λ user_id s'. IsLoggedIn request user_id s s')
  current_user_of-IsLoggedIn request none s q = raise-Ensures _ s
  current_user_of-IsLoggedIn request (some session) s q = observe_then-Ensures _ s (λ closed is.
      if-Ensures closed s (λ c. raise-Ensures _ s)
        (λ c.
          examine-Ensures _ _ s (λ user_id s1 e. pure-Ensures user_id s1 (session, q, is ∙ c, e))
            (λ x s1 e. if_not_found-Ensures _ x s1 (λ c'. raise-Ensures _ s1))))

  pub current_user_id-IsLoggedIn :
      (request : RouterRequest) (s : S)
      → Ensures
          (current_user_id online_service storage cache request)
          s
          (λ user_id s'. IsLoggedIn request user_id s s')
  unfolding current_user_id
  current_user_id-IsLoggedIn request s = current_user_of-IsLoggedIn request request.session s refl

  -- The response has the saved message.
  abbrev pub IsAnswer : RouterRequest → MessageRecord → Packet → Type 0
  IsAnswer request saved packet =
      (body : Bytes) × (append_message_fields saved [] ≡ ok body)
      × (packet ≡ response_packet private_message_response request body)

  respond-IsAnswer :
      (request : RouterRequest) (saved : MessageRecord) (s : S)
      → Ensures
          (respond online_service storage cache request saved)
          s
          (λ packet s'. (s ≡ s') × IsAnswer request saved packet)
  respond-IsAnswer request saved s =
      lift_then-Ensures _ s (λ body b. pure-Ensures _ s (refl, (body, b, refl)))

  -- An earlier request saved the message; it was delivered, or is delivered now.
  abbrev pub IsRedelivered : MessageRecord → Bool → S → S → Type 0
  IsRedelivered saved true s s' = s ≡ s'
  IsRedelivered saved false s s' =
      (receiver : Receiver) × (s1 : S) × IsFound online_service storage cache saved.receiver_id
        receiver s s1
      × IsAgainDelivered online_service storage cache receiver saved.receiver_id saved s1 s'

  retry_delivery-IsRedelivered :
      (request : RouterRequest) (saved : MessageRecord) (delivered : Bool) (s : S)
      → Ensures
          (retry_delivery online_service storage cache request saved delivered)
          s
          (λ packet s'. IsRedelivered saved delivered s s' × IsAnswer request saved packet)
  retry_delivery-IsRedelivered request saved true s = respond-IsAnswer request saved s
  retry_delivery-IsRedelivered request saved false s =
      then-Ensures _ s (find_receiver-IsFound online_service storage cache saved.receiver_id s)
        (λ receiver s1 f.
          then-Ensures _ s1
            (deliver_again-IsAgainDelivered online_service storage cache receiver saved.receiver_id
              saved s1)
            (λ u s2 d. weaken-Ensures (respond-IsAnswer request saved s2) (λ packet s3 a. (
              (
                receiver,
                s1,
                f,
                subst
                    (λ z.
                      IsAgainDelivered online_service storage cache receiver saved.receiver_id saved
                        s1 z)
                    a.0 d,
              ),
              a.1,
            ))))

  -- What was found under the client's id of a message that could not be saved again.
  abbrev pub IsRepeated : MessageRecord → MessageRecord → S → S → Type 0
  IsRepeated message saved s s' =
      (delivered : Bool) × (s1 : S) × (s2 : S) × (storage.find_message_by_client_message_id
          message.sender_id message.client_msg_id s
        ≡ (ok saved, s1))
      × IsKnown saved.receiver_id saved.message_id delivered s1 s2
      × IsRedelivered saved delivered s2 s'

  retry-IsRepeated :
      (request : RouterRequest) (message : MessageRecord) (s : S)
      → Ensures (retry online_service storage cache request message) s (λ packet s'.
        (saved : MessageRecord) × IsRepeated message saved s s' × IsAnswer request saved packet)
  retry-IsRepeated request message s = >>=-Ensures _ s (λ saved s1 e.
      then-Ensures _ s1 (is_message_already_delivered-IsKnown saved.receiver_id saved.message_id s1)
        (λ delivered s2 k.
          weaken-Ensures (retry_delivery-IsRedelivered request saved delivered s2)
            (λ packet s3 r. (saved, (delivered, s1, s2, e, k, r.0), r.1))))

  -- The message was saved, with the receiver as one who has to pull it if he is offline, and delivered; or it
  -- was saved by an earlier request with the same client id.
  abbrev pub IsSaved : MessageRecord → MessageRecord → S → S → Type 0
  IsSaved message saved s s' =
      (receiver : Receiver) × (s1 : S) × (s2 : S) × IsFound online_service storage cache
        message.receiver_id receiver s s1
      × (((storage.save_message_with_offline_recipients message
                (offline_user_ids message.receiver_id receiver) s1
              ≡ (ok saved, s2))
            × IsNewDelivered online_service storage cache receiver message.receiver_id saved s2 s')
          ⊎ ((e : Status) × (storage.save_message_with_offline_recipients message
                  (offline_user_ids message.receiver_id receiver) s1
                ≡ (err e, s2))
              × (e.code ≡ already_exists)
              × (message.client_msg_id ≢ [])
              × IsRepeated message saved s2 s'))

  pub save_and_deliver-IsSaved :
      (request : RouterRequest) (message : MessageRecord) (s : S)
      → Ensures (save_and_deliver online_service storage cache request message) s (λ packet s'.
        (saved : MessageRecord) × IsSaved message saved s s' × IsAnswer request saved packet)
  save_and_deliver-IsSaved request message s =
      then-Ensures _ s (find_receiver-IsFound online_service storage cache message.receiver_id s)
        (λ receiver s1 f.
          examine-Ensures _ _ s1
            (λ saved s2 e.
              then-Ensures _ s2
                (deliver_new-IsNewDelivered online_service storage cache receiver
                  message.receiver_id saved s2)
                (λ u s3 d. weaken-Ensures (respond-IsAnswer request saved s3) (λ packet s4 a. (
                  saved,
                  (
                    receiver,
                    s1,
                    s2,
                    f,
                    inl (
                      e,
                      subst
                          (λ z.
                            IsNewDelivered online_service storage cache receiver message.receiver_id
                              saved s2 z)
                          a.0 d,
                    ),
                  ),
                  a.1,
                ))))
            (λ x s2 e.
              if-Ensures (length message.client_msg_id == 0) s2 (λ _. raise-Ensures _ s2)
                (λ n. if_already_exists-Ensures _ x s2 (λ c.
                  weaken-Ensures (retry-IsRepeated request message s2) (λ packet s3 (saved, r, a). (
                    saved,
                    (receiver, s1, s2, f, inr (x, e, c, (λ q. ground (arith, n, q)), r)),
                    a,
                  ))))))
