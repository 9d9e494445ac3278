-- ===== src/Service/ChatService/Delivery.antt =====
-- Where a message is once the chat service has delivered it.
use lite_im.Prelude.{ℕ, ◌≡◌, ◌∙◌, ◌⊎◌, inl, inr, true, false, [], Option, none, some}
use lite_im.Status.{not_found, already_exists, Status, Result, ok, err}
use lite_im.Protocol.Bytes.{Bytes}
use lite_im.Service.Action.Ensures.{
  Ensures, weaken-Ensures, pure-Ensures, if-Ensures, examine-Ensures, lift_then-Ensures,
  observe_then-Ensures,
}
use lite_im.Service.Records.{Session, MessageRecord}
use lite_im.Service.Interfaces.{OnlineSessions, MessageStorage, UnreadCache}
use lite_im.Service.Interfaces.Rules.{if_not_found-Ensures, if_already_exists-Ensures}
use lite_im.Service.MessagePacketBuilder.{append_message_fields}
use lite_im.Service.ChatService.{
  Receiver, offline, online, push_packet, increment_unread_for_message, ensure_offline_fallback,
  push_private_or_fallback, find_receiver, deliver_new, deliver_again,
}

module _ {S : Type 0} (online_service : OnlineSessions S) (storage : MessageStorage S)
    (cache : UnreadCache S) where
  -- The unread count of the receiver was asked for, and what came of it does not matter.
  abbrev pub IsCounted : ℕ → MessageRecord → S → S → Type 0
  IsCounted receiver_id message s s' =
      (r : Result ℕ) × (cache.incr_unread
          (record { user_id = receiver_id; conversation = message.conversation }) 1 s
        ≡ (r, s'))

  -- The storage has the message among those to pull, from now on or already.
  abbrev pub IsStored : ℕ → MessageRecord → S → S → Type 0
  IsStored receiver_id message s s' =
      ((s1 : S) × (storage.save_offline_message receiver_id message.message_id s ≡ (ok tt, s1))
        × IsCounted receiver_id message s1 s')
      ⊎ ((e : Status) × (storage.save_offline_message receiver_id message.message_id s
            ≡ (err e, s'))
          × (e.code ≡ already_exists))

  -- An open session took the packet with the message, or not.
  abbrev pub IsPushed : MessageRecord → Session → Result (Unit {0}) → S → S → Type 0
  IsPushed message session r s s' =
      (body : Bytes) × (append_message_fields message [] ≡ ok body)
      × (online_service.is_closed session s ≡ false)
      × (online_service.send_packet session (push_packet body) s ≡ (r, s'))

  -- The message is in the receiver's session, or in the storage: there was no session, it was closed, or it
  -- did not take the packet.
  abbrev pub IsDelivered : Option Session → ℕ → MessageRecord → S → S → Type 0
  IsDelivered none receiver_id message s s' = IsStored receiver_id message s s'
  IsDelivered (some session) receiver_id message s s' =
      IsPushed message session (ok tt) s s'
      ⊎ (((online_service.is_closed session s ≡ true) × IsStored receiver_id message s s')
          ⊎ ((e : Status) × (s1 : S) × IsPushed message session (err e) s s1
              × IsStored receiver_id message s1 s'))

  increment_unread_for_message-IsCounted :
      (receiver_id : ℕ) (message : MessageRecord) (s : S)
      → Ensures
          (increment_unread_for_message online_service storage cache receiver_id message)
          s
          (λ _ s'. IsCounted receiver_id message s s')
  unfolding increment_unread_for_message
  increment_unread_for_message-IsCounted receiver_id message s =
      examine-Ensures _ _ s (λ n s1 e. pure-Ensures tt s1 (ok n, e))
        (λ x s1 e. pure-Ensures tt s1 (err x, e))

  ensure_offline_fallback-IsStored :
      (receiver_id : ℕ) (message : MessageRecord) (s : S)
      → Ensures
          (ensure_offline_fallback online_service storage cache receiver_id message)
          s
          (λ _ s'. IsStored receiver_id message s s')
  unfolding ensure_offline_fallback
  ensure_offline_fallback-IsStored receiver_id message s =
      examine-Ensures _ _ s
        (λ u s1 e.
          weaken-Ensures (increment_unread_for_message-IsCounted receiver_id message s1)
            (λ u' s2 c. inl (s1, e, c)))
        (λ x s1 e. if_already_exists-Ensures _ x s1 (λ c. pure-Ensures tt s1 (inr (x, e, c))))

  push_private_or_fallback-IsDelivered :
      (session : Option Session) (receiver_id : ℕ) (message : MessageRecord) (s : S)
      → Ensures
          (push_private_or_fallback online_service storage cache session receiver_id message)
          s
          (λ _ s'. IsDelivered session receiver_id message s s')
  unfolding push_private_or_fallback
  push_private_or_fallback-IsDelivered none receiver_id message s =
      ensure_offline_fallback-IsStored receiver_id message s
  push_private_or_fallback-IsDelivered (some session) receiver_id message s =
      observe_then-Ensures _ s (λ closed is.
        if-Ensures closed s
          (λ c.
            weaken-Ensures (ensure_offline_fallback-IsStored receiver_id message s)
              (λ u s1 h. inr (inl (is ∙ c, h))))
          (λ o. lift_then-Ensures (append_message_fields message []) s (λ body b.
            examine-Ensures _ _ s (λ u s1 e. pure-Ensures tt s1 (inl (body, b, is ∙ o, e)))
              (λ x s1 e.
                weaken-Ensures (ensure_offline_fallback-IsStored receiver_id message s1)
                  (λ u s2 h. inr (inr (x, s1, (body, b, is ∙ o, e), h)))))))

  -- The online service knows a session of the user, or answers that there is none.
  abbrev pub IsFound : ℕ → Receiver → S → S → Type 0
  IsFound receiver_id offline s s' =
      (e : Status) × (online_service.get_session_by_user receiver_id s ≡ (err e, s'))
      × (e.code ≡ not_found)
  IsFound receiver_id (online session) s s' =
      online_service.get_session_by_user receiver_id s ≡ (ok session, s')

  pub find_receiver-IsFound :
      (receiver_id : ℕ) (s : S)
      → Ensures
          (find_receiver online_service storage cache receiver_id)
          s
          (λ receiver s'. IsFound receiver_id receiver s s')
  unfolding find_receiver
  find_receiver-IsFound receiver_id s =
      examine-Ensures _ _ s (λ session s1 e. pure-Ensures (online session) s1 e)
        (λ x s1 e. if_not_found-Ensures _ x s1 (λ c. pure-Ensures offline s1 (x, e, c)))

  -- A message that was saved just now: for a user who is offline it was saved with the record to pull.
  abbrev pub IsNewDelivered : Receiver → ℕ → MessageRecord → S → S → Type 0
  IsNewDelivered offline receiver_id saved s s' = IsCounted receiver_id saved s s'
  IsNewDelivered (online session) receiver_id saved s s' =
      IsDelivered session receiver_id saved s s'

  abbrev pub IsAgainDelivered : Receiver → ℕ → MessageRecord → S → S → Type 0
  IsAgainDelivered offline receiver_id saved s s' = IsStored receiver_id saved s s'
  IsAgainDelivered (online session) receiver_id saved s s' =
      IsDelivered session receiver_id saved s s'

  pub deliver_new-IsNewDelivered :
      (receiver : Receiver) (receiver_id : ℕ) (saved : MessageRecord) (s : S)
      → Ensures
          (deliver_new online_service storage cache receiver receiver_id saved)
          s
          (λ _ s'. IsNewDelivered receiver receiver_id saved s s')
  deliver_new-IsNewDelivered offline receiver_id saved s =
      increment_unread_for_message-IsCounted receiver_id saved s
  deliver_new-IsNewDelivered (online session) receiver_id saved s =
      push_private_or_fallback-IsDelivered session receiver_id saved s

  pub deliver_again-IsAgainDelivered :
      (receiver : Receiver) (receiver_id : ℕ) (saved : MessageRecord) (s : S)
      → Ensures
          (deliver_again online_service storage cache receiver receiver_id saved)
          s
          (λ _ s'. IsAgainDelivered receiver receiver_id saved s s')
  deliver_again-IsAgainDelivered offline receiver_id saved s =
      ensure_offline_fallback-IsStored receiver_id saved s
  deliver_again-IsAgainDelivered (online session) receiver_id saved s =
      push_private_or_fallback-IsDelivered session receiver_id saved s
