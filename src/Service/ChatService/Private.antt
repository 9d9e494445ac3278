-- ===== src/Service/ChatService/Private.antt =====
-- When `handlePrivateMessage` succeeds.
use lite_im.Prelude.{ℕ, ◌≡◌, ◌≢◌, ap, ◌∙◌, true, not, ◌||◌, ◌==◌, arith}
use lite_im.Status.{ok}
use lite_im.Protocol.Bytes.{Bytes}
use lite_im.Protocol.Tlv
use lite_im.Protocol.Packet.{Packet}
use lite_im.Protocol.TlvCodec.{get_uint64}
use lite_im.Service.Action.Ensures.{
  Ensures, Ensures_ok, weaken-Ensures, lift_then-Ensures, unless-Ensures, >>=-Ensures, then-Ensures,
}
use lite_im.Service.Fields.{bounded_string}
use lite_im.Service.Records.{UserRecord, MessageRecord, RouterRequest}
use lite_im.Service.Interfaces.{OnlineSessions, MessageStorage, UnreadCache}
use lite_im.Service.ChatService.{
  send_to, new_message, private_conversation_id, client_message_id, max_message_text_bytes,
  handle_private_message,
}
use lite_im.Service.ChatService.Sent.{
  IsLoggedIn, current_user_id-IsLoggedIn, IsAnswer, IsSaved, save_and_deliver-IsSaved,
}

module _ {S : Type 0} (online_service : OnlineSessions S) (storage : MessageStorage S)
    (cache : UnreadCache S) (request : RouterRequest) where
  -- The receiver is a user and a friend of the sender, and their message was saved and delivered.
  pub record SentTo (packet : Packet) (sender_id receiver_id : ℕ) (text client_msg_id : Bytes)
      (s s' : S) : Type 0 where
    pub user : UserRecord
    pub conversation_id : ℕ
    pub saved : MessageRecord
    pub found_state : S
    pub friends_state : S
    pub is_user : storage.find_user_by_id receiver_id s ≡ (ok user, found_state)
    pub are_friends_lem :
        storage.are_friends sender_id receiver_id found_state ≡ (ok true, friends_state)
    pub has_conversation : private_conversation_id sender_id receiver_id ≡ ok conversation_id
    pub is_saved :
        IsSaved online_service storage cache
          (new_message conversation_id sender_id receiver_id text client_msg_id)
          saved
          friends_state
          s'
    pub is_answer : IsAnswer online_service storage cache request saved packet

  send_to-SentTo :
      (sender_id receiver_id : ℕ) (text client_msg_id : Bytes) (s : S)
      → Ensures
          (send_to online_service storage cache request sender_id receiver_id text client_msg_id)
          s
          (λ packet s'. SentTo packet sender_id receiver_id text client_msg_id s s')
  send_to-SentTo sender_id receiver_id text client_msg_id s = >>=-Ensures _ s (λ user s1 u.
      >>=-Ensures _ s1 (λ friends s2 f. unless-Ensures (not friends) _ s2 (λ are.
        lift_then-Ensures _ s2 (λ conversation_id c.
          weaken-Ensures (save_and_deliver-IsSaved online_service storage cache request _ s2)
            (λ packet s' (saved, i, a). record {
              user = user;
              conversation_id = conversation_id;
              saved = saved;
              found_state = s1;
              friends_state = s2;
              is_user = u;
              are_friends_lem = f ∙ ap (λ b. (ok b, s2)) (ground (arith, are));
              has_conversation = c;
              is_saved = i;
              is_answer = a;
            })))))

  pub record Sent (packet : Packet) (s s' : S) : Type 0 where
    pub sender_id : ℕ
    pub receiver_id : ℕ
    pub text : Bytes
    pub client_msg_id : Bytes
    pub user_state : S
    pub is_logged_in : IsLoggedIn online_service storage cache request sender_id s user_state
    pub has_receiver : get_uint64 request.fields Tlv.receiver_id ≡ ok receiver_id
    pub someone : receiver_id ≢ 0
    pub someone_else : receiver_id ≢ sender_id
    pub has_text :
        bounded_string request.fields Tlv.message_text "message text" max_message_text_bytes
        ≡ ok text
    pub has_client_id : client_message_id request.fields ≡ ok client_msg_id
    pub sent : SentTo packet sender_id receiver_id text client_msg_id user_state s'

  handle_private_message-Ensures :
      (s : S)
      → Ensures
          (handle_private_message online_service storage cache request)
          s
          (λ packet s'. Sent packet s s')
  unfolding handle_private_message
  handle_private_message-Ensures s =
      then-Ensures _ s (current_user_id-IsLoggedIn online_service storage cache request s)
        (λ sender_id s1 l. lift_then-Ensures _ s1 (λ receiver_id r.
          unless-Ensures (receiver_id == 0 || receiver_id == sender_id) _ s1 (λ n.
            lift_then-Ensures _ s1 (λ text t. lift_then-Ensures _ s1 (λ client_msg_id c.
              weaken-Ensures (send_to-SentTo sender_id receiver_id text client_msg_id s1)
                (λ packet s' h. record {
                  sender_id = sender_id;
                  receiver_id = receiver_id;
                  text = text;
                  client_msg_id = client_msg_id;
                  user_state = s1;
                  is_logged_in = l;
                  has_receiver = r;
                  someone = λ q. ground (arith, n, q);
                  someone_else = λ q. ground (arith, n, q);
                  has_text = t;
                  has_client_id = c;
                  sent = h;
                }))))))

  -- A private message is answered with success only where the request comes from the open session of a user,
  -- names another user as the receiver and has a text, and a client id if any, within their limits; the
  -- receiver exists and is a friend of the sender; and the message was saved, now or by an earlier request
  -- with the same client id. Then it was delivered: an open session of the receiver took the packet, or the
  -- storage has it among the messages that the receiver is to pull, or an earlier delivery was confirmed.
  -- The response has the saved message.
  pub handle_private_message-Sent :
      (packet : Packet) (s s' : S)
      → handle_private_message online_service storage cache request s ≡ (ok packet, s')
      → Sent packet s s'
  handle_private_message-Sent packet s s' q = Ensures_ok (handle_private_message-Ensures s) q
