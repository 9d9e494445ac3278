-- ===== src/Protocol/Tlv.antt =====
-- include/liteim/protocol/Tlv.hpp and src/protocol/Tlv.cpp: the types of TLV records.
use lite_im.Prelude.{ℕ, String, List, [], ◌∷◌}
use lite_im.Protocol.MessageType.{name_in}

abbrev pub unknown : ℕ
unknown = 0

abbrev pub username : ℕ
username = 1

abbrev pub password : ℕ
password = 2

abbrev pub user_id : ℕ
user_id = 3

abbrev pub nickname : ℕ
nickname = 4

abbrev pub token : ℕ
token = 5

abbrev pub session_id : ℕ
session_id = 6

abbrev pub friend_id : ℕ
friend_id = 20

abbrev pub target_user_id : ℕ
target_user_id = 21

abbrev pub online_status : ℕ
online_status = 22

abbrev pub friend_request_status : ℕ
friend_request_status = 23

abbrev pub group_id : ℕ
group_id = 30

abbrev pub group_name : ℕ
group_name = 31

abbrev pub conversation_type : ℕ
conversation_type = 40

abbrev pub conversation_id : ℕ
conversation_id = 41

abbrev pub message_id : ℕ
message_id = 42

abbrev pub message_text : ℕ
message_text = 43

abbrev pub sender_id : ℕ
sender_id = 44

abbrev pub receiver_id : ℕ
receiver_id = 45

abbrev pub timestamp_ms : ℕ
timestamp_ms = 46

abbrev pub offset : ℕ
offset = 47

abbrev pub limit : ℕ
limit = 48

abbrev pub unread_count : ℕ
unread_count = 49

abbrev pub delivery_status : ℕ
delivery_status = 50

abbrev pub client_message_id : ℕ
client_message_id = 51

abbrev pub error_code : ℕ
error_code = 90

abbrev pub error_message : ℕ
error_message = 91

-- The labels of `toString` with what each returns.
abbrev names : List (ℕ × String)
names =
    (unknown, "UNKNOWN")
    ∷ (username, "USERNAME")
    ∷ (password, "PASSWORD")
    ∷ (user_id, "USER_ID")
    ∷ (nickname, "NICKNAME")
    ∷ (token, "TOKEN")
    ∷ (session_id, "SESSION_ID")
    ∷ (friend_id, "FRIEND_ID")
    ∷ (target_user_id, "TARGET_USER_ID")
    ∷ (online_status, "ONLINE_STATUS")
    ∷ (friend_request_status, "FRIEND_REQUEST_STATUS")
    ∷ (group_id, "GROUP_ID")
    ∷ (group_name, "GROUP_NAME")
    ∷ (conversation_type, "CONVERSATION_TYPE")
    ∷ (conversation_id, "CONVERSATION_ID")
    ∷ (message_id, "MESSAGE_ID")
    ∷ (message_text, "MESSAGE_TEXT")
    ∷ (sender_id, "SENDER_ID")
    ∷ (receiver_id, "RECEIVER_ID")
    ∷ (timestamp_ms, "TIMESTAMP_MS")
    ∷ (offset, "OFFSET")
    ∷ (limit, "LIMIT")
    ∷ (unread_count, "UNREAD_COUNT")
    ∷ (delivery_status, "DELIVERY_STATUS")
    ∷ (client_message_id, "CLIENT_MESSAGE_ID")
    ∷ (error_code, "ERROR_CODE")
    ∷ (error_message, "ERROR_MESSAGE")
    ∷ []

unfoldable pub to_string : ℕ → String
unfolding name_in
to_string t = name_in t names
