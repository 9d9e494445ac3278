-- ===== src/Protocol/MessageType.antt =====
-- include/liteim/protocol/MessageType.hpp and src/protocol/MessageType.cpp. A `MessageType` is the
-- 16-bit value of the enumerator: a packet from the wire can carry any.
pub mod Classes
use lite_im.Prelude.{ℕ, String, Bool, true, false, List, [], ◌∷◌, ◌==◌, if◌then◌else◌}

abbrev pub unknown : ℕ
unknown = 0

abbrev pub heartbeat_request : ℕ
heartbeat_request = 1

abbrev pub heartbeat_response : ℕ
heartbeat_response = 2

abbrev pub register_request : ℕ
register_request = 100

abbrev pub register_response : ℕ
register_response = 101

abbrev pub login_request : ℕ
login_request = 102

abbrev pub login_response : ℕ
login_response = 103

abbrev pub logout_request : ℕ
logout_request = 104

abbrev pub logout_response : ℕ
logout_response = 105

abbrev pub add_friend_request : ℕ
add_friend_request = 200

abbrev pub add_friend_response : ℕ
add_friend_response = 201

abbrev pub list_friends_request : ℕ
list_friends_request = 202

abbrev pub list_friends_response : ℕ
list_friends_response = 203

abbrev pub accept_friend_request : ℕ
accept_friend_request = 204

abbrev pub accept_friend_response : ℕ
accept_friend_response = 205

abbrev pub reject_friend_request : ℕ
reject_friend_request = 206

abbrev pub reject_friend_response : ℕ
reject_friend_response = 207

abbrev pub private_message_request : ℕ
private_message_request = 300

abbrev pub private_message_response : ℕ
private_message_response = 301

abbrev pub private_message_push : ℕ
private_message_push = 302

abbrev pub create_group_request : ℕ
create_group_request = 400

abbrev pub create_group_response : ℕ
create_group_response = 401

abbrev pub join_group_request : ℕ
join_group_request = 402

abbrev pub join_group_response : ℕ
join_group_response = 403

abbrev pub list_groups_request : ℕ
list_groups_request = 404

abbrev pub list_groups_response : ℕ
list_groups_response = 405

abbrev pub group_message_request : ℕ
group_message_request = 406

abbrev pub group_message_response : ℕ
group_message_response = 407

abbrev pub group_message_push : ℕ
group_message_push = 408

abbrev pub offline_messages_request : ℕ
offline_messages_request = 500

abbrev pub offline_messages_response : ℕ
offline_messages_response = 501

abbrev pub history_request : ℕ
history_request = 502

abbrev pub history_response : ℕ
history_response = 503

abbrev pub offline_messages_ack_request : ℕ
offline_messages_ack_request = 504

abbrev pub offline_messages_ack_response : ℕ
offline_messages_ack_response = 505

abbrev pub delivery_ack_request : ℕ
delivery_ack_request = 506

abbrev pub delivery_ack_response : ℕ
delivery_ack_response = 507

abbrev pub error_response : ℕ
error_response = 900

-- The labels of a `switch`: the first that is equal is taken.
unfoldable pub is_label : ℕ → List ℕ → Bool
is_label t [] = false
is_label t (c ∷ cs) = if t == c then true else is_label t cs

-- The labels over `return true` in `isRequestType`.
abbrev pub request_types : List ℕ
request_types =
    heartbeat_request ∷ register_request ∷ login_request ∷ logout_request ∷ add_friend_request
    ∷ list_friends_request ∷ accept_friend_request ∷ reject_friend_request ∷ private_message_request
    ∷ create_group_request ∷ join_group_request ∷ list_groups_request ∷ group_message_request
    ∷ offline_messages_request ∷ history_request ∷ offline_messages_ack_request
    ∷ delivery_ack_request ∷ []

-- The labels over `return true` in `isResponseType`.
abbrev pub response_types : List ℕ
response_types =
    heartbeat_response ∷ register_response ∷ login_response ∷ logout_response ∷ add_friend_response
    ∷ list_friends_response ∷ accept_friend_response ∷ reject_friend_response
    ∷ private_message_response ∷ create_group_response ∷ join_group_response ∷ list_groups_response
    ∷ group_message_response ∷ offline_messages_response ∷ history_response
    ∷ offline_messages_ack_response ∷ delivery_ack_response ∷ error_response ∷ []

-- The labels over `return true` in `isPushType`.
abbrev pub push_types : List ℕ
push_types = private_message_push ∷ group_message_push ∷ []

unfoldable pub is_request_type : ℕ → Bool
unfolding is_label
is_request_type t = is_label t request_types

unfoldable pub is_response_type : ℕ → Bool
unfolding is_label
is_response_type t = is_label t response_types

unfoldable pub is_push_type : ℕ → Bool
unfolding is_label
is_push_type t = is_label t push_types

unfoldable pub name_in : ℕ → List (ℕ × String) → String
name_in t [] = "UNKNOWN"
name_in t ((c, s) ∷ cs) = if t == c then s else name_in t cs

-- The labels of `toString` with what each returns.
abbrev names : List (ℕ × String)
names =
    (unknown, "UNKNOWN")
    ∷ (heartbeat_request, "HEARTBEAT_REQUEST")
    ∷ (heartbeat_response, "HEARTBEAT_RESPONSE")
    ∷ (register_request, "REGISTER_REQUEST")
    ∷ (register_response, "REGISTER_RESPONSE")
    ∷ (login_request, "LOGIN_REQUEST")
    ∷ (login_response, "LOGIN_RESPONSE")
    ∷ (logout_request, "LOGOUT_REQUEST")
    ∷ (logout_response, "LOGOUT_RESPONSE")
    ∷ (add_friend_request, "ADD_FRIEND_REQUEST")
    ∷ (add_friend_response, "ADD_FRIEND_RESPONSE")
    ∷ (list_friends_request, "LIST_FRIENDS_REQUEST")
    ∷ (list_friends_response, "LIST_FRIENDS_RESPONSE")
    ∷ (accept_friend_request, "ACCEPT_FRIEND_REQUEST")
    ∷ (accept_friend_response, "ACCEPT_FRIEND_RESPONSE")
    ∷ (reject_friend_request, "REJECT_FRIEND_REQUEST")
    ∷ (reject_friend_response, "REJECT_FRIEND_RESPONSE")
    ∷ (private_message_request, "PRIVATE_MESSAGE_REQUEST")
    ∷ (private_message_response, "PRIVATE_MESSAGE_RESPONSE")
    ∷ (private_message_push, "PRIVATE_MESSAGE_PUSH")
    ∷ (create_group_request, "CREATE_GROUP_REQUEST")
    ∷ (create_group_response, "CREATE_GROUP_RESPONSE")
    ∷ (join_group_request, "JOIN_GROUP_REQUEST")
    ∷ (join_group_response, "JOIN_GROUP_RESPONSE")
    ∷ (list_groups_request, "LIST_GROUPS_REQUEST")
    ∷ (list_groups_response, "LIST_GROUPS_RESPONSE")
    ∷ (group_message_request, "GROUP_MESSAGE_REQUEST")
    ∷ (group_message_response, "GROUP_MESSAGE_RESPONSE")
    ∷ (group_message_push, "GROUP_MESSAGE_PUSH")
    ∷ (offline_messages_request, "OFFLINE_MESSAGES_REQUEST")
    ∷ (offline_messages_response, "OFFLINE_MESSAGES_RESPONSE")
    ∷ (history_request, "HISTORY_REQUEST")
    ∷ (history_response, "HISTORY_RESPONSE")
    ∷ (offline_messages_ack_request, "OFFLINE_MESSAGES_ACK_REQUEST")
    ∷ (offline_messages_ack_response, "OFFLINE_MESSAGES_ACK_RESPONSE")
    ∷ (delivery_ack_request, "DELIVERY_ACK_REQUEST")
    ∷ (delivery_ack_response, "DELIVERY_ACK_RESPONSE")
    ∷ (error_response, "ERROR_RESPONSE")
    ∷ []

unfoldable pub to_string : ℕ → String
unfolding name_in
to_string t = name_in t names
