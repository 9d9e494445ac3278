-- ===== src/Service/AuthService/Tests.antt =====
-- The handlers over a small store, and the theorems at it.
use lite_im.Prelude.{
  ℕ, zero, suc, ◌+◌, ◌≡◌, ◌≢◌, ◌⊎◌, ◌↔◌, refl, Bool, true, false, List, [], ◌∷◌, ◌++◌, Option, none,
  some, ltb, if◌then◌else◌, inl, inr, arith,
}
use lite_im.Status.{error, invalid_argument, not_found, Result, ok, err}
use lite_im.Protocol.Bytes.{Bytes}
use lite_im.Protocol.MessageType.{login_response, register_response}
use lite_im.Protocol.Packet.{Packet}
use lite_im.Service.AuthService.{
  Backend, AuthServiceOptions, UserRecord, CreateUserRequest, RouterRequest, Session,
  LoginAttemptKey, secure_equals, handle_login, handle_register, append_login_fields,
  append_user_fields, response_packet, login_limited_status, record_login_failure, find_user,
  check_password, hash_password, generate_salt, to_hex, login_key,
}
use lite_im.Service.AuthService.Equality.{secure_equals_iff}
use lite_im.Service.AuthService.Login.{LoggedIn, handle_login-LoggedIn}
use lite_im.Service.AuthService.Refusals.{refusal_status, handle_login-wrong}
use lite_im.Service.AuthService.Register.{Registered, handle_register-Registered}

record Store : Type 0 where
  users : List UserRecord
  failures : ℕ

abbrev find_name : Bytes → List UserRecord → Result UserRecord
find_name name [] = err (error not_found "no such user")
find_name name (u ∷ us) = if secure_equals name u.name then ok u else find_name name us

abbrev new_user : CreateUserRequest → UserRecord
new_user r = record {
  id = 1;
  name = r.name;
  password_hash = r.password_hash;
  password_salt = r.password_salt;
  nick = r.nick;
}

abbrev bound : Option Session → Result (Unit {0})
bound none = err (error invalid_argument "session must not be null")
bound (some s) = ok tt

abbrev store : Backend Store
store = record {
  create_user = λ r s. (ok (new_user r), record s { users = new_user r ∷ s.users });
  find_user_by_username = λ name s. (find_name name s.users, s);
  allow_login_attempt = λ key most s. (ok (ltb s.failures most), s);
  record_login_failure = λ key ttl s. (ok tt, record s { failures = s.failures + 1 });
  clear_login_failure = λ key s. (ok tt, record s { failures = 0 });
  bind_user = λ id session s. (bound session, s);
  unbind_session = λ id s. (ok tt, s);
  rand_bytes = λ s. (some (7 ∷ []), s);
  pbkdf2 = λ text salt. some (text ++ salt);
}

abbrev options : AuthServiceOptions
options = record { max_login_failures = 3; login_failure_ttl = 300; default_remote_ip = 63 ∷ [] }

-- A request of the user a with this password.
abbrev request_with : Bytes → RouterRequest
request_with text = record {
  session = some (record { id = 9; peer_ip = [] });
  seq_id = 4;
  fields = (1, (97 ∷ []) ∷ []) ∷ (2, text ∷ []) ∷ [];
}

abbrev user_a : UserRecord
user_a = record {
  id = 1;
  name = 97 ∷ [];
  password_hash = 54 ∷ 50 ∷ 48 ∷ 55 ∷ [];
  password_salt = 7 ∷ [];
  nick = 97 ∷ [];
}

abbrev stored_a : UserRecord
stored_a = record user_a {
  password_salt = 48 ∷ 55 ∷ [];
  password_hash = 54 ∷ 50 ∷ 51 ∷ 48 ∷ 51 ∷ 55 ∷ [];
}

abbrev one_user : Store
one_user = record { users = user_a ∷ []; failures = 1 }

abbrev body_of : Result Bytes → Bytes
body_of (ok b) = b
body_of (err e) = []

abbrev login_reply : Packet
login_reply =
    response_packet login_response (request_with (98 ∷ []))
      (body_of (append_login_fields user_a 9 []))

abbrev one_two : Bytes
one_two = 1 ∷ 2 ∷ []

abbrev one_three : Bytes
one_three = 1 ∷ 3 ∷ []

secure_equals_iff_example : (secure_equals one_two one_three ≡ true) ↔ (one_two ≡ one_three)
secure_equals_iff_example = secure_equals_iff one_two one_three

login_works :
    handle_login store options (request_with (98 ∷ [])) one_user
    ≡ (ok login_reply, record one_user { failures = 0 })
unfolding handle_login lite_im.Service.Action.◌>>=◌ find_user check_password hash_password
    secure_equals lite_im.Service.Fields.bounded_string lite_im.Protocol.TlvCodec.get_string
    lite_im.Protocol.TlvCodec.find_values lite_im.Prelude.Assoc.find
    lite_im.Service.AuthService.difference to_hex append_login_fields
    lite_im.Protocol.TlvCodec.append_uint64 lite_im.Protocol.TlvCodec.append_value
    lite_im.Protocol.ByteOrder.append_uint64_be lite_im.Protocol.TlvCodec.append_string
login_works = refl

handle_login-LoggedIn_example :
    LoggedIn store options
      (request_with (98 ∷ []))
      (record one_user { failures = 0 })
      login_reply
      one_user
handle_login-LoggedIn_example =
    handle_login-LoggedIn store options (request_with (98 ∷ [])) (record one_user { failures = 0 })
      login_reply one_user login_works

wrong_password : (54 ∷ 51 ∷ 48 ∷ 55 ∷ []) ≢ user_a.password_hash
wrong_password q = ground (arith, q)

abbrev failed_twice : Store
failed_twice = record one_user { failures = 2 }

handle_login-wrong_example :
    handle_login store options (request_with (99 ∷ [])) one_user
    ≡ (err (refusal_status (ok tt)), failed_twice)
unfolding lite_im.Service.Fields.bounded_string lite_im.Protocol.TlvCodec.get_string
    lite_im.Protocol.TlvCodec.find_values lite_im.Prelude.Assoc.find secure_equals
    lite_im.Service.AuthService.difference hash_password to_hex
handle_login-wrong_example =
    handle_login-wrong store options (request_with (99 ∷ [])) (97 ∷ []) (99 ∷ []) refl refl one_user
      one_user one_user failed_twice (ok tt) refl
      (inr (user_a, 54 ∷ 51 ∷ 48 ∷ 55 ∷ [], refl, refl, wrong_password)) refl

abbrev nobody : Store
nobody = record { users = []; failures = 0 }

abbrev register_reply : Packet
register_reply =
    response_packet register_response (request_with (98 ∷ []))
      (body_of (append_user_fields stored_a []))

abbrev one_stored : Store
one_stored = record { users = stored_a ∷ []; failures = 0 }

register_works :
    handle_register store options (request_with (98 ∷ [])) nobody ≡ (ok register_reply, one_stored)
unfolding handle_register lite_im.Service.Action.◌>>=◌ lite_im.Service.Fields.bounded_string
    lite_im.Protocol.TlvCodec.get_string lite_im.Protocol.TlvCodec.find_values
    lite_im.Prelude.Assoc.find lite_im.Service.AuthService.bounded_nickname generate_salt
    hash_password append_user_fields lite_im.Protocol.TlvCodec.append_uint64
    lite_im.Protocol.TlvCodec.append_value lite_im.Protocol.ByteOrder.append_uint64_be
    lite_im.Protocol.TlvCodec.append_string to_hex
register_works = refl

handle_register-Registered_example :
    Registered store options (request_with (98 ∷ [])) one_stored register_reply nobody
handle_register-Registered_example =
    handle_register-Registered store options (request_with (98 ∷ [])) one_stored register_reply
      nobody register_works
