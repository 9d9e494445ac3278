-- ===== src/Service/AuthService.antt =====
-- include/liteim/service/AuthService.hpp and src/service/AuthService.cpp. Storage, cache, the online service
-- and OpenSSL are called through `Backend`; `S` is the state of them all.
pub mod Equality
pub mod Login
pub mod Refusals
pub mod Register
mod Tests
use lite_im.Prelude.{
  ℕ, zero, suc, ◌+◌, ◌/◌, ◌%◌, ◌*◌, Bool, true, false, not, List, [], ◌∷◌, ◌++◌, Option, none, some,
  length, ltb, ◌==◌, if◌then◌else◌,
}
use Prim.Native.Nat.{bit_or, bit_xor}
use lite_im.Status.{
  ErrorCode, Status, error, success, invalid_argument, internal_error, not_found, Result, ok, err,
  check,
}
use lite_im.Protocol.Bytes.{Bytes}
use lite_im.Protocol.MessageType.{register_response, login_response, logout_response}
use lite_im.Protocol.Tlv.{username, password, user_id, nickname, session_id}
use lite_im.Protocol.Packet.{Packet, default_header}
use lite_im.Protocol.TlvCodec.{TlvMap, find_values, append_string, append_uint64}
pub use lite_im.Service.Records.{UserRecord, Session, RouterRequest, response_packet}
use lite_im.Service.Action.{Action, pure, raise, lift, unless, ◌>>=◌, ◌>>◌}
use lite_im.Service.Fields.{
  max_username_bytes, max_nickname_bytes, max_password_bytes, required_string, bounded_string,
  validate_max_bytes, bind_result, appended,
}

pub record CreateUserRequest : Type 0 where
  pub name : Bytes
  pub password_hash : Bytes
  pub password_salt : Bytes
  pub nick : Bytes

pub record LoginAttemptKey : Type 0 where
  pub name : Bytes
  pub remote_ip : Bytes

pub record AuthServiceOptions : Type 0 where
  pub max_login_failures : ℕ
  pub login_failure_ttl : ℕ
  pub default_remote_ip : Bytes

-- The calls of `IStorage`, `ICache`, `OnlineService` and OpenSSL; no bytes where an OpenSSL call fails.
pub record Backend (S : Type 0) : Type 0 where
  pub create_user : CreateUserRequest → Action S UserRecord
  pub find_user_by_username : Bytes → Action S UserRecord
  pub allow_login_attempt : LoginAttemptKey → ℕ → Action S Bool
  pub record_login_failure : LoginAttemptKey → ℕ → Action S (Unit {0})
  pub clear_login_failure : LoginAttemptKey → Action S (Unit {0})
  pub bind_user : ℕ → Option Session → Action S (Unit {0})
  pub unbind_session : ℕ → Action S (Unit {0})
  pub rand_bytes : S → Option Bytes × S
  pub pbkdf2 : Bytes → Bytes → Option Bytes

abbrev pub invalid_credentials_status : Status
invalid_credentials_status = error invalid_argument "invalid username or password"

abbrev pub login_limited_status : Status
login_limited_status = error invalid_argument "too many login failures"

abbrev hex_digit : ℕ → ℕ
hex_digit d = if ltb d 10 then 48 + d else 87 + d

unfoldable pub to_hex : Bytes → Bytes
to_hex [] = []
to_hex (b ∷ bs) = hex_digit (b / 16 % 16) ∷ hex_digit (b % 16) ∷ to_hex bs

-- The loop of `secureEquals` over texts of one length.
unfoldable pub difference : ℕ → Bytes → Bytes → ℕ
difference diff [] ys = diff
difference diff (x ∷ xs) [] = diff
difference diff (x ∷ xs) (y ∷ ys) = difference (bit_or diff (bit_xor x y)) xs ys

unfoldable pub secure_equals : Bytes → Bytes → Bool
secure_equals lhs rhs = if not (length lhs == length rhs) then false else difference 0 lhs rhs == 0

-- The user's name, where no nickname is given.
abbrev pub given_or : Bytes → Result Bytes → Option (List Bytes) → Result Bytes
given_or default_name given none = ok default_name
given_or default_name given (some values) = given

unfoldable pub optional_nickname : TlvMap → Bytes → Result Bytes
optional_nickname fields default_name =
    given_or default_name (required_string fields nickname "nickname") (find_values fields nickname)

-- The nickname, where it is within its limit.
unfoldable pub bounded_nickname : TlvMap → Bytes → Result Bytes
unfolding optional_nickname
bounded_nickname fields default_name =
    bind_result (optional_nickname fields default_name)
      (λ nick. check (validate_max_bytes nick max_nickname_bytes "nickname") nick)

unfoldable pub append_user_fields : UserRecord → Bytes → Result Bytes
append_user_fields user body = bind_result (appended (append_uint64 user_id user.id body)) (λ b.
    bind_result (appended (append_string username user.name b))
      (λ b'. appended (append_string nickname user.nick b')))

unfoldable pub append_login_fields : UserRecord → ℕ → Bytes → Result Bytes
unfolding append_user_fields
append_login_fields user id body =
    bind_result (append_user_fields user body) (λ b. appended (append_uint64 session_id id b))

abbrev pub hex_or : Option Bytes → Status → Result Bytes
hex_or none e = err e
hex_or (some bs) e = ok (to_hex bs)

abbrev pub peer_or : Bytes → Bytes → Bytes
peer_or default_ip [] = default_ip
peer_or default_ip (b ∷ bs) = b ∷ bs

unfoldable pub remote_ip_for_request : Option Session → AuthServiceOptions → Bytes
remote_ip_for_request none options = options.default_remote_ip
remote_ip_for_request (some s) options = peer_or options.default_remote_ip s.peer_ip

-- `request.session->id()`; the online service refuses a null session before.
abbrev pub id_or_zero : Option Session → ℕ
id_or_zero none = 0
id_or_zero (some s) = s.id

module _ {S : Type 0} (backend : Backend S) (options : AuthServiceOptions) where
  unfoldable pub generate_salt : Action S Bytes
  generate_salt s =
      let (bytes, s') = backend.rand_bytes s in
      (hex_or bytes (error internal_error "failed to generate password salt"), s')

  unfoldable pub hash_password : Bytes → Bytes → Result Bytes
  hash_password text salt =
      hex_or (backend.pbkdf2 text salt) (error internal_error "failed to hash password")

  unfoldable pub record_login_failure : {A : Type 0} → LoginAttemptKey → Action S A
  record_login_failure key = do
    backend.record_login_failure key options.login_failure_ttl
    raise invalid_credentials_status

  abbrev pub login_key : Option Session → Bytes → LoginAttemptKey
  login_key session name = record { name = name; remote_ip = remote_ip_for_request session options }

  abbrev pub failed_find : LoginAttemptKey → Status → ErrorCode → Action S UserRecord
  failed_find key e not_found = record_login_failure key
  failed_find key e _ = raise e

  abbrev pub found : LoginAttemptKey → Result UserRecord × S → Result UserRecord × S
  found key (ok user, s) = (ok user, s)
  found key (err e, s) = failed_find key e e.code s

  -- `findUserByUsername` and what follows where it fails.
  unfoldable pub find_user : LoginAttemptKey → Bytes → Action S UserRecord
  find_user key name s = found key (backend.find_user_by_username name s)

  unfoldable pub check_password : LoginAttemptKey → UserRecord → Bytes → Action S (Unit {0})
  check_password key user candidate =
      if secure_equals candidate user.password_hash then pure tt else record_login_failure key

  -- `handleLogin`, from the password check on.
  abbrev pub let_in : RouterRequest → LoginAttemptKey → UserRecord → Action S Packet
  let_in request key user = do
    backend.clear_login_failure key
    backend.bind_user user.id request.session
    body ← lift (append_login_fields user (id_or_zero request.session) [])
    pure (response_packet login_response request body)

  abbrev pub verify : RouterRequest → LoginAttemptKey → Bytes → UserRecord → Action S Packet
  verify request key text user = do
    candidate ← lift (hash_password text user.password_salt)
    check_password key user candidate
    let_in request key user

  -- `handleLogin`, from the check of the limit on.
  abbrev pub attempt : RouterRequest → Bytes → Bytes → Bool → Action S Packet
  attempt request name text allowed = do
    unless (not allowed) login_limited_status
    user ← find_user (login_key request.session name) name
    verify request (login_key request.session name) text user

  unfoldable pub handle_login : RouterRequest → Action S Packet
  handle_login request = do
    name ← lift (bounded_string request.fields username "username" max_username_bytes)
    text ← lift (bounded_string request.fields password "password" max_password_bytes)
    allowed ←
        backend.allow_login_attempt (login_key request.session name) options.max_login_failures
    attempt request name text allowed

  -- `handleRegister`, from `createUser` on.
  abbrev pub create : RouterRequest → Bytes → Bytes → Bytes → Bytes → Action S Packet
  create request name nick salt hash = do
    user ←
        backend.create_user
          (record { name = name; password_hash = hash; password_salt = salt; nick = nick })
    body ← lift (append_user_fields user [])
    pure (response_packet register_response request body)

  -- The salt and the hash.
  abbrev pub protect : RouterRequest → Bytes → Bytes → Bytes → Action S Packet
  protect request name text nick = do
    salt ← generate_salt
    hash ← lift (hash_password text salt)
    create request name nick salt hash

  unfoldable pub handle_register : RouterRequest → Action S Packet
  handle_register request = do
    name ← lift (bounded_string request.fields username "username" max_username_bytes)
    text ← lift (bounded_string request.fields password "password" max_password_bytes)
    nick ← lift (bounded_nickname request.fields name)
    protect request name text nick

  abbrev pub logout_of : RouterRequest → Session → Action S Packet
  logout_of request session = do
    backend.unbind_session session.id
    body ← lift (appended (append_uint64 session_id session.id []))
    pure (response_packet logout_response request body)

  unfoldable pub handle_logout : RouterRequest → Action S Packet
  handle_logout request = elim request.session [
    | none ↦ raise (error invalid_argument "session must not be null")
    | some session ↦ logout_of request session
  ]
