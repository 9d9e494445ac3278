-- ===== src/Service/AuthService/Refusals.antt =====
-- What `handleLogin` does where it lets nobody in.
use lite_im.Prelude.{
  ◌≡◌, ◌≢◌, ◌⊎◌, refl, ap, ◌∙◌, Bool, true, false, if◌then◌else◌, Bool-cases, inl, inr,
}
use lite_im.Status.{Status, error, invalid_argument, not_found, Result, ok, err}
use lite_im.Protocol.Bytes.{Bytes}
use lite_im.Protocol.Packet.{Packet}
use lite_im.Protocol.Tlv.{username, password}
use lite_im.Service.Action.{Action, pure, raise, lift, ◌>>=◌, ◌>>◌}
use lite_im.Service.Action.Inversion.{>>=_ok}
use lite_im.Service.Fields.{bounded_string, max_username_bytes, max_password_bytes}
use lite_im.Service.AuthService.{
  Backend, AuthServiceOptions, UserRecord, RouterRequest, LoginAttemptKey,
  invalid_credentials_status, let_in, hash_password, secure_equals, login_key, find_user,
  failed_find, found, remote_ip_for_request, attempt, verify, check_password, record_login_failure,
  handle_login,
}
use lite_im.Service.AuthService.Equality.{secure_equals_iff}

secure_equals-false : (lhs rhs : Bytes) → lhs ≢ rhs → secure_equals lhs rhs ≡ false
secure_equals-false lhs rhs d = elim (Bool-cases (secure_equals lhs rhs)) [
  | inl e ↦ absurd (d ((secure_equals_iff lhs rhs).0 e))
  | inr e ↦ e
]

-- Behind a recorded failure nothing is done.
recorded_stops :
    {S A B : Type 0} (f : A → Action S B) (p : Result (Unit {0}) × S)
    → ((λ (_ : S). p) >>= (λ _. raise invalid_credentials_status) >>= f) p.1
      ≡ ((λ (_ : S). p) >>= λ _. raise invalid_credentials_status) p.1
unfolding ◌>>=◌
recorded_stops f (ok u, s) = refl
recorded_stops f (err e, s) = refl

-- The answer to a wrong login, with what the cache gave when the failure was recorded.
abbrev pub refusal_status : Result (Unit {0}) → Status
refusal_status (ok u) = error invalid_argument "invalid username or password"
refusal_status (err e) = e

module _ {S : Type 0} (backend : Backend S) (options : AuthServiceOptions) (request : RouterRequest)
    (name text : Bytes)
    (has_name : bounded_string request.fields username "username" max_username_bytes ≡ ok name)
    (has_text : bounded_string request.fields password "password" max_password_bytes
      ≡ ok text) where
  -- The name, and the address that the request came from.
  abbrev key : LoginAttemptKey
  key = record { name = name; remote_ip = remote_ip_for_request request.session options }

  handle_login-attempt :
      (s s1 : S) (allowed : Bool)
      → backend.allow_login_attempt key options.max_login_failures s ≡ (ok allowed, s1)
      → handle_login backend options request s
        ≡ attempt backend options request name text allowed s1
  unfolding handle_login
  handle_login-attempt s s1 allowed a =
      let allow = backend.allow_login_attempt key options.max_login_failures in
      let try = attempt backend options request name text in
      >>=_ok (lift (bounded_string request.fields username "username" max_username_bytes))
        (λ name.
          lift (bounded_string request.fields password "password" max_password_bytes) >>= λ text.
          backend.allow_login_attempt (login_key backend options request.session name)
            options.max_login_failures
          >>= attempt backend options request name text)
        (ap (λ r. (r, s)) has_name)
      ∙ >>=_ok (lift (bounded_string request.fields password "password" max_password_bytes))
          (λ text. allow >>= attempt backend options request name text) (ap (λ r. (r, s)) has_text)
      ∙ >>=_ok allow try a

  record_stops :
      {A B : Type 0} (f : A → Action S B) (s : S)
      → (record_login_failure backend options key >>= f) s
        ≡ record_login_failure backend options key s
  unfolding record_login_failure ◌>>=◌
  record_stops {A} {B} f s =
      recorded_stops f (backend.record_login_failure key options.login_failure_ttl s)

  recorded_lem :
      (recorded : Result (Unit {0})) (s2 s3 : S)
      → backend.record_login_failure key options.login_failure_ttl s2 ≡ (recorded, s3)
      → record_login_failure backend options {A = Packet} key s2
        ≡ (err (refusal_status recorded), s3)
  unfolding record_login_failure ◌>>=◌
  recorded_lem recorded s2 s3 e = ap after e ∙ at_end recorded
    where
      after : Result (Unit {0}) × S → Result Packet × S
      after p =
          let (r, z) = p in
          elim r [ ok u ↦ (err invalid_credentials_status, z) | err x ↦ (err x, z) ]

      at_end : (r : Result (Unit {0})) → after (r, s3) ≡ (err (refusal_status r), s3)
      at_end (ok u) = refl
      at_end (err x) = refl

  handle_login_refused :
      (s s1 s2 : S)
      → backend.allow_login_attempt key options.max_login_failures s ≡ (ok true, s1)
      → ((e : Status) × (backend.find_user_by_username name s1 ≡ (err e, s2))
          × (e.code ≡ not_found))
        ⊎ ((user : UserRecord) × (hash : Bytes) × (backend.find_user_by_username name s1
              ≡ (ok user, s2))
            × (hash_password backend options text user.password_salt ≡ ok hash)
            × (hash ≢ user.password_hash))
      → handle_login backend options request s ≡ record_login_failure backend options key s2
  unfolding find_user check_password record_login_failure ◌>>=◌
  handle_login_refused s s1 s2 a (inl (e, f, c)) =
      let check = verify backend options request key text in
      handle_login-attempt s s1 true a
      ∙ ap (λ p. let (r, z) = p in elim r [ ok u ↦ check u z | err x ↦ (err x, z) ])
          (ap (found backend options key) f
            ∙ ap (λ code. failed_find backend options key e code s2) c)
      ∙ record_stops check s2
  handle_login_refused s s1 s2 a (inr (user, hash, f, h, d)) =
      let check = verify backend options request key text in
      let rest = λ (_ : Unit {0}). let_in backend options request key user in
      let differs : secure_equals hash user.password_hash ≡ false =
        secure_equals-false hash user.password_hash d in
      handle_login-attempt s s1 true a
      ∙ >>=_ok (find_user backend options key name) check (ap (found backend options key) f)
      ∙ >>=_ok (lift (hash_password backend options text user.password_salt))
          (λ candidate.
            check_password backend options key user candidate
            >> let_in backend options request key user)
          (ap (λ r. (r, s2)) h)
      ∙ ap (λ b. ((if b then pure tt else record_login_failure backend options key) >>= rest) s2)
          differs
      ∙ record_stops rest s2

  -- A login with an unknown name and one with a wrong password, where the cache allows an attempt, end alike:
  -- one failure is recorded in the cache, under the name and the address that the request came from, and nothing
  -- is done behind that. The answer to both is the same, and only where the cache fails it is the cache's
  -- failure.
  pub handle_login-wrong :
      (s s1 s2 s3 : S) (recorded : Result (Unit {0}))
      → backend.allow_login_attempt key options.max_login_failures s ≡ (ok true, s1)
      → ((e : Status) × (backend.find_user_by_username name s1 ≡ (err e, s2))
          × (e.code ≡ not_found))
        ⊎ ((user : UserRecord) × (hash : Bytes) × (backend.find_user_by_username name s1
              ≡ (ok user, s2))
            × (hash_password backend options text user.password_salt ≡ ok hash)
            × (hash ≢ user.password_hash))
      → backend.record_login_failure key options.login_failure_ttl s2 ≡ (recorded, s3)
      → handle_login backend options request s ≡ (err (refusal_status recorded), s3)
  handle_login-wrong s s1 s2 s3 recorded a w r =
      handle_login_refused s s1 s2 a w ∙ recorded_lem recorded s2 s3 r
