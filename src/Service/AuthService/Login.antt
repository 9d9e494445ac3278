-- ===== src/Service/AuthService/Login.antt =====
-- Who is let in by `handleLogin`, and what it does where it lets nobody in.
use lite_im.Prelude.{
  ℕ, ◌≡◌, ap, sym, subst, ◌∙◌, Bool, true, false, not, [], if◌then◌else◌, arith, Bool-cases, inl,
  inr,
}
use lite_im.Status.{ErrorCode, Status, not_found, Result, ok, err}
use lite_im.Protocol.Bytes.{Bytes}
use lite_im.Protocol.MessageType.{login_response}
use lite_im.Protocol.Tlv.{username, password}
use lite_im.Protocol.Packet.{Packet}
use lite_im.Service.Action.{pure, raise, lift, unless, ◌>>=◌, ◌>>◌}
use lite_im.Service.Action.Inversion.{>>=_inversion, unless_inversion}
use lite_im.Service.Fields.{bounded_string, max_username_bytes, max_password_bytes}
use lite_im.Service.AuthService.{
  Backend, AuthServiceOptions, UserRecord, RouterRequest, LoginAttemptKey, login_limited_status,
  invalid_credentials_status, hash_password, secure_equals, login_key, find_user, failed_find,
  found, let_in, verify, attempt, check_password, record_login_failure, handle_login,
  append_login_fields, id_or_zero, response_packet,
}
use lite_im.Service.AuthService.Equality.{secure_equals_iff}

module _ {S : Type 0} (backend : Backend S) (options : AuthServiceOptions) where
  record_login_failure-err :
      {A : Type 0} (key : LoginAttemptKey) (s s' : S) (a : A)
      → record_login_failure backend options key s ≡ (ok a, s')
      → ⊥
  unfolding record_login_failure
  record_login_failure-err {A} key s s' a q =
      let (u, s1, p, r) =
        >>=_inversion (λ _. raise invalid_credentials_status) s' a
          (backend.record_login_failure key options.login_failure_ttl) s q in
      let k = ap (λ p. p.0) r in ground (arith, k)

  failed-err :
      (key : LoginAttemptKey) (e : Status) (code : ErrorCode) (s s' : S) (user : UserRecord)
      → failed_find backend options key e code s ≡ (ok user, s')
      → ⊥
  failed-err key e not_found s s' user q = record_login_failure-err key s s' user q
  failed-err key e _ s s' user q = let k = ap (λ p. p.0) q in ground (arith, k)

  found_inversion :
      (key : LoginAttemptKey) (p : Result UserRecord × S) (s' : S) (user : UserRecord)
      → found backend options key p ≡ (ok user, s')
      → p ≡ (ok user, s')
  found_inversion key (ok u, s1) s' user q = q
  found_inversion key (err e, s1) s' user q = absurd (failed-err key e e.code s1 s' user q)

  find_user_inversion :
      (key : LoginAttemptKey) (name : Bytes) (s s' : S) (user : UserRecord)
      → find_user backend options key name s ≡ (ok user, s')
      → backend.find_user_by_username name s ≡ (ok user, s')
  unfolding find_user
  find_user_inversion key name s s' user q =
      found_inversion key (backend.find_user_by_username name s) s' user q

  check_password_inversion :
      (key : LoginAttemptKey) (user : UserRecord) (candidate : Bytes) (s s' : S) (u : Unit {0})
      → check_password backend options key user candidate s ≡ (ok u, s')
      → (candidate ≡ user.password_hash) × (s ≡ s')
  unfolding check_password
  check_password_inversion key user candidate s s' u q =
      let taken = λ (b : Bool) (h : secure_equals candidate user.password_hash ≡ b).
        subst
          (λ c. (if c then pure tt else record_login_failure backend options key) s ≡ (ok u, s')) h
          q in
      elim (Bool-cases (secure_equals candidate user.password_hash)) [
        | inl h ↦
            ((secure_equals_iff candidate user.password_hash).0 h, ap (λ p. p.1) (taken true h))
        | inr h ↦ absurd (record_login_failure-err key s s' u (taken false h))
      ]

module _ {S : Type 0} (backend : Backend S) (options : AuthServiceOptions) (request : RouterRequest)
    (s' : S) (packet : Packet) where
  -- What the last part did.
  pub record Admitted (key : LoginAttemptKey) (user : UserRecord) (s : S) : Type 0 where
    pub cleared_state : S
    pub is_cleared : backend.clear_login_failure key s ≡ (ok tt, cleared_state)
    pub is_bound : backend.bind_user user.id request.session cleared_state ≡ (ok tt, s')
    pub has_type : packet.header.msg_type ≡ login_response
    pub has_seq_id : packet.header.seq_id ≡ request.seq_id

  abbrev of_answer : Result Packet × S → ℕ × ℕ
  of_answer (ok p, z) = (p.header.msg_type, p.header.seq_id)
  of_answer (err e, z) = (0, 0)

  let_in-Admitted :
      (key : LoginAttemptKey) (user : UserRecord) (s : S)
      → let_in backend options request key user s ≡ (ok packet, s')
      → Admitted key user s
  let_in-Admitted key user s q =
      let respond = λ (body : Bytes). pure {S = S} (response_packet login_response request body) in
      let append = lift {S = S} (append_login_fields user (id_or_zero request.session) []) in
      let (u, s1, p1, q1) =
        >>=_inversion (λ _. backend.bind_user user.id request.session >> (append >>= respond)) s'
          packet (backend.clear_login_failure key) s q in
      let (v, s2, p2, q2) =
        >>=_inversion (λ _. append >>= respond) s' packet
          (backend.bind_user user.id request.session) s1 q1 in
      let (body, s3, p3, q3) = >>=_inversion respond s' packet append s2 q2 in
      let same = ap (λ p. p.1) p3 ∙ ap (λ p. p.1) q3 in
      record {
        cleared_state = s1;
        is_cleared = p1;
        is_bound = p2 ∙ ap (λ z. (ok tt, z)) same;
        has_type = sym (ap (λ p. (of_answer p).0) q3);
        has_seq_id = sym (ap (λ p. (of_answer p).1) q3);
      }

  -- What must have happened for a login to succeed.
  pub record LoggedIn (s : S) : Type 0 where
    pub name : Bytes
    pub text : Bytes
    pub user : UserRecord
    pub allowed_state : S
    pub found_state : S
    pub has_name : bounded_string request.fields username "username" max_username_bytes ≡ ok name
    pub has_password :
        bounded_string request.fields password "password" max_password_bytes ≡ ok text
    pub is_allowed :
        backend.allow_login_attempt
          (login_key backend options request.session name)
          options.max_login_failures
          s
        ≡ (ok true, allowed_state)
    pub is_found : backend.find_user_by_username name allowed_state ≡ (ok user, found_state)
    pub same_hash : hash_password backend options text user.password_salt ≡ ok user.password_hash
    pub admitted : Admitted (login_key backend options request.session name) user found_state

  verify_inversion :
      (key : LoginAttemptKey) (text : Bytes) (user : UserRecord) (s : S)
      → verify backend options request key text user s ≡ (ok packet, s')
      → (hash_password backend options text user.password_salt ≡ ok user.password_hash)
        × Admitted key user s
  verify_inversion key text user s q =
      let rest = let_in backend options request key user in
      let (candidate, s1, p1, q1) =
        >>=_inversion (λ candidate. check_password backend options key user candidate >> rest) s'
          packet (lift (hash_password backend options text user.password_salt)) s q in
      let (u, s2, p2, q2) =
        >>=_inversion (λ _. rest) s' packet (check_password backend options key user candidate) s1
          q1 in
      let checked = check_password_inversion backend options key user candidate s1 s2 u p2 in
      let same : s2 ≡ s = sym (ap (λ p. p.1) p1 ∙ checked.1) in
      (
        ap (λ p. p.0) p1 ∙ ap (λ c. ok c) checked.0,
        let_in-Admitted key user s (subst (λ z. rest z ≡ (ok packet, s')) same q2),
      )

  attempt_inversion :
      (name text : Bytes) (allowed : Bool) (s : S)
      → attempt backend options request name text allowed s ≡ (ok packet, s')
      → (allowed ≡ true)
        × (user : UserRecord) × (found_state : S) × (backend.find_user_by_username name s
            ≡ (ok user, found_state))
        × (verify backend options request
              (login_key backend options request.session name)
              text
              user
              found_state
            ≡ (ok packet, s'))
  attempt_inversion name text allowed s q =
      let key = login_key backend options request.session name in
      let found = find_user backend options key name in
      let (u, s1, p1, q1) =
        >>=_inversion (λ _. found >>= verify backend options request key text) s' packet
          (unless (not allowed) login_limited_status) s q in
      let passed = unless_inversion allowed login_limited_status s s1 u p1 in
      let (user, s2, p2, q2) =
        >>=_inversion (verify backend options request key text) s' packet found s1 q1 in
      let is_found = find_user_inversion backend options key name s1 s2 user p2 in
      (
        passed.0,
        user,
        s2,
        subst (λ z. backend.find_user_by_username name z ≡ (ok user, s2)) (sym passed.1) is_found,
        q2,
      )

  -- A login succeeds only where the request has a name and a password within their limits, the cache still
  -- allows an attempt for this name and address, the user is found, the hash of the password with the user's
  -- salt is the stored one, the count of failures was cleared, and the user was bound to the session of the
  -- request, each in the state that the call before it left; the response then has the number of the request.
  pub handle_login-LoggedIn :
      (s : S) → handle_login backend options request s ≡ (ok packet, s') → LoggedIn s
  unfolding handle_login
  handle_login-LoggedIn s q =
      let allow = λ (name : Bytes).
        backend.allow_login_attempt (login_key backend options request.session name)
          options.max_login_failures in
      let has_text = bounded_string request.fields password "password" max_password_bytes in
      let (name, s1, p1, q1) =
        >>=_inversion
          (λ name.
            lift has_text >>= λ text. allow name >>= attempt backend options request name text)
          s' packet (lift (bounded_string request.fields username "username" max_username_bytes)) s
          q in
      let (text, s2, p2, q2) =
        >>=_inversion (λ text. allow name >>= attempt backend options request name text) s' packet
          (lift has_text) s1 q1 in
      let (allowed, s3, p3, q3) =
        >>=_inversion (attempt backend options request name text) s' packet (allow name) s2 q2 in
      let (is_true, user, s4, is_found, q4) = attempt_inversion name text allowed s3 q3 in
      let verified =
        verify_inversion (login_key backend options request.session name) text user s4 q4 in
      let same : s2 ≡ s = sym (ap (λ p. p.1) p1 ∙ ap (λ p. p.1) p2) in
      record {
        name = name;
        text = text;
        user = user;
        allowed_state = s3;
        found_state = s4;
        has_name = ap (λ p. p.0) p1;
        has_password = ap (λ p. p.0) p2;
        is_allowed =
            subst (λ z. allow name z ≡ (ok true, s3)) same (p3 ∙ ap (λ b. (ok b, s3)) is_true);
        is_found = is_found;
        same_hash = verified.0;
        admitted = verified.1;
      }
