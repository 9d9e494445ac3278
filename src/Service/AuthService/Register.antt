-- ===== src/Service/AuthService/Register.antt =====
-- What `handleRegister` stores.
use lite_im.Prelude.{
  ℕ, String, ◌≡◌, ◌≢◌, ◌≤◌, refl, ap, sym, subst, ◌∙◌, ◌⊎◌, inl, inr, List, [], ◌∷◌, Option, none,
  some, length, arith,
}
use lite_im.Status.{Status, Result, ok, err, check}
use lite_im.Protocol.Bytes.{Bytes}
use lite_im.Protocol.MessageType.{register_response}
use lite_im.Protocol.Tlv.{username, password, nickname}
use lite_im.Protocol.Packet.{Packet}
use lite_im.Protocol.TlvCodec.{TlvMap, get_string, find_values}
use lite_im.Service.Action.{pure, lift, ◌>>=◌}
use lite_im.Service.Action.Inversion.{>>=_inversion}
use lite_im.Service.Fields.{
  bounded_string, required_string, not_empty, validate_max_bytes, bind_result, max_username_bytes,
  max_password_bytes, max_nickname_bytes,
}
use lite_im.Service.AuthService.{
  Backend, AuthServiceOptions, UserRecord, RouterRequest, optional_nickname, generate_salt,
  hash_password, hex_or, to_hex, append_user_fields, handle_register, given_or, create, protect,
  bounded_nickname, response_packet,
}

not_empty-ok : (xs v : Bytes) (name : String) → not_empty xs name ≡ ok v → (v ≢ []) × (xs ≡ v)
unfolding not_empty
not_empty-ok [] v name e = absurd (ground (arith, e))
not_empty-ok (x ∷ xs) v name e = ((λ q. ground (arith, e, q)), ground (arith, e))

required-ok :
    (r : Result Bytes) (v : Bytes) (name : String)
    → bind_result r (λ output. not_empty output name) ≡ ok v
    → (v ≢ []) × (r ≡ ok v)
required-ok (ok xs) v name e =
    let p = not_empty-ok xs v name e in (p.0, ap (λ (bs : Bytes). ok bs) p.1)
required-ok (err x) v name e = absurd (ground (arith, e))

bounded-ok :
    (r : Result Bytes) (v : Bytes) (name : String) (max_bytes : ℕ)
    → bind_result r (λ value. check (validate_max_bytes value max_bytes name) value) ≡ ok v
    → (r ≡ ok v) × (length v ≤ max_bytes)
unfolding validate_max_bytes
bounded-ok (ok xs) v name max_bytes e = ground (arith, e)
bounded-ok (err x) v name max_bytes e = absurd (ground (arith, e))

-- What `requiredString` and `validateMaxBytes` let pass is neither empty nor too long.
bounded_string-ok :
    (fields : TlvMap) (type : ℕ) (name : String) (max_bytes : ℕ) (v : Bytes)
    → bounded_string fields type name max_bytes ≡ ok v
    → (v ≢ []) × (length v ≤ max_bytes) × (get_string fields type ≡ ok v)
unfolding bounded_string required_string
bounded_string-ok fields type name max_bytes v e =
    let b = bounded-ok (required_string fields type name) v name max_bytes e in
    let r = required-ok (get_string fields type) v name b.0 in (r.0, b.1, r.1)

-- The nickname is the user's name where there is none, and else the text of the request.
abbrev IsNickname : TlvMap → Bytes → Bytes → Type 0
IsNickname fields default_name nick =
    ((find_values fields nickname ≡ none) × (nick ≡ default_name))
    ⊎ (get_string fields nickname ≡ ok nick)

optional_nickname-ok :
    (fields : TlvMap) (default_name v : Bytes) (o : Option (List Bytes))
    → default_name ≢ []
    → find_values fields nickname ≡ o
    → given_or default_name (required_string fields nickname "nickname") o ≡ ok v
    → (v ≢ []) × IsNickname fields default_name v
unfolding required_string
optional_nickname-ok fields default_name v none d f e =
    ((λ q. ground (arith, d, e, q)), inl (f, ground (arith, e)))
optional_nickname-ok fields default_name v (some vs) d f e =
    let r = required-ok (get_string fields nickname) v "nickname" e in (r.0, inr r.1)

bounded_nickname-ok :
    (fields : TlvMap) (default_name v : Bytes)
    → default_name ≢ []
    → bounded_nickname fields default_name ≡ ok v
    → (v ≢ []) × (length v ≤ max_nickname_bytes) × IsNickname fields default_name v
unfolding bounded_nickname optional_nickname
bounded_nickname-ok fields default_name v d e =
    let b = bounded-ok (optional_nickname fields default_name) v "nickname" max_nickname_bytes e in
    let o = optional_nickname-ok fields default_name v (find_values fields nickname) d refl b.0 in
    (o.0, b.1, o.1)

hex_or-ok :
    (bs : Option Bytes) (e : Status) (v : Bytes)
    → hex_or bs e ≡ ok v
    → (raw : Bytes) × (bs ≡ some raw) × (v ≡ to_hex raw)
hex_or-ok none e v q = absurd (ground (arith, q))
hex_or-ok (some raw) e v q = (raw, refl, ground (arith, q))

module _ {S : Type 0} (backend : Backend S) (options : AuthServiceOptions) (request : RouterRequest)
    (s' : S) (packet : Packet) where
  -- What a registration has stored.
  pub record Registered (s : S) : Type 0 where
    pub name : Bytes
    pub text : Bytes
    pub nick : Bytes
    pub salt : Bytes
    pub hash : Bytes
    pub salted_state : S
    pub user : UserRecord
    pub name_bounds : (name ≢ []) × (length name ≤ max_username_bytes)
    pub text_bounds : (text ≢ []) × (length text ≤ max_password_bytes)
    pub nick_bounds : (nick ≢ []) × (length nick ≤ max_nickname_bytes)
    pub has_name : get_string request.fields username ≡ ok name
    pub has_text : get_string request.fields password ≡ ok text
    pub has_nick : IsNickname request.fields name nick
    pub is_salted :
        (raw : Bytes) × (backend.rand_bytes s ≡ (some raw, salted_state)) × (salt ≡ to_hex raw)
    pub is_hashed : (raw : Bytes) × (backend.pbkdf2 text salt ≡ some raw) × (hash ≡ to_hex raw)
    pub is_stored :
        backend.create_user
          (record { name = name; password_hash = hash; password_salt = salt; nick = nick })
          salted_state
        ≡ (ok user, s')

  generate_salt-ok :
      (salt : Bytes) (s s1 : S)
      → generate_salt backend options s ≡ (ok salt, s1)
      → (raw : Bytes) × (backend.rand_bytes s ≡ (some raw, s1)) × (salt ≡ to_hex raw)
  unfolding generate_salt
  generate_salt-ok salt s s1 q =
      let (raw, found, hex) = hex_or-ok (backend.rand_bytes s).0 _ salt (ap (λ p. p.0) q) in
      (raw, (λ i. (found i, (ap (λ p. p.1) q) i)), hex)

  hash_password-ok :
      (text salt hash : Bytes)
      → hash_password backend options text salt ≡ ok hash
      → (raw : Bytes) × (backend.pbkdf2 text salt ≡ some raw) × (hash ≡ to_hex raw)
  unfolding hash_password
  hash_password-ok text salt hash q = hex_or-ok (backend.pbkdf2 text salt) _ hash q

  create_inversion :
      (name nick salt hash : Bytes) (s : S)
      → create backend options request name nick salt hash s ≡ (ok packet, s')
      → (user : UserRecord) × (backend.create_user
            (record { name = name; password_hash = hash; password_salt = salt; nick = nick })
            s
          ≡ (ok user, s'))
  create_inversion name nick salt hash s q =
      let respond =
        λ (body : Bytes). pure {S = S} (response_packet register_response request body) in
      let stored =
        backend.create_user
          (record { name = name; password_hash = hash; password_salt = salt; nick = nick }) in
      let (user, s1, p1, q1) =
        >>=_inversion (λ user. lift (append_user_fields user []) >>= respond) s' packet stored s
          q in
      let (body, s2, p2, q2) =
        >>=_inversion respond s' packet (lift (append_user_fields user [])) s1 q1 in
      (user, p1 ∙ ap (λ z. (ok user, z)) (ap (λ p. p.1) p2 ∙ ap (λ p. p.1) q2))

  protect_inversion :
      (name text nick : Bytes) (s : S)
      → protect backend options request name text nick s ≡ (ok packet, s')
      → (salt : Bytes) × (hash : Bytes) × (user : UserRecord) × (salted_state : S) × (generate_salt
            backend options s
          ≡ (ok salt, salted_state))
        × (hash_password backend options text salt ≡ ok hash)
        × (backend.create_user
              (record { name = name; password_hash = hash; password_salt = salt; nick = nick })
              salted_state
            ≡ (ok user, s'))
  protect_inversion name text nick s q =
      let (salt, s1, p1, q1) =
        >>=_inversion
          (λ salt.
            lift (hash_password backend options text salt)
            >>= create backend options request name nick salt)
          s' packet (generate_salt backend options) s q in
      let (hash, s2, p2, q2) =
        >>=_inversion (create backend options request name nick salt) s' packet
          (lift (hash_password backend options text salt)) s1 q1 in
      let (user, stored) = create_inversion name nick salt hash s2 q2 in
      (
        salt,
        hash,
        user,
        s2,
        p1 ∙ ap (λ z. (ok salt, z)) (ap (λ p. p.1) p2),
        ap (λ p. p.0) p2,
        stored,
      )

  -- A registration succeeds only where name, password and nickname are neither empty nor too long: the name and
  -- the password are those fields of the request, and the nickname is its nickname field, or the name where it
  -- has none. What it stores is the name, the nickname, a salt in hexadecimal that was just drawn, and in
  -- hexadecimal what the key derivation gives for the password and this salt.
  pub handle_register-Registered :
      (s : S) → handle_register backend options request s ≡ (ok packet, s') → Registered s
  unfolding handle_register
  handle_register-Registered s q =
      let has_name = bounded_string request.fields username "username" max_username_bytes in
      let has_text = bounded_string request.fields password "password" max_password_bytes in
      let shield = protect backend options request in
      let (name, s1, p1, q1) =
        >>=_inversion
          (λ name. lift has_text >>= λ text.
            lift (bounded_nickname request.fields name) >>= shield name text)
          s' packet (lift has_name) s q in
      let (text, s2, p2, q2) =
        >>=_inversion (λ text. lift (bounded_nickname request.fields name) >>= shield name text) s'
          packet (lift has_text) s1 q1 in
      let (nick, s3, p3, q3) =
        >>=_inversion (shield name text) s' packet (lift (bounded_nickname request.fields name)) s2
          q2 in
      let (salt, hash, user, s5, salted, hashed, stored) = protect_inversion name text nick s3 q3 in
      let same : s3 ≡ s = sym (ap (λ p. p.1) p1 ∙ ap (λ p. p.1) p2 ∙ ap (λ p. p.1) p3) in
      let name_ok =
        bounded_string-ok request.fields username "username" max_username_bytes name
          (ap (λ p. p.0) p1) in
      let text_ok =
        bounded_string-ok request.fields password "password" max_password_bytes text
          (ap (λ p. p.0) p2) in
      let nick_ok = bounded_nickname-ok request.fields name nick name_ok.0 (ap (λ p. p.0) p3) in
      record {
        name = name;
        text = text;
        nick = nick;
        salt = salt;
        hash = hash;
        salted_state = s5;
        user = user;
        name_bounds = (name_ok.0, name_ok.1);
        text_bounds = (text_ok.0, text_ok.1);
        nick_bounds = (nick_ok.0, nick_ok.1);
        has_name = name_ok.2;
        has_text = text_ok.2;
        has_nick = nick_ok.2;
        is_salted =
            generate_salt-ok salt s s5
              (subst (λ z. generate_salt backend options z ≡ (ok salt, s5)) same salted);
        is_hashed = hash_password-ok text salt hash hashed;
        is_stored = stored;
      }
