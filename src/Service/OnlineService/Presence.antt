-- ===== src/Service/OnlineService/Presence.antt =====
-- Who is bound in the table of sessions is online in the cache.
use lite_im.Prelude.{
  ℕ, ◌≡◌, ◌≢◌, refl, ap, sym, subst, ◌∙◌, ◌⊎◌, inl, inr, false, true, not, Option, none, some, ◌==◌,
  if◌then◌else◌, if_elim, Bool-cases, arith,
}
use lite_im.Prelude.Assoc.{find}
use lite_im.Status.{Status, error, invalid_argument, Result, ok, err}
use lite_im.Protocol.Bytes.{Bytes}
use lite_im.Service.Action.{Action, lift, examine, ◌>>=◌}
use lite_im.Service.Interfaces.Rules.{if_not_found_cases}
use lite_im.Service.SessionManager
use lite_im.Service.SessionManager.{SessionManager, SessionInfo, bound_to_other}
use lite_im.Service.SessionManager.Invariant.{session_id_of}
use lite_im.Service.SessionManager.Effects.{bind_user_accepted, bind_user_ok, bind_user_closed}
use lite_im.Service.SessionManager.Lookup.{IsKept, IsLookedUp, get_user_by_session-IsShrunk}
use lite_im.Service.OnlineService.{
  OnlineSession, PresenceCache, OnlineState, GivenSession, Moments, validate_session, in_sessions,
  in_cache, bind_in_sessions, publish, if_free, bind_user,
}

-- A cache whose calls do what they are for, or fail and do nothing: `online` is the session under which it has a
-- user. To take a user offline is nothing to another one.
pub record IsLawful {C : Type 0} (cache : PresenceCache C) (online : C → ℕ → Option ℕ)
    : Type 0 where
  pub set_online :
      (o : OnlineSession) (ttl : ℕ) (c c' : C) (u : ℕ)
      → cache.set_user_online o ttl c ≡ (ok tt, c')
      → online c' u ≡ (if o.user_id == u then some o.session_id else online c u)
  pub set_online_fails :
      (o : OnlineSession) (ttl : ℕ) (c c' : C) (e : Status) (u : ℕ)
      → cache.set_user_online o ttl c ≡ (err e, c')
      → online c' u ≡ online c u
  pub set_offline :
      (v : ℕ) (c : C) (u : ℕ) → u ≢ v → online (cache.set_user_offline v c).1 u ≡ online c u

module _ {C : Type 0} (moments : Moments) (cache : PresenceCache C) (server_id : Bytes)
    (online_ttl : ℕ) (online : C → ℕ → Option ℕ) (lawful : IsLawful cache online) where
  -- If the user is bound in the table, he is online in the cache, under the session that he is bound to.
  abbrev pub IsPresent : ℕ → OnlineState C → Type 0
  IsPresent u s = (id : ℕ) → session_id_of s.sessions u ≡ some id → online s.cache u ≡ some id

  -- How a login of `u` ends for himself: he is bound and online; it failed before the binding; or the session
  -- was closed by then, and he was taken offline last.
  pub data Ended (u : ℕ) (session : Option GivenSession) (r : Result (Unit {0}) × OnlineState C)
      : Type 0 where
    logged_in :
        (g : GivenSession)
        → session ≡ some g
        → moments.closed_at_bind ≡ false
        → r.0 ≡ ok tt
        → session_id_of r.1.sessions u ≡ some g.info.id
        → online r.1.cache u ≡ some g.info.id
        → Ended u session r
    failed : (e : Status) → r.0 ≡ err e → IsPresent u r.1 → Ended u session r
    closed_meanwhile :
        (c : C)
        → moments.closed_at_bind ≡ true
        → r.0 ≡ err (error invalid_argument "session is closed")
        → r.1.cache ≡ (cache.set_user_offline u c).1
        → Ended u session r

  pub record Kept (u : ℕ) (session : Option GivenSession) (r : Result (Unit {0}) × OnlineState C)
      : Type 0 where
    pub others : (v : ℕ) → v ≢ u → IsPresent v r.1
    pub himself : Ended u session r

  failed-Kept :
      (u : ℕ) (session : Option GivenSession) (e : Status) (s : OnlineState C)
      → ((v : ℕ) → IsPresent v s)
      → Kept u session (err e, s)
  failed-Kept u session e s h = record { others = λ v _. h v; himself = failed e refl (h u) }

  -- What `validateSession` and the lookup before have made sure of.
  abbrev IsFree : ℕ → GivenSession → OnlineState C → Type 0
  IsFree u g s =
      (u ≢ 0) × (g.info.id ≢ 0) × (bound_to_other (find g.info.id s.sessions.sessions) u ≡ false)

  -- With the user's new session in the cache already.
  bind_in_sessions-Kept :
      (u : ℕ) (g : GivenSession) (s : OnlineState C) (c' : C)
      → IsFree u g s
      → ((v : ℕ) → IsPresent v s)
      → ((v : ℕ) → online c' v ≡ (if u == v then some g.info.id else online s.cache v))
      → Kept u
          (some g)
          (bind_in_sessions moments cache server_id online_ttl u g (record s { cache = c' }))
  bind_in_sessions-Kept u g s c' (zu, zi, free) h new = elim (Bool-cases moments.closed_at_bind) [
    | inl c ↦
        let shut = bind_user_closed moments.at_bind s.sessions u g.handle info zu zi c in
        rw (shut) (record {
          others =
              λ v d id q. lawful.set_offline u c' v d ∙ rw (new v) (ground (arith, d, h v id q));
          himself = closed_meanwhile c' c refl refl;
        })
    | inr o ↦
        let good = bind_user_ok moments.at_bind s.sessions u g.handle info zu zi o free in
        let bound = (bind_user_accepted moments.at_bind s.sessions u g.handle info good).3 in
        rw (good) (record {
          others = λ v d id q.
              let b = bound v in
              let n = new v in
              let k = h v id in
              let other : (u == v) ≡ false = ground (arith, d) in
              rw (other) at n ∙ k (sym (rw (other) at b) ∙ q);
          himself =
              let b = bound u in
              let n = new u in logged_in g refl o refl (ground (arith, b)) (ground (arith, n));
        })
  ]
    where
      info : SessionInfo
      info = record g.info { closed = moments.closed_at_bind }

  publish-Kept :
      (u : ℕ) (g : GivenSession) (s : OnlineState C)
      → IsFree u g s
      → ((v : ℕ) → IsPresent v s)
      → Kept u (some g) (publish moments cache server_id online_ttl u g s)
  unfolding ◌>>=◌
  publish-Kept u g s f h = of_set (cache.set_user_online o online_ttl s.cache) refl
    where
      o : OnlineSession
      o = record {
        user_id = u;
        session_id = g.info.id;
        server_id = server_id;
        last_active_time_ms = g.last_active_time_ms;
      }

      of_set :
          (r : Result (Unit {0}) × C)
          → cache.set_user_online o online_ttl s.cache ≡ r
          → Kept u (some g) (
              (in_cache (λ c. r) >>= λ _. bind_in_sessions moments cache server_id online_ttl u g)
                s)
      of_set (ok x, c') q =
          bind_in_sessions-Kept u g s c' f h (λ v. lawful.set_online o online_ttl s.cache c' v q)
      of_set (err e, c') q =
          failed-Kept u (some g) e (record s { cache = c' })
            (λ v id k. lawful.set_online_fails o online_ttl s.cache c' e v q ∙ h v id k)

  free_to_bind : (o : Option ℕ) (u : ℕ) → (o ≡ none) ⊎ (o ≡ some u) → bound_to_other o u ≡ false
  unfolding bound_to_other
  free_to_bind o u (inl e) = rw (e) (refl)
  free_to_bind o u (inr e) = rw (e) (ground arith)

  kept-IsPresent :
      (s : OnlineState C) (m' : SessionManager)
      → ((u : ℕ) → IsKept s.sessions m' u)
      → ((u : ℕ) → IsPresent u s)
      → (u : ℕ) → IsPresent u (record s { sessions = m' })
  kept-IsPresent s m' k h u id q = elim (k u) [
    | inl same ↦ h u id (sym same ∙ q)
    | inr gone ↦ absurd (ground (arith, gone, q))
  ]

  if_free-Kept :
      (u : ℕ) (g : GivenSession) (r : Result ℕ) (s : OnlineState C)
      → u ≢ 0
      → g.info.id ≢ 0
      → IsLookedUp g.info.id s.sessions r
      → ((v : ℕ) → IsPresent v s)
      → Kept u (some g) (if_free moments cache server_id online_ttl u g r s)
  if_free-Kept u g (ok other) s zu zi l h =
      if_elim (λ (m : Action (OnlineState C) (Unit {0})). Kept u (some g) (m s)) (not (other == u))
        (λ _. failed-Kept u (some g) _ s h)
        (λ e.
          let same : other ≡ u = ground (arith, e) in
          publish-Kept u g s (zu, zi, free_to_bind _ u (inr (l ∙ ap (λ v. some v) same))) h)
  if_free-Kept u g (err e) s zu zi l h =
      elim (if_not_found_cases (publish moments cache server_id online_ttl u g) e s) [
        | inl (c, q) ↦
            subst (Kept u (some g)) (sym q)
              (publish-Kept u g s (zu, zi, free_to_bind _ u (inl l)) h)
        | inr (c, q) ↦ subst (Kept u (some g)) (sym q) (failed-Kept u (some g) e s h)
      ]

  valid_session :
      (u : ℕ) (session : Option GivenSession) (g : GivenSession)
      → validate_session u session ≡ ok g
      → (u ≢ 0) × (g.info.id ≢ 0) × (session ≡ some g)
  unfolding validate_session
  valid_session u none g e = absurd (ground (arith, e))
  valid_session u (some session) g e =
      let valid : (u ≢ 0) × (session.info.id ≢ 0) × (session ≡ g) =
        ((λ q. ground (arith, e, q)), (λ q. ground (arith, e, q)), ground (arith, e)) in
      subst (λ (k : GivenSession). (u ≢ 0) × (k.info.id ≢ 0) × (some session ≡ some k)) valid.2
        (valid.0, valid.1, refl)

  -- After a login, whichever way it ends: every other user who is bound in the table of sessions is online in
  -- the cache, under the session that he is bound to, if that was so of everybody before. For the user himself
  -- either the login succeeds, and he is bound to the session given and online under it; or it fails, and what
  -- was said of the others is so of him; or the session was closed between the tests and the binding, and then
  -- the login fails for that and taking him offline is the last call of the cache. This holds where the cache
  -- fails as well, as long as a call that puts a user online and fails changes nothing, and one that takes a
  -- user offline is nothing to another.
  pub bind_user-IsPresent :
      (u : ℕ) (session : Option GivenSession) (s : OnlineState C)
      → ((v : ℕ) → IsPresent v s)
      → Kept u session (bind_user moments cache server_id online_ttl u session s)
  unfolding bind_user ◌>>=◌ examine
  bind_user-IsPresent u session s h = of_valid (validate_session u session) refl
    where
      of_valid :
          (r : Result GivenSession)
          → validate_session u session ≡ r
          → Kept u session (
              (lift r >>= λ given.
              examine
                (in_sessions
                  (λ m. SessionManager.get_user_by_session moments.at_lookup m given.info.id))
                (if_free moments cache server_id online_ttl u given))
                s)
      of_valid (err e) q = failed-Kept u session e s h
      of_valid (ok g) q =
          let (zu, zi, given) = valid_session u session g q in
          let shrunk = get_user_by_session-IsShrunk moments.at_lookup s.sessions g.info.id zi in
          let looked = SessionManager.get_user_by_session moments.at_lookup s.sessions g.info.id in
          subst
            (λ k. Kept u k (
              if_free moments cache server_id online_ttl u g looked.1
                (record s { sessions = looked.0 })))
            (sym given)
            (if_free-Kept u g looked.1 (record s { sessions = looked.0 }) zu zi shrunk.1
              (kept-IsPresent s looked.0 shrunk.0 h))
