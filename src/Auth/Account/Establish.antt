-- ===== src/Auth/Account/Establish.antt =====
-- Opening a session, in apps/api/src/modules/auth/auth.service.ts: what Redis holds afterwards.
use zhuo_stack.Prelude.{
  ℕ, ◌<◌, ◌≡◌, ap, ◌∙◌, false, none, some, String, arith, ◌==◌, eq_refl, if◌then◌else◌,
}
use zhuo_stack.Prelude.Action.{ok, pure, >>=-ok, throw_if-ok, or_throw-ok}
use zhuo_stack.Database.Redis.Strict.{set-cell, del-cell}
use zhuo_stack.Auth.Session.{
  text, refresh_digest, active_key, refresh_key, online_key, kicked_key, activate_refresh,
  clear_kicked,
}
use zhuo_stack.Auth.Session.Keys.{
  online-active, online-refresh, active-refresh, active-kicked, refresh-kicked, online-kicked,
}
use zhuo_stack.Auth.Session.Laws.{activate-cell}
use zhuo_stack.Auth.Duration.{duration_to_seconds, duration_to_seconds-pos}
use zhuo_stack.Auth.Account.{
  AuthEnv, User, LoginDto, AuthResponse, Caller, Fresh, LoginLog, public_user, online_info,
  captcha_key, attempts_key, generate_token, seconds_of, store_refresh, establish_session,
  new_refresh_token, open_session, create_login_log,
}
use zhuo_stack.Auth.Account.Keys.{
  active-attempts, refresh-attempts, online-attempts, attempts-captcha, kicked-captcha,
  active-captcha, refresh-captcha, online-captcha,
}
use zhuo_stack.Auth.Account.Captcha.{W, at, on_redis-ok}

module _ (env : AuthEnv) where
  store_refresh_new-ok :
      (user_id token : String) (seconds : ℕ) (w : W env) {x : Unit {0}} {w' : W env}
      → 0 < seconds
      → store_refresh env user_id token seconds none w ≡ (ok x, w')
      → ((k : String)
          → at env w' k ≡ (
              if refresh_key user_id == k
              then some (env.redis.stringify (refresh_digest (env.sha256 token)))
              else at env w k))
        × (w' ≡ record w { redis = w'.redis })
  unfolding store_refresh activate_refresh
  store_refresh_new-ok user_id token seconds w pos h =
      let (p, q) = on_redis-ok env _ w h in
      (
        λ k.
            set-cell env.redis (refresh_key user_id) (refresh_digest (env.sha256 token)) seconds
              w.redis pos p k,
        q,
      )

  generate_token-state :
      (u : User) (f : Fresh) (w : W env) {t : String} {w' : W env}
      → generate_token env u f w ≡ (ok t, w')
      → w' ≡ w
  unfolding generate_token
  generate_token-state u f w h =
      let (secret, w1, p, q) = >>=-ok _ _ w h in
      let (_, e) = or_throw-ok env.jwt_secret _ w p in
      let (_, w2, p2, q2) = >>=-ok _ _ w1 q in
      let (_, e2) = throw_if-ok (secret == "") _ w1 p2 in ground arith

  -- What every established session has written.
  pub record Established (u : User) (f : Fresh) (w w' : W env) (res : AuthResponse) : Type 0 where
    pub whom : res.user ≡ public_user u
    pub token : res.refresh_token ≡ new_refresh_token env u.id f
    pub active : at env w' (active_key u.id) ≡ some (env.redis.stringify (text f.jti))
    pub digest :
        at env w' (refresh_key u.id)
        ≡ some (env.redis.stringify (refresh_digest (env.sha256 res.refresh_token)))
    pub others :
        (k : String)
        → (active_key u.id == k) ≡ false
        → (refresh_key u.id == k) ≡ false
        → (online_key u.id == k) ≡ false
        → at env w' k ≡ at env w k
    pub frame : w' ≡ record w { redis = w'.redis }

  pub establish_session-Established :
      (u : User) (c : Caller) (f : Fresh) (w : W env) {res : AuthResponse} {w' : W env}
      → establish_session env u c none f w ≡ (ok res, w')
      → Established u f w w' res
  unfolding establish_session generate_token seconds_of
  establish_session-Established u c f w {res} {w'} h =
      let (t, w1, p1, h1) = >>=-ok _ _ w h in
      let (n, w2, p2, h2) = >>=-ok _ _ w1 h1 in
      let (_, w3, p3, h3) = >>=-ok _ _ w2 h2 in
      let (m, w4, p4, h4) = >>=-ok _ _ w3 h3 in
      let (_, w5, p5, h5) = >>=-ok _ _ w4 h4 in
      let e1 = generate_token-state u f w p1 in
      let (d2, e2) = or_throw-ok (duration_to_seconds env.jwt_refresh_expires_in) _ w1 p2 in
      let (c3, e3) =
        store_refresh_new-ok u.id (new_refresh_token env u.id f) n w2
          (duration_to_seconds-pos env.jwt_refresh_expires_in n d2) p3 in
      let (d4, e4) = or_throw-ok (duration_to_seconds env.jwt_expires_in) _ w3 p4 in
      let (a5, e5) = on_redis-ok env _ w4 p5 in
      let cells = λ (k : String).
        activate-cell env.redis u.id f.jti m (some (online_info u c)) f.now w4.redis
          (duration_to_seconds-pos env.jwt_expires_in m d4) a5 k in
      record {
        whom = ground arith;
        token = ground arith;
        active =
            ground
              (arith, cells (active_key u.id) (online-active u.id u.id), eq_refl (active_key u.id));
        digest = ground (
          arith,
          cells (refresh_key u.id) (online-refresh u.id u.id),
          c3 (refresh_key u.id),
          active-refresh u.id u.id,
          eq_refl (refresh_key u.id),
        );
        others = λ k a b o. ground (arith, cells k o, c3 k);
        frame = ground arith;
      }

  pub create_login_log-ok :
      (l : LoginLog) (s : AuthResponse) (w w1 : W env) {x : Unit {0}} {res : AuthResponse}
      {w' : W env}
      → create_login_log env l w ≡ (ok x, w1)
      → pure {W = W env} s w1 ≡ (ok res, w')
      → (res ≡ s) × (w' ≡ record w { login_logs = env.login_logs.create l w.login_logs })
  unfolding create_login_log
  create_login_log-ok l s w w1 p q = (ground arith, ground arith)

  -- What opening a session has left behind.
  pub record Opened (email : String) (u : User) (f : Fresh) (w w' : W env) (res : AuthResponse)
      : Type 0 where
    pub whom : res.user ≡ public_user u
    pub active : at env w' (active_key u.id) ≡ some (env.redis.stringify (text f.jti))
    pub digest :
        at env w' (refresh_key u.id)
        ≡ some (env.redis.stringify (refresh_digest (env.sha256 res.refresh_token)))
    pub no_attempts : at env w' (attempts_key email) ≡ none
    pub not_kicked : at env w' (kicked_key u.id) ≡ none
    pub same_users : w'.users ≡ w.users
    pub same_captchas : (id : String) → at env w' (captcha_key id) ≡ at env w (captcha_key id)

  settle :
      (dto : LoginDto) (u : User) (f : Fresh) (w w1 w2 w3 w' : W env) (s res : AuthResponse)
      (l : LoginLog)
      → ((k : String) → at env w1 k ≡ (if attempts_key dto.email == k then none else at env w k))
      → w1 ≡ record w { redis = w1.redis }
      → ((k : String) → at env w2 k ≡ (if kicked_key u.id == k then none else at env w1 k))
      → w2 ≡ record w1 { redis = w2.redis }
      → Established u f w2 w3 s
      → res ≡ s
      → w' ≡ record w3 { login_logs = env.login_logs.create l w3.login_logs }
      → Opened dto.email u f w w' res
  settle dto u f w w1 w2 w3 w' s res l c1 e1 c2 e2 est er ew = record {
    whom = ap (λ r. r.user) er ∙ est.whom;
    active = ap (λ v. at env v (active_key u.id)) ew ∙ est.active;
    digest = rw er (ap (λ v. at env v (refresh_key u.id)) ew ∙ est.digest);
    no_attempts = ground (
      arith,
      est.others (attempts_key dto.email) (active-attempts u.id dto.email)
          (refresh-attempts u.id dto.email) (online-attempts u.id dto.email),
      c2 (attempts_key dto.email),
      c1 (attempts_key dto.email),
      eq_refl (attempts_key dto.email),
    );
    not_kicked = ground (
      arith,
      est.others (kicked_key u.id) (active-kicked u.id u.id) (refresh-kicked u.id u.id)
          (online-kicked u.id u.id),
      c2 (kicked_key u.id),
      eq_refl (kicked_key u.id),
    );
    same_users = ground (arith, est.frame);
    same_captchas = λ id. ground (
      arith,
      est.others (captcha_key id) (active-captcha u.id id) (refresh-captcha u.id id)
          (online-captcha u.id id),
      c2 (captcha_key id),
      kicked-captcha u.id id,
      c1 (captcha_key id),
      attempts-captcha dto.email id,
    );
  }

  pub open_session-Opened :
      (dto : LoginDto) (c : Caller) (f : Fresh) (u : User) (w : W env) {res : AuthResponse}
      {w' : W env}
      → open_session env dto c f u w ≡ (ok res, w')
      → Opened dto.email u f w w' res
  unfolding open_session clear_kicked
  open_session-Opened dto c f u w {res} {w'} h =
      let (_, w1, p1, h1) = >>=-ok {0, 0, 0} _ _ w h in
      let (q1, f1) = on_redis-ok env _ w p1 in
      let c1 = del-cell env.redis (attempts_key dto.email) w.redis q1 in
      let (_, w2, p2, h2) = >>=-ok {0, 0, 0} _ _ w1 h1 in
      let (q2, f2) = on_redis-ok env _ w1 p2 in
      let c2 = del-cell env.redis (kicked_key u.id) w1.redis q2 in
      let (s, w3, p3, h3) = >>=-ok {0, 0, 0} _ _ w2 h2 in
      let (_, w4, p4, h4) = >>=-ok {0, 0, 0} _ _ w3 h3 in
      let (er, ew) = create_login_log-ok _ s w3 w4 p4 h4 in
      settle dto u f w w1 w2 w3 w' s res _ c1 f1 c2 f2 (establish_session-Established u c f w2 p3)
        er ew
