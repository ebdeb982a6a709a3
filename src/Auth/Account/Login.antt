-- ===== src/Auth/Account/Login.antt =====
-- Login of apps/api/src/modules/auth/auth.service.ts: what it took to get in, and what is stored.
use zhuo_stack.Prelude.{
  ◌≡◌, refl, sym, ap, ◌∙◌, inl, inr, Bool, true, false, not, ◌&&◌, Option, none, some, String,
  arith, ◌==◌, eq_refl, if◌then◌else◌, find?, is_some, Bool-cases,
}
use zhuo_stack.Prelude.Action.{ok, >>=-ok, throw_if-ok}
use zhuo_stack.Database.Redis.Strict.{exists-ok}
use zhuo_stack.Auth.Session.{Stored, text, refresh_digest, active_key, refresh_key, kicked_key}
use zhuo_stack.Auth.Account.{
  AuthEnv, User, LoginDto, AuthResponse, Caller, Fresh, captcha_key, lock_key, attempts_key,
  public_user, is_text, decrypt_password, find_by_email, known_user, check_password,
  refuse_password, login, admit,
}
use zhuo_stack.Auth.Account.Keys.{captcha-lock}
use zhuo_stack.Auth.Account.Captcha.{W, at, stored, on_redis-ok, verify_captcha-ok}
use zhuo_stack.Auth.Account.Establish.{open_session-Opened}

module _ (env : AuthEnv) where
  pub decrypt_password-ok :
      (p : String) (w : W env) {plain : String} {w' : W env}
      → decrypt_password env p w ≡ (ok plain, w')
      → (env.private_decrypt p ≡ some plain) × (w' ≡ w)
  unfolding decrypt_password
  decrypt_password-ok p w h = (ground arith, ground arith)

  refuse_password-throws :
      (email : String) (c : Caller) (u : User) (w : W env) {x : Unit {0}} {w' : W env}
      → ¬ (refuse_password env email c u w ≡ (ok x, w'))
  unfolding refuse_password
  refuse_password-throws email c u w h =
      let (n, w1, p, q) = >>=-ok _ _ w h in let (_, w2, p2, q2) = >>=-ok _ _ w1 q in ground arith

  check_password-ok :
      (dto : LoginDto) (c : Caller) (u : User) (w : W env) {x : Unit {0}} {w' : W env}
      → check_password env dto c u w ≡ (ok x, w')
      → (plain : String) × (env.private_decrypt dto.password ≡ some plain)
        × (env.bcrypt_compare plain u.password ≡ true)
        × (w' ≡ w)
  unfolding check_password
  check_password-ok dto c u w {x = x} {w' = w'} h =
      let (plain, w1, p, q) = >>=-ok _ _ w h in
      let (d, e) = decrypt_password-ok dto.password w p in
      elim (Bool-cases (env.bcrypt_compare plain u.password)) [
        | inl good ↦ (plain, d, good, ground arith)
        | inr bad ↦ absurd (refuse_password-throws dto.email c u w1 {x = x} {w' = w'} (rw bad at q))
      ]

  known_user-ok :
      (o : Option User) (email : String) (c : Caller) (w : W env) {u : User} {w' : W env}
      → known_user env o email c w ≡ (ok u, w')
      → (o ≡ some u) × (w' ≡ w)
  unfolding known_user
  known_user-ok none email c w h = let (n, w1, p, q) = >>=-ok _ _ w h in absurd (ground arith)
  known_user-ok (some v) email c w h = (ground arith, ground arith)

  locked-none : (o : Option env.redis.Text) → is_some o ≡ false → o ≡ none
  locked-none none h = refl
  locked-none (some t) h = absurd (ground arith)

  second_true : (a b : Bool) → not (a && b) ≡ false → b ≡ true
  second_true true true h = refl
  second_true true false h = absurd (ground arith)
  second_true false b h = absurd (ground arith)

  admit-ok :
      (dto : LoginDto) (w : W env) {x : Unit {0}} {w' : W env}
      → admit env dto w ≡ (ok x, w')
      → (o : Option Stored) × (stored env w (captcha_key dto.captcha_id) ≡ some o)
        × (is_text env o (env.to_lower dto.captcha_code) ≡ true)
        × (at env w (lock_key dto.email) ≡ none)
        × (at env w' (captcha_key dto.captcha_id) ≡ none)
        × (w' ≡ record w { redis = w'.redis })
  unfolding admit
  admit-ok dto w h =
      let (valid, w1, p1, h1) = >>=-ok {0, 0, 0} _ _ w h in
      let (o, g1, v1, c1, e1) = verify_captcha-ok env dto.captcha_id dto.captcha_code w p1 in
      let (_, w2, p2, h2) = >>=-ok {0, 0, 0} _ _ w1 h1 in
      let (b2, e2) = throw_if-ok (not valid) _ w1 p2 in
      let (locked, w3, p3, h3) = >>=-ok {0, 0, 0} _ _ w2 h2 in
      let (q3, f3) = on_redis-ok env _ w2 p3 in
      let (l3, e3) = exists-ok env.redis (lock_key dto.email) w2.redis q3 in
      let (b4, e4) = throw_if-ok locked _ w3 h3 in
      let none1 : at env w1 (lock_key dto.email) ≡ none =
        locked-none (at env w1 (lock_key dto.email)) (rw (← e2) (sym l3 ∙ b4)) in
      (
        o,
        g1,
        second_true (not (is_text env o "")) (is_text env o (env.to_lower dto.captcha_code))
            (sym (ap not v1) ∙ b2),
        unlocked dto w w1 c1 none1,
        consumed dto w w1 w2 w3 _ c1 e2 f3 e3 e4,
        frame w w1 w2 w3 _ e1 e2 f3 e4,
      )
    where
      unlocked :
          (dto : LoginDto) (w w1 : W env)
          → ((k : String)
              → at env w1 k ≡ (if captcha_key dto.captcha_id == k then none else at env w k))
          → at env w1 (lock_key dto.email) ≡ none
          → at env w (lock_key dto.email) ≡ none
      unlocked dto w w1 c1 e =
          ground (arith, c1 (lock_key dto.email), captcha-lock dto.captcha_id dto.email)

      consumed :
          (dto : LoginDto) (w w1 w2 w3 w4 : W env)
          → ((k : String)
              → at env w1 k ≡ (if captcha_key dto.captcha_id == k then none else at env w k))
          → w2 ≡ w1
          → w3 ≡ record w2 { redis = w3.redis }
          → w3.redis ≡ w2.redis
          → w4 ≡ w3
          → at env w4 (captcha_key dto.captcha_id) ≡ none
      consumed dto w w1 w2 w3 w4 c1 a b c d =
          ap (λ v. at env v (captcha_key dto.captcha_id)) d
          ∙ ap (λ r. env.redis.cell r.server (captcha_key dto.captcha_id)) (c ∙ ap (λ v. v.redis) a)
          ∙ ground (arith, c1 (captcha_key dto.captcha_id), eq_refl (captcha_key dto.captcha_id))

      frame :
          (w w1 w2 w3 w4 : W env)
          → w1 ≡ record w { redis = w1.redis }
          → w2 ≡ w1
          → w3 ≡ record w2 { redis = w3.redis }
          → w4 ≡ w3
          → w4 ≡ record w { redis = w4.redis }
      frame w w1 w2 w3 w4 a b c d = ground arith

  find_by_email-ok :
      (email : String) (w : W env) {found : Option User} {u : User} {w' : W env}
      → find_by_email env email w ≡ (ok found, w')
      → found ≡ some u
      → (find? (λ u. u.email == email) (env.users.rows w.users) ≡ some u) × (w' ≡ w)
  unfolding find_by_email
  find_by_email-ok email w h e =
      (ground (arith, env.users.find_first-rows (λ u. u.email == email) w.users), ground arith)

  -- What a login that answered has checked, and what it has left behind.
  pub record LoggedIn (dto : LoginDto) (f : Fresh) (w w' : W env) (res : AuthResponse)
      : Type 0 where
    pub answer : Option Stored
    pub solved :
        (stored env w (captcha_key dto.captcha_id) ≡ some answer)
        × (is_text env answer (env.to_lower dto.captcha_code) ≡ true)
    pub unlocked : at env w (lock_key dto.email) ≡ none
    pub user : User
    pub known : find? (λ u. u.email == dto.email) (env.users.rows w.users) ≡ some user
    pub plain : String
    pub decrypted : env.private_decrypt dto.password ≡ some plain
    pub password_fits : env.bcrypt_compare plain user.password ≡ true
    pub consumed : at env w' (captcha_key dto.captcha_id) ≡ none
    pub whom : res.user ≡ public_user user
    pub active : at env w' (active_key user.id) ≡ some (env.redis.stringify (text f.jti))
    pub digest :
        at env w' (refresh_key user.id)
        ≡ some (env.redis.stringify (refresh_digest (env.sha256 res.refresh_token)))
    pub no_attempts : at env w' (attempts_key dto.email) ≡ none
    pub not_kicked : at env w' (kicked_key user.id) ≡ none
    pub same_users : w'.users ≡ w.users

  -- A login that answers has found a stored captcha whose answer was given, the account unlocked,
  -- and the user of the email with the password decrypted and accepted by bcrypt. It answers that
  -- user; afterwards the captcha is gone, the drawn token id is the active one, the digest of the
  -- returned refresh token is stored, the failure counter and the kicked mark are gone, and no user
  -- changed.
  pub login-LoggedIn :
      (dto : LoginDto) (c : Caller) (f : Fresh) (w : W env) (res : AuthResponse) (w' : W env)
      → login env dto c f w ≡ (ok res, w')
      → LoggedIn dto f w w' res
  unfolding login
  login-LoggedIn dto c f w res w' h =
      let (_, w1, p1, h1) = >>=-ok {0, 0, 0} _ _ w h in
      let (o, g, t, open_lock, gone, e1) = admit-ok dto w p1 in
      let (found, w2, p2, h2) = >>=-ok {0, 0, 0} _ _ w1 h1 in
      let (u, w3, p3, h3) = >>=-ok {0, 0, 0} _ _ w2 h2 in
      let (k3, e3) = known_user-ok found dto.email c w2 p3 in
      let (k2, e2) = find_by_email-ok dto.email w1 p2 k3 in
      let (_, w4, p4, h4) = >>=-ok {0, 0, 0} _ _ w3 h3 in
      let (plain, d4, good, e4) = check_password-ok dto c u w3 p4 in
      let opened = open_session-Opened env dto c f u w4 h4 in
      record {
        answer = o;
        solved = (g, t);
        unlocked = open_lock;
        user = u;
        known = ap (λ v. find? (λ u. u.email == dto.email) (env.users.rows v.users)) (sym e1) ∙ k2;
        plain = plain;
        decrypted = d4;
        password_fits = good;
        consumed =
            opened.same_captchas dto.captcha_id
            ∙ ap (λ v. at env v (captcha_key dto.captcha_id)) (e4 ∙ e3 ∙ e2)
            ∙ gone;
        whom = opened.whom;
        active = opened.active;
        digest = opened.digest;
        no_attempts = opened.no_attempts;
        not_kicked = opened.not_kicked;
        same_users = opened.same_users ∙ ap (λ (v : W env). v.users) (e4 ∙ e3 ∙ e2 ∙ e1);
      }
