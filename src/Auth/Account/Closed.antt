-- ===== src/Auth/Account/Closed.antt =====
-- Where Redis cannot be reached, the requests of apps/api/src/modules/auth/auth.service.ts and the
-- `validate` of apps/api/src/modules/auth/strategies/jwt.strategy.ts let nobody in: all that they do
-- at Redis is strict.
use zhuo_stack.Prelude.{
  ◌≡◌, refl, ◌⊎◌, ◌∙◌, inl, inr, Bool, true, false, Option, none, some, String, ℕ, arith, ◌==◌,
  Bool-cases,
}
use zhuo_stack.Prelude.Action.{
  Action, Error, ok, err, both, or_throw, throw_if, ◌>>=◌, >>=-run, >>=-stop,
}
use zhuo_stack.Database.Redis.{
  Redis, Try, is_ready, guarded, set_value, exists, getdel, compare_and_set,
}
use zhuo_stack.Database.Redis.Strict.{down, guarded-down}
use zhuo_stack.Auth.Session.{
  active_key, online_key, activate_refresh, rotate_refresh, had_session, revoke_user_sessions,
  is_kicked,
}
use zhuo_stack.Auth.Account.{
  AuthEnv, LoginDto, RegisterDto, User, Caller, Fresh, on_redis, verify_captcha, generate_captcha,
  register, login, admit, refresh_session, establish_session, store_refresh, generate_token,
  seconds_of, new_refresh_token, find_by_id, blacklisted, validate, revoke_sessions,
}
use zhuo_stack.Auth.Account.Captcha.{W}

module _ (env : AuthEnv) where
  -- The action throws, and leaves the world as it was.
  abbrev pub Refused : {A : Type 0} → Action (W env) A → W env → Type 0
  Refused m w = (e : Error) × (m w ≡ (err e, w))

  -- The action leaves the world as it was, and throws or returns.
  abbrev Stays : {A : Type 0} → Action (W env) A → W env → Type 0
  Stays {A} m w = Refused m w ⊎ ((a : A) × (m w ≡ (ok a, w)))

  -- A block is refused if its first action changes nothing, and the rest is refused wherever the
  -- first returned.
  then-Refused :
      {A B : Type 0} (m : Action (W env) A) (f : A → Action (W env) B) (w : W env)
      → Stays m w
      → ((a : A) → Refused (f a) w)
      → Refused (m >>= f) w
  then-Refused m f w (inl (e, p)) k = (e, >>=-stop m f w p)
  then-Refused m f w (inr (a, p)) k = let (e, q) = k a in (e, >>=-run m f w p ∙ q)

  first-Refused :
      {A B : Type 0} (m : Action (W env) A) (f : A → Action (W env) B) (w : W env)
      → Refused m w
      → Refused (m >>= f) w
  first-Refused m f w (e, p) = (e, >>=-stop m f w p)

  then-Stays :
      {A B : Type 0} (m : Action (W env) A) (f : A → Action (W env) B) (w : W env)
      → Stays m w
      → ((a : A) → Stays (f a) w)
      → Stays (m >>= f) w
  then-Stays m f w (inl (e, p)) k = inl (e, >>=-stop m f w p)
  then-Stays m f w (inr (a, p)) k = elim (k a) [
    | inl (e, q) ↦ inl (e, >>=-run m f w p ∙ q)
    | inr (b, q) ↦ inr (b, >>=-run m f w p ∙ q)
  ]

  both-down :
      {A B : Type 0} (m : Action (Redis env.redis) A) (n : Action (Redis env.redis) B)
      (r : Redis env.redis) {e : Error}
      → m r ≡ (err e, r)
      → n r ≡ (err e, r)
      → both m n r ≡ (err e, r)
  both-down m n r p q = ground (arith, p, q)

  or_throw-Stays : {A : Type 0} (o : Option A) (e : Error) (w : W env) → Stays (or_throw o e) w
  or_throw-Stays none e w = inl (e, refl)
  or_throw-Stays (some a) e w = inr (a, refl)

  throw_if-Stays : (b : Bool) (e : Error) (w : W env) → Stays (throw_if b e) w
  throw_if-Stays true e w = inl (e, refl)
  throw_if-Stays false e w = inr (tt, refl)

  find_by_id-Stays : (id : String) (w : W env) → Stays (find_by_id env id) w
  unfolding find_by_id
  find_by_id-Stays id w = inr (env.users.find_first (λ u. u.id == id) w.users, refl)

  module _ (w : W env) (lost : is_ready env.redis w.redis ≡ false) where
    on_redis-down :
        {A : Type 0} (m : Action (Redis env.redis) A)
        → m w.redis ≡ (err (down env.redis), w.redis)
        → on_redis env m w ≡ (err (down env.redis), w)
    unfolding on_redis
    on_redis-down m h = ground (arith, h)

    strict-down :
        {A : Type 0} (d : A) (body : Try env.redis A)
        → on_redis env (guarded env.redis true d body) w ≡ (err (down env.redis), w)
    strict-down d body =
        on_redis-down (guarded env.redis true d body) (guarded-down env.redis d body w.redis lost)

    verify_captcha-down :
        (id code : String) → verify_captcha env id code w ≡ (err (down env.redis), w)
    unfolding verify_captcha getdel
    verify_captcha-down id code = >>=-stop _ _ w (strict-down none _)

    generate_captcha-down :
        (id answer : String) → generate_captcha env id answer w ≡ (err (down env.redis), w)
    unfolding generate_captcha set_value
    generate_captcha-down id answer = >>=-stop _ _ w (strict-down tt _)

    register-down :
        (dto : RegisterDto) (c : Caller) (f : Fresh)
        → register env dto c f w ≡ (err (down env.redis), w)
    unfolding register
    register-down dto c f = >>=-stop _ _ w (verify_captcha-down dto.captcha_id dto.captcha_code)

    login-down :
        (dto : LoginDto) (c : Caller) (f : Fresh) → login env dto c f w ≡ (err (down env.redis), w)
    unfolding login admit
    login-down dto c f =
        >>=-stop _ _ w (>>=-stop _ _ w (verify_captcha-down dto.captcha_id dto.captcha_code))

    generate_token-Stays : (u : User) (f : Fresh) → Stays (generate_token env u f) w
    unfolding generate_token
    generate_token-Stays u f = then-Stays _ _ w (or_throw-Stays env.jwt_secret _ w) λ secret.
        then-Stays _ _ w (throw_if-Stays (secret == "") _ w)
          λ _. inr (env.sign u.id u.email f.jti, refl)

    store_refresh-Refused :
        (user_id token : String) (seconds : ℕ) (previous : Option String)
        → Refused (store_refresh env user_id token seconds previous) w
    unfolding store_refresh activate_refresh rotate_refresh set_value compare_and_set
    store_refresh-Refused user_id token seconds none = (down env.redis, strict-down tt _)
    store_refresh-Refused user_id token seconds (some previous) =
        first-Refused _ _ w (down env.redis, strict-down false _)

    establish_session-Refused :
        (u : User) (c : Caller) (previous : Option String) (f : Fresh)
        → Refused (establish_session env u c previous f) w
    unfolding establish_session seconds_of
    establish_session-Refused u c previous f =
        then-Refused _ _ w (generate_token-Stays u f) λ token.
          then-Refused _ _ w (or_throw-Stays _ _ w) λ seconds.
            first-Refused _ _ w
              (store_refresh-Refused u.id (new_refresh_token env u.id f) seconds previous)

    refresh_session-Refused :
        (token : String) (c : Caller) (f : Fresh) → Refused (refresh_session env token c f) w
    unfolding refresh_session
    refresh_session-Refused token c f = then-Refused _ _ w (or_throw-Stays _ _ w) λ parts.
        then-Refused _ _ w (throw_if-Stays _ _ w) λ _.
          then-Refused _ _ w (find_by_id-Stays parts.0 w) λ found.
            then-Refused _ _ w (or_throw-Stays found _ w)
              λ u. establish_session-Refused u c (some token) f

    blacklisted-Stays : (token : Option String) → Stays (blacklisted env token) w
    unfolding blacklisted exists
    blacklisted-Stays none = inr (false, refl)
    blacklisted-Stays (some token) = elim (Bool-cases (token == "")) [
      | inl empty ↦ inr (false, rw empty refl)
      | inr filled ↦ inl (down env.redis, rw filled (strict-down false _))
    ]

    validate-Refused :
        (sub jti : String) (token ip : Option String) (now : ℕ) (iso : String)
        → Refused (validate env sub jti token ip now iso) w
    unfolding validate is_kicked exists
    validate-Refused sub jti token ip now iso = then-Refused _ _ w (find_by_id-Stays sub w) λ found.
        then-Refused _ _ w (or_throw-Stays found _ w) λ u.
          then-Refused _ _ w (blacklisted-Stays token) λ listed.
            then-Refused _ _ w (throw_if-Stays listed _ w) λ _.
              then-Refused _ _ w (throw_if-Stays (jti == "") _ w)
                λ _. first-Refused _ _ w (down env.redis, strict-down false _)

    revoke_sessions-down :
        (user_id : String) (kicked : Bool)
        → revoke_sessions env user_id kicked w ≡ (err (down env.redis), w)
    unfolding revoke_sessions revoke_user_sessions had_session exists
    revoke_sessions-down user_id kicked =
        on_redis-down (revoke_user_sessions env.redis user_id kicked) (
          >>=-stop (had_session env.redis user_id) _ w.redis (
            both-down (exists env.redis (active_key user_id) true)
              (exists env.redis (online_key user_id) true) w.redis
              (guarded-down env.redis false _ w.redis lost)
              (guarded-down env.redis false _ w.redis lost)))

  -- Without a connection to Redis a registration, a login, the making of a captcha and the revocation
  -- of a user's sessions end in the exception that the store of the security state is not available,
  -- and the renewal of a session and the check of an access token end in an exception too. Each of
  -- them leaves the world as it was: nobody is created, nothing is logged.
  pub requests-Refused :
      (w : W env)
      → is_ready env.redis w.redis ≡ false
      → (dto : LoginDto) (new : RegisterDto) (c : Caller) (f : Fresh)
      → (id text token jti iso : String) (bearer ip : Option String) (now : ℕ) (kicked : Bool)
      → (register env new c f w ≡ (err (down env.redis), w))
        × (login env dto c f w ≡ (err (down env.redis), w))
        × (generate_captcha env id text w ≡ (err (down env.redis), w))
        × (revoke_sessions env id kicked w ≡ (err (down env.redis), w))
        × Refused (refresh_session env token c f) w
        × Refused (validate env id jti bearer ip now iso) w
  requests-Refused w lost dto new c f id text token jti iso bearer ip now kicked = (
    register-down w lost new c f,
    login-down w lost dto c f,
    generate_captcha-down w lost id text,
    revoke_sessions-down w lost id kicked,
    refresh_session-Refused w lost token c f,
    validate-Refused w lost id jti bearer ip now iso,
  )
