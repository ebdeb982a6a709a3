-- ===== src/Auth/Account.antt =====
-- apps/api/src/modules/auth/auth.service.ts: captcha, registration, login, refresh and the
-- revocation of tokens, and the `validate` of apps/api/src/modules/auth/strategies/jwt.strategy.ts.
-- What the service gets from libraries stands in `AuthEnv`; what a request draws at random, and
-- the time, in `Fresh`.
pub mod Keys
pub mod Captcha
pub mod Establish
pub mod Login
pub mod Validate
pub mod Closed
use mathlib.Core.Option
use Prim.Native.Char.{code}
use Prim.Native.String
use Prim.Native.String.{◌++◌}
use zhuo_stack.Prelude.{
  ℕ, zero, suc, ◌+◌, ◌*◌, ◌-◌, ◌≡◌, eqb, Bool, true, false, not, ◌&&◌, ◌||◌, Option, none, some,
  List, [], ◌∷◌, String, ◌==◌, if◌then◌else◌, leb, ltb, or_text,
}
use zhuo_stack.Prelude.Action.{
  Action, Result, ok, err, pure, throw, throw_if, or_throw, gets, modify_state, bad_request,
  unauthorized, forbidden, conflict, internal, ◌>>=◌, ◌>>◌,
}
use zhuo_stack.Database.Client.{RedisClient}
use zhuo_stack.Database.Table.{Table}
use zhuo_stack.Database.Redis.{Redis, get, set_value, del_key, exists, incr_key, getdel}
use zhuo_stack.Auth.Session.{
  Stored, text, flag, OnlineSessionInfo, activate, activate_refresh, rotate_refresh,
  revoke_user_sessions, get_active_jti, is_kicked, clear_kicked, refresh_online,
}
use zhuo_stack.Auth.Duration.{duration_to_seconds}

pub data Role : Type 0 where
  admin user : Role

pub record User : Type 0 where
  pub id : String
  pub email : String
  pub name : Option String
  pub password : String
  pub role : Role
  pub avatar : Option String
  pub dept_id : Option String
  pub post_ids : List String
  pub role_ids : List String

pub record LoginLog : Type 0 where
  pub user_id : Option String
  pub username : String
  pub ip : String
  pub browser : Option String
  pub os : Option String
  pub status : ℕ
  pub msg : String

-- Who sent the request.
pub record Caller : Type 0 where
  pub ip : Option String
  pub browser : Option String
  pub os : Option String

-- What the request draws at random, and the time at which it runs.
pub record Fresh : Type 0 where
  pub jti : String
  pub refresh_bytes : String
  pub user_id : String
  pub salt : String
  pub now : String

-- Libraries and configuration. `private_decrypt` is `none` where the library throws, `decode_exp`
-- where the token cannot be decoded or has no `exp`.
pub record AuthEnv : Type 1 where
  pub redis : RedisClient Stored
  pub users : Table User
  pub login_logs : Table LoginLog
  pub private_decrypt : String → Option String
  pub bcrypt_hash : String → String → String
  pub bcrypt_compare : String → String → Bool
  pub sha256 : String → String
  pub sign : String → String → String → String
  pub decode_exp : String → Option ℕ
  pub to_lower : String → String
  pub jwt_secret : Option String
  pub jwt_expires_in : String
  pub jwt_refresh_expires_in : String

pub record LoginDto : Type 0 where
  pub email : String
  pub password : String
  pub captcha_id : String
  pub captcha_code : String

pub record RegisterDto : Type 0 where
  pub email : String
  pub name : Option String
  pub password : String
  pub avatar : Option String
  pub captcha_id : String
  pub captcha_code : String

-- The fields of a user that a response shows.
pub record PublicUser : Type 0 where
  pub id : String
  pub email : String
  pub name : Option String
  pub role : Role
  pub avatar : Option String

pub record AuthResponse : Type 0 where
  pub access_token : String
  pub refresh_token : String
  pub user : PublicUser

abbrev pub public_user : User → PublicUser
public_user u = record {
  id = u.id;
  email = u.email;
  name = u.name;
  role = u.role;
  avatar = u.avatar;
}

abbrev pub captcha_key : String → String
captcha_key id = "captcha:" ++ id

abbrev pub lock_key : String → String
lock_key email = "login:lock:" ++ email

abbrev pub attempts_key : String → String
attempts_key email = "login:attempts:" ++ email

abbrev pub blacklist_key : String → String
blacklist_key hash = "token:blacklist:" ++ hash

abbrev pub max_login_attempts : ℕ
max_login_attempts = 5

abbrev pub lockout_duration : ℕ
lockout_duration = 15 * 60

-- `length` of a JavaScript string: its UTF-16 code units.
unfoldable pub utf16_length : String → ℕ
utf16_length String.[] = 0
utf16_length (String.◌∷◌ c s) = (if leb 0x10000 (code c) then 2 else 1) + utf16_length s

-- The text before the first dot and the text after it: `indexOf('.')` and the two slices.
unfoldable pub split_dot : String → Option (String × String)
split_dot String.[] = none
split_dot (String.◌∷◌ c s) =
    let rest = split_dot s in
    if eqb (code c) b'.'
    then some ("", s)
    else elim rest [ none ↦ none | some (a, b) ↦ some (String.◌∷◌ c a, b) ]

-- `substring(0, n)` of a text without surrogate pairs, such as a digest.
unfoldable pub take_chars : ℕ → String → String
take_chars zero s = ""
take_chars (suc n) String.[] = ""
take_chars (suc n) (String.◌∷◌ c s) = String.◌∷◌ c (take_chars n s)

abbrev pub unknown_ip : Option String → String
unknown_ip none = "unknown"
unknown_ip (some ip) = if ip == "" then "unknown" else ip

-- `avatar || null`
abbrev pub or_null : Option String → Option String
or_null none = none
or_null (some s) = if s == "" then none else some s

-- `userInfo.name || user.email`
abbrev pub name_or_email : User → String
name_or_email u = elim u.name [ none ↦ u.email | some n ↦ or_text n u.email ]

-- What the online record shows of a user.
abbrev pub online_info : User → Caller → OnlineSessionInfo
online_info u c = record {
  user_name = some (name_or_email u);
  email = some u.email;
  avatar = u.avatar;
  ip = unknown_ip c.ip;
  browser = c.browser;
  os = c.os;
}

module _ (env : AuthEnv) where
  pub record World : Type 0 where
    pub redis : Redis env.redis
    pub users : env.users.State
    pub login_logs : env.login_logs.State
    pub refreshed : String → ℕ

  -- An operation of Redis within a request.
  unfoldable pub on_redis : {A : Type 0} → Action (Redis env.redis) A → Action World A
  on_redis m w = let (r, redis') = m w.redis in (r, record w { redis = redis' })

  unfoldable pub create_login_log : LoginLog → Action World (Unit {0})
  create_login_log l w = (ok tt, record w { login_logs = env.login_logs.create l w.login_logs })

  abbrev log_of : Option String → String → Caller → ℕ → String → LoginLog
  log_of user_id email c status msg = record {
    user_id = user_id;
    username = email;
    ip = unknown_ip c.ip;
    browser = c.browser;
    os = c.os;
    status = status;
    msg = msg;
  }

  -- `decryptPassword` of apps/api/src/modules/auth/rsa-key.service.ts.
  unfoldable pub decrypt_password : String → Action World String
  unfolding utf16_length
  decrypt_password encrypted =
      if encrypted == "" || not (leb (utf16_length encrypted) 4096)
      then throw (unauthorized "密码解密失败，请刷新页面后重试")
      else or_throw (env.private_decrypt encrypted) (unauthorized "密码解密失败，请刷新页面后重试")

  abbrev pub is_text : Option Stored → String → Bool
  is_text (some (text t)) s = t == s
  is_text _ s = false

  -- `expected` is a text, and the empty one counts as missing.
  unfoldable pub verify_captcha : String → String → Action World Bool
  verify_captcha id code = do
    expected ← on_redis (getdel env.redis (captcha_key id) true)
    pure (not (is_text expected "") && is_text expected (env.to_lower code))

  -- `generateCaptcha`, with the id and the answer that were drawn.
  unfoldable pub generate_captcha : String → String → Action World String
  generate_captcha id answer = do
    on_redis (set_value env.redis (captcha_key id) (text (env.to_lower answer)) 300 true)
    pure id

  unfoldable pub find_by_email : String → Action World (Option User)
  find_by_email email = gets (λ w. env.users.find_first (λ u. u.email == email) w.users)

  unfoldable pub find_by_id : String → Action World (Option User)
  find_by_id id = gets (λ w. env.users.find_first (λ u. u.id == id) w.users)

  -- The access token and its id.
  unfoldable pub generate_token : User → Fresh → Action World String
  generate_token u f = do
    secret ← or_throw env.jwt_secret (internal "JWT_SECRET environment variable is required")
    throw_if (secret == "") (internal "JWT_SECRET environment variable is required")
    pure (env.sign u.id u.email f.jti)

  unfoldable pub seconds_of : String → Action World ℕ
  seconds_of value = or_throw (duration_to_seconds value) (internal "JWT_EXPIRES_IN")

  abbrev pub new_refresh_token : String → Fresh → String
  new_refresh_token user_id f = user_id ++ ("." ++ f.refresh_bytes)

  -- The two ways to store the digest of the new refresh token.
  unfoldable pub store_refresh : String → String → ℕ → Option String → Action World (Unit {0})
  store_refresh user_id token seconds none =
      on_redis (activate_refresh env.redis user_id (env.sha256 token) seconds)
  store_refresh user_id token seconds (some previous) = do
    rotated ←
        on_redis (rotate_refresh env.redis user_id (env.sha256 previous) (env.sha256 token) seconds)
    throw_if (not rotated) (unauthorized "刷新会话已失效，请重新登录")

  unfoldable pub establish_session :
      User → Caller → Option String → Fresh → Action World AuthResponse
  unfolding generate_token seconds_of
  establish_session u c previous f = do
    token ← generate_token u f
    refresh_ttl ← seconds_of env.jwt_refresh_expires_in
    store_refresh u.id (new_refresh_token u.id f) refresh_ttl previous
    token_ttl ← seconds_of env.jwt_expires_in
    on_redis (activate env.redis u.id f.jti token_ttl (some (online_info u c)) f.now)
    pure (record {
      access_token = token;
      refresh_token = new_refresh_token u.id f;
      user = public_user u;
    })

  unfoldable pub refuse_known : Option User → String → Caller → Action World (Unit {0})
  unfolding create_login_log
  refuse_known none email c = pure tt
  refuse_known (some u) email c = do
    create_login_log (log_of (some u.id) email c 0 "邮箱已注册")
    throw (conflict "Email already registered")

  unfoldable pub create_user : RegisterDto → Fresh → String → Action World User
  create_user dto f plain w =
      let created : User = record {
        id = f.user_id;
        email = dto.email;
        name = dto.name;
        password = env.bcrypt_hash f.salt plain;
        role = user;
        avatar = or_null dto.avatar;
        dept_id = none;
        post_ids = [];
        role_ids = [];
      } in
      (ok created, record w { users = env.users.create created w.users })

  unfoldable pub register : RegisterDto → Caller → Fresh → Action World AuthResponse
  unfolding create_login_log refuse_known create_user
  register dto c f = do
    valid ← verify_captcha dto.captcha_id dto.captcha_code
    throw_if (not valid) (bad_request "验证码错误或已过期")
    existing ← find_by_email dto.email
    refuse_known existing dto.email c
    plain ← decrypt_password dto.password
    created ← create_user dto f plain
    session ← establish_session created c none f
    create_login_log (log_of (some created.id) dto.email c 1 "注册成功")
    pure session

  unfoldable pub record_login_failure : String → Caller → String → Option String → Action World ℕ
  unfolding create_login_log
  record_login_failure email c msg user_id = do
    create_login_log (log_of user_id email c 0 msg)
    on_redis (incr_key env.redis (attempts_key email) (some lockout_duration) true)

  unfoldable pub lock_account : String → ℕ → Action World (Unit {0})
  lock_account email attempts =
      if leb max_login_attempts attempts
      then (do
        on_redis (set_value env.redis (lock_key email) flag lockout_duration true)
        throw (forbidden "邮箱或密码错误"))
      else pure tt

  -- The branch of `login` on a wrong password; it always throws.
  unfoldable pub refuse_password : String → Caller → User → Action World (Unit {0})
  unfolding lock_account
  refuse_password email c u = do
    attempts ← record_login_failure email c "密码错误" (some u.id)
    lock_account email attempts
    throw (unauthorized "邮箱或密码错误")

  -- The branch on an unknown user.
  unfoldable pub known_user : Option User → String → Caller → Action World User
  known_user (some u) email c = pure u
  known_user none email c = do
    attempts ← record_login_failure email c "用户不存在" none
    throw (unauthorized "邮箱或密码错误")

  unfoldable pub check_password : LoginDto → Caller → User → Action World (Unit {0})
  check_password dto c u = do
    plain ← decrypt_password dto.password
    if env.bcrypt_compare plain u.password then pure tt else refuse_password dto.email c u

  -- The captcha and the lock, before `login` looks for a user.
  unfoldable pub admit : LoginDto → Action World (Unit {0})
  admit dto = do
    valid ← verify_captcha dto.captcha_id dto.captcha_code
    throw_if (not valid) (bad_request "验证码错误或已过期")
    locked ← on_redis (exists env.redis (lock_key dto.email) true)
    throw_if locked (forbidden "账号已被锁定，请 15 分钟后重试")

  -- What `login` does once the password is accepted.
  unfoldable pub open_session : LoginDto → Caller → Fresh → User → Action World AuthResponse
  unfolding create_login_log
  open_session dto c f u = do
    on_redis (del_key env.redis (attempts_key dto.email) true)
    on_redis (clear_kicked env.redis u.id)
    session ← establish_session u c none f
    create_login_log (log_of (some u.id) dto.email c 1 "登录成功")
    pure session

  unfoldable pub login : LoginDto → Caller → Fresh → Action World AuthResponse
  login dto c f = do
    admit dto
    found ← find_by_email dto.email
    u ← known_user found dto.email c
    check_password dto c u
    open_session dto c f u

  unfoldable pub refresh_session : String → Caller → Fresh → Action World AuthResponse
  unfolding split_dot
  refresh_session token c f = do
    parts ← or_throw (split_dot token) (unauthorized "刷新会话无效，请重新登录")
    throw_if (parts.0 == "" || parts.1 == "") (unauthorized "刷新会话无效，请重新登录")
    found ← find_by_id parts.0
    u ← or_throw found (unauthorized "刷新会话无效，请重新登录")
    establish_session u c (some token) f

  unfoldable pub revoke_sessions : String → Bool → Action World Bool
  revoke_sessions user_id kicked = on_redis (revoke_user_sessions env.redis user_id kicked)

  unfoldable pub digest_32 : String → String
  unfolding take_chars
  digest_32 token = take_chars 32 (env.sha256 token)

  -- `now` is the time in seconds; the subtraction is `exp - now`, whose sign the code tests.
  unfoldable pub blacklist_token : String → ℕ → Action World (Unit {0})
  blacklist_token token now = elim (env.decode_exp token) [
    | none ↦ pure tt
    | some exp ↦
        if leb exp now
        then pure tt
        else on_redis (set_value env.redis (blacklist_key (digest_32 token)) flag (exp - now) true)
  ]

  unfoldable pub is_token_blacklisted : String → Action World Bool
  is_token_blacklisted token = on_redis (exists env.redis (blacklist_key (digest_32 token)) true)

  unfoldable pub get_profile : String → Action World PublicUser
  get_profile user_id = do
    found ← find_by_id user_id
    u ← or_throw found (unauthorized "User not found")
    pure (public_user u)

  abbrev pub online_refresh_interval : ℕ
  online_refresh_interval = 5 * 60 * 1000

  unfoldable pub blacklisted : Option String → Action World Bool
  blacklisted none = pure false
  blacklisted (some token) =
      if token == ""
      then pure false
      else on_redis (exists env.redis (blacklist_key (digest_32 token)) true)

  -- `now` is `Date.now()`, in milliseconds.
  unfoldable pub touch_online : User → String → Option String → ℕ → String → Action World (Unit {0})
  touch_online u jti ip now iso w =
      if ltb online_refresh_interval (now - w.refreshed u.id)
      then (do
        on_redis (
            refresh_online env.redis u.id jti
              (online_info u (record { ip = ip; browser = none; os = none })) iso)
        modify_state
            (λ v. record v { refreshed = λ id. if id == u.id then now else v.refreshed id }))
          w
      else (ok tt, w)

  -- `JwtStrategy.validate`: the payload's `sub` and `jti`, the token of the request and its address.
  unfoldable pub validate :
      String → String → Option String → Option String → ℕ → String → Action World User
  unfolding blacklisted touch_online
  validate sub jti token ip now iso = do
    found ← find_by_id sub
    u ← or_throw found (unauthorized "用户不存在")
    listed ← blacklisted token
    throw_if listed (unauthorized "Token 已失效，请重新登录")
    throw_if (jti == "") (unauthorized "Token 缺少会话标识，请重新登录")
    kicked ← on_redis (is_kicked env.redis u.id)
    throw_if kicked (unauthorized "您的账号已被强制下线，请重新登录")
    active ← on_redis (get_active_jti env.redis u.id)
    throw_if (not (is_text active jti)) (unauthorized "会话已失效，请重新登录")
    touch_online u jti ip now iso
    pure u
