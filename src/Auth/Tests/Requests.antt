-- ===== src/Auth/Tests/Requests.antt =====
-- The captcha, a login, a request with its token, and the accounts at a concrete world.
use zhuo_stack.Prelude.{ℕ, ◌<◌, ◌≤◌, ◌*◌, ◌≡◌, ◌↔◌, refl, true, false, none, some, [], ◌∷◌, ◌==◌}
use zhuo_stack.Prelude.Action.{ok, err, ◌>>=◌}
use zhuo_stack.Database.Memory.{json}
use zhuo_stack.Database.Redis.{
  guarded, get, set_value, del_key, exists, getdel, read_value, is_ready,
}
use zhuo_stack.Database.Table.{memory_table}
use zhuo_stack.Auth.Session.{
  text, activate, activate_refresh, get_active_jti, is_kicked, clear_kicked,
}
use zhuo_stack.Auth.Duration.{
  duration_to_seconds, duration_to_seconds_iff, IsDuration, trim, codes, max_safe_integer,
}
use zhuo_stack.Auth.Double.{to_double, two_53}
use zhuo_stack.Auth.Account.{
  AuthEnv, World, User, admin, Caller, Fresh, LoginDto, RegisterDto, LoginLog, AuthResponse,
  on_redis, verify_captcha, login, admit, open_session, check_password, known_user, find_by_email,
  decrypt_password, establish_session, store_refresh, validate, find_by_id, blacklisted,
  touch_online, digest_32, take_chars, register, generate_captcha, revoke_sessions, refresh_session,
}
use zhuo_stack.Auth.Account.Captcha.{verify_captcha_once}
use zhuo_stack.Auth.Account.Login.{LoggedIn, login-LoggedIn}
use zhuo_stack.Auth.Account.Validate.{Accepted, validate-Accepted}
use zhuo_stack.Auth.Account.Closed.{Refused, requests-Refused}
use zhuo_stack.Database.Redis.Strict.{down}
use zhuo_stack.Auth.Tests.{memory, fresh_redis, lost_redis}

abbrev pub env : AuthEnv
env = record {
  redis = memory;
  users = memory_table User;
  login_logs = memory_table LoginLog;
  private_decrypt = some;
  bcrypt_hash = λ salt p. p;
  bcrypt_compare = λ p h. p == h;
  sha256 = λ s. s;
  sign = λ id email jti. jti;
  decode_exp = λ t. none;
  to_lower = λ s. s;
  jwt_secret = some "secret";
  jwt_expires_in = "8h";
  jwt_refresh_expires_in = "7d";
}

abbrev pub zhuo : User
zhuo = record {
  id = "u1";
  email = "a@b.c";
  name = some "Zhuo";
  password = "pw";
  role = admin;
  avatar = none;
  dept_id = none;
  post_ids = [];
  role_ids = [];
}

abbrev pub start : World env
start = record {
  redis = record {
    connected = true;
    required = true;
    server = memory.set "captcha:c1" (json (text "x7k2")) 300 fresh_redis.server;
  };
  users = zhuo ∷ [];
  login_logs = [];
  refreshed = λ _. 0;
}

abbrev served : World env
served = record start {
  redis = record start.redis { server = memory.del "captcha:c1" start.redis.server };
}

served_twice : World env
served_twice = record start {
  redis = record start.redis { server = memory.del "captcha:c1" served.redis.server };
}

right_answer : verify_captcha env "c1" "x7k2" start ≡ (ok true, served)
unfolding verify_captcha on_redis getdel guarded is_ready read_value ◌>>=◌
right_answer = refl

second_answer : verify_captcha env "c1" "x7k2" served ≡ (ok false, served_twice)
unfolding served_twice verify_captcha on_redis getdel guarded is_ready read_value ◌>>=◌
second_answer = refl

verify_captcha_once_example : false ≡ false
verify_captcha_once_example =
    verify_captcha_once env "c1" "x7k2" "x7k2" start served served_twice true false right_answer
      second_answer

abbrev caller : Caller
caller = record { ip = some "10.0.0.1"; browser = none; os = none }

abbrev pub drawn : Fresh
drawn = record { jti = "j1"; refresh_bytes = "r1"; user_id = "u2"; salt = "s1"; now = "now" }

abbrev zhuo_login : LoginDto
zhuo_login = record { email = "a@b.c"; password = "pw"; captcha_id = "c1"; captcha_code = "x7k2" }

abbrev answered : AuthResponse
answered = record {
  access_token = "j1";
  refresh_token = "u1.r1";
  user = record { id = "u1"; email = "a@b.c"; name = some "Zhuo"; role = admin; avatar = none };
}

abbrev logged_in : World env
unfolding login
logged_in = (login env zhuo_login caller drawn start).1

login_answers : login env zhuo_login caller drawn start ≡ (ok answered, logged_in)
unfolding login admit open_session check_password known_user find_by_email decrypt_password
    establish_session store_refresh verify_captcha on_redis getdel exists del_key set_value guarded
    is_ready read_value ◌>>=◌ clear_kicked activate activate_refresh duration_to_seconds to_double
login_answers = refl

login-LoggedIn_example : LoggedIn env zhuo_login drawn start logged_in answered
login-LoggedIn_example =
    login-LoggedIn env zhuo_login caller drawn start answered logged_in login_answers

-- The state after a login, as far as a request with its token sees it.
abbrev signed_in : World env
signed_in = record start {
  redis = record start.redis {
    server = memory.set "token:active:u1" (json (text "j1")) 28800 fresh_redis.server;
  };
}

checked : World env
checked = (validate env "u1" "j1" (some "token") none 1000 "now" signed_in).1

token_passes : validate env "u1" "j1" (some "token") none 1000 "now" signed_in ≡ (ok zhuo, checked)
unfolding checked validate on_redis exists guarded is_ready read_value ◌>>=◌ get get_active_jti
    is_kicked find_by_id blacklisted touch_online digest_32 take_chars
token_passes = refl

validate-Accepted_example : Accepted env "u1" "j1" (some "token") signed_in zhuo
validate-Accepted_example =
    validate-Accepted env "u1" "j1" (some "token") none 1000 "now" signed_in checked zhuo
      token_passes

-- A lost connection.
abbrev cut_off : World env
cut_off = record start { redis = lost_redis }

abbrev newcomer : RegisterDto
newcomer = record {
  email = "b@b.c";
  name = none;
  password = "pw";
  avatar = none;
  captcha_id = "c1";
  captcha_code = "x7k2";
}

requests-Refused_example :
    (register env newcomer caller drawn cut_off ≡ (err (down memory), cut_off))
    × (login env zhuo_login caller drawn cut_off ≡ (err (down memory), cut_off))
    × (generate_captcha env "u1" "x7k2" cut_off ≡ (err (down memory), cut_off))
    × (revoke_sessions env "u1" true cut_off ≡ (err (down memory), cut_off))
    × Refused env (refresh_session env "u1.r1" caller drawn) cut_off
    × Refused env (validate env "u1" "j1" (some "token") none 1000 "now") cut_off
unfolding is_ready
requests-Refused_example =
    requests-Refused env cut_off refl zhuo_login newcomer caller drawn "u1" "x7k2" "u1.r1" "j1"
      "now" (some "token") none 1000 true

duration_to_seconds_iff_example : (duration_to_seconds "8h" ≡ some 28800) ↔ (
    (m : ℕ) × (u : ℕ) × IsDuration 0 (trim (codes "8h")) false m u
    × (0 < m)
    × (m ≤ max_safe_integer)
    × (28800 ≡ to_double (m * u))
    × (m * u ≤ two_53 → 28800 ≡ m * u))
duration_to_seconds_iff_example = duration_to_seconds_iff "8h" 28800

eight_hours : duration_to_seconds "8h" ≡ some 28800
unfolding duration_to_seconds to_double
eight_hours = refl

-- The largest amount: the exact product is no double.
most_days : duration_to_seconds "9007199254740991d" ≡ some 778222015609621577728
unfolding duration_to_seconds to_double
most_days = refl
