-- ===== src/Auth/Tests.antt =====
-- The sessions, the captcha, the login and the accounts at a concrete world, in memory.
pub mod Requests
use zhuo_stack.Prelude.{
  ℕ, ◌<◌, ◌≡◌, ◌≢◌, ◌↔◌, ◌⊎◌, inl, inr, refl, Bool, true, false, ◌&&◌, ◌||◌, if◌then◌else◌, is_some,
  Option, none, some, List, [], ◌∷◌, String, arith, ◌==◌, eq_iff,
}
use zhuo_stack.Prelude.Action.{Result, ok, err}
use zhuo_stack.Database.Client.{RedisClient}
use zhuo_stack.Database.Memory.{memory_redis, MemoryText, json, plain}
use zhuo_stack.Database.Redis.{
  Redis, guarded, get, set_value, del_key, exists, getdel, compare_and_set, compare_and_set_script,
  read_value, is_ready, incr_key,
}
use zhuo_stack.Database.Redis.Strict.{down, compare_and_set-ok}
use zhuo_stack.Database.Table.{Table, memory_table}
use zhuo_stack.Auth.Session.{
  Online, Stored, text, flag, refresh_digest, online, activate, get_active_jti, rotate_refresh,
  revoke_user_sessions, refresh_online, had_session, end_session, mark_kicked,
  refresh_online_script, OnlineSessionInfo,
}
use zhuo_stack.Auth.Session.Laws.{
  activate-get_active_jti, rotate_refresh_once, revoke_user_sessions-cell, refresh_online_idle,
}

abbrev pub same_option : Option String → Option String → Bool
same_option none none = true
same_option (some a) (some b) = a == b
same_option _ _ = false

pub same_option_iff : (a b : Option String) → (same_option a b ≡ true) ↔ (a ≡ b)
same_option_iff none none = ground arith
same_option_iff none (some b) = ground arith
same_option_iff (some a) none = ground arith
same_option_iff (some a) (some b) = ground (arith, eq_iff a b)

abbrev pub same_online : Online → Online → Bool
same_online a b =
    a.user_id == b.user_id
    && (a.user_name == b.user_name
        && (same_option a.email b.email
            && (same_option a.avatar b.avatar
                && (a.ip == b.ip
                    && (same_option a.browser b.browser
                        && (same_option a.os b.os && (a.login_time == b.login_time)))))))

same_online_iff : (a b : Online) → (same_online a b ≡ true) ↔ (a ≡ b)
same_online_iff a b = ground (
  arith,
  eq_iff a.user_id b.user_id,
  eq_iff a.user_name b.user_name,
  same_option_iff a.email b.email,
  same_option_iff a.avatar b.avatar,
  eq_iff a.ip b.ip,
  same_option_iff a.browser b.browser,
  same_option_iff a.os b.os,
  eq_iff a.login_time b.login_time,
)

abbrev pub same_stored : Stored → Stored → Bool
same_stored (text a) (text b) = a == b
same_stored flag flag = true
same_stored (refresh_digest a) (refresh_digest b) = a == b
same_stored (online a) (online b) = same_online a b
same_stored _ _ = false

pub same_stored_iff : (a b : Stored) → (same_stored a b ≡ true) ↔ (a ≡ b)
same_stored_iff (text a) (text b) = ground (arith, eq_iff a b)
same_stored_iff (text a) flag = ground arith
same_stored_iff (text a) (refresh_digest b) = ground arith
same_stored_iff (text a) (online b) = ground arith
same_stored_iff flag (text b) = ground arith
same_stored_iff flag flag = ground arith
same_stored_iff flag (refresh_digest b) = ground arith
same_stored_iff flag (online b) = ground arith
same_stored_iff (refresh_digest a) (text b) = ground arith
same_stored_iff (refresh_digest a) flag = ground arith
same_stored_iff (refresh_digest a) (refresh_digest b) = ground (arith, eq_iff a b)
same_stored_iff (refresh_digest a) (online b) = ground arith
same_stored_iff (online a) (text b) = ground arith
same_stored_iff (online a) flag = ground arith
same_stored_iff (online a) (refresh_digest b) = ground arith
same_stored_iff (online a) (online b) = ground (arith, same_online_iff a b)

abbrev pub memory : RedisClient Stored
memory = memory_redis same_stored same_stored_iff

abbrev pub fresh_redis : Redis memory
fresh_redis = record {
  connected = true;
  required = true;
  server = record { entries = []; ttl = λ _. none };
}

abbrev pub lost_redis : Redis memory
lost_redis = record {
  connected = false;
  required = true;
  server = record { entries = []; ttl = λ _. none };
}

abbrev held_at : Stored → Redis memory
held_at v = record {
  connected = true;
  required = true;
  server = memory.set "auth:refresh:u1" (json v) 60 fresh_redis.server;
}

abbrev rotated : Redis memory
rotated = record {
  connected = true;
  required = true;
  server =
      memory.set "auth:refresh:u1" (json (refresh_digest "d2")) 60
        (held_at (refresh_digest "d1")).server;
}

swapped :
    compare_and_set memory "auth:refresh:u1"
      (refresh_digest "d1")
      (refresh_digest "d2")
      60
      (held_at (refresh_digest "d1"))
    ≡ (ok true, rotated)
unfolding compare_and_set guarded is_ready compare_and_set_script
swapped = refl

replayed : rotate_refresh memory "u1" "d1" "d3" 60 rotated ≡ (ok false, rotated)
unfolding rotate_refresh compare_and_set guarded is_ready compare_and_set_script
replayed = refl

rotated_once :
    rotate_refresh memory "u1" "d1" "d2" 60 (held_at (refresh_digest "d1")) ≡ (ok true, rotated)
unfolding rotate_refresh
rotated_once = swapped

other_digest : ◌≢◌ {A = String} "d2" "d1"
other_digest = λ e. let q : ("d2" == "d1") ≡ true = (eq_iff "d2" "d1").1 e in ground arith

rotate_refresh_once_example : false ≡ false
rotate_refresh_once_example =
    rotate_refresh_once memory "u1" "d1" "d2" "d3" 60 60 (held_at (refresh_digest "d1")) rotated
      rotated false (omega arith) other_digest rotated_once replayed

abbrev active_redis : Redis memory
active_redis = record {
  connected = true;
  required = true;
  server = (memory.set "token:active:u1" (json (text "j1")) 60 fresh_redis.server);
}

active_now : activate memory "u1" "j1" 60 none "now" fresh_redis ≡ (ok tt, active_redis)
unfolding activate set_value guarded is_ready
active_now = refl

active_read : get_active_jti memory "u1" active_redis ≡ (ok (some (text "j1")), active_redis)
unfolding get_active_jti get guarded is_ready read_value
active_read = refl

activate-get_active_jti_example : some (text "j1") ≡ some (text "j1")
activate-get_active_jti_example =
    activate-get_active_jti memory "u1" "j1" 60 none "now" fresh_redis active_redis active_redis tt
      (some (text "j1")) (omega arith) active_now active_read

abbrev revoked : Redis memory
revoked = record {
  connected = true;
  required = true;
  server = memory.set "kicked:user:u1" (json flag) 30 (
      memory.del "online:user:u1"
        (memory.del "auth:refresh:u1" (memory.del "token:active:u1" active_redis.server)));
}

revoked_now : revoke_user_sessions memory "u1" true active_redis ≡ (ok true, revoked)
unfolding revoke_user_sessions had_session end_session mark_kicked exists del_key set_value guarded
    is_ready
revoked_now = refl

revoke_user_sessions-cell_example :
    (true ≡ (
      is_some (memory.cell active_redis.server "token:active:u1")
      || is_some (memory.cell active_redis.server "online:user:u1")))
    × ((k : String)
        → memory.cell revoked.server k ≡ (
            if true && ("kicked:user:u1" == k)
            then some (json flag)
            else if "token:active:u1" == k || ("auth:refresh:u1" == k || "online:user:u1" == k)
            then none
            else memory.cell active_redis.server k))
revoke_user_sessions-cell_example =
    revoke_user_sessions-cell memory "u1" true active_redis true revoked revoked_now

abbrev shown : OnlineSessionInfo
shown = record {
  user_name = some "Zhuo";
  email = none;
  avatar = none;
  ip = "10.0.0.1";
  browser = none;
  os = none;
}

not_extended : refresh_online memory "u1" "j1" shown "now" active_redis ≡ (ok tt, active_redis)
unfolding refresh_online refresh_online_script is_ready
not_extended = refl

bare_text : json (text "j1") ≢ plain "j1"
bare_text = λ e. ground arith

refresh_online_idle_example : active_redis ≡ active_redis
refresh_online_idle_example =
    refresh_online_idle memory "u1" "j1" "j1" shown "now" active_redis active_redis tt bare_text
      refl not_extended
