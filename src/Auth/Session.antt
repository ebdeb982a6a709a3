-- ===== src/Auth/Session.antt =====
-- apps/api/src/modules/auth/session.service.ts: one session for a user. Redis holds the id of the
-- one valid access token, the digest of the one valid refresh token, the online record that the
-- monitor shows, and for a short time the mark of a user who was kicked.
pub mod Keys
pub mod Laws
use mathlib.Core.Option
use Prim.Native.String.{◌++◌}
use zhuo_stack.Prelude.{
  ℕ, ◌*◌, zero, suc, ◌≡◌, ◌↔◌, Bool, true, false, not, ◌&&◌, ◌||◌, Option, none, some, String, ◌==◌,
  if◌then◌else◌, leb, arith, or_text,
}
use zhuo_stack.Prelude.Action.{Action, pure, gets, Result, ok, err, internal, both, ◌>>=◌, ◌>>◌}
use zhuo_stack.Database.Client.{RedisClient}
use zhuo_stack.Database.Redis.{Redis, is_ready, get, set_value, del_key, exists, compare_and_set}

-- The online record; `username` repeats `userName`, and an absent field is `none`.
pub record Online : Type 0 where
  pub user_id : String
  pub user_name : String
  pub email : Option String
  pub avatar : Option String
  pub ip : String
  pub browser : Option String
  pub os : Option String
  pub login_time : String

-- The values that the authentication stores: a token id or the answer of a captcha, `true`, the
-- digest `{ tokenHash }` of a refresh token, an online record.
pub data Stored : Type 0 where
  text : String → Stored
  flag : Stored
  refresh_digest : String → Stored
  online : Online → Stored

pub record OnlineSessionInfo : Type 0 where
  pub user_name : Option String
  pub email : Option String
  pub avatar : Option String
  pub ip : String
  pub browser : Option String
  pub os : Option String

abbrev pub active_key : String → String
active_key user_id = "token:active:" ++ user_id

abbrev pub refresh_key : String → String
refresh_key user_id = "auth:refresh:" ++ user_id

abbrev pub online_key : String → String
online_key user_id = "online:user:" ++ user_id

abbrev pub kicked_key : String → String
kicked_key user_id = "kicked:user:" ++ user_id

abbrev pub online_user_ttl : ℕ
online_user_ttl = 30 * 60

abbrev pub kicked_ttl : ℕ
kicked_ttl = 30

-- `userName || email || '用户'`
abbrev pub text_of : Option String → String
text_of none = ""
text_of (some s) = s

pub online_record : String → OnlineSessionInfo → String → Online
online_record user_id info now = record {
  user_id = user_id;
  user_name = or_text (text_of info.user_name) (or_text (text_of info.email) "用户");
  email = info.email;
  avatar = info.avatar;
  ip = info.ip;
  browser = info.browser;
  os = info.os;
  login_time = now;
}

-- `Math.min(ttlSeconds, ONLINE_USER_TTL)`
abbrev pub online_seconds : ℕ → ℕ
online_seconds seconds = if leb seconds online_user_ttl then seconds else online_user_ttl

module _ (rc : RedisClient Stored) where
  -- `now` is the time that `new Date().toISOString()` gives.
  unfoldable pub activate :
      String → String → ℕ → Option OnlineSessionInfo → String → Action (Redis rc) (Unit {0})
  activate user_id jti seconds none now = set_value rc (active_key user_id) (text jti) seconds true
  activate user_id jti seconds (some info) now = do
    set_value rc (active_key user_id) (text jti) seconds true
    set_value rc (online_key user_id) (online (online_record user_id info now))
        (online_seconds seconds) true

  unfoldable pub mark_kicked : Bool → String → Action (Redis rc) (Unit {0})
  mark_kicked true user_id = set_value rc (kicked_key user_id) flag kicked_ttl true
  mark_kicked false user_id = pure tt

  -- The first `Promise.all` of `revokeUserSessions`, and the second.
  unfoldable pub had_session : String → Action (Redis rc) (Bool × Bool)
  had_session user_id =
      both (exists rc (active_key user_id) true) (exists rc (online_key user_id) true)

  unfoldable pub end_session :
      String → Bool → Action (Redis rc) (Unit {0} × (Unit {0} × (Unit {0} × Unit {0})))
  unfolding mark_kicked
  end_session user_id kicked = both (del_key rc (active_key user_id) true) (
      both (del_key rc (refresh_key user_id) true)
        (both (del_key rc (online_key user_id) true) (mark_kicked kicked user_id)))

  unfoldable pub revoke_user_sessions : String → Bool → Action (Redis rc) Bool
  unfolding had_session end_session
  revoke_user_sessions user_id kicked = do
    had ← had_session user_id
    ended ← end_session user_id kicked
    pure (had.0 || had.1)

  unfoldable pub get_active_jti : String → Action (Redis rc) (Option Stored)
  get_active_jti user_id = get rc (active_key user_id) true

  unfoldable pub activate_refresh : String → String → ℕ → Action (Redis rc) (Unit {0})
  activate_refresh user_id token_hash seconds =
      set_value rc (refresh_key user_id) (refresh_digest token_hash) seconds true

  unfoldable pub rotate_refresh : String → String → String → ℕ → Action (Redis rc) Bool
  rotate_refresh user_id current_hash next_hash seconds =
      compare_and_set rc (refresh_key user_id) (refresh_digest current_hash)
        (refresh_digest next_hash) seconds

  unfoldable pub is_kicked : String → Action (Redis rc) Bool
  is_kicked user_id = exists rc (kicked_key user_id) true

  unfoldable pub clear_kicked : String → Action (Redis rc) (Unit {0})
  clear_kicked user_id = del_key rc (kicked_key user_id) true

  -- The Lua script of `refreshOnline`. Its first argument is the token id as it stands.
  unfoldable pub refresh_online_script :
      String → String → rc.Text → rc.Text → rc.Server → ℕ × rc.Server
  refresh_online_script active online_at jti payload s = elim (rc.cell s active) [
    | none ↦ (0, s)
    | some t ↦
        if rc.same t jti
        then elim (rc.cell s online_at) [
          | some _ ↦ (1, rc.expire online_at online_user_ttl s)
          | none ↦ (1, rc.set online_at payload online_user_ttl s)
        ]
        else (0, s)
  ]

  -- `client.eval` is not under a `try`: what it throws, the request sees.
  unfoldable pub refresh_online :
      String → String → OnlineSessionInfo → String → Action (Redis rc) (Unit {0})
  refresh_online user_id jti info now r =
      if not (is_ready rc r)
      then (ok tt, r)
      else (let (reply, s') =
            rc.send
              (refresh_online_script (active_key user_id) (online_key user_id) (rc.raw jti)
                (rc.stringify (online (online_record user_id info now))))
              r.server in
          elim reply [
            | none ↦ (err (internal "eval"), record r { server = s' })
            | some _ ↦ (ok tt, record r { server = s' })
          ])
