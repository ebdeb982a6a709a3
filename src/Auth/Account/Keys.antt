-- ===== src/Auth/Account/Keys.antt =====
-- The Redis keys of apps/api/src/modules/auth/auth.service.ts, beside those of the sessions.
use Prim.Native.String.{◌++◌}
use text.Mathlib.TextLemmas.{append_assoc, append_cancel_left}
use zhuo_stack.Prelude.{ℕ, ◌≡◌, ◌≢◌, sym, ◌∙◌, String, ◌==◌, eq_false, eq_refl, false, arith}
use zhuo_stack.Auth.Session.{active_key, refresh_key, online_key, kicked_key}
use zhuo_stack.Auth.Session.Keys.{heads_ne, session_keys}
use zhuo_stack.Auth.Account.{captcha_key, lock_key, attempts_key}

pub captcha-lock : (u v : String) → (captcha_key u == lock_key v) ≡ false
captcha-lock u v = eq_false _ _ (heads_ne "c" "l" "aptcha:" "ogin:lock:" u v (omega arith))

pub captcha-attempts : (u v : String) → (captcha_key u == attempts_key v) ≡ false
captcha-attempts u v = eq_false _ _ (heads_ne "c" "l" "aptcha:" "ogin:attempts:" u v (omega arith))

pub captcha-active : (u v : String) → (captcha_key u == active_key v) ≡ false
captcha-active u v = eq_false _ _ (heads_ne "c" "t" "aptcha:" "oken:active:" u v (omega arith))

pub kicked-attempts : (u v : String) → (kicked_key u == attempts_key v) ≡ false
kicked-attempts u v =
    eq_false _ _ (heads_ne "k" "l" "icked:user:" "ogin:attempts:" u v (omega arith))

pub active-attempts : (u v : String) → (active_key u == attempts_key v) ≡ false
active-attempts u v =
    eq_false _ _ (heads_ne "t" "l" "oken:active:" "ogin:attempts:" u v (omega arith))

pub refresh-attempts : (u v : String) → (refresh_key u == attempts_key v) ≡ false
refresh-attempts u v =
    eq_false _ _ (heads_ne "a" "l" "uth:refresh:" "ogin:attempts:" u v (omega arith))

pub online-attempts : (u v : String) → (online_key u == attempts_key v) ≡ false
online-attempts u v =
    eq_false _ _ (heads_ne "o" "l" "nline:user:" "ogin:attempts:" u v (omega arith))

pub attempts-captcha : (u v : String) → (attempts_key u == captcha_key v) ≡ false
attempts-captcha u v = eq_false _ _ (heads_ne "l" "c" "ogin:attempts:" "aptcha:" u v (omega arith))

pub kicked-captcha : (u v : String) → (kicked_key u == captcha_key v) ≡ false
kicked-captcha u v = eq_false _ _ (heads_ne "k" "c" "icked:user:" "aptcha:" u v (omega arith))

pub active-captcha : (u v : String) → (active_key u == captcha_key v) ≡ false
active-captcha u v = eq_false _ _ (heads_ne "t" "c" "oken:active:" "aptcha:" u v (omega arith))

pub refresh-captcha : (u v : String) → (refresh_key u == captcha_key v) ≡ false
refresh-captcha u v = eq_false _ _ (heads_ne "a" "c" "uth:refresh:" "aptcha:" u v (omega arith))

pub online-captcha : (u v : String) → (online_key u == captcha_key v) ≡ false
online-captcha u v = eq_false _ _ (heads_ne "o" "c" "nline:user:" "aptcha:" u v (omega arith))

-- After the common beginning "login:".
pub attempts-lock : (u v : String) → (attempts_key u == lock_key v) ≡ false
attempts-lock u v = eq_false _ _ (λ e. heads_ne "a" "l" "ttempts:" "ock:" u v (omega arith) (
    append_cancel_left "login:" ("attempts:" ++ u) ("lock:" ++ v)
      (sym (append_assoc "login:" "attempts:" u) ∙ e ∙ append_assoc "login:" "lock:" v)))

pub ruleset account_keys = (
  session_keys, captcha-lock, captcha-attempts, captcha-active, kicked-attempts, active-attempts,
  refresh-attempts, online-attempts, attempts-lock, eq_refl,
)
