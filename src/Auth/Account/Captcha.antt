-- ===== src/Auth/Account/Captcha.antt =====
-- What the requests of apps/api/src/modules/auth/auth.service.ts share: operations of Redis within
-- a request, and the captcha.
use zhuo_stack.Prelude.{
  ◌≡◌, Bool, false, not, ◌&&◌, Option, none, some, String, arith, ◌==◌, eq_refl, if◌then◌else◌,
}
use zhuo_stack.Prelude.Action.{Action, ok, >>=-ok}
use zhuo_stack.Database.Redis.{Redis}
use zhuo_stack.Database.Redis.Strict.{parsed, getdel-ok}
use zhuo_stack.Auth.Session.{Stored}
use zhuo_stack.Auth.Account.{AuthEnv, World, on_redis, captcha_key, verify_captcha, is_text}

module _ (env : AuthEnv) where
  abbrev pub W : Type 0
  W = World env

  abbrev pub at : W → String → Option env.redis.Text
  at w k = env.redis.cell w.redis.server k

  -- The value that a reader finds at a key.
  abbrev pub stored : W → String → Option (Option Stored)
  stored w k = parsed env.redis (at w k)

  pub on_redis-ok :
      {A : Type 0} (m : Action (Redis env.redis) A) (w : W) {a : A} {w' : W}
      → on_redis env m w ≡ (ok a, w')
      → (m w.redis ≡ (ok a, w'.redis)) × (w' ≡ record w { redis = w'.redis })
  unfolding on_redis
  on_redis-ok m w h = (ground arith, ground arith)

  pub verify_captcha-ok :
      (id code : String) (w : W) {b : Bool} {w' : W}
      → verify_captcha env id code w ≡ (ok b, w')
      → (o : Option Stored) × (stored w (captcha_key id) ≡ some o)
        × (b ≡ (not (is_text env o "") && is_text env o (env.to_lower code)))
        × ((k : String) → at w' k ≡ (if captcha_key id == k then none else at w k))
        × (w' ≡ record w { redis = w'.redis })
  unfolding verify_captcha
  verify_captcha-ok id code w h =
      let (o, w1, p, q) = >>=-ok _ _ w h in
      let (p', f) = on_redis-ok _ w p in
      let (g, e) = getdel-ok env.redis (captcha_key id) w.redis p' in
      (
        o,
        g,
        ground arith,
        λ k. ground (arith, env.redis.cell-del (captcha_key id) k w.redis.server),
        ground arith,
      )

  -- A captcha serves once: after a verification that returned, right or wrong, every further
  -- verification of the same id that returns answers no.
  pub verify_captcha_once :
      (id code code' : String) (w w' w'' : W) (b b' : Bool)
      → verify_captcha env id code w ≡ (ok b, w')
      → verify_captcha env id code' w' ≡ (ok b', w'')
      → b' ≡ false
  verify_captcha_once id code code' w w' w'' b b' h g =
      let (o, _, _, gone, _) = verify_captcha-ok id code w h in
      let (o', found, answer, _, _) = verify_captcha-ok id code' w' g in
      let empty : at w' (captcha_key id) ≡ none =
        rw (gone (captcha_key id), eq_refl (captcha_key id)) in
      let nothing : stored w' (captcha_key id) ≡ some none = rw empty in ground arith
