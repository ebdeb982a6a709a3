-- ===== src/Auth/Account/Validate.antt =====
-- `validate` of apps/api/src/modules/auth/strategies/jwt.strategy.ts: which access tokens pass.
use zhuo_stack.Prelude.{
  subst, ℕ, ◌≡◌, refl, sym, ap, ◌∙◌, ◌≢◌, Bool, true, false, not, Option, none, some, String, arith,
  ◌==◌, eq_iff, Bool-cases, inl, inr, find?, is_some,
}
use zhuo_stack.Prelude.Action.{Action, ok, >>=-ok_elim, throw_if-ok_elim, or_throw-ok}
use zhuo_stack.Database.Redis.{Redis, exists}
use zhuo_stack.Database.Redis.Strict.{get-ok, exists-ok}
use zhuo_stack.Auth.Session.{
  Stored, text, flag, refresh_digest, online, active_key, kicked_key, is_kicked, get_active_jti,
}
use zhuo_stack.Auth.Account.{
  AuthEnv, User, on_redis, blacklist_key, is_text, find_by_id, blacklisted, validate, digest_32,
}
use zhuo_stack.Auth.Account.Captcha.{W, at, stored, on_redis-ok}

differ : (a b : String) → (a == b) ≡ false → a ≢ b
differ a b h e = ground (arith, eq_iff a b)

module _ (env : AuthEnv) where
  absent : (o : Option env.redis.Text) → is_some o ≡ false → o ≡ none
  absent none h = refl
  absent (some t) h = absurd (ground arith)

  is_text-some : (o : Option Stored) (s : String) → is_text env o s ≡ true → o ≡ some (text s)
  is_text-some (some (text t)) s h = ground (arith, eq_iff t s)
  is_text-some none s h = absurd (ground arith)
  is_text-some (some flag) s h = absurd (ground arith)
  is_text-some (some (refresh_digest d)) s h = absurd (ground arith)
  is_text-some (some (online o)) s h = absurd (ground arith)

  found_by_id :
      (id : String) (w : W env) {found : Option User} {u : User} {w' : W env}
      → find_by_id env id w ≡ (ok found, w')
      → found ≡ some u
      → (find? (λ u. u.id == id) (env.users.rows w.users) ≡ some u) × (w' ≡ w)
  unfolding find_by_id
  found_by_id id w h e =
      (ground (arith, env.users.find_first-rows (λ u. u.id == id) w.users), ground arith)

  read_state :
      {A : Type 0} (m : Action (Redis env.redis) A) (w w' : W env)
      → w' ≡ record w { redis = w'.redis }
      → w'.redis ≡ w.redis
      → w' ≡ w
  read_state m w w' e f = ground arith

  exists_at :
      (k : String) (w : W env) {b : Bool} {w' : W env}
      → on_redis env (exists env.redis k true) w ≡ (ok b, w')
      → b ≡ false
      → (at env w k ≡ none) × (w' ≡ w)
  exists_at k w {b} {w'} h e =
      let (q, f) = on_redis-ok env _ w h in
      let (l, g) = exists-ok env.redis k w.redis q in
      (absent (at env w k) (sym l ∙ e), read_state (exists env.redis k true) w w' f g)

  blacklisted-ok :
      (token : Option String) (w : W env) {b : Bool} {w' : W env}
      → blacklisted env token w ≡ (ok b, w')
      → b ≡ false
      → ((t : String) → token ≡ some t → t ≢ "" → at env w (blacklist_key (digest_32 env t)) ≡ none)
        × (w' ≡ w)
  unfolding blacklisted
  blacklisted-ok none w h e = (λ t p _. absurd (ground arith), ground arith)
  blacklisted-ok (some s) w {b} {w'} h e = elim (Bool-cases (s == "")) [
    | inl empty ↦ (λ t p filled. absurd (filled (ground (arith, eq_iff s ""))), ground arith)
    | inr filled ↦
        let (p, q) =
          exists_at (blacklist_key (digest_32 env s)) w {b = b} {w' = w'} (rw filled at h) e in
        (
          λ t same _.
              let e : s ≡ t = ground arith in
              subst (λ z. at env w (blacklist_key (digest_32 env z)) ≡ none) e p,
          q,
        )
  ]

  -- What an accepted access token has passed.
  pub record Accepted (sub jti : String) (token : Option String) (w : W env) (u : User)
      : Type 0 where
    pub known : find? (λ u. u.id == sub) (env.users.rows w.users) ≡ some u
    pub not_revoked :
        (t : String) → token ≡ some t → t ≢ "" → at env w (blacklist_key (digest_32 env t)) ≡ none
    pub has_jti : jti ≢ ""
    pub not_kicked : at env w (kicked_key u.id) ≡ none
    pub is_active : stored env w (active_key u.id) ≡ some (some (text jti))

  positive : (b : Bool) → not b ≡ false → b ≡ true
  positive true h = refl
  positive false h = absurd (ground arith)

  assemble :
      (sub jti : String) (token : Option String) (u v : User) (w w1 w2 w3 w6 : W env)
      → w1 ≡ w
      → w2 ≡ w1
      → w3 ≡ w2
      → w6 ≡ w3
      → v ≡ u
      → find? (λ u. u.id == sub) (env.users.rows w.users) ≡ some v
      → ((t : String)
          → token ≡ some t
          → t ≢ ""
          → at env w2 (blacklist_key (digest_32 env t)) ≡ none)
      → (jti == "") ≡ false
      → at env w3 (kicked_key v.id) ≡ none
      → {active : Option Stored} → stored env w6 (active_key v.id) ≡ some active
      → active ≡ some (text jti)
      → Accepted sub jti token w u
  assemble sub jti token u v w w1 w2 w3 w6 e1 e2 e3 e6 same k1 n3 b5 n6 {active} g8 s = record {
    known = k1 ∙ ap some same;
    not_revoked =
        λ t p q. sym (ap (λ v. at env v (blacklist_key (digest_32 env t))) (e2 ∙ e1)) ∙ n3 t p q;
    has_jti = differ jti "" b5;
    not_kicked =
        sym (ap (λ v. at env v (kicked_key u.id)) (e3 ∙ e2 ∙ e1))
        ∙ subst (λ x. at env w3 (kicked_key x.id) ≡ none) same n6;
    is_active =
        sym (ap (λ x. stored env x (active_key u.id)) (e6 ∙ e3 ∙ e2 ∙ e1))
        ∙ subst (λ x. stored env w6 (active_key x.id) ≡ some (some (text jti))) same
            (g8 ∙ ap some s);
  }

  -- A token that `validate` accepts belongs to a user of the table, is not on the blacklist where
  -- the request shows it, has a token id, which is the active one of the user, and the user is not
  -- marked as kicked.
  pub validate-Accepted :
      (sub jti : String) (token ip : Option String) (now : ℕ) (iso : String) (w w' : W env)
      (u : User)
      → validate env sub jti token ip now iso w ≡ (ok u, w')
      → Accepted sub jti token w u
  unfolding validate is_kicked get_active_jti
  validate-Accepted sub jti token ip now iso w w' u h = >>=-ok_elim _ _ w h λ found w1 p1 h1.
      >>=-ok_elim _ _ w1 h1 λ v w2 p2 h2. >>=-ok_elim _ _ w2 h2 λ listed w3 p3 h3.
        throw_if-ok_elim listed _ _ w3 h3 λ b4 h4. throw_if-ok_elim (jti == "") _ _ w3 h4 λ b5 h5.
          >>=-ok_elim _ _ w3 h5 λ kicked w6 p6 h6. throw_if-ok_elim kicked _ _ w6 h6 λ b7 h7.
            >>=-ok_elim _ _ w6 h7 λ active w8 p8 h8.
              throw_if-ok_elim (not (is_text env active jti)) _ _ w8 h8 λ b9 h9.
                >>=-ok_elim _ _ w8 h9 λ _ w10 p10 h10.
                  let (s2, e2) = or_throw-ok found _ w1 p2 in
                  let (k1, e1) = found_by_id sub w p1 s2 in
                  let (n3, e3) = blacklisted-ok token w2 p3 b4 in
                  let (n6, e6) = exists_at (kicked_key v.id) w3 p6 b7 in
                  let (q8, f8) = on_redis-ok env _ w6 p8 in
                  let (g8, r8) = get-ok env.redis (active_key v.id) w6.redis q8 in
                  assemble sub jti token u v w w1 w2 w3 w6 e1 e2 e3 e6 (ground arith) k1 n3 b5 n6 g8
                    (is_text-some active jti (positive (is_text env active jti) b9))
