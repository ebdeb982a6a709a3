-- ===== src/Database/Redis/Reliable.antt =====
-- The operations of apps/api/src/database/redis.service.ts while there is a connection and every reply
-- arrives.
use zhuo_stack.Prelude.{ℕ, ◌≡◌, refl, ◌∙◌, true, false, Option, none, some, String, arith}
use zhuo_stack.Prelude.Action.{ok}
use zhuo_stack.Database.Client.{RedisClient}
use zhuo_stack.Database.Redis.{Redis, Try, is_ready, guarded, read_value, get, set_value, del_key}
use zhuo_stack.Database.Redis.Sweep.{IsReliable, and_then-run}

module _ {V : Type 0} (rc : RedisClient V) (up : (s : rc.Server) → rc.ready s ≡ true) where
  pub is_ready-connected : (r : Redis rc) → r.connected ≡ true → is_ready rc r ≡ true
  unfolding is_ready
  is_ready-connected r c = rw c (up r.server)

module _ {V : Type 0} (rc : RedisClient V) (reliable : IsReliable rc)
    (up : (s : rc.Server) → rc.ready s ≡ true) where
  open rc use {Text, Server, cell, stringify}

  pub guarded-run :
      {A : Type 0} (d : A) (body : Try rc A) (r : Redis rc) {a : A} {s' : Server}
      → r.connected ≡ true
      → body r.server ≡ (some a, s')
      → guarded rc false d body r ≡ (ok a, record r { server = s' })
  unfolding guarded
  guarded-run d body r c e = ground (arith, is_ready-connected rc up r c)

  read_filled :
      (o : Option Text) (v : V) (s : Server)
      → o ≡ some (stringify v)
      → read_value rc o s ≡ (some (some v), s)
  unfolding read_value
  read_filled none v s e = absurd (ground arith)
  read_filled (some t) v s e =
      let q : t ≡ stringify v = ground arith in
      rw q (rw (rc.stringify_filled v, rc.parse-stringify v) refl)

  read_missing : (o : Option Text) (s : Server) → o ≡ none → read_value rc o s ≡ (some none, s)
  unfolding read_value
  read_missing o s e = rw e refl

  pub get-hit :
      (key : String) (r : Redis rc) (v : V)
      → r.connected ≡ true
      → cell r.server key ≡ some (stringify v)
      → get rc key false r ≡ (ok (some v), r)
  unfolding get
  get-hit key r v c e = guarded-run none _ r c (
      and_then-run rc (rc.send (λ s. (cell s key, s))) (read_value rc) r.server
        (reliable _ (λ s. (cell s key, s)) r.server)
      ∙ read_filled (cell r.server key) v r.server e)

  pub get-miss :
      (key : String) (r : Redis rc)
      → r.connected ≡ true
      → cell r.server key ≡ none
      → get rc key false r ≡ (ok none, r)
  unfolding get
  get-miss key r c e = guarded-run none _ r c (
      and_then-run rc (rc.send (λ s. (cell s key, s))) (read_value rc) r.server
        (reliable _ (λ s. (cell s key, s)) r.server)
      ∙ read_missing (cell r.server key) r.server e)

  pub set_value-run :
      (key : String) (v : V) (n : ℕ) (r : Redis rc)
      → r.connected ≡ true
      → set_value rc key v n false r
        ≡ (ok tt, record r { server = rc.set key (stringify v) n r.server })
  unfolding set_value
  set_value-run key v n r c =
      guarded-run tt _ r c (reliable _ (λ s. (tt, rc.set key (stringify v) n s)) r.server)

  pub del_key-run :
      (key : String) (r : Redis rc)
      → r.connected ≡ true
      → del_key rc key false r ≡ (ok tt, record r { server = rc.del key r.server })
  unfolding del_key
  del_key-run key r c = guarded-run tt _ r c (reliable _ (λ s. (tt, rc.del key s)) r.server)
