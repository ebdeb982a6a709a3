-- ===== src/Database/Redis.antt =====
-- apps/api/src/database/redis.service.ts: the cache, and the store of the security state. An
-- operation that cannot reach Redis throws where it is `strict` or Redis is required, and else
-- answers as if the key were missing.
pub mod Strict
pub mod Sweep
pub mod Reliable
use zhuo_stack.Prelude.{
  List, [], ◌∷◌, ◌+◌, ℕ, zero, suc, ◌≡◌, Bool, true, false, not, ◌&&◌, ◌||◌, Option, none, some,
  String, ◌==◌, if◌then◌else◌, is_some, eqb,
}
use zhuo_stack.Prelude.Action.{
  Error, service_unavailable, internal, Result, ok, err, Action, pure, throw, throw_if, ◌>>=◌, ◌>>◌,
}
use zhuo_stack.Database.Client.{RedisClient}

-- The variables that `onModuleInit` reads.
pub record RedisConfig : Type 0 where
  pub redis_url : Option String
  pub redis_required : Option String
  pub node_env : Option String

abbrev pub env_is : Option String → String → Bool
env_is none v = false
env_is (some s) v = s == v

pub is_required : RedisConfig → Bool
is_required c =
    env_is c.redis_required "true"
    || (not (env_is c.redis_required "false") && env_is c.node_env "production")

module _ {V : Type 0} (rc : RedisClient V) where
  open rc use {
    Text, stringify, parse, raw, number, is_empty, same, Server, ready, cell, set, del, expire,
    incr, send, scan, rounds_left,
  }

  -- `this.client` is set, `this.required`, and the server that the client talks to.
  pub record Redis : Type 0 where
    pub connected : Bool
    pub required : Bool
    pub server : Server

  -- What runs inside a `try`: `none` is an exception, which the `catch` swallows.
  abbrev pub Try : Type 0 → Type 0
  Try A = Server → Option A × Server

  abbrev pub and_then : {A B : Type 0} → Try A → (A → Try B) → Try B
  and_then m f s = let (r, s') = m s in elim r [ none ↦ (none, s') | some a ↦ f a s' ]

  -- `!redisUrl`, and the connection attempt, whose result the client decides.
  abbrev pub filled : Option String → Bool
  filled none = false
  filled (some s) = not (s == "")

  pub on_module_init : RedisConfig → Bool → Action Redis (Unit {0})
  on_module_init c connects r =
      let r' = record r { required = is_required c } in
      if not (filled c.redis_url)
      then (if is_required c then (err (internal "生产环境必须配置 REDIS_URL"), r') else (ok tt, r'))
      else if connects
      then (ok tt, record r' { connected = true })
      else if is_required c
      then (err (internal "Redis 连接失败，拒绝以不安全的降级模式启动"), record r' { connected = false })
      else (ok tt, record r' { connected = false })

  unfoldable pub is_ready : Redis → Bool
  is_ready r = r.connected && ready r.server

  unfoldable pub unavailable : Bool → Action Redis (Unit {0})
  unavailable strict r = throw_if (strict || r.required) (service_unavailable "安全状态存储不可用") r

  -- The shape of every operation: the check of the connection, the `try`, and what is returned
  -- where `unavailable` does not throw.
  unfoldable pub guarded : {A : Type 0} → Bool → A → Try A → Action Redis A
  unfolding is_ready unavailable ◌>>=◌
  guarded strict missing body r =
      if not (is_ready r)
      then (unavailable strict >> pure missing) r
      else (let (reply, s') = body r.server in
          elim reply [
            | none ↦ (unavailable strict >> pure missing) (record r { server = s' })
            | some a ↦ (ok a, record r { server = s' })
          ])

  -- `value ? JSON.parse(value) : null`
  unfoldable pub read_value : Option Text → Try (Option V)
  read_value none s = (some none, s)
  read_value (some t) s =
      if is_empty t
      then (some none, s)
      else elim (parse t) [ none ↦ (none, s) | some v ↦ (some (some v), s) ]

  unfoldable pub get : String → Bool → Action Redis (Option V)
  get key strict = guarded strict none (and_then (send (λ s. (cell s key, s))) read_value)

  unfoldable pub set_value : String → V → ℕ → Bool → Action Redis (Unit {0})
  set_value key value seconds strict =
      guarded strict tt (send (λ s. (tt, set key (stringify value) seconds s)))

  -- The Lua script: it runs on the server as one command.
  unfoldable pub compare_and_set_script : String → Text → Text → ℕ → Server → ℕ × Server
  compare_and_set_script key expected next seconds s = elim (cell s key) [
    | none ↦ (0, s)
    | some t ↦ if same t expected then (1, set key next seconds s) else (0, s)
  ]

  unfoldable pub compare_and_set : String → V → V → ℕ → Action Redis Bool
  compare_and_set key expected next seconds = guarded true false (
      and_then (send (compare_and_set_script key (stringify expected) (stringify next) seconds))
        (λ n s. (some (eqb n 1), s)))

  unfoldable pub del_key : String → Bool → Action Redis (Unit {0})
  del_key key strict = guarded strict tt (send (λ s. (tt, del key s)))

  -- `if (count === 1 && ttl) await this.client.expire(key, ttl)`
  unfoldable pub expire_first : String → Option ℕ → ℕ → Try ℕ
  expire_first key none count s = (some count, s)
  expire_first key (some t) count s =
      if eqb count 1 && not (eqb t 0)
      then and_then (send (λ u. (tt, expire key t u))) (λ _ u. (some count, u)) s
      else (some count, s)

  unfoldable pub incr_key : String → Option ℕ → Bool → Action Redis ℕ
  incr_key key seconds strict =
      guarded strict 0 (and_then (send (incr key)) (expire_first key seconds))

  unfoldable pub getdel : String → Bool → Action Redis (Option V)
  getdel key strict =
      guarded strict none (and_then (send (λ s. (cell s key, del key s))) read_value)

  unfoldable pub exists : String → Bool → Action Redis Bool
  exists key strict = guarded strict false (send (λ s. (is_some (cell s key), s)))

  -- `client.del(...keys)`, one command.
  abbrev pub del_all : List String → Server → Server
  del_all [] s = s
  del_all (k ∷ ks) s = del_all ks (del k s)

  abbrev pub del_found : List String → Try (Unit {0})
  del_found [] s = (some tt, s)
  del_found (k ∷ ks) s = send (λ u. (tt, del_all (k ∷ ks) u)) s

  -- The `do … while (cursor !== '0')` of `delPattern`, for at most `rounds` rounds.
  unfoldable pub sweep : ℕ → String → String → Try (Unit {0})
  sweep zero pattern cursor = λ s. (some tt, s)
  sweep (suc rounds) pattern cursor = and_then (send (λ s. (scan pattern cursor s, s))) λ found.
      and_then (del_found found.1) λ _ s. elim (found.0 == "0") [
        | true ↦ (some tt, s)
        | false ↦ sweep rounds pattern found.0 s
      ]

  -- `rounds_left` rounds are enough; what is thrown inside is logged and swallowed.
  unfoldable pub del_pattern : String → Action Redis (Unit {0})
  unfolding is_ready unavailable
  del_pattern pattern r = if not (is_ready r) then (unavailable false >> pure tt) r else (
    ok tt,
    record r { server = (sweep (rounds_left pattern "0" r.server + 1) pattern "0" r.server).1 },
  )
