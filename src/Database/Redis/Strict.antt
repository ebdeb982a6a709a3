-- ===== src/Database/Redis/Strict.antt =====
-- What a strict call of apps/api/src/database/redis.service.ts has done: where Redis cannot be
-- reached, and where the call returned a value.
use zhuo_stack.Prelude.{
  ℕ, ◌<◌, ◌≡◌, refl, ◌≢◌, ◌⊎◌, inl, inr, Bool, true, false, Option, none, some, String, arith, ◌==◌,
  if◌then◌else◌, is_some, eqb, Bool-cases, Option-cases,
}
use zhuo_stack.Prelude.Action.{Error, service_unavailable, ok, err, pure, ◌>>◌}
use zhuo_stack.Database.Client.{RedisClient}
use zhuo_stack.Database.Redis.{
  Redis, Try, and_then, is_ready, unavailable, guarded, read_value, get, set_value, compare_and_set,
  compare_and_set_script, del_key, expire_first, incr_key, getdel, exists,
}

module _ {V : Type 0} (rc : RedisClient V) where
  open rc use {Text, stringify, Server, cell, set, del, incr, send}

  abbrev pub down : Error
  down = service_unavailable "安全状态存储不可用"

  -- A strict operation without a connection throws, and does not touch the server.
  pub guarded-down :
      {A : Type 0} (d : A) (body : Try rc A) (r : Redis rc)
      → is_ready rc r ≡ false
      → guarded rc true d body r ≡ (err down, r)
  unfolding guarded
  guarded-down d body r e = ground (arith, e)

  pub guarded-ok :
      {A : Type 0} (d : A) (body : Try rc A) (r : Redis rc) {a : A} {r' : Redis rc}
      → guarded rc true d body r ≡ (ok a, r')
      → (s' : Server) × (body r.server ≡ (some a, s')) × (r' ≡ record r { server = s' })
  unfolding guarded
  guarded-ok {A} d body r {a} {r'} h = elim (Bool-cases (is_ready rc r)) [
    | inl e ↦ split (body r.server).0 (body r.server).1 refl (rw (e, guarded) at h)
    | inr e ↦ absurd (ground arith)
  ]
    where
      split :
          (o : Option A) (s' : Server)
          → body r.server ≡ (o, s')
          → (elim o [
            | none ↦ (unavailable rc true >> pure d) (record r { server = s' })
            | some a ↦ (ok a, record r { server = s' })
          ])
            ≡ (ok a, r')
          → (s' : Server) × (body r.server ≡ (some a, s')) × (r' ≡ record r { server = s' })
      split none s' e k = absurd (ground arith)
      split (some b) s' e k = (s', ground arith, ground arith)

  -- What a stored text is to a reader: nothing, a value, or an exception.
  abbrev pub parsed : Option Text → Option (Option V)
  parsed none = some none
  parsed (some t) =
      if rc.is_empty t
      then some none
      else elim (rc.parse t) [ none ↦ none | some v ↦ some (some v) ]

  pub parsed-stringify : (v : V) → parsed (some (stringify v)) ≡ some (some v)
  parsed-stringify v = rw (rc.stringify_filled v, rc.parse-stringify v)

  read_value-parsed : (o : Option Text) (s : Server) → (read_value rc o s).0 ≡ parsed o
  unfolding read_value
  read_value-parsed none s = refl
  read_value-parsed (some t) s = ground arith

  read_value-server : (o : Option Text) (s : Server) → (read_value rc o s).1 ≡ s
  unfolding read_value
  read_value-server none s = refl
  read_value-server (some t) s = ground arith

  and_then-some :
      {A B : Type 0} (m : Try rc A) (f : A → Try rc B) (s : Server) {b : B} {s' : Server}
      → and_then rc m f s ≡ (some b, s')
      → (a : A) × (u : Server) × (m s ≡ (some a, u)) × (f a u ≡ (some b, s'))
  and_then-some {A} {B} m f s {b} {s'} h = split (m s).0 (m s).1 refl h
    where
      split :
          (o : Option A) (u : Server)
          → m s ≡ (o, u)
          → ◌≡◌ {A = Option B × Server} (elim o [ none ↦ (none, u) | some a ↦ f a u ]) (some b, s')
          → (a : A) × (u : Server) × (m s ≡ (some a, u)) × (f a u ≡ (some b, s'))
      split none u e h = absurd (ground arith)
      split (some a) u e h = (a, u, e, h)

  -- One command whose reply arrived.
  pub sent :
      {A : Type 0} (d : A) (c : Server → A × Server) (r : Redis rc) {a : A} {r' : Redis rc}
      → guarded rc true d (send c) r ≡ (ok a, r')
      → (a ≡ (c r.server).0) × (r' ≡ record r { server = (c r.server).1 })
  sent d c r h =
      let (s', e, q) = guarded-ok d (send c) r h in
      let p = rc.send_lem c r.server e in (ground arith, ground arith)

  -- The read of a key after a command whose reply is the key's text.
  sent_value :
      (c : Server → Option Text × Server) (r : Redis rc) {o : Option V} {r' : Redis rc}
      → guarded rc true none (and_then rc (send c) (read_value rc)) r ≡ (ok o, r')
      → (parsed (c r.server).0 ≡ some o) × (r' ≡ record r { server = (c r.server).1 })
  sent_value c r h =
      let (s', e, q) = guarded-ok none (and_then rc (send c) (read_value rc)) r h in
      let (t, u, m, k) = and_then-some (send c) (read_value rc) r.server e in
      let p = rc.send_lem c r.server m in
      (ground (arith, read_value-parsed t u), ground (arith, read_value-server t u))

  -- A strict call that returned, and the server afterwards.
  pub get-ok :
      (key : String) (r : Redis rc) {o : Option V} {r' : Redis rc}
      → get rc key true r ≡ (ok o, r')
      → (parsed (cell r.server key) ≡ some o) × (r' ≡ r)
  unfolding get
  get-ok key r h = let (p, q) = sent_value (λ s. (cell s key, s)) r h in (p, q)

  pub getdel-ok :
      (key : String) (r : Redis rc) {o : Option V} {r' : Redis rc}
      → getdel rc key true r ≡ (ok o, r')
      → (parsed (cell r.server key) ≡ some o) × (r' ≡ record r { server = del key r.server })
  unfolding getdel
  getdel-ok key r h = sent_value (λ s. (cell s key, del key s)) r h

  pub set-ok :
      (key : String) (v : V) (n : ℕ) (r : Redis rc) {u : Unit {0}} {r' : Redis rc}
      → set_value rc key v n true r ≡ (ok u, r')
      → r' ≡ record r { server = set key (stringify v) n r.server }
  unfolding set_value
  set-ok key v n r h = (sent tt (λ s. (tt, set key (stringify v) n s)) r h).1

  pub del-ok :
      (key : String) (r : Redis rc) {u : Unit {0}} {r' : Redis rc}
      → del_key rc key true r ≡ (ok u, r')
      → r' ≡ record r { server = del key r.server }
  unfolding del_key
  del-ok key r h = (sent tt (λ s. (tt, del key s)) r h).1

  pub exists-ok :
      (key : String) (r : Redis rc) {b : Bool} {r' : Redis rc}
      → exists rc key true r ≡ (ok b, r')
      → (b ≡ is_some (cell r.server key)) × (r' ≡ r)
  unfolding exists
  exists-ok key r h = let (p, q) = sent false (λ s. (is_some (cell s key), s)) r h in (p, q)

  script_cases :
      (key : String) (t next : Text) (n : ℕ) (s : Server)
      → ((compare_and_set_script rc key t next n s ≡ (1, set key next n s)) × (cell s key ≡ some t))
        ⊎ ((compare_and_set_script rc key t next n s ≡ (0, s)) × (cell s key ≢ some t))
  unfolding compare_and_set_script
  script_cases key t next n s = elim (Option-cases (cell s key)) [
    | inl e ↦ inr (rw (e, compare_and_set_script), λ f. ground arith)
    | inr (u, e) ↦ elim (Bool-cases (rc.same u t)) [
      | inl b ↦ inl (rw (e, compare_and_set_script, b), ground (arith, rc.same_iff u t))
      | inr b ↦ inr (rw (e, compare_and_set_script, b), λ f. ground (arith, rc.same_iff u t))
    ]
  ]

  -- `compareAndSet` answers whether the key had the expected value, and replaces it only then.
  pub compare_and_set-ok :
      (key : String) (v w : V) (n : ℕ) (r : Redis rc) {b : Bool} {r' : Redis rc}
      → compare_and_set rc key v w n r ≡ (ok b, r')
      → ((b ≡ true)
          × (cell r.server key ≡ some (stringify v))
          × (r' ≡ record r { server = set key (stringify w) n r.server }))
        ⊎ ((b ≡ false) × (cell r.server key ≢ some (stringify v)) × (r' ≡ r))
  unfolding compare_and_set
  compare_and_set-ok key v w n r {b} {r'} h =
      let (s', e, q) = guarded-ok false (and_then rc (send script) reply) r h in
      let (m, u, f, k) = and_then-some (send script) reply r.server e in
      let c = rc.send_lem script r.server f in
      elim (script_cases key (stringify v) (stringify w) n r.server) [
        | inl (d, here) ↦ inl (ground arith, here, ground arith)
        | inr (d, gone) ↦ inr (ground arith, gone, ground arith)
      ]
    where
      script : Server → ℕ × Server
      script = compare_and_set_script rc key (stringify v) (stringify w) n

      reply : ℕ → Try rc Bool
      reply m s = (some (eqb m 1), s)

  expired_first :
      (key : String) (n count : ℕ) (s : Server) {c : ℕ} {s' : Server}
      → 0 < n
      → expire_first rc key (some n) count s ≡ (some c, s')
      → (c ≡ count) × (((s' ≡ s) × (count ≢ 1)) ⊎ ((s' ≡ rc.expire key n s) × (count ≡ 1)))
  unfolding expire_first
  expired_first key n count s {c} {s'} pos h = elim (Bool-cases (eqb count 1)) [
    | inl e ↦
        let sent_expire : and_then rc (send (λ u. (tt {0}, rc.expire key n u)))
              (λ (_ : Unit {0}) u. (some count, u)) s
            ≡ (some c, s') =
          ground arith in
        let (u, t, f, k) =
          and_then-some (send (λ u. (tt {0}, rc.expire key n u)))
            (λ (_ : Unit {0}) u. (some count, u)) s sent_expire in
        let g = rc.send_lem (λ u. (tt {0}, rc.expire key n u)) s f in
        (ground arith, inr (ground arith, ground arith))
    | inr e ↦ (ground arith, inl (ground arith, ground arith))
  ]

  -- A strict count returns the counter's new value, and changes no other key.
  pub incr-ok :
      (key : String) (n : ℕ) (r : Redis rc) {c : ℕ} {r' : Redis rc}
      → 0 < n
      → incr_key rc key (some n) true r ≡ (ok c, r')
      → (c ≡ (incr key r.server).0)
        × ((j : String) → cell r'.server j ≡ cell (incr key r.server).1 j)
        × (r' ≡ record r { server = r'.server })
  unfolding incr_key
  incr-ok key n r {c} {r'} pos h =
      let (s', e, q) =
        guarded-ok 0 (and_then rc (send (incr key)) (expire_first rc key (some n))) r h in
      let (m, u, f, k) =
        and_then-some (send (incr key)) (expire_first rc key (some n)) r.server e in
      let g = rc.send_lem (incr key) r.server f in
      let (same, how) = expired_first key n m u pos k in
      (ground arith, λ j. ground (arith, how, rc.cell-expire key j n u pos), ground arith)

  -- The keys after a strict write and a strict removal.
  pub set-cell :
      (key : String) (v : V) (n : ℕ) (r : Redis rc) {u : Unit {0}} {r' : Redis rc}
      → 0 < n
      → set_value rc key v n true r ≡ (ok u, r')
      → (j : String) → cell r'.server j ≡ (if key == j then some (stringify v) else cell r.server j)
  set-cell key v n r pos h j =
      rw (set-ok key v n r h) (rc.cell-set key j (stringify v) n r.server pos)

  pub del-cell :
      (key : String) (r : Redis rc) {u : Unit {0}} {r' : Redis rc}
      → del_key rc key true r ≡ (ok u, r')
      → (j : String) → cell r'.server j ≡ (if key == j then none else cell r.server j)
  del-cell key r h j = rw (del-ok key r h) (rc.cell-del key j r.server)
