-- ===== src/Auth/Session/Laws.antt =====
-- What the sessions of apps/api/src/modules/auth/session.service.ts promise.
use zhuo_stack.Prelude.{
  ℕ, ◌<◌, ◌≡◌, refl, ap, ◌≢◌, inl, inr, Bool, true, false, ◌&&◌, ◌||◌, Option, none, some, String,
  arith, ◌==◌, eq_refl, if◌then◌else◌, is_some, Bool-cases,
}
use zhuo_stack.Prelude.Action.{Action, Result, ok, err, internal, >>=-ok, both, both-ok}
use zhuo_stack.Database.Client.{RedisClient}
use zhuo_stack.Database.Redis.{Redis, is_ready, get, del_key, exists}
use zhuo_stack.Database.Redis.Strict.{
  parsed, parsed-stringify, get-ok, set-cell, del-cell, exists-ok, compare_and_set-ok,
}
use zhuo_stack.Auth.Session.{
  Stored, text, flag, refresh_digest, online, OnlineSessionInfo, active_key, refresh_key,
  online_key, kicked_key, kicked_ttl, online_seconds, had_session, end_session, online_record,
  activate, mark_kicked, revoke_user_sessions, get_active_jti, rotate_refresh,
  refresh_online_script, refresh_online,
}
use zhuo_stack.Auth.Session.Keys.{online-active}

module _ (rc : RedisClient Stored) where
  abbrev pub R : Type 0
  R = Redis rc

  abbrev pub at : R → String → Option rc.Text
  at r k = rc.cell r.server k

  stringify_inj : (v w : Stored) → rc.stringify v ≡ rc.stringify w → v ≡ w
  stringify_inj v w e = ground (arith, rc.parse-stringify v, rc.parse-stringify w)

  -- After `activate` the token id is the active one, and only the online record may have changed.
  pub activate-cell :
      (u jti : String) (n : ℕ) (info : Option OnlineSessionInfo) (now : String) (r : R)
      {x : Unit {0}} {r' : R}
      → 0 < n
      → activate rc u jti n info now r ≡ (ok x, r')
      → (k : String) → (online_key u == k) ≡ false
      → at r' k ≡ (if active_key u == k then some (rc.stringify (text jti)) else at r k)
  unfolding activate
  activate-cell u jti n none now r pos h k o = set-cell rc (active_key u) (text jti) n r pos h k
  activate-cell u jti n (some info) now r pos h k o =
      let (_, m, p, q) = >>=-ok _ _ r h in
      let a = set-cell rc (active_key u) (text jti) n r pos p k in
      let some_time : 0 < online_seconds n = ground arith in
      let b =
        set-cell rc (online_key u) (online (online_record u info now)) (online_seconds n) m
          some_time q k in
      ground (arith, a, b)

  pub read-text :
      (k jti : String) (r : R) {o : Option Stored} {r' : R}
      → get rc k true r ≡ (ok o, r')
      → at r k ≡ some (rc.stringify (text jti))
      → o ≡ some (text jti)
  read-text k jti r h e =
      let (p, q) = get-ok rc k r h in
      ground (arith, parsed-stringify rc (text jti), ap (parsed rc) e)

  -- One session for a user: once a token id is activated, it is the active one that is read,
  -- whatever was active before.
  pub activate-get_active_jti :
      (u jti : String) (n : ℕ) (info : Option OnlineSessionInfo) (now : String) (r r' r'' : R)
      (x : Unit {0}) (o : Option Stored)
      → 0 < n
      → activate rc u jti n info now r ≡ (ok x, r')
      → get_active_jti rc u r' ≡ (ok o, r'')
      → o ≡ some (text jti)
  unfolding get_active_jti
  activate-get_active_jti u jti n info now r r' r'' x o pos h g =
      let c = activate-cell u jti n info now r pos h (active_key u) (online-active u u) in
      read-text (active_key u) jti r' g (ground (arith, c, eq_refl (active_key u)))

  -- A refresh token is rotated once: after a rotation away from a digest, no rotation from that
  -- digest succeeds, so a replayed token is refused.
  pub rotate_refresh_once :
      (u current next next' : String) (n n' : ℕ) (r r' r'' : R) (b : Bool)
      → 0 < n
      → next ≢ current
      → rotate_refresh rc u current next n r ≡ (ok true, r')
      → rotate_refresh rc u current next' n' r' ≡ (ok b, r'')
      → b ≡ false
  unfolding rotate_refresh
  rotate_refresh_once u current next next' n n' r r' r'' b pos differ h g =
      let now_next : at r' (refresh_key u) ≡ some (rc.stringify (refresh_digest next)) =
        elim (compare_and_set-ok rc (refresh_key u) (refresh_digest current) (refresh_digest next) n
          r h) [
            | inl (_, _, e) ↦ rw e (
                ground (
                  arith,
                  rc.cell-set (refresh_key u) (refresh_key u) (rc.stringify (refresh_digest next)) n
                      r.server pos,
                  eq_refl (refresh_key u),
                ))
            | inr (f, _, _) ↦ absurd (ground arith)
          ] in
      elim (compare_and_set-ok rc (refresh_key u) (refresh_digest current) (refresh_digest next') n'
        r' g) [
          | inl (_, e, _) ↦ absurd (
              differ (ground (arith, stringify_inj (refresh_digest next) (refresh_digest current))))
          | inr (f, _, _) ↦ f
        ]

  mark_kicked-cell :
      (kicked : Bool) (u : String) (r : R) {x : Unit {0}} {r' : R}
      → mark_kicked rc kicked u r ≡ (ok x, r')
      → (k : String)
      → at r' k ≡ (
          if kicked
          then (if kicked_key u == k then some (rc.stringify flag) else at r k)
          else at r k)
  unfolding mark_kicked
  mark_kicked-cell true u r h k = set-cell rc (kicked_key u) flag kicked_ttl r (omega arith) h k
  mark_kicked-cell false u r h k = ground arith

  had_session-ok :
      (u : String) (r : R) {had : Bool × Bool} {r' : R}
      → had_session rc u r ≡ (ok had, r')
      → (had ≡ (is_some (at r (active_key u)), is_some (at r (online_key u)))) × (r' ≡ r)
  unfolding had_session
  had_session-ok u r {had} {r'} h =
      let (m, p, q) =
        both-ok (exists rc (active_key u) true) (exists rc (online_key u) true) r {a = had.0}
          {b = had.1} h in
      let (e, f) = exists-ok rc (active_key u) r p in
      let (e', f') = exists-ok rc (online_key u) m q in (ground arith, ground arith)

  end_session-cell :
      (u : String) (kicked : Bool) (r : R) {d : Unit {0} × (Unit {0} × (Unit {0} × Unit {0}))}
      {r' : R}
      → end_session rc u kicked r ≡ (ok d, r')
      → (k : String)
      → at r' k ≡ (
          if kicked && (kicked_key u == k)
          then some (rc.stringify flag)
          else if active_key u == k || (refresh_key u == k || online_key u == k)
          then none
          else at r k)
  unfolding end_session
  end_session-cell u kicked r {d} {r'} h k =
      let third : Action R (Unit {0} × Unit {0}) =
        both (del_key rc (online_key u) true) (mark_kicked rc kicked u) in
      let later : Action R (Unit {0} × (Unit {0} × Unit {0})) =
        both (del_key rc (refresh_key u) true) third in
      let (r1, a, h1) = both-ok (del_key rc (active_key u) true) later r {a = d.0} {b = d.1} h in
      let (r2, b, h2) =
        both-ok (del_key rc (refresh_key u) true) third r1 {a = d.1.0} {b = d.1.1} h1 in
      let (r3, c, e) =
        both-ok (del_key rc (online_key u) true) (mark_kicked rc kicked u) r2 {a = d.1.1.0}
          {b = d.1.1.1} h2 in
      ground (
        arith,
        del-cell rc (active_key u) r a k,
        del-cell rc (refresh_key u) r1 b k,
        del-cell rc (online_key u) r2 c k,
        mark_kicked-cell kicked u r3 e k,
      )

  -- A revocation that returns has removed the active token, the refresh digest and the online
  -- record of the user, has written the mark exactly if the user was kicked, and has left every
  -- other key alone. The answer says whether there was an active token or an online record.
  pub revoke_user_sessions-cell :
      (u : String) (kicked : Bool) (r : R) (b : Bool) (r' : R)
      → revoke_user_sessions rc u kicked r ≡ (ok b, r')
      → (b ≡ (is_some (at r (active_key u)) || is_some (at r (online_key u))))
        × ((k : String)
            → at r' k ≡ (
                if kicked && (kicked_key u == k)
                then some (rc.stringify flag)
                else if active_key u == k || (refresh_key u == k || online_key u == k)
                then none
                else at r k))
  unfolding revoke_user_sessions
  revoke_user_sessions-cell u kicked r b r' h =
      let (had, m, p, q) = >>=-ok _ _ r h in
      let (d, v, w, z) = >>=-ok _ _ m q in
      let (e, f) = had_session-ok u r p in
      (ground arith, λ k. ground (arith, end_session-cell u kicked m w k))

  refresh_online_script_idle :
      (k online_at jti t : String) (payload : rc.Text) (s : rc.Server)
      → rc.stringify (text t) ≢ rc.raw jti
      → rc.cell s k ≡ some (rc.stringify (text t))
      → refresh_online_script rc k online_at (rc.raw jti) payload s ≡ (0, s)
  unfolding refresh_online_script
  refresh_online_script_idle k online_at jti t payload s differ e =
      rw (e, refresh_online_script)
        (ground (arith, rc.same_iff (rc.stringify (text t)) (rc.raw jti)))

  -- The session was activated with a token id `t`, so the key holds the JSON text of `t`. The
  -- script compares it with the bare id. Where the bare id is not itself the JSON text of a text,
  -- `refreshOnline` changes nothing, the id that is active included: no online record is extended
  -- or written.
  pub refresh_online_idle :
      (u jti t : String) (info : OnlineSessionInfo) (now : String) (r r' : R) (x : Unit {0})
      → rc.stringify (text t) ≢ rc.raw jti
      → at r (active_key u) ≡ some (rc.stringify (text t))
      → refresh_online rc u jti info now r ≡ (ok x, r')
      → r' ≡ r
  unfolding refresh_online
  refresh_online_idle u jti t info now r r' x differ e h = elim (Bool-cases (is_ready rc r)) [
    | inr down ↦ ground arith
    | inl up ↦
        sent_script (rc.send script r.server).0 (rc.send script r.server).1 refl
          (rw (up, refresh_online) at h)
  ]
    where
      script : rc.Server → ℕ × rc.Server
      script =
          refresh_online_script rc (active_key u) (online_key u) (rc.raw jti)
            (rc.stringify (online (online_record u info now)))

      sent_script :
          (o : Option ℕ) (s' : rc.Server)
          → rc.send script r.server ≡ (o, s')
          → ◌≡◌ {A = Result (Unit {0}) × R}
              (elim o [
                | none ↦ (err (internal "eval"), record r { server = s' })
                | some _ ↦ (ok tt, record r { server = s' })
              ])
              (ok x, r')
          → r' ≡ r
      sent_script none s' p q = absurd (ground arith)
      sent_script (some m) s' p q =
          let c = rc.send_lem script r.server p in
          let idle =
            refresh_online_script_idle (active_key u) (online_key u) jti t
              (rc.stringify (online (online_record u info now))) r.server differ e in
          ground arith
