-- ===== src/Dicts/Laws.antt =====
-- The cache of apps/api/src/modules/system/dict/dict.service.ts, while Redis answers every command.
use mathlib.Core.Option
use zhuo_stack.Prelude.{
  subst, ℕ, ◌≡◌, refl, sym, ap, ◌∙◌, ◌⊎◌, inl, inr, Bool, true, false, Option, none, some, String,
  arith, ◌==◌, eq_iff, eq_refl, if◌then◌else◌, is_some, Bool-cases, Option-cases,
}
use zhuo_stack.Prelude.Action.{
  Action, Result, ok, err, pure, or_throw, gets, modify_state, not_found, conflict, ◌>>=◌, ◌>>◌,
  >>=-run, >>=-stop,
}
use zhuo_stack.Database.Client.{RedisClient}
use zhuo_stack.Database.Table.{Table}
use zhuo_stack.Database.Redis.{Redis, get, set_value, del_key}
use zhuo_stack.Database.Redis.Reliable.{get-hit, get-miss, set_value-run, del_key-run}
use zhuo_stack.Database.Redis.Sweep.{IsReliable}
use zhuo_stack.Guards.{is_active}
use zhuo_stack.Depts.{or_old}
use zhuo_stack.Roles.{given}
use zhuo_stack.Dicts.{
  SysDict, SysDictData, UpdateDictDto, QueryDictDto, DictValue, dict_key, data_key, updated_dict,
  renames, is_first, DictWorld, cached, drop_key, by_code, by_id, through_cache, list_page,
  find_all, full, read_dict, find_one, find_by_code, check_rename, update,
}

abbrev pub answered : String → Option DictValue → Result DictValue
answered k none = err (not_found k)
answered k (some v) = ok v

module _ (contains : String → String → Bool) (rc : RedisClient DictValue)
    (dict_table : Table SysDict) (data_table : Table SysDictData) (reliable : IsReliable rc)
    (up : (s : rc.Server) → rc.ready s ≡ true) where
  open rc use {Text, Server, cell, stringify}

  abbrev pub W : Type 0
  W = DictWorld contains rc dict_table data_table

  abbrev with_server : Server → W → W
  with_server s w = record w { redis = record w.redis { server = s } }

  cached-run :
      {A : Type 0} (m : Action (Redis rc) A) (w : W) {a : Result A} {r : Redis rc}
      → m w.redis ≡ (a, r)
      → cached contains rc dict_table data_table m w ≡ (a, record w { redis = r })
  cached-run m w e = rw e refl

  drop_key-run :
      (key : String) (w : W)
      → w.redis.connected ≡ true
      → drop_key contains rc dict_table data_table key w
        ≡ (ok tt, with_server (rc.del key w.redis.server) w)
  drop_key-run key w c =
      cached-run (del_key rc key false) w (del_key-run rc reliable up key w.redis c)

  module _ (key : String) (n : ℕ) (read : Action W DictValue) (w : W)
      (there : w.redis.connected ≡ true) where
    through_cache-hit :
        (v : DictValue)
        → cell w.redis.server key ≡ some (stringify v)
        → through_cache contains rc dict_table data_table key n read w ≡ (ok v, w)
    unfolding through_cache
    through_cache-hit v e =
        >>=-run _ _ w
          (cached-run (get rc key false) w (get-hit rc reliable up key w.redis v there e))

    through_cache-miss :
        (v : DictValue)
        → cell w.redis.server key ≡ none
        → read w ≡ (ok v, w)
        → through_cache contains rc dict_table data_table key n read w
          ≡ (ok v, with_server (rc.set key (stringify v) n w.redis.server) w)
    unfolding through_cache
    through_cache-miss v e h =
        >>=-run _ _ w
          (cached-run (get rc key false) w (get-miss rc reliable up key w.redis there e))
        ∙ >>=-run read _ w h
        ∙ >>=-run _ _ w (
            cached-run (set_value rc key v n false) w
              (set_value-run rc reliable up key v n w.redis there))

    through_cache-absent :
        (k : String)
        → cell w.redis.server key ≡ none
        → read w ≡ (err (not_found k), w)
        → through_cache contains rc dict_table data_table key n read w ≡ (err (not_found k), w)
    unfolding through_cache
    through_cache-absent k e h =
        >>=-run _ _ w
          (cached-run (get rc key false) w (get-miss rc reliable up key w.redis there e))
        ∙ >>=-stop read _ w h

    -- With nothing under the key the answer is what is read.
    through_cache-reads :
        (k : String) (o : Option DictValue)
        → cell w.redis.server key ≡ none
        → read w ≡ (answered k o, w)
        → (through_cache contains rc dict_table data_table key n read w).0 ≡ answered k o
    through_cache-reads k none e h = ap (λ x. x.0) (through_cache-absent k e h)
    through_cache-reads k (some v) e h = ap (λ x. x.0) (through_cache-miss v e h)

  -- Where Redis answers every command and no list is cached: a first page without a search is answered from the table, and
  -- the next one, whatever page size it asks for, is answered with that same page of the first size.
  pub find_all-repeats :
      (q q' : QueryDictDto) (w : W)
      → w.redis.connected ≡ true
      → is_first q ≡ true
      → is_first q' ≡ true
      → cell w.redis.server "dict:list" ≡ none
      → ((find_all contains rc dict_table data_table q w).0
          ≡ ok (list_page contains rc dict_table data_table q w))
        × ((find_all contains rc dict_table data_table q'
              (find_all contains rc dict_table data_table q w).1).0
            ≡ ok (list_page contains rc dict_table data_table q w))
  unfolding find_all
  find_all-repeats q q' w there f f' e =
      let v = list_page contains rc dict_table data_table q w in
      let first =
        through_cache-miss "dict:list" 3600 (gets (list_page contains rc dict_table data_table q)) w
          there v e refl in
      let u = with_server (rc.set "dict:list" (stringify v) 3600 w.redis.server) w in
      let held : cell u.redis.server "dict:list" ≡ some (stringify v) =
        rc.cell-set "dict:list" "dict:list" (stringify v) 3600 w.redis.server (omega arith) in
      let second =
        through_cache-hit "dict:list" 3600 (gets (list_page contains rc dict_table data_table q')) u
          there v held in
      (rw f (ap (λ x. x.0) first), rw (f, f', first) (ap (λ x. x.0) second))

  read_dict-run :
      (look : W → Option SysDict) (p : SysDictData → Bool) (k : String) (w : W)
      → read_dict contains rc dict_table data_table look p k w
        ≡ (answered k (Option.map (full contains rc dict_table data_table p w) (look w)), w)
  unfolding ◌>>=◌
  read_dict-run look p k w = elim (Option-cases (look w)) [
    | inl e ↦ rw e refl
    | inr (d, e) ↦ rw e refl
  ]

  -- Nothing is left under a key.
  abbrev Gone : String → Server → Type 0
  Gone key s = cell s key ≡ none

  Gone-del : (key : String) (s : Server) → Gone key (rc.del key s)
  Gone-del key s = rc.cell-del key key s ∙ rw (eq_refl key) refl

  Gone-later : (key other : String) (s : Server) → Gone key s → Gone key (rc.del other s)
  Gone-later key other s e =
      rc.cell-del other key s
      ∙ elim (Bool-cases (other == key)) [ inl on ↦ rw on refl | inr off ↦ rw off e ]

  module _ (id : String) (dto : UpdateDictDto) (dict : SysDict) where
    stored : W → W
    stored w = record w {
      dicts = dict_table.update_many (λ d. d.id == id) (updated_dict dto) w.dicts;
    }

    -- The server after the keys are dropped.
    dropped : Bool → Server → Server
    dropped rename s =
        let s1 = rc.del (data_key dict.code) (rc.del (dict_key id) s) in
        rc.del "dict:list" (if rename then rc.del (data_key (or_old dto.code dict.code)) s1 else s1)

    drop_new : Bool → Action W (Unit {0})
    drop_new rename =
        if rename
        then drop_key contains rc dict_table data_table (data_key (or_old dto.code dict.code))
        else pure tt

    rest : Bool → Action W SysDict
    rest rename =
        modify_state (λ w. record w {
          dicts = dict_table.update_many (λ d. d.id == id) (updated_dict dto) w.dicts;
        })
        >> (drop_key contains rc dict_table data_table (dict_key id)
            >> (drop_key contains rc dict_table data_table (data_key dict.code)
                >> (drop_new rename
                    >> (drop_key contains rc dict_table data_table "dict:list"
                        >> pure (updated_dict dto dict)))))

    drop_new-run :
        (rename : Bool) (w : W)
        → w.redis.connected ≡ true
        → drop_new rename w ≡ (
          ok tt,
          with_server
              (if rename
                then rc.del (data_key (or_old dto.code dict.code)) w.redis.server
                else w.redis.server)
              w,
        )
    unfolding drop_new
    drop_new-run true w there = drop_key-run (data_key (or_old dto.code dict.code)) w there
    drop_new-run false w there = refl

    rest-run :
        (rename : Bool) (w : W)
        → w.redis.connected ≡ true
        → rest rename w
          ≡ (ok (updated_dict dto dict), with_server (dropped rename w.redis.server) (stored w))
    unfolding rest dropped stored
    rest-run rename w there =
        let u0 = stored w in
        let s1 = rc.del (dict_key id) w.redis.server in
        let s2 = rc.del (data_key dict.code) s1 in
        let s3 = if rename then rc.del (data_key (or_old dto.code dict.code)) s2 else s2 in
        >>=-run _ _ w refl
        ∙ >>=-run _ _ u0 (drop_key-run (dict_key id) u0 there)
        ∙ >>=-run _ _ (with_server s1 u0)
            (drop_key-run (data_key dict.code) (with_server s1 u0) there)
        ∙ >>=-run _ _ (with_server s2 u0) (drop_new-run rename (with_server s2 u0) there)
        ∙ >>=-run _ _ (with_server s3 u0) (drop_key-run "dict:list" (with_server s3 u0) there)

    check_rename-cases :
        (w : W)
        → (check_rename contains rc dict_table data_table dto dict w
            ≡ (err (conflict "字典编码已存在"), w))
          ⊎ (check_rename contains rc dict_table data_table dto dict w ≡ (ok tt, w))
    unfolding check_rename ◌>>=◌
    check_rename-cases w = elim (Bool-cases (renames dto dict)) [
      | inr off ↦ inr (rw off refl)
      | inl on ↦
          elim (Bool-cases
            (is_some (by_code contains rc dict_table data_table (or_old dto.code dict.code) w))) [
              | inl taken ↦ inl (rw (on, taken) refl)
              | inr free ↦ inr (rw (on, free) refl)
            ]
    ]

    -- What an update that returns does.
    update-run :
        (w : W) (r : SysDict) (w' : W)
        → w.redis.connected ≡ true
        → by_id contains rc dict_table data_table id w ≡ some dict
        → update contains rc dict_table data_table id dto w ≡ (ok r, w')
        → (r ≡ updated_dict dto dict)
          × (w' ≡ with_server (dropped (renames dto dict) w.redis.server) (stored w))
    unfolding update rest drop_new
    update-run w r w' there e h =
        let lead =
          >>=-run (gets (by_id contains rc dict_table data_table id))
            (λ found. or_throw found (not_found id) >>= λ d.
              check_rename contains rc dict_table data_table dto d >> after d)
            w refl
          ∙ >>=-run (or_throw (by_id contains rc dict_table data_table id w) (not_found id))
              (λ d. check_rename contains rc dict_table data_table dto d >> after d) w
              (ap (λ o. or_throw o (not_found id) w) e) in
        elim (check_rename-cases w) [
          | inl taken ↦ absurd (
              let q =
                sym h
                ∙ lead
                ∙ >>=-stop (check_rename contains rc dict_table data_table dto dict)
                    (λ _. after dict) w taken in
              ground arith)
          | inr free ↦
              let q =
                sym h
                ∙ lead
                ∙ >>=-run (check_rename contains rc dict_table data_table dto dict)
                    (λ _. after dict) w free
                ∙ rest-run (renames dto dict) w there in
              (ground (arith, q), ap (λ x. x.1) q)
        ]
      where
        after : SysDict → Action W SysDict
        after d =
            modify_state (λ w. record w {
              dicts = dict_table.update_many (λ d. d.id == id) (updated_dict dto) w.dicts;
            })
            >> (drop_key contains rc dict_table data_table (dict_key id)
                >> (drop_key contains rc dict_table data_table (data_key d.code)
                    >> ((if renames dto d
                          then drop_key contains rc dict_table data_table
                              (data_key (or_old dto.code d.code))
                          else pure tt)
                        >> (drop_key contains rc dict_table data_table "dict:list"
                            >> pure (updated_dict dto d)))))

    Gone-old : (rename : Bool) (s : Server) → Gone (data_key dict.code) (dropped rename s)
    unfolding dropped
    Gone-old true s = Gone-later (data_key dict.code) "dict:list" _ (
        Gone-later (data_key dict.code) (data_key (or_old dto.code dict.code)) _
          (Gone-del (data_key dict.code) _))
    Gone-old false s =
        Gone-later (data_key dict.code) "dict:list" _ (Gone-del (data_key dict.code) _)

    Gone-id : (rename : Bool) (s : Server) → Gone (dict_key id) (dropped rename s)
    unfolding dropped
    Gone-id true s = Gone-later (dict_key id) "dict:list" _ (
        Gone-later (dict_key id) (data_key (or_old dto.code dict.code)) _
          (Gone-later (dict_key id) (data_key dict.code) _ (Gone-del (dict_key id) s)))
    Gone-id false s =
        Gone-later (dict_key id) "dict:list" _
          (Gone-later (dict_key id) (data_key dict.code) _ (Gone-del (dict_key id) s))

    Gone-new :
        (s : Server)
        → ((dto.code ≡ none) ⊎ (given dto.code ≡ true))
        → Gone (data_key (or_old dto.code dict.code)) (dropped (renames dto dict) s)
    unfolding dropped
    Gone-new s (inl e) =
        subst (λ c. Gone (data_key c) (dropped (renames dto dict) s)) (sym (rw e refl))
          (Gone-old (renames dto dict) s)
    Gone-new s (inr on) = elim (Bool-cases (or_old dto.code dict.code == dict.code)) [
      | inl q ↦
          subst (λ c. Gone (data_key c) (dropped (renames dto dict) s))
            (sym ((eq_iff (or_old dto.code dict.code) dict.code).0 q))
            (Gone-old (renames dto dict) s)
      | inr q ↦
          let renamed : renames dto dict ≡ true = rw (on, q) refl in
          subst (λ b. Gone (data_key (or_old dto.code dict.code)) (dropped b s)) (sym renamed)
            (Gone-later (data_key (or_old dto.code dict.code)) "dict:list" _
              (Gone-del (data_key (or_old dto.code dict.code)) _))
    ]

    -- After an update of a dictionary that returns, where Redis answers every command, `findByCode` of the old code and of
    -- the new one and `findOne` of the id answer what the table says, whatever was cached before. A
    -- code that the request names is not empty.
    pub update-find_by_code :
        (w : W) (r : SysDict) (w' : W)
        → w.redis.connected ≡ true
        → ((dto.code ≡ none) ⊎ (given dto.code ≡ true))
        → by_id contains rc dict_table data_table id w ≡ some dict
        → update contains rc dict_table data_table id dto w ≡ (ok r, w')
        → let says = λ (k : String) (p : SysDictData → Bool) (o : Option SysDict).
          answered k (Option.map (full contains rc dict_table data_table p w') o) in
          ((find_by_code contains rc dict_table data_table dict.code w').0
            ≡ says dict.code
                (λ d. is_active d.status)
                (by_code contains rc dict_table data_table dict.code w'))
          × ((find_by_code contains rc dict_table data_table r.code w').0
              ≡ says r.code
                  (λ d. is_active d.status)
                  (by_code contains rc dict_table data_table r.code w'))
          × ((find_one contains rc dict_table data_table id w').0
              ≡ says id (λ _. true) (by_id contains rc dict_table data_table id w'))
    unfolding find_by_code find_one stored
    update-find_by_code w r w' there named e h =
        let (is, ends) = update-run w r w' there e h in
        let connected : w'.redis.connected ≡ true =
          subst (λ u. u.redis.connected ≡ true) (sym ends) there in
        let server = λ (key : String) (g : Gone key (dropped (renames dto dict) w.redis.server)).
          subst (λ u. Gone key u.redis.server) (sym ends) g in
        (
          reads (data_key dict.code) 7200 (by_code contains rc dict_table data_table dict.code)
              (λ d. is_active d.status) dict.code connected
              (server (data_key dict.code) (Gone-old (renames dto dict) w.redis.server)),
          reads (data_key r.code) 7200 (by_code contains rc dict_table data_table r.code)
              (λ d. is_active d.status) r.code connected
              (server (data_key r.code) (
                subst (λ c. Gone (data_key c) (dropped (renames dto dict) w.redis.server))
                  (sym (ap (λ d. d.code) is)) (Gone-new w.redis.server named))),
          reads (dict_key id) 3600 (by_id contains rc dict_table data_table id) (λ _. true) id
              connected (server (dict_key id) (Gone-id (renames dto dict) w.redis.server)),
        )
      where
        reads :
            (key : String) (n : ℕ) (look : W → Option SysDict) (p : SysDictData → Bool) (k : String)
            → w'.redis.connected ≡ true
            → Gone key w'.redis.server
            → (through_cache contains rc dict_table data_table key n
                (read_dict contains rc dict_table data_table look p k)
                w').0
              ≡ answered k (Option.map (full contains rc dict_table data_table p w') (look w'))
        reads key n look p k c g =
            through_cache-reads key n (read_dict contains rc dict_table data_table look p k) w' c k
              (Option.map (full contains rc dict_table data_table p w') (look w')) g
              (read_dict-run look p k w')
