-- ===== src/Menus/Cache.antt =====
-- The cache of the menus, in apps/api/src/modules/system/menu/menu.service.ts: what it may hold, while
-- Redis answers every command.
use mathlib.Core.Option
use text.Mathlib.TextLemmas.{append_cancel_left}
use zhuo_stack.Prelude.{
  subst, ℕ, ◌<◌, ◌≡◌, refl, sym, ap, ◌∙◌, inl, inr, true, false, Option, none, some, String, arith,
  ◌==◌, if◌then◌else◌, Option-cases, text_cases,
}
use zhuo_stack.Prelude.Action.{Action, Result, ok, err, gets, not_found, ◌>>=◌, >>=-run, >>=-stop}
use zhuo_stack.Database.Client.{RedisClient}
use zhuo_stack.Database.Table.{Table}
use zhuo_stack.Database.Redis.{Redis, get, set_value}
use zhuo_stack.Database.Redis.Reliable.{get-hit, get-miss, set_value-run}
use zhuo_stack.Database.Redis.Sweep.{IsReliable}
use zhuo_stack.Menus.{
  SysMenu, MenuValue, tree, rows, row, menu_tree, menu_key, MenuWorld, cached, through_cache,
  all_menus, find_tree, find_all, find_menu, find_one,
}

module _ (rc : RedisClient MenuValue) (menu_table : Table SysMenu) (reliable : IsReliable rc)
    (up : (s : rc.Server) → rc.ready s ≡ true) where
  open rc use {Text, Server, cell, stringify}

  abbrev pub W : Type 0
  W = MenuWorld rc menu_table

  -- What the table has to answer for a key behind `menu:`.
  abbrev pub answer : String → W → Option MenuValue
  answer k w =
      if k == "tree"
      then some (tree (menu_tree (all_menus rc menu_table w)))
      else if k == "list"
      then some (rows (all_menus rc menu_table w))
      else Option.map row (menu_table.find_first (λ m. m.id == k) w.menus)

  abbrev pub answered : String → Option MenuValue → Result MenuValue
  answered k none = err (not_found k)
  answered k (some v) = ok v

  -- There is a connection, and what the cache holds of the menus is what the table answers.
  abbrev pub IsFresh : W → Type 0
  IsFresh w =
      (w.redis.connected ≡ true)
      × ((k : String) (t : Text)
          → cell w.redis.server (menu_key k) ≡ some t
          → (v : MenuValue) × (answer k w ≡ some v) × (t ≡ stringify v))

  -- A value that the table answers may be cached under its key.
  set-IsFresh :
      (k : String) (v : MenuValue) (n : ℕ) (w : W)
      → IsFresh w
      → answer k w ≡ some v
      → 0 < n
      → IsFresh (record w {
        redis = record w.redis { server = rc.set (menu_key k) (stringify v) n w.redis.server };
      })
  set-IsFresh k v n w (c, f) a h = (c, held)
    where
      held :
          (j : String) (t : Text)
          → cell (rc.set (menu_key k) (stringify v) n w.redis.server) (menu_key j) ≡ some t
          → (u : MenuValue) × (answer j w ≡ some u) × (t ≡ stringify u)
      held j t e = elim (text_cases (menu_key k) (menu_key j)) [
        | inl (same, p) ↦
            let q : k ≡ j = append_cancel_left "menu:" k j p in
            let here : some (stringify v) ≡ some t =
              (sym (rw same refl))
              ∙ sym (rc.cell-set (menu_key k) (menu_key j) (stringify v) n w.redis.server h)
              ∙ e in
            (v, subst (λ i. answer i w ≡ some v) q a, ground arith)
        | inr (other, _) ↦ f j t (
            rw other at
              (sym (rc.cell-set (menu_key k) (menu_key j) (stringify v) n w.redis.server h) ∙ e))
      ]

  -- What a read of the cache ends in: its answer, a world that is as good, and the same table.
  abbrev pub Reads : String → W → Result MenuValue × W → Type 0
  Reads k w (a, w') = (a ≡ answered k (answer k w)) × IsFresh w' × (w'.menus ≡ w.menus)

  -- An action on the cache, seen from the service.
  pub cached-run :
      {A : Type 0} (m : Action (Redis rc) A) (w : W) {a : Result A} {r : Redis rc}
      → m w.redis ≡ (a, r)
      → cached rc menu_table m w ≡ (a, record w { redis = r })
  cached-run m w e = rw e refl

  module _ (key : String) (read : Action W MenuValue) (w : W)
      (there : w.redis.connected ≡ true) where
    through_cache-hit :
        (v : MenuValue)
        → cell w.redis.server key ≡ some (stringify v)
        → through_cache rc menu_table key read w ≡ (ok v, w)
    unfolding through_cache
    through_cache-hit v e =
        >>=-run _ _ w
          (cached-run (get rc key false) w (get-hit rc reliable up key w.redis v there e))

    through_cache-miss :
        (v : MenuValue)
        → cell w.redis.server key ≡ none
        → read w ≡ (ok v, w)
        → through_cache rc menu_table key read w ≡ (
          ok v,
          record w {
            redis = record w.redis { server = rc.set key (stringify v) 3600 w.redis.server };
          },
        )
    unfolding through_cache
    through_cache-miss v e h =
        >>=-run _ _ w
          (cached-run (get rc key false) w (get-miss rc reliable up key w.redis there e))
        ∙ >>=-run read _ w h
        ∙ >>=-run _ _ w (
            cached-run (set_value rc key v 3600 false) w
              (set_value-run rc reliable up key v 3600 w.redis there))

    through_cache-absent :
        (k : String)
        → cell w.redis.server key ≡ none
        → read w ≡ (err (not_found k), w)
        → through_cache rc menu_table key read w ≡ (err (not_found k), w)
    unfolding through_cache
    through_cache-absent k e h =
        >>=-run _ _ w
          (cached-run (get rc key false) w (get-miss rc reliable up key w.redis there e))
        ∙ >>=-stop read _ w h

  through :
      (k : String) (read : Action W MenuValue) (w : W)
      → IsFresh w
      → read w ≡ (answered k (answer k w), w)
      → Reads k w (through_cache rc menu_table (menu_key k) read w)
  through k read w (c, f) h = elim (Option-cases (cell w.redis.server (menu_key k))) [
    | inr (t, e) ↦
        let (v, a, q) = f k t e in
        let hit = through_cache-hit (menu_key k) read w c v (e ∙ ap some q) in
        subst (Reads k w) (sym hit) (rw a refl, (c, f), refl)
    | inl e ↦ elim (Option-cases (answer k w)) [
      | inl a ↦
          let absent =
            through_cache-absent (menu_key k) read w c k e (h ∙ ap (λ o. (answered k o, w)) a) in
          subst (Reads k w) (sym absent) (rw a refl, (c, f), refl)
      | inr (v, a) ↦
          let miss =
            through_cache-miss (menu_key k) read w c v e (h ∙ ap (λ o. (answered k o, w)) a) in
          subst (Reads k w) (sym miss)
            (rw a refl, set-IsFresh k v 3600 w (c, f) a (omega arith), refl)
    ]
  ]

  find_menu-answer :
      (id : String) (w : W)
      → (id == "tree") ≡ false
      → (id == "list") ≡ false
      → find_menu rc menu_table id w ≡ (answered id (answer id w), w)
  unfolding ◌>>=◌
  find_menu-answer id w t l =
      elim (Option-cases (menu_table.find_first (λ m. m.id == id) w.menus)) [
        | inl e ↦ rw (t, l, e) refl
        | inr (m, e) ↦ rw (t, l, e) refl
      ]

  pub find_one-Reads :
      (w : W) (id : String)
      → IsFresh w
      → (id == "tree") ≡ false
      → (id == "list") ≡ false
      → Reads id w (find_one rc menu_table id w)
  unfolding find_one
  find_one-Reads w id f t l =
      through id (find_menu rc menu_table id) w f (find_menu-answer id w t l)

  -- Where Redis answers every command and its cache of the menus is fresh, `findTree`, `findAll` and `findOne`
  -- answer what the table says, as if there were no cache: the tree of the rows, the rows, and the row
  -- with the id or the exception for a missing one, where the id is neither `tree` nor `list`. The
  -- table stays as it is, and the cache fresh.
  pub find-answer :
      (w : W) (id : String)
      → IsFresh w
      → (id == "tree") ≡ false
      → (id == "list") ≡ false
      → ((find_tree rc menu_table w).0 ≡ ok (tree (menu_tree (all_menus rc menu_table w))))
        × ((find_all rc menu_table w).0 ≡ ok (rows (all_menus rc menu_table w)))
        × ((find_one rc menu_table id w).0
            ≡ answered id (Option.map row (menu_table.find_first (λ m. m.id == id) w.menus)))
        × IsFresh (find_tree rc menu_table w).1
        × IsFresh (find_all rc menu_table w).1
        × IsFresh (find_one rc menu_table id w).1
        × ((find_tree rc menu_table w).1.menus ≡ w.menus)
        × ((find_all rc menu_table w).1.menus ≡ w.menus)
        × ((find_one rc menu_table id w).1.menus ≡ w.menus)
  unfolding find_tree find_all
  find-answer w id f not_tree not_list =
      let (a, b, c) =
        through "tree" (gets (λ w. tree (menu_tree (all_menus rc menu_table w)))) w f refl in
      let (d, e, g) = through "list" (gets (λ w. rows (all_menus rc menu_table w))) w f refl in
      let (h, i, j) = find_one-Reads w id f not_tree not_list in
      (a, d, rw (not_tree, not_list) at h, b, e, i, c, g, j)
