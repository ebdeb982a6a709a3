-- ===== src/Menus/Changes.antt =====
-- The requests of apps/api/src/modules/system/menu/menu.service.ts that change menus, and what they leave
-- of the cache.
use text.Mathlib.Text.{starts_with}
use text.Mathlib.TextLemmas.{prefix-append}
use text.Mathlib.TextEquality.{starts_with_iff}
use zhuo_stack.Prelude.{
  subst, ◌≡◌, refl, sym, ◌∙◌, true, false, none, String, arith, ◌==◌, ltb, length,
}
use zhuo_stack.Prelude.Action.{
  Action, ok, err, pure, throw_if, or_throw, gets, modify_state, conflict, internal, ◌>>◌, Keeps,
  >>=-Keeps, >>=-Keeps_from, >>=-run, or_throw-Keeps, throw_if-Keeps,
}
use zhuo_stack.Database.Client.{RedisClient, is_plain}
use zhuo_stack.Database.Table.{Table}
use zhuo_stack.Database.Redis.{Redis, del_key, del_pattern}
use zhuo_stack.Database.Redis.Reliable.{is_ready-connected, del_key-run}
use zhuo_stack.Database.Redis.Sweep.{IsReliable, del_pattern-cell}
use zhuo_stack.Guards.{Status, text_is}
use zhuo_stack.Menus.{
  SysMenu, CreateMenuDto, new_menu, UpdateMenuDto, updated_menu, MenuValue, menu_key,
  clear_menu_cache, create, find_one, update, remove,
}
use zhuo_stack.Menus.Cache.{W, IsFresh, cached-run, find_one-Reads}

module _ (rc : RedisClient MenuValue) (menu_table : Table SysMenu) (reliable : IsReliable rc)
    (up : (s : rc.Server) → rc.ready s ≡ true) where
  open rc use {Text, Server, cell, stringify}

  is_plain-menu : is_plain "menu:" ≡ true
  unfolding is_plain
  is_plain-menu = refl

  starts_with-menu_key : (k : String) → starts_with (menu_key k) "menu:" ≡ true
  starts_with-menu_key k = (starts_with_iff (menu_key k) "menu:").1 (prefix-append "menu:" k)

  -- Clearing the cache leaves no key of it.
  clear_menu_cache-run :
      (w : W rc menu_table reliable up)
      → w.redis.connected ≡ true
      → (s' : Server) × (clear_menu_cache rc menu_table w
          ≡ (ok tt, record w { redis = record w.redis { server = s' } }))
        × ((k : String) → cell s' (menu_key k) ≡ none)
  unfolding clear_menu_cache
  clear_menu_cache-run w c =
      let s1 = rc.del "menu:tree" w.redis.server in
      let s2 = rc.del "menu:list" s1 in
      let r2 : Redis rc = record w.redis { server = s2 } in
      let (s', e, gone) =
        del_pattern-cell rc reliable "menu:" r2 is_plain-menu (is_ready-connected rc up r2 c) in
      let u1 : W rc menu_table reliable up = record w { redis = record w.redis { server = s1 } } in
      let u2 : W rc menu_table reliable up = record w { redis = r2 } in
      (
        s',
        >>=-run _ _ w (
              cached-run rc menu_table reliable up (del_key rc "menu:tree" false) w
                (del_key-run rc reliable up "menu:tree" w.redis c))
            ∙ >>=-run _ _ u1 (
                cached-run rc menu_table reliable up (del_key rc "menu:list" false) u1
                  (del_key-run rc reliable up "menu:list" u1.redis c))
            ∙ cached-run rc menu_table reliable up (del_pattern rc "menu:*") u2 e,
        λ k. rw (starts_with-menu_key k) at (gone (menu_key k)),
      )

  clear_menu_cache-IsFresh :
      (w : W rc menu_table reliable up)
      → w.redis.connected ≡ true
      → IsFresh rc menu_table reliable up (clear_menu_cache rc menu_table w).1
  clear_menu_cache-IsFresh w c =
      let (s', e, gone) = clear_menu_cache-run w c in
      subst (λ x. IsFresh rc menu_table reliable up x.1) (sym e)
        (c, λ k t h. absurd (let g = gone k in ground arith))

  -- The requests that change menus.
  pub data Change : Type 0 where
    creates : CreateMenuDto → String → Status → Change
    updates : String → UpdateMenuDto → Change
    removes : String → Change

  abbrev pub outcome :
      {A : Type 0}
      → Action (W rc menu_table reliable up) A
      → Action (W rc menu_table reliable up) (Unit {0})
  outcome m w = let (r, w') = m w in (elim r [ ok _ ↦ ok tt | err e ↦ err e ], w')

  abbrev pub change : Change → Action (W rc menu_table reliable up) (Unit {0})
  change (creates dto fresh_id status) = outcome (create rc menu_table dto fresh_id status)
  change (updates id dto) = outcome (update rc menu_table id dto)
  change (removes id) = outcome (remove rc menu_table id)

  -- An id that is no key of the service's own.
  abbrev pub IsRowId : String → Type 0
  IsRowId id = ((id == "tree") ≡ false) × ((id == "list") ≡ false)

  abbrev pub Names : Change → Type 0
  Names (creates dto fresh_id status) = Unit
  Names (updates id dto) = IsRowId id
  Names (removes id) = IsRowId id

  -- The rest of a request, from its statement on.
  stored-IsFresh :
      {A : Type 0} (f : menu_table.State → menu_table.State) (a : A)
      (w : W rc menu_table reliable up)
      → IsFresh rc menu_table reliable up w
      → IsFresh rc menu_table reliable up
          ((modify_state (λ w. record w { menus = f w.menus })
              >> (clear_menu_cache rc menu_table >> pure a))
            w).1
  stored-IsFresh f a w (c, _) =
      let u : W rc menu_table reliable up = record w { menus = f w.menus } in
      let cleared : IsFresh rc menu_table reliable up
          ((clear_menu_cache rc menu_table >> pure a) u).1 =
        >>=-Keeps_from (IsFresh rc menu_table reliable up) (clear_menu_cache rc menu_table)
          (λ _. pure a) u (clear_menu_cache-IsFresh u c) (λ _ w h. h) in
      subst (λ x. IsFresh rc menu_table reliable up x.1)
        (sym (
          >>=-run (modify_state (λ w. record w { menus = f w.menus }))
            (λ _. clear_menu_cache rc menu_table >> pure a) w refl))
        cleared

  find_one-IsFresh :
      (id : String)
      → IsRowId id
      → Keeps (IsFresh rc menu_table reliable up) (find_one rc menu_table id)
  find_one-IsFresh id (t, l) w f =
      let (_, fresh, _) = find_one-Reads rc menu_table reliable up w id f t l in fresh

  -- Whatever request changes the menus, and however it ends: the cache is fresh afterwards where it was
  -- before and Redis answers every command, and the id of the request is neither `tree` nor `list`.
  pub change-IsFresh :
      (c : Change) (w : W rc menu_table reliable up)
      → Names c
      → IsFresh rc menu_table reliable up w
      → IsFresh rc menu_table reliable up (change c w).1
  unfolding create update remove
  change-IsFresh (creates dto fresh_id status) w n f =
      stored-IsFresh (menu_table.create (new_menu dto fresh_id status))
        (new_menu dto fresh_id status) w f
  change-IsFresh (updates id dto) w n f =
      >>=-Keeps (IsFresh rc menu_table reliable up) (find_one rc menu_table id) _
        (find_one-IsFresh id n)
        (λ _.
          >>=-Keeps (IsFresh rc menu_table reliable up)
            (gets (λ w. menu_table.find_first (λ m. m.id == id) w.menus)) _ (λ w h. h)
            λ found.
              >>=-Keeps (IsFresh rc menu_table reliable up) (or_throw found (internal "P2025")) _
                (or_throw-Keeps (IsFresh rc menu_table reliable up) found (internal "P2025"))
                λ old.
                  stored-IsFresh (menu_table.update_many (λ m. m.id == id) (updated_menu dto))
                    (updated_menu dto old))
        w f
  change-IsFresh (removes id) w n f =
      >>=-Keeps (IsFresh rc menu_table reliable up) (find_one rc menu_table id) _
        (find_one-IsFresh id n)
        (λ _.
          >>=-Keeps (IsFresh rc menu_table reliable up)
            (gets (λ w. menu_table.find_many (λ m. text_is m.parent_id id) w.menus)) _ (λ w h. h)
            λ children.
              >>=-Keeps (IsFresh rc menu_table reliable up)
                (throw_if (ltb 0 (length children)) (conflict "该菜单下存在子菜单，无法删除")) _
                (throw_if-Keeps (IsFresh rc menu_table reliable up) _ _)
                λ _.
                  >>=-Keeps (IsFresh rc menu_table reliable up)
                    (gets (λ w. menu_table.find_first (λ m. m.id == id) w.menus)) _ (λ w h. h)
                    λ found.
                      >>=-Keeps (IsFresh rc menu_table reliable up)
                        (or_throw found (internal "P2025")) _
                        (or_throw-Keeps (IsFresh rc menu_table reliable up) found
                          (internal "P2025"))
                        λ _. stored-IsFresh (menu_table.delete_many (λ m. m.id == id)) "删除成功")
        w f
