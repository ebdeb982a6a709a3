-- ===== src/Menus/Shown.antt =====
-- Which menus `getUserMenus` of apps/api/src/modules/auth/auth.service.ts shows to an ordinary user.
use zhuo_stack.Prelude.{
  subst, ◌≡◌, refl, sym, ◌∙◌, inl, inr, ◌↔◌, true, false, some, List, [], ◌∷◌, String, arith, ◌==◌,
  filter, In, In-any, In-filter_keep, Bool-cases,
}
use zhuo_stack.Prelude.Keyed.{has, find, Distinct, Distinct-filter, find_of_get}
use zhuo_stack.Prelude.Action.{ok, ◌>>=◌}
use zhuo_stack.Database.Table.{Table}
use zhuo_stack.Auth.Account.{user}
use zhuo_stack.Trees.{has_forest}
use zhuo_stack.Trees.Chains.{Chain, same}
use zhuo_stack.Trees.Depth.{filter-In}
use zhuo_stack.Trees.Members.{has_forest-build_tree_iff}
use zhuo_stack.Menus.{SysMenu, menu_id, menu_parent}
use zhuo_stack.Menus.Visible.{
  MenuUser, MenuRole, MenusWorld, parent_of, complete, visible, active_menus, named, menus_for,
  add_all, get_user_menus,
}
use zhuo_stack.Menus.Closure.{Up, Next, complete_iff, complete-Next, has-add_all}

-- From a menu a chain of active menus leads up to one that has no parent.
abbrev pub Leads : List SysMenu → String → Type 0
Leads active k = (path : List String) × Chain menu_id menu_parent active (k ∷ path)

module _ (active : List SysMenu) (distinct : Distinct menu_id active)
    (filled : has menu_id "" active ≡ false) where
  abbrev kept : List String → List SysMenu
  kept set = filter (λ m. has same m.id set) active

  Chain-kept :
      (set xs : List String)
      → Chain menu_id menu_parent (kept set) xs
      → Chain menu_id menu_parent active xs
  Chain-kept set [] c = tt
  Chain-kept set (x ∷ xs) ((r, at, e, p), c) =
      ((r, (filter-In (λ m. has same m.id set) active r at).0, e, p), Chain-kept set xs c)

  -- The step up from a row of a chain.
  row-Next :
      (r : SysMenu) (x y : String) (ys : List String)
      → In r active
      → r.id ≡ x
      → r.parent_id ≡ some y
      → Chain menu_id menu_parent active (y ∷ ys)
      → Next active x y
  row-Next r x y ys (i, at) e p ((s, at', e', p'), c) =
      let found : find menu_id x active ≡ some r =
        subst (λ k. find menu_id k active ≡ some r) e
          (find_of_get menu_id active i r distinct at) in
      (
        rw (found, parent_of) p,
        elim (Bool-cases (y == "")) [
          | inr off ↦ off
          | inl on ↦
              let empty : (s.id == "") ≡ true = subst (λ k. (k == "") ≡ true) (sym e') on in
              let there : has menu_id "" active ≡ true =
                In-any (λ m. m.id == "") active s at' empty in
              absurd (ground arith)
        ],
      )

  -- A chain stays among the rows that are kept, where its first row is.
  kept-Chain :
      (seeds : List String) (x : String) (xs : List String)
      → has same x (complete active seeds seeds) ≡ true
      → Chain menu_id menu_parent active (x ∷ xs)
      → Chain menu_id menu_parent (kept (complete active seeds seeds)) (x ∷ xs)
  kept-Chain seeds x [] h ((r, at, e, p), c) = (
    (
      r,
      In-filter_keep (λ m. has same m.id (complete active seeds seeds)) active r at (rw e h),
      e,
      p,
    ),
    tt,
  )
  kept-Chain seeds x (y ∷ ys) h ((r, at, e, p), c) =
      let up = complete-Next active seeds x y h (row-Next r x y ys at e p c) in
      (
        (
          r,
          In-filter_keep (λ m. has same m.id (complete active seeds seeds)) active r at (rw e h),
          e,
          p,
        ),
        kept-Chain seeds y ys up c,
      )

  visible_iff :
      (seeds : List String) (k : String)
      → (has_forest menu_id k (visible active seeds) ≡ true)
        ↔ (Leads active k × ((x : String) × (has same x seeds ≡ true) × Up active x k))
  unfolding visible has_forest
  visible_iff [] k = (λ h. absurd (ground arith), λ (_, (x, h, u)). absurd (ground arith))
  visible_iff (s ∷ ss) k =
      let set = complete active (s ∷ ss) (s ∷ ss) in
      let (shows, shown) =
        has_forest-build_tree_iff menu_id menu_parent (kept set)
          (Distinct-filter menu_id (λ m. has same m.id set) active distinct) k in
      (
        λ h.
            let (path, ((r, at, e, p), c)) = shows h in
            let in_set = (filter-In (λ m. has same m.id set) active r at).1 in
            (
              (path, Chain-kept set (k ∷ path) ((r, at, e, p), c)),
              (complete_iff active (s ∷ ss) k).0 (subst (λ z. has same z set ≡ true) e in_set),
            ),
        λ ((path, c), seed).
            shown (path, kept-Chain (s ∷ ss) k path ((complete_iff active (s ∷ ss) k).1 seed) c),
      )

module _ (user_table : Table MenuUser) (role_table : Table MenuRole)
    (menu_table : Table SysMenu) where
  menus_for-user :
      (w : MenusWorld user_table role_table menu_table) (u : MenuUser) (r : String)
      (rs : List String)
      → u.role ≡ user
      → u.roles ≡ r ∷ rs
      → menus_for user_table role_table menu_table u w
        ≡ visible
            (active_menus user_table role_table menu_table w)
            (add_all (named user_table role_table menu_table u w) [])
  menus_for-user w u r rs ordinary roles = ground arith

  -- For a user who is not an administrator, `getUserMenus` returns a tree that shows a menu exactly if
  -- two things hold: a chain of active menus leads from it up to one without a parent, and it is a menu
  -- of one of the user's roles or stands above such a menu, by steps up from active menus. Here the ids
  -- of the active menus are distinct and not empty, and the user names a role.
  pub get_user_menus-shows_iff :
      (id : String) (w : MenusWorld user_table role_table menu_table) (u : MenuUser) (r : String)
      (rs : List String)
      → user_table.find_first (λ v. v.id == id) w.users ≡ some u
      → u.role ≡ user
      → u.roles ≡ r ∷ rs
      → (let active = active_menus user_table role_table menu_table w in Distinct menu_id active)
      → (let active = active_menus user_table role_table menu_table w in
          has menu_id "" active ≡ false)
      → (get_user_menus user_table role_table menu_table id w
          ≡ (ok (menus_for user_table role_table menu_table u w), w))
        × ((k : String)
            → (has_forest menu_id k (menus_for user_table role_table menu_table u w) ≡ true) ↔ (
                Leads (active_menus user_table role_table menu_table w) k
                × ((x : String) × (has same x (named user_table role_table menu_table u w) ≡ true)
                    × Up (active_menus user_table role_table menu_table w) x k)))
  unfolding get_user_menus ◌>>=◌
  get_user_menus-shows_iff id w u r rs found ordinary roles distinct filled =
      let active = active_menus user_table role_table menu_table w in
      let seeds = named user_table role_table menu_table u w in
      (
        rw found refl,
        λ k.
            let (shows, shown) = visible_iff active distinct filled (add_all seeds []) k in
            let same_seeds : (x : String) → has same x (add_all seeds []) ≡ has same x seeds =
              λ x. has-add_all seeds x [] in
            let is = menus_for-user w u r rs ordinary roles in
            (
              λ h.
                  let (leads, (x, s, up)) =
                    shows (subst (λ f. has_forest menu_id k f ≡ true) is h) in
                  (leads, (x, sym (same_seeds x) ∙ s, up)),
              λ (leads, (x, s, up)).
                  subst (λ f. has_forest menu_id k f ≡ true) (sym is)
                    (shown (leads, (x, same_seeds x ∙ s, up))),
            ),
      )
