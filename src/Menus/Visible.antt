-- ===== src/Menus/Visible.antt =====
-- `getUserMenus` of apps/api/src/modules/auth/auth.service.ts: the tree of the menus that a user may
-- see. A set of ids is the list of its members, in the order in which they were added.
use zhuo_stack.Prelude.{
  ℕ, zero, suc, ◌||◌, ◌++◌, Option, none, some, List, [], ◌∷◌, String, ◌==◌, if◌then◌else◌, filter,
  length, flat_map,
}
use zhuo_stack.Prelude.Keyed.{has, find}
use zhuo_stack.Prelude.Action.{Action, or_throw, gets, unauthorized, ◌>>=◌}
use zhuo_stack.Database.Table.{Table}
use zhuo_stack.Auth.Account.{Role, admin, user}
use zhuo_stack.Guards.{is_active}
use zhuo_stack.Trees.{Forest, leaf}
use zhuo_stack.Trees.Chains.{same}
use zhuo_stack.Menus.{SysMenu, menu_id, menu_tree}

-- A user with the ids of the user's roles, and a role with those of its menus.
pub record MenuUser : Type 0 where
  pub id : String
  pub role : Role
  pub roles : List String

pub record MenuRole : Type 0 where
  pub id : String
  pub menus : List String

-- `set.add(x)`
abbrev pub add : String → List String → List String
add x set = if has same x set then set else set ++ x ∷ []

abbrev pub add_all : List String → List String → List String
add_all [] set = set
add_all (x ∷ xs) set = add_all xs (add x set)

-- `menuMap.get(id)?.parentId ?? null`
abbrev pub parent_of : List SysMenu → String → Option String
parent_of active id = elim (find menu_id id active) [ none ↦ none | some m ↦ m.parent_id ]

-- The `while` loop, for at most `fuel` turns.
unfoldable pub climb : ℕ → List SysMenu → Option String → List String → List String
climb zero active pid set = set
climb (suc fuel) active none set = set
climb (suc fuel) active (some p) set =
    let rest = climb fuel active (parent_of active p) (add p set) in
    if p == "" || has same p set then set else rest

-- The `for` loop: each turn but the last of a `while` loop adds another active menu.
unfoldable pub complete : List SysMenu → List String → List String → List String
complete active [] set = set
complete active (x ∷ xs) set =
    complete active xs (climb (suc (length active)) active (parent_of active x) set)

-- The menus of an ordinary user, by the menus of the user's roles.
unfoldable pub visible : List SysMenu → List String → Forest SysMenu
visible active [] = leaf
visible active (x ∷ xs) =
    menu_tree (filter (λ m. has same m.id (complete active (x ∷ xs) (x ∷ xs))) active)

module _ (user_table : Table MenuUser) (role_table : Table MenuRole)
    (menu_table : Table SysMenu) where
  pub record MenusWorld : Type 0 where
    pub users : user_table.State
    pub roles : role_table.State
    pub menus : menu_table.State

  abbrev pub active_menus : MenusWorld → List SysMenu
  active_menus w = menu_table.find_many (λ m. is_active m.status) w.menus

  -- The ids that the roles of a user name, roles that are switched off too.
  abbrev pub named : MenuUser → MenusWorld → List String
  named u w = flat_map (λ r. r.menus) (role_table.find_many (λ r. has same r.id u.roles) w.roles)

  abbrev pub menus_for : MenuUser → MenusWorld → Forest SysMenu
  menus_for u w = elim u.role [
    | admin ↦ menu_tree (active_menus w)
    | user ↦ (elim u.roles as (λ _. Forest SysMenu) [
      | [] ↦ leaf
      | _ ∷ _ ↦ visible (active_menus w) (add_all (named u w) [])
    ])
  ]

  unfoldable pub get_user_menus : String → Action MenusWorld (Forest SysMenu)
  get_user_menus user_id = do
    found ← gets (λ w. user_table.find_first (λ u. u.id == user_id) w.users)
    u ← or_throw found (unauthorized "用户不存在")
    gets (menus_for u)
