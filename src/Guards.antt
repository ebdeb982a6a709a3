-- ===== src/Guards.antt =====
-- apps/api/src/common/guards/permissions.guard.ts and roles.guard.ts: which requests reach a
-- handler. The metadata of the handler and the user of the request are arguments; what the
-- database returns for the user, with its roles and their menus, is a table.
pub mod Laws
mod Tests
use mathlib.Core.Option
use Prim.Native.Char.{Char, code}
use Prim.Native.String
use Prim.Native.String.{◌++◌}
use text.Mathlib.Text.{starts_with}
use zhuo_stack.Prelude.{
  ℕ, ◌≡◌, eqb, Bool, true, false, not, ◌&&◌, ◌||◌, Option, none, some, List, [], ◌∷◌, String, ◌==◌,
  if◌then◌else◌, any, filter, flat_map,
}
use zhuo_stack.Prelude.Action.{
  Action, pure, throw, throw_if, or_throw, gets, forbidden, ◌>>=◌, ◌>>◌,
}
use zhuo_stack.Database.Table.{Table}
use zhuo_stack.Auth.Account.{Role, admin, user}

pub data Status : Type 0 where
  active inactive : Status

abbrev pub is_active : Status → Bool
is_active active = true
is_active inactive = false

pub record Menu : Type 0 where
  pub status : Status
  pub path : Option String
  pub perms : Option String

pub record RoleWithMenus : Type 0 where
  pub status : Status
  pub menus : List Menu

pub record UserWithRoles : Type 0 where
  pub id : String
  pub roles : List RoleWithMenus

-- The user that the authentication put on the request.
pub record PermissionUser : Type 0 where
  pub id : String
  pub role : Option Role

-- `required.split(':').join('/')`
unfoldable pub slashed : String → String
slashed String.[] = ""
slashed (String.◌∷◌ c s) = if eqb (code c) b':' then "/" ++ slashed s else String.◌∷◌ c (slashed s)

abbrev pub resource_path : String → String
resource_path required = "/" ++ slashed required

abbrev pub text_is : Option String → String → Bool
text_is none t = false
text_is (some s) t = s == t

abbrev pub text_starts : Option String → String → Bool
text_starts none p = false
text_starts (some s) p = starts_with s p

unfoldable pub menu_matches : Menu → String → Bool
menu_matches menu required =
    text_is menu.perms required
    || (text_starts menu.perms (required ++ ":") || text_is menu.path (resource_path required))

-- The rows that the query selects: active roles, and their active menus.
abbrev pub selected_menus : UserWithRoles → List Menu
selected_menus u =
    flat_map (λ r. filter (λ m. is_active m.status) r.menus)
      (filter (λ r. is_active r.status) u.roles)

module _ (users : Table UserWithRoles) where
  unfoldable pub check_menus : List String → PermissionUser → Action users.State Bool
  check_menus required u = do
    found ← gets (λ s. users.find_first (λ r. r.id == u.id) s)
    row ← or_throw found (forbidden "用户不存在或角色已失效")
    throw_if (not (any (λ r. any (λ m. menu_matches m r) (selected_menus row)) required))
        (forbidden "无权访问该资源")
    pure true

  -- `canActivate` of the permissions guard.
  unfoldable pub permissions_can_activate :
      Option (List String) → Option PermissionUser → Action users.State Bool
  permissions_can_activate none u = pure true
  permissions_can_activate (some []) u = pure true
  permissions_can_activate (some (p ∷ ps)) none = throw (forbidden "无权访问该资源")
  permissions_can_activate (some (p ∷ ps)) (some u) =
      if elim u.role [ some admin ↦ true | _ ↦ false ] then pure true else check_menus (p ∷ ps) u

abbrev pub role_is : Role → Role → Bool
role_is admin admin = true
role_is user user = true
role_is _ _ = false

-- `canActivate` of the roles guard; a user without a role is in no list of roles.
unfoldable pub roles_can_activate :
    {W : Type 0} → Option (List Role) → Option (Option Role) → Action W Bool
roles_can_activate none u = pure true
roles_can_activate (some []) u = pure true
roles_can_activate (some (r ∷ rs)) none =
    throw (forbidden "You do not have permission to access this resource")
roles_can_activate (some (r ∷ rs)) (some none) =
    throw (forbidden "You do not have permission to access this resource")
roles_can_activate (some (r ∷ rs)) (some (some role)) =
    if any (role_is role) (r ∷ rs)
    then pure true
    else throw (forbidden "You do not have permission to access this resource")
