-- ===== src/Roles.antt =====
-- apps/api/src/modules/system/role/role.service.ts: the roles. A role names its menus by their ids.
-- How the database compares a text with a search is an argument.
pub mod Laws
mod Tests
use mathlib.Core.Option
use zhuo_stack.Prelude.{
  ℕ, Bool, true, false, not, ◌&&◌, ◌||◌, Option, none, some, List, [], ◌∷◌, map, String, ◌==◌,
  if◌then◌else◌, ltb, length, is_some,
}
use zhuo_stack.Prelude.Keyed.{has}
use zhuo_stack.Prelude.Action.{
  Action, pure, throw_if, or_throw, gets, modify_state, not_found, conflict, ◌>>=◌, ◌>>◌,
}
use zhuo_stack.Database.Table.{Table}
use zhuo_stack.Auth.Account.{User}
use zhuo_stack.Guards.{Status, active, is_active}
use zhuo_stack.Depts.{or_old, remark_of}
use zhuo_stack.Trees.Chains.{same}
use zhuo_stack.Notifications.Query.{Pagination, ceil_div, page_of}

pub record SysRole : Type 0 where
  pub id : String
  pub name : String
  pub code : String
  pub sort : ℕ
  pub status : Status
  pub remark : Option String
  pub menus : List String

pub record CreateRoleDto : Type 0 where
  pub name : String
  pub code : String
  pub sort : Option ℕ
  pub status : Option Status
  pub remark : Option String
  pub menu_ids : Option (List String)

pub record UpdateRoleDto : Type 0 where
  pub name : Option String
  pub code : Option String
  pub sort : Option ℕ
  pub status : Option Status
  pub remark : Option String
  pub menu_ids : Option (List String)

-- A query with the defaults of the page filled in.
pub record QueryRoleDto : Type 0 where
  pub page : ℕ
  pub page_size : ℕ
  pub search : Option String

abbrev pub role_id : SysRole → String
role_id r = r.id

abbrev pub role_code : SysRole → String
role_code r = r.code

abbrev pub created_role : CreateRoleDto → String → Status → SysRole
created_role dto fresh_id status = record {
  id = fresh_id;
  name = dto.name;
  code = dto.code;
  sort = or_old dto.sort 0;
  status = or_old dto.status status;
  remark = dto.remark;
  menus = or_old dto.menu_ids [];
}

abbrev pub updated_role : UpdateRoleDto → SysRole → SysRole
updated_role dto r = record r {
  name = or_old dto.name r.name;
  code = or_old dto.code r.code;
  sort = or_old dto.sort r.sort;
  status = or_old dto.status r.status;
  remark = remark_of dto.remark r.remark;
  menus = or_old dto.menu_ids r.menus;
}

-- `dto.code` as a condition.
abbrev pub given : Option String → Bool
given none = false
given (some c) = not (c == "")

module _ (contains : String → String → Bool) (role_table : Table SysRole)
    (user_table : Table User) where
  pub record RoleWorld : Type 0 where
    pub roles : role_table.State
    pub users : user_table.State

  abbrev pub by_code : String → RoleWorld → Option SysRole
  by_code c w = role_table.find_first (λ r. r.code == c) w.roles

  -- `fresh_id` is the id that the database draws, `status` its default.
  unfoldable pub create : CreateRoleDto → String → Status → Action RoleWorld SysRole
  create dto fresh_id status = do
    existing ← gets (by_code dto.code)
    throw_if (is_some existing) (conflict "角色标识已存在")
    modify_state
        (λ w. record w { roles = role_table.create (created_role dto fresh_id status) w.roles })
    pure (created_role dto fresh_id status)

  abbrev pub wanted : QueryRoleDto → SysRole → Bool
  wanted q r = elim q.search [
    | none ↦ true
    | some s ↦ s == "" || (contains r.name s || contains r.code s)
  ]

  unfoldable pub find_all : QueryRoleDto → RoleWorld → List SysRole × Pagination
  find_all q w =
      let total = role_table.count (wanted q) w.roles in
      (
        page_of q.page q.page_size (role_table.find_many (wanted q) w.roles),
        record {
          total = total;
          page = q.page;
          page_size = q.page_size;
          total_pages = ceil_div total q.page_size;
        },
      )

  -- Of each role its id, its name and its code.
  unfoldable pub find_all_simple : RoleWorld → List (String × String × String)
  find_all_simple w =
      map (λ (r : SysRole). (r.id, r.name, r.code))
        (role_table.find_many (λ r. is_active r.status) w.roles)

  unfoldable pub find_one : String → Action RoleWorld SysRole
  find_one id = do
    found ← gets (λ w. role_table.find_first (λ r. r.id == id) w.roles)
    or_throw found (not_found id)

  -- `existing && existing.id !== id`
  abbrev pub is_other : String → Option SysRole → Bool
  is_other id existing = elim existing [ none ↦ false | some r ↦ not (r.id == id) ]

  unfoldable pub check_code : String → Option String → Action RoleWorld (Unit {0})
  check_code id code =
      if given code
      then (do
        existing ← gets (by_code (or_old code ""))
        throw_if (is_other id existing) (conflict "角色标识已存在"))
      else pure tt

  unfoldable pub update : String → UpdateRoleDto → Action RoleWorld SysRole
  update id dto = do
    old ← find_one id
    check_code id dto.code
    modify_state (λ w. record w {
      roles = role_table.update_many (λ r. r.id == id) (updated_role dto) w.roles;
    })
    pure (updated_role dto old)

  unfoldable pub remove : String → Action RoleWorld String
  remove id = do
    find_one id
    users ← gets (λ w. user_table.find_many (λ u. has same id u.role_ids) w.users)
    throw_if (ltb 0 (length users)) (conflict "该角色下存在用户，无法删除")
    modify_state (λ w. record w { roles = role_table.delete_many (λ r. r.id == id) w.roles })
    pure "删除成功"
