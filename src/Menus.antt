-- ===== src/Menus.antt =====
-- apps/api/src/modules/system/menu/menu.service.ts: the menus, and what the service caches of them
-- under keys that start with `menu:`. Menu trees are those of Trees. The times of a row are not
-- modelled, nor that an action fails for a foreign key.
pub mod Cache
pub mod Changes
pub mod Visible
pub mod Shown
pub mod Closure
mod Tests
use mathlib.Core.Option
use Prim.Native.String.{◌++◌}
use zhuo_stack.Prelude.{
  ℕ, ◌≡◌, Bool, true, false, Option, none, some, List, String, ◌==◌, if◌then◌else◌, ltb, length,
}
use zhuo_stack.Prelude.Action.{
  Action, pure, throw_if, or_throw, gets, modify_state, not_found, conflict, internal, ◌>>=◌, ◌>>◌,
}
use zhuo_stack.Database.Client.{RedisClient}
use zhuo_stack.Database.Table.{Table}
use zhuo_stack.Database.Redis.{Redis, get, set_value, del_key, del_pattern}
use zhuo_stack.Guards.{Status, text_is}
use zhuo_stack.Depts.{or_root, or_old}
use zhuo_stack.Trees.{Forest, build_tree}

pub data MenuType : Type 0 where
  directory menu button : MenuType

pub record SysMenu : Type 0 where
  pub id : String
  pub name : String
  pub parent_id : Option String
  pub menu_type : MenuType
  pub path : Option String
  pub component : Option String
  pub icon : Option String
  pub sort : ℕ
  pub status : Status
  pub hidden : Bool
  pub perms : Option String
  pub remark : Option String

pub record CreateMenuDto : Type 0 where
  pub name : String
  pub parent_id : Option String
  pub menu_type : MenuType
  pub path : Option String
  pub component : Option String
  pub icon : Option String
  pub sort : Option ℕ
  pub status : Option Status
  pub hidden : Option Bool
  pub perms : Option String
  pub remark : Option String

-- A field that the request leaves out is `none`; one that the row may lack may be there and null.
pub record UpdateMenuDto : Type 0 where
  pub name : Option String
  pub parent_id : Option (Option String)
  pub menu_type : Option MenuType
  pub path : Option (Option String)
  pub component : Option (Option String)
  pub icon : Option (Option String)
  pub sort : Option ℕ
  pub status : Option Status
  pub hidden : Option Bool
  pub perms : Option (Option String)
  pub remark : Option (Option String)

-- What the service stores in the cache, and so what it may answer.
pub data MenuValue : Type 0 where
  tree : Forest SysMenu → MenuValue
  rows : List SysMenu → MenuValue
  row : SysMenu → MenuValue

abbrev pub menu_id : SysMenu → String
menu_id m = m.id

abbrev pub menu_parent : SysMenu → Option String
menu_parent m = m.parent_id

abbrev pub menu_tree : List SysMenu → Forest SysMenu
menu_tree = build_tree menu_id menu_parent

abbrev pub menu_key : String → String
menu_key k = "menu:" ++ k

-- The `data` of the `create` statement.
abbrev pub new_menu : CreateMenuDto → String → Status → SysMenu
new_menu dto fresh_id status = record {
  id = fresh_id;
  name = dto.name;
  parent_id = or_root dto.parent_id;
  menu_type = dto.menu_type;
  path = dto.path;
  component = dto.component;
  icon = dto.icon;
  sort = or_old dto.sort 0;
  status = or_old dto.status status;
  hidden = or_old dto.hidden false;
  perms = dto.perms;
  remark = dto.remark;
}

-- The `update` statement, on a row: the fields that are there, as they are.
abbrev pub updated_menu : UpdateMenuDto → SysMenu → SysMenu
updated_menu dto m = record m {
  name = or_old dto.name m.name;
  parent_id = or_old dto.parent_id m.parent_id;
  menu_type = or_old dto.menu_type m.menu_type;
  path = or_old dto.path m.path;
  component = or_old dto.component m.component;
  icon = or_old dto.icon m.icon;
  sort = or_old dto.sort m.sort;
  status = or_old dto.status m.status;
  hidden = or_old dto.hidden m.hidden;
  perms = or_old dto.perms m.perms;
  remark = or_old dto.remark m.remark;
}

module _ (rc : RedisClient MenuValue) (menu_table : Table SysMenu) where
  pub record MenuWorld : Type 0 where
    pub redis : Redis rc
    pub menus : menu_table.State

  abbrev pub cached : {A : Type 0} → Action (Redis rc) A → Action MenuWorld A
  cached m w = let (r, redis') = m w.redis in (r, record w { redis = redis' })

  unfoldable pub clear_menu_cache : Action MenuWorld (Unit {0})
  clear_menu_cache = do
    cached (del_key rc "menu:tree" false)
    cached (del_key rc "menu:list" false)
    cached (del_pattern rc "menu:*")

  -- `fresh_id` is the id that the database draws, `status` its default.
  unfoldable pub create : CreateMenuDto → String → Status → Action MenuWorld SysMenu
  create dto fresh_id status = do
    modify_state
        (λ w. record w { menus = menu_table.create (new_menu dto fresh_id status) w.menus })
    clear_menu_cache
    pure (new_menu dto fresh_id status)

  -- `if (cached) return cached`, and what is done where there is nothing: read, and cache for an hour.
  unfoldable pub through_cache : String → Action MenuWorld MenuValue → Action MenuWorld MenuValue
  through_cache key read = do
    held ← cached (get rc key false)
    elim held as (λ _. Action MenuWorld MenuValue) [
      | some v ↦ pure v
      | none ↦ (do v ← read; cached (set_value rc key v 3600 false); pure v)
    ]

  abbrev pub all_menus : MenuWorld → List SysMenu
  all_menus w = menu_table.find_many (λ _. true) w.menus

  unfoldable pub find_tree : Action MenuWorld MenuValue
  find_tree = through_cache "menu:tree" (gets (λ w. tree (menu_tree (all_menus w))))

  unfoldable pub find_all : Action MenuWorld MenuValue
  find_all = through_cache "menu:list" (gets (λ w. rows (all_menus w)))

  abbrev pub find_menu : String → Action MenuWorld MenuValue
  find_menu id = do
    found ← gets (λ w. menu_table.find_first (λ m. m.id == id) w.menus)
    or_throw (Option.map row found) (not_found id)

  unfoldable pub find_one : String → Action MenuWorld MenuValue
  find_one id = through_cache (menu_key id) (find_menu id)

  -- The statement throws where there is no such row, which a cached value may hide from `find_one`.
  unfoldable pub update : String → UpdateMenuDto → Action MenuWorld SysMenu
  update id dto = do
    find_one id
    found ← gets (λ w. menu_table.find_first (λ m. m.id == id) w.menus)
    old ← or_throw found (internal "P2025")
    modify_state (λ w. record w {
      menus = menu_table.update_many (λ m. m.id == id) (updated_menu dto) w.menus;
    })
    clear_menu_cache
    pure (updated_menu dto old)

  unfoldable pub remove : String → Action MenuWorld String
  remove id = do
    find_one id
    children ← gets (λ w. menu_table.find_many (λ m. text_is m.parent_id id) w.menus)
    throw_if (ltb 0 (length children)) (conflict "该菜单下存在子菜单，无法删除")
    found ← gets (λ w. menu_table.find_first (λ m. m.id == id) w.menus)
    or_throw found (internal "P2025")
    modify_state (λ w. record w { menus = menu_table.delete_many (λ m. m.id == id) w.menus })
    clear_menu_cache
    pure "删除成功"
