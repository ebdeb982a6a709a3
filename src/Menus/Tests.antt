-- ===== src/Menus/Tests.antt =====
-- The menus at a concrete world.
use native.Mathlib.Decide.{ℕ_discrete}
use zhuo_stack.Prelude.{◌≡◌, ◌↔◌, refl, true, false, none, some, [], ◌∷◌, String, arith}
use zhuo_stack.Prelude.Action.{ok, ◌>>=◌}
use zhuo_stack.Database.Client.{RedisClient}
use zhuo_stack.Database.Memory.{text_discrete, discrete_redis}
use zhuo_stack.Database.Redis.{Redis}
use zhuo_stack.Database.Redis.Sweep.{IsReliable}
use zhuo_stack.Database.Table.{memory_table}
use zhuo_stack.Guards.{active}
use zhuo_stack.Auth.Account.{user}
use zhuo_stack.Prelude.Keyed.{has}
use zhuo_stack.Trees.{node, leaf, grow, plant, build, build_tree, has_forest}
use zhuo_stack.Trees.Chains.{same}
use zhuo_stack.Menus.Visible.{
  MenuUser, MenuRole, MenusWorld, active_menus, named, menus_for, get_user_menus, visible, complete,
  climb,
}
use zhuo_stack.Menus.Closure.{Up}
use zhuo_stack.Menus.Shown.{Leads, get_user_menus-shows_iff}
use zhuo_stack.Menus.{
  SysMenu, directory, menu, MenuValue, tree, rows, row, menu_id, menu_tree, MenuWorld, all_menus,
  find_tree, find_all, find_one,
}
use zhuo_stack.Menus.Cache.{answered, IsFresh, find-answer}
use zhuo_stack.Menus.Changes.{removes, change, change-IsFresh}

menu_value_discrete : Discrete MenuValue
menu_value_discrete = hlevel (text_discrete, ℕ_discrete)

abbrev cache : RedisClient MenuValue
cache = discrete_redis menu_value_discrete

abbrev system : SysMenu
system = record {
  id = "m1";
  name = "系统管理";
  parent_id = none;
  menu_type = directory;
  path = some "/system";
  component = none;
  icon = none;
  sort = 1;
  status = active;
  hidden = false;
  perms = none;
  remark = none;
}

abbrev users_page : SysMenu
users_page = record system {
  id = "m2";
  name = "用户管理";
  parent_id = some "m1";
  menu_type = menu;
  path = some "/system/user";
}

abbrev held : Redis cache
held = record {
  connected = true;
  required = false;
  server = record { entries = []; ttl = λ _. none };
}

abbrev start : MenuWorld cache (memory_table SysMenu)
start = record { redis = held; menus = system ∷ users_page ∷ [] }

always : IsReliable cache
always A c s = refl

start-IsFresh : IsFresh cache (memory_table SysMenu) always (λ s. refl) start
start-IsFresh = (refl, λ k t h. absurd (ground arith))

change-IsFresh_example :
    IsFresh cache
      (memory_table SysMenu)
      always
      (λ s. refl)
      (change cache (memory_table SysMenu) always (λ s. refl) (removes "m2") start).1
change-IsFresh_example =
    change-IsFresh cache (memory_table SysMenu) always (λ s. refl) (removes "m2") start (refl, refl)
      start-IsFresh

find-answer_example :
    ((find_tree cache (memory_table SysMenu) start).0
      ≡ ok (tree (menu_tree (all_menus cache (memory_table SysMenu) start))))
    × ((find_all cache (memory_table SysMenu) start).0
        ≡ ok (rows (all_menus cache (memory_table SysMenu) start)))
    × ((find_one cache (memory_table SysMenu) "m2" start).0
        ≡ answered cache (memory_table SysMenu) always (λ s. refl) "m2" (some (row users_page)))
    × IsFresh cache
        (memory_table SysMenu)
        always
        (λ s. refl)
        (find_tree cache (memory_table SysMenu) start).1
    × IsFresh cache
        (memory_table SysMenu)
        always
        (λ s. refl)
        (find_all cache (memory_table SysMenu) start).1
    × IsFresh cache
        (memory_table SysMenu)
        always
        (λ s. refl)
        (find_one cache (memory_table SysMenu) "m2" start).1
    × ((find_tree cache (memory_table SysMenu) start).1.menus ≡ start.menus)
    × ((find_all cache (memory_table SysMenu) start).1.menus ≡ start.menus)
    × ((find_one cache (memory_table SysMenu) "m2" start).1.menus ≡ start.menus)
find-answer_example =
    find-answer cache (memory_table SysMenu) always (λ s. refl) start "m2" start-IsFresh refl refl

-- A user whose one role names the page; the tree has the directory above it too.
abbrev editor : MenuUser
editor = record { id = "u2"; role = user; roles = "r1" ∷ [] }

abbrev editors : MenusWorld (memory_table MenuUser) (memory_table MenuRole) (memory_table SysMenu)
editors = record {
  users = editor ∷ [];
  roles = record { id = "r1"; menus = "m2" ∷ [] } ∷ [];
  menus = system ∷ users_page ∷ record system { id = "m3" } ∷ [];
}

shown_tree :
    (get_user_menus
      (memory_table MenuUser)
      (memory_table MenuRole)
      (memory_table SysMenu)
      "u2"
      editors).0
    ≡ ok (grow (node system (grow (node users_page leaf) leaf)) leaf)
unfolding get_user_menus visible complete climb build_tree build plant ◌>>=◌
shown_tree = refl

get_user_menus-shows_iff_example :
    (get_user_menus
        (memory_table MenuUser)
        (memory_table MenuRole)
        (memory_table SysMenu)
        "u2"
        editors
      ≡ (
        ok (
            menus_for
              (memory_table MenuUser)
              (memory_table MenuRole)
              (memory_table SysMenu)
              editor
              editors),
        editors,
      ))
    × ((k : String)
        → (has_forest menu_id k (
              menus_for
                (memory_table MenuUser)
                (memory_table MenuRole)
                (memory_table SysMenu)
                editor
                editors)
            ≡ true)
          ↔ (Leads
                (active_menus
                  (memory_table MenuUser)
                  (memory_table MenuRole)
                  (memory_table SysMenu)
                  editors)
                k
              × ((x : String) × (has same x (
                      named
                        (memory_table MenuUser)
                        (memory_table MenuRole)
                        (memory_table SysMenu)
                        editor
                        editors)
                    ≡ true)
                  × Up
                      (active_menus
                        (memory_table MenuUser)
                        (memory_table MenuRole)
                        (memory_table SysMenu)
                        editors)
                      x
                      k)))
get_user_menus-shows_iff_example =
    get_user_menus-shows_iff (memory_table MenuUser) (memory_table MenuRole) (memory_table SysMenu)
      "u2" editors editor "r1" [] refl refl refl (refl, (refl, (refl, tt))) refl
