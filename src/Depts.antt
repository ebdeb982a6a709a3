-- ===== src/Depts.antt =====
-- apps/api/src/modules/system/dept/dept.service.ts: the departments, and their cached list
-- and tree. The tree is that of Trees.
pub mod Parents
mod Tests
use mathlib.Core.Option
use zhuo_stack.Prelude.{
  ℕ, ◌≡◌, eqb, Bool, true, false, not, ◌&&◌, ◌||◌, Option, none, some, List, [], ◌∷◌, String, ◌==◌,
  if◌then◌else◌, is_some, ltb, length, or_text,
}
use zhuo_stack.Prelude.Action.{
  Action, pure, throw_if, or_throw, gets, modify_state, not_found, conflict, ◌>>=◌, ◌>>◌,
}
use zhuo_stack.Database.Client.{RedisClient}
use zhuo_stack.Database.Table.{Table}
use zhuo_stack.Database.Redis.{Redis, get, set_value, del_key}
use zhuo_stack.Auth.Account.{User}
use zhuo_stack.Guards.{Status, text_is}
use zhuo_stack.Trees.{Forest, build_tree, same_parent}

pub record Dept : Type 0 where
  pub id : String
  pub name : String
  pub parent_id : Option String
  pub sort : ℕ
  pub status : Status
  pub remark : Option String

pub record CreateDeptDto : Type 0 where
  pub name : String
  pub parent_id : Option String
  pub sort : Option ℕ
  pub status : Option Status
  pub remark : Option String

-- A field that the request leaves out is `none`; `parent_id` may be there and null.
pub record UpdateDeptDto : Type 0 where
  pub name : Option String
  pub parent_id : Option (Option String)
  pub sort : Option ℕ
  pub status : Option Status
  pub remark : Option String

-- `parentId || null`
abbrev pub or_root : Option String → Option String
or_root none = none
or_root (some p) = if p == "" then none else some p

abbrev pub or_old {ℓ} : {A : Type ℓ} → Option A → A → A
or_old none old = old
or_old (some new) old = new

-- What the service stores in the cache, and so what it may answer.
pub data DeptValue : Type 0 where
  tree : Forest Dept → DeptValue
  rows : List Dept → DeptValue

abbrev pub dept_id : Dept → String
dept_id d = d.id

abbrev pub dept_parent : Dept → Option String
dept_parent d = d.parent_id

abbrev pub dept_tree : List Dept → Forest Dept
dept_tree = build_tree dept_id dept_parent

abbrev pub new_parent : Option (Option String) → Option String → Option String
new_parent none old = old
new_parent (some p) old = or_root p

abbrev pub remark_of : Option String → Option String → Option String
remark_of none old = old
remark_of (some r) old = some r

-- The `update` statement, on a row: the fields that are there, as they are.
abbrev pub updated_dept : UpdateDeptDto → Dept → Dept
updated_dept dto d = record d {
  name = or_old dto.name d.name;
  parent_id = or_old dto.parent_id d.parent_id;
  sort = or_old dto.sort d.sort;
  status = or_old dto.status d.status;
  remark = remark_of dto.remark d.remark;
}

module _ (rc : RedisClient DeptValue) (dept_table : Table Dept) (user_table : Table User) where
  pub record DeptWorld : Type 0 where
    pub redis : Redis rc
    pub depts : dept_table.State
    pub users : user_table.State

  abbrev pub cached : {A : Type 0} → Action (Redis rc) A → Action DeptWorld A
  cached m w = let (r, redis') = m w.redis in (r, record w { redis = redis' })

  unfoldable pub clear_dept_cache : Action DeptWorld (Unit {0})
  clear_dept_cache = do cached (del_key rc "dept:tree" false); cached (del_key rc "dept:list" false)

  -- `fresh_id` is the id that the database draws, `status` its default.
  unfoldable pub create : CreateDeptDto → String → Status → Action DeptWorld Dept
  create dto fresh_id status = do
    existing ← gets (λ w.
        dept_table.find_first
          (λ d. d.name == dto.name && same_parent d.parent_id (or_root dto.parent_id)) w.depts)
    throw_if (is_some existing) (conflict "同级下已存在同名部门")
    let created : Dept = record {
      id = fresh_id;
      name = dto.name;
      parent_id = or_root dto.parent_id;
      sort = or_old dto.sort 0;
      status = or_old dto.status status;
      remark = dto.remark;
    }
    modify_state (λ w. record w { depts = dept_table.create created w.depts })
    clear_dept_cache
    pure created

  -- `if (cached) return cached`, and what is done where there is nothing: read, and cache for an hour.
  unfoldable pub through_cache : String → (List Dept → DeptValue) → Action DeptWorld DeptValue
  through_cache key shape = do
    held ← cached (get rc key false)
    elim held as (λ _. Action DeptWorld DeptValue) [
      | some v ↦ pure v
      | none ↦ (do
        v ← gets (λ w. shape (dept_table.find_many (λ _. true) w.depts))
        cached (set_value rc key v 3600 false)
        pure v)
    ]

  unfoldable pub find_tree : Action DeptWorld DeptValue
  find_tree = through_cache "dept:tree" (λ ds. tree (dept_tree ds))

  unfoldable pub find_all : Action DeptWorld DeptValue
  find_all = through_cache "dept:list" rows

  unfoldable pub find_one : String → Action DeptWorld Dept
  find_one id = do
    found ← gets (λ w. dept_table.find_first (λ d. d.id == id) w.depts)
    or_throw found (not_found id)

  -- The check of the name among the departments of the same parent.
  unfoldable pub check_siblings : String → Dept → UpdateDeptDto → Action DeptWorld (Unit {0})
  check_siblings id current dto =
      if is_some dto.name || is_some dto.parent_id
      then (do
        existing ← gets (λ w.
            dept_table.find_first
              (λ d.
                d.name == or_old dto.name current.name
                && (same_parent d.parent_id (new_parent dto.parent_id current.parent_id)
                    && not (d.id == id)))
              w.depts)
        throw_if (is_some existing) (conflict "同级下已存在同名部门"))
      else pure tt

  unfoldable pub update : String → UpdateDeptDto → Action DeptWorld Dept
  update id dto = do
    current ← find_one id
    check_siblings id current dto
    modify_state (λ w. record w {
      depts = dept_table.update_many (λ d. d.id == id) (updated_dept dto) w.depts;
    })
    clear_dept_cache
    pure (updated_dept dto current)

  -- The checks of `remove`, and the deletion.
  unfoldable pub delete_leaf : String → Action DeptWorld (Unit {0})
  delete_leaf id = do
    children ← gets (λ w. dept_table.find_many (λ d. text_is d.parent_id id) w.depts)
    throw_if (ltb 0 (length children)) (conflict "该部门下存在子部门，无法删除")
    members ← gets (λ w. user_table.find_many (λ u. text_is u.dept_id id) w.users)
    throw_if (ltb 0 (length members)) (conflict "该部门下存在用户，无法删除")
    modify_state (λ w. record w { depts = dept_table.delete_many (λ d. d.id == id) w.depts })

  unfoldable pub remove : String → Action DeptWorld String
  remove id = do find_one id; delete_leaf id; clear_dept_cache; pure "删除成功"
