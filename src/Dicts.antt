-- ===== src/Dicts.antt =====
-- apps/api/src/modules/system/dict/dict.service.ts: the dictionaries, the rows of data under them, and
-- what the service caches of both. How the database compares a text with a search is an argument. The
-- times of a row are not modelled, nor that an action fails for a foreign key.
pub mod Laws
mod Tests
use mathlib.Core.Option
use Prim.Native.String.{◌++◌}
use zhuo_stack.Prelude.{
  ℕ, Bool, true, false, not, ◌&&◌, ◌||◌, Option, none, some, List, String, ◌==◌, if◌then◌else◌, eqb,
  is_some,
}
use zhuo_stack.Prelude.Action.{
  Action, pure, throw_if, or_throw, gets, modify_state, not_found, conflict, ◌>>=◌, ◌>>◌,
}
use zhuo_stack.Database.Client.{RedisClient}
use zhuo_stack.Database.Table.{Table}
use zhuo_stack.Database.Redis.{Redis, get, set_value, del_key}
use zhuo_stack.Guards.{Status, is_active}
use zhuo_stack.Depts.{or_old, remark_of}
use zhuo_stack.Notifications.Query.{Pagination, ceil_div, page_of}
use zhuo_stack.Roles.{given}

pub record SysDict : Type 0 where
  pub id : String
  pub name : String
  pub code : String
  pub status : Status
  pub remark : Option String

pub record SysDictData : Type 0 where
  pub id : String
  pub dict_id : String
  pub label : String
  pub value : String
  pub sort : ℕ
  pub status : Status
  pub remark : Option String

pub record CreateDictDto : Type 0 where
  pub name : String
  pub code : String
  pub status : Option Status
  pub remark : Option String

pub record UpdateDictDto : Type 0 where
  pub name : Option String
  pub code : Option String
  pub status : Option Status
  pub remark : Option String

pub record CreateDictDataDto : Type 0 where
  pub dict_id : String
  pub label : String
  pub value : String
  pub sort : Option ℕ
  pub status : Option Status
  pub remark : Option String

pub record UpdateDictDataDto : Type 0 where
  pub dict_id : Option String
  pub label : Option String
  pub value : Option String
  pub sort : Option ℕ
  pub status : Option Status
  pub remark : Option String

-- A query with the defaults of the page filled in.
pub record QueryDictDto : Type 0 where
  pub page : ℕ
  pub page_size : ℕ
  pub search : Option String

-- What the service stores in the cache, and so what it may answer.
pub data DictValue : Type 0 where
  listed : List SysDict → Pagination → DictValue
  with_data : SysDict → List SysDictData → DictValue

abbrev pub dict_key : String → String
dict_key id = "dict:" ++ id

abbrev pub data_key : String → String
data_key code = "dict:data:" ++ code

abbrev pub updated_dict : UpdateDictDto → SysDict → SysDict
updated_dict dto d = record d {
  name = or_old dto.name d.name;
  code = or_old dto.code d.code;
  status = or_old dto.status d.status;
  remark = remark_of dto.remark d.remark;
}

abbrev pub updated_data : UpdateDictDataDto → SysDictData → SysDictData
updated_data dto d = record d {
  dict_id = or_old dto.dict_id d.dict_id;
  label = or_old dto.label d.label;
  value = or_old dto.value d.value;
  sort = or_old dto.sort d.sort;
  status = or_old dto.status d.status;
  remark = remark_of dto.remark d.remark;
}

-- `dto.code && dto.code !== dict.code`
abbrev pub renames : UpdateDictDto → SysDict → Bool
renames dto d = given dto.code && not (or_old dto.code d.code == d.code)

-- `page === 1 && !search`
abbrev pub is_first : QueryDictDto → Bool
is_first q = eqb q.page 1 && not (given q.search)

module _ (contains : String → String → Bool) (rc : RedisClient DictValue)
    (dict_table : Table SysDict) (data_table : Table SysDictData) where
  pub record DictWorld : Type 0 where
    pub redis : Redis rc
    pub dicts : dict_table.State
    pub data_rows : data_table.State

  abbrev pub cached : {A : Type 0} → Action (Redis rc) A → Action DictWorld A
  cached m w = let (r, redis') = m w.redis in (r, record w { redis = redis' })

  abbrev pub drop_key : String → Action DictWorld (Unit {0})
  drop_key key = cached (del_key rc key false)

  abbrev pub by_code : String → DictWorld → Option SysDict
  by_code c w = dict_table.find_first (λ d. d.code == c) w.dicts

  abbrev pub by_id : String → DictWorld → Option SysDict
  by_id id w = dict_table.find_first (λ d. d.id == id) w.dicts

  -- `fresh_id` is the id that the database draws, `status` its default.
  unfoldable pub create : CreateDictDto → String → Status → Action DictWorld SysDict
  create dto fresh_id status = do
    existing ← gets (by_code dto.code)
    throw_if (is_some existing) (conflict "字典编码已存在")
    let result : SysDict = record {
      id = fresh_id;
      name = dto.name;
      code = dto.code;
      status = or_old dto.status status;
      remark = dto.remark;
    }
    modify_state (λ w. record w { dicts = dict_table.create result w.dicts })
    drop_key "dict:list"
    pure result

  -- `if (cached) return cached`, and what is done where there is nothing: read, and cache.
  unfoldable pub through_cache :
      String → ℕ → Action DictWorld DictValue → Action DictWorld DictValue
  through_cache key seconds read = do
    held ← cached (get rc key false)
    elim held as (λ _. Action DictWorld DictValue) [
      | some v ↦ pure v
      | none ↦ (do v ← read; cached (set_value rc key v seconds false); pure v)
    ]

  abbrev pub wanted : QueryDictDto → SysDict → Bool
  wanted q d = elim q.search [
    | none ↦ true
    | some s ↦ s == "" || (contains d.name s || contains d.code s)
  ]

  abbrev pub list_page : QueryDictDto → DictWorld → DictValue
  list_page q w =
      let total = dict_table.count (wanted q) w.dicts in
      listed (page_of q.page q.page_size (dict_table.find_many (wanted q) w.dicts)) (record {
        total = total;
        page = q.page;
        page_size = q.page_size;
        total_pages = ceil_div total q.page_size;
      })

  unfoldable pub find_all : QueryDictDto → Action DictWorld DictValue
  find_all q =
      if is_first q then through_cache "dict:list" 3600 (gets (list_page q)) else gets (list_page q)

  -- A dictionary with those of its data that pass.
  abbrev pub full : (SysDictData → Bool) → DictWorld → SysDict → DictValue
  full p w d = with_data d (data_table.find_many (λ r. r.dict_id == d.id && p r) w.data_rows)

  abbrev pub read_dict :
      (DictWorld → Option SysDict) → (SysDictData → Bool) → String → Action DictWorld DictValue
  read_dict look p k = do
    found ← gets (λ w. Option.map (full p w) (look w))
    or_throw found (not_found k)

  unfoldable pub find_one : String → Action DictWorld DictValue
  find_one id = through_cache (dict_key id) 3600 (read_dict (by_id id) (λ _. true) id)

  unfoldable pub find_by_code : String → Action DictWorld DictValue
  find_by_code code =
      through_cache (data_key code) 7200 (read_dict (by_code code) (λ r. is_active r.status) code)

  unfoldable pub check_rename : UpdateDictDto → SysDict → Action DictWorld (Unit {0})
  check_rename dto dict =
      if renames dto dict
      then (do
        existing ← gets (by_code (or_old dto.code dict.code))
        throw_if (is_some existing) (conflict "字典编码已存在"))
      else pure tt

  unfoldable pub update : String → UpdateDictDto → Action DictWorld SysDict
  update id dto = do
    found ← gets (by_id id)
    dict ← or_throw found (not_found id)
    check_rename dto dict
    modify_state (λ w. record w {
      dicts = dict_table.update_many (λ d. d.id == id) (updated_dict dto) w.dicts;
    })
    drop_key (dict_key id)
    drop_key (data_key dict.code)
    if renames dto dict then drop_key (data_key (or_old dto.code dict.code)) else pure tt
    drop_key "dict:list"
    pure (updated_dict dto dict)

  -- The rows of data under the dictionary go with it.
  unfoldable pub remove : String → Action DictWorld String
  remove id = do
    found ← gets (by_id id)
    dict ← or_throw found (not_found id)
    modify_state (λ w. record w {
      dicts = dict_table.delete_many (λ d. d.id == id) w.dicts;
      data_rows = data_table.delete_many (λ r. r.dict_id == id) w.data_rows;
    })
    drop_key (dict_key id)
    drop_key (data_key dict.code)
    drop_key "dict:list"
    pure "删除成功"

  unfoldable pub drop_dict : String → Option SysDict → Action DictWorld (Unit {0})
  drop_dict dict_id none = pure tt
  drop_dict dict_id (some dict) = do drop_key (data_key dict.code); drop_key (dict_key dict_id)

  unfoldable pub clear_dict_data_cache : String → Action DictWorld (Unit {0})
  clear_dict_data_cache dict_id = do
    dict ← gets (by_id dict_id)
    drop_dict dict_id dict
    drop_key "dict:list"

  unfoldable pub create_data : CreateDictDataDto → String → Status → Action DictWorld SysDictData
  create_data dto fresh_id status = do
    let result : SysDictData = record {
      id = fresh_id;
      dict_id = dto.dict_id;
      label = dto.label;
      value = dto.value;
      sort = or_old dto.sort 0;
      status = or_old dto.status status;
      remark = dto.remark;
    }
    modify_state (λ w. record w { data_rows = data_table.create result w.data_rows })
    clear_dict_data_cache dto.dict_id
    pure result

  unfoldable pub find_data_by_dict_id : String → DictWorld → List SysDictData
  find_data_by_dict_id dict_id w = data_table.find_many (λ r. r.dict_id == dict_id) w.data_rows

  unfoldable pub update_data : String → UpdateDictDataDto → Action DictWorld SysDictData
  update_data id dto = do
    found ← gets (λ w. data_table.find_first (λ r. r.id == id) w.data_rows)
    row ← or_throw found (not_found id)
    modify_state (λ w. record w {
      data_rows = data_table.update_many (λ r. r.id == id) (updated_data dto) w.data_rows;
    })
    clear_dict_data_cache row.dict_id
    pure (updated_data dto row)

  unfoldable pub remove_data : String → Action DictWorld String
  remove_data id = do
    found ← gets (λ w. data_table.find_first (λ r. r.id == id) w.data_rows)
    row ← or_throw found (not_found id)
    modify_state
        (λ w. record w { data_rows = data_table.delete_many (λ r. r.id == id) w.data_rows })
    clear_dict_data_cache row.dict_id
    pure "删除成功"
