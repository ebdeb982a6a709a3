-- ===== src/Dicts/Tests.antt =====
-- The dictionaries at a concrete world.
use mathlib.Core.Option
use native.Mathlib.Decide.{ℕ_discrete}
use zhuo_stack.Prelude.{◌≡◌, refl, Bool, true, false, none, some, [], ◌∷◌, String, ◌==◌, inr}
use zhuo_stack.Prelude.Action.{ok, ◌>>=◌}
use zhuo_stack.Database.Client.{RedisClient}
use zhuo_stack.Database.Memory.{text_discrete, discrete_redis}
use zhuo_stack.Database.Redis.{Redis, guarded, del_key}
use zhuo_stack.Database.Redis.Sweep.{IsReliable}
use zhuo_stack.Database.Table.{memory_table}
use zhuo_stack.Guards.{active, is_active}
use zhuo_stack.Dicts.{
  SysDict, SysDictData, UpdateDictDto, QueryDictDto, DictValue, updated_dict, DictWorld, by_code,
  by_id, list_page, find_all, full, find_one, find_by_code, check_rename, update,
}
use zhuo_stack.Dicts.Laws.{answered, find_all-repeats, update-find_by_code}

dict_value_discrete : Discrete DictValue
dict_value_discrete = hlevel (text_discrete, ℕ_discrete)

abbrev cache : RedisClient DictValue
cache = discrete_redis dict_value_discrete

abbrev equal : String → String → Bool
equal a b = a == b

abbrev gender : SysDict
gender = record { id = "d1"; name = "性别"; code = "gender"; status = active; remark = none }

abbrev male : SysDictData
male = record {
  id = "v1";
  dict_id = "d1";
  label = "男";
  value = "1";
  sort = 1;
  status = active;
  remark = none;
}

abbrev held : Redis cache
held = record {
  connected = true;
  required = false;
  server = record { entries = []; ttl = λ _. none };
}

abbrev start : DictWorld equal cache (memory_table SysDict) (memory_table SysDictData)
start = record {
  redis = held;
  dicts = gender ∷ record gender { id = "d2"; code = "yes_no" } ∷ [];
  data_rows = male ∷ [];
}

always : IsReliable cache
always A c s = refl

abbrev ten : QueryDictDto
ten = record { page = 1; page_size = 10; search = none }

abbrev one_row : QueryDictDto
one_row = record { page = 1; page_size = 1; search = none }

abbrev to_sex : UpdateDictDto
to_sex = record { name = none; code = some "sex"; status = none; remark = none }

-- What is left of the world after the update.
abbrev after : DictWorld equal cache (memory_table SysDict) (memory_table SysDictData)
after = (update equal cache (memory_table SysDict) (memory_table SysDictData) "d1" to_sex start).1

updated :
    update equal cache (memory_table SysDict) (memory_table SysDictData) "d1" to_sex start
    ≡ (ok (updated_dict to_sex gender), after)
unfolding update check_rename ◌>>=◌ del_key guarded
updated = refl

find_all-repeats_example :
    ((find_all equal cache (memory_table SysDict) (memory_table SysDictData) one_row start).0
      ≡ ok (list_page equal cache (memory_table SysDict) (memory_table SysDictData) one_row start))
    × ((find_all equal cache
          (memory_table SysDict)
          (memory_table SysDictData)
          ten
          (find_all equal cache
            (memory_table SysDict)
            (memory_table SysDictData)
            one_row
            start).1).0
        ≡ ok
            (list_page equal cache (memory_table SysDict) (memory_table SysDictData) one_row start))
find_all-repeats_example =
    find_all-repeats equal cache (memory_table SysDict) (memory_table SysDictData) always
      (λ s. refl) one_row ten start refl refl refl refl

update-find_by_code_example :
    ((find_by_code equal cache (memory_table SysDict) (memory_table SysDictData) "gender" after).0
      ≡ answered "gender" (
          Option.map
            (full equal cache
              (memory_table SysDict)
              (memory_table SysDictData)
              (λ d. is_active d.status)
              after)
            (by_code equal cache (memory_table SysDict) (memory_table SysDictData) "gender" after)))
    × ((find_by_code equal cache (memory_table SysDict) (memory_table SysDictData) "sex" after).0
        ≡ answered "sex" (
            Option.map
              (full equal cache
                (memory_table SysDict)
                (memory_table SysDictData)
                (λ d. is_active d.status)
                after)
              (by_code equal cache (memory_table SysDict) (memory_table SysDictData) "sex" after)))
    × ((find_one equal cache (memory_table SysDict) (memory_table SysDictData) "d1" after).0
        ≡ answered "d1" (
            Option.map
              (full equal cache (memory_table SysDict) (memory_table SysDictData) (λ _. true) after)
              (by_id equal cache (memory_table SysDict) (memory_table SysDictData) "d1" after)))
update-find_by_code_example =
    update-find_by_code equal cache (memory_table SysDict) (memory_table SysDictData) always
      (λ s. refl) "d1" to_sex gender start (updated_dict to_sex gender) after refl (inr refl) refl
      updated
