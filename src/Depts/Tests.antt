-- ===== src/Depts/Tests.antt =====
-- The departments at a concrete table.
use native.Mathlib.Decide.{ℕ_discrete}
use zhuo_stack.Prelude.{◌≡◌, refl, true, false, none, some, [], ◌∷◌, arith, zero, suc}
use zhuo_stack.Prelude.Action.{err, conflict, ◌>>=◌}
use zhuo_stack.Database.Client.{RedisClient}
use zhuo_stack.Database.Memory.{text_discrete, discrete_redis}
use zhuo_stack.Database.Table.{memory_table}
use zhuo_stack.Auth.Account.{User}
use zhuo_stack.Guards.{active}
use zhuo_stack.Depts.{Dept, DeptValue, DeptWorld, find_one, delete_leaf, remove}
use zhuo_stack.Depts.Parents.{IsRooted, Rooted, remove-Rooted}

dept_value_discrete : Discrete DeptValue
dept_value_discrete = hlevel (text_discrete, ℕ_discrete)

abbrev cache : RedisClient DeptValue
cache = discrete_redis dept_value_discrete

abbrev head_office : Dept
head_office = record {
  id = "d1";
  name = "总部";
  parent_id = none;
  sort = 0;
  status = active;
  remark = none;
}

abbrev sales : Dept
sales = record {
  id = "d2";
  name = "销售";
  parent_id = some "d1";
  sort = 1;
  status = active;
  remark = none;
}

abbrev offices : DeptWorld cache (memory_table Dept) (memory_table User)
offices = record {
  redis = record {
    connected = true;
    required = false;
    server = record { entries = []; ttl = λ _. none };
  };
  depts = head_office ∷ sales ∷ [];
  users = [];
}

offices-Rooted : IsRooted (head_office ∷ sales ∷ [])
offices-Rooted d (zero, e) p q = absurd (ground arith)
offices-Rooted d (suc zero, e) p q = let name : p ≡ "d1" = ground arith in rw name refl
offices-Rooted d (suc (suc i), e) p q = absurd (ground arith)

keeps_parent :
    (remove cache (memory_table Dept) (memory_table User) "d1" offices).0
    ≡ err (conflict "该部门下存在子部门，无法删除")
unfolding remove find_one delete_leaf ◌>>=◌
keeps_parent = refl

remove-Rooted_example :
    Rooted cache
      (memory_table Dept)
      (memory_table User)
      (remove cache (memory_table Dept) (memory_table User) "d2" offices).1
remove-Rooted_example =
    remove-Rooted cache (memory_table Dept) (memory_table User) "d2" offices offices-Rooted
