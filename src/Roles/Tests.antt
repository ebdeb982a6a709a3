-- ===== src/Roles/Tests.antt =====
-- The roles at concrete tables.
use zhuo_stack.Prelude.{◌≡◌, refl, zero, suc, Bool, none, some, [], ◌∷◌, String, arith, ◌==◌, inr}
use zhuo_stack.Prelude.Action.{err, conflict, ◌>>=◌}
use zhuo_stack.Database.Table.{memory_table}
use zhuo_stack.Auth.Account.{User, user}
use zhuo_stack.Guards.{active}
use zhuo_stack.Roles.{
  SysRole, CreateRoleDto, UpdateRoleDto, RoleWorld, find_one, check_code, update,
}
use zhuo_stack.Roles.Laws.{CodesUnique, RolesKnown, update-CodesUnique}

abbrev equal : String → String → Bool
equal a b = a == b

abbrev editor : SysRole
editor = record {
  id = "r1";
  name = "编辑";
  code = "editor";
  sort = 1;
  status = active;
  remark = none;
  menus = [];
}

abbrev guest : SysRole
guest = record editor { id = "r2"; name = "访客"; code = "guest" }

abbrev writer : User
writer = record {
  id = "u1";
  email = "w@example.com";
  name = none;
  password = "h";
  role = user;
  avatar = none;
  dept_id = none;
  post_ids = [];
  role_ids = "r1" ∷ [];
}

abbrev start : RoleWorld equal (memory_table SysRole) (memory_table User)
start = record { roles = editor ∷ guest ∷ []; users = writer ∷ [] }

abbrev to_guest : UpdateRoleDto
to_guest = record {
  name = none;
  code = some "guest";
  sort = none;
  status = none;
  remark = none;
  menu_ids = none;
}

abbrev auditor : CreateRoleDto
auditor = record {
  name = "审计";
  code = "auditor";
  sort = none;
  status = none;
  remark = none;
  menu_ids = none;
}

taken :
    (update equal (memory_table SysRole) (memory_table User) "r1" to_guest start).0
    ≡ err (conflict "角色标识已存在")
unfolding update find_one check_code ◌>>=◌
taken = refl

start-CodesUnique : CodesUnique equal (memory_table SysRole) (memory_table User) start
start-CodesUnique = ((refl, (refl, tt)), (refl, (refl, tt)))

start-RolesKnown : RolesKnown equal (memory_table SysRole) (memory_table User) start
start-RolesKnown u (zero, e) r names = let q : writer ≡ u = ground arith in ground arith
start-RolesKnown u (suc i, e) r names = absurd (ground arith)

update-CodesUnique_example :
    CodesUnique equal
      (memory_table SysRole)
      (memory_table User)
      (update equal (memory_table SysRole) (memory_table User) "r1" to_guest start).1
update-CodesUnique_example =
    update-CodesUnique equal (memory_table SysRole) (memory_table User) "r1" to_guest start
      (inr refl) start-CodesUnique
