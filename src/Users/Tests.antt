-- ===== src/Users/Tests.antt =====
-- The last administrator at a concrete table.
use zhuo_stack.Prelude.{◌≡◌, refl, some, none, [], ◌∷◌, arith}
use zhuo_stack.Prelude.Action.{err, bad_request, ◌>>=◌}
use zhuo_stack.Auth.Account.{World, User, user, find_by_id}
use zhuo_stack.Auth.Tests.Requests.{env, zhuo, start, drawn}
use zhuo_stack.Users.{UpdateUserDto, update, remove, delete_row}
use zhuo_stack.Users.Admins.{HasAdmin, remove-HasAdmin, update-HasAdmin}

abbrev li : User
li = record zhuo { id = "u2"; email = "li@b.c"; role = user }

abbrev two_users : World env
two_users = record start { users = zhuo ∷ li ∷ [] }

two_users-HasAdmin : HasAdmin env two_users
two_users-HasAdmin = ((refl, (refl, tt)), omega arith)

refuses_last : (remove env "u1" two_users).0 ≡ err (bad_request "不能删除最后一个管理员")
unfolding remove delete_row find_by_id ◌>>=◌
refuses_last = refl

remove-HasAdmin_example : HasAdmin env (remove env "u2" two_users).1
remove-HasAdmin_example = remove-HasAdmin env "u2" two_users two_users-HasAdmin

abbrev demotion : UpdateUserDto
demotion = record {
  email = none;
  name = none;
  password = none;
  avatar = none;
  role = some user;
  dept_id = none;
  post_ids = none;
  role_ids = none;
}

update-HasAdmin_example : HasAdmin env (update env "u1" demotion drawn two_users).1
update-HasAdmin_example = update-HasAdmin env "u1" demotion drawn two_users two_users-HasAdmin
