-- ===== src/Posts/Tests.antt =====
-- The posts at concrete tables.
use zhuo_stack.Prelude.{◌≡◌, refl, zero, suc, Bool, none, some, [], ◌∷◌, String, arith, ◌==◌}
use zhuo_stack.Prelude.Action.{err, conflict, ◌>>=◌}
use zhuo_stack.Database.Table.{memory_table}
use zhuo_stack.Auth.Account.{User, user}
use zhuo_stack.Guards.{active}
use zhuo_stack.Posts.{
  SysPost, CreatePostDto, UpdatePostDto, PostWorld, create, find_one, check_code, update, remove,
}
use zhuo_stack.Posts.Laws.{PostsUnique, PostsKnown, create-PostsUnique, remove-PostsKnown}

abbrev equal : String → String → Bool
equal a b = a == b

abbrev frontend : SysPost
frontend = record {
  id = "p1";
  name = "前端";
  code = "frontend";
  sort = 1;
  status = active;
  remark = none;
}

abbrev backend : SysPost
backend = record frontend { id = "p2"; name = "后端"; code = "backend" }

abbrev writer : User
writer = record {
  id = "u1";
  email = "w@example.com";
  name = none;
  password = "h";
  role = user;
  avatar = none;
  dept_id = none;
  post_ids = "p1" ∷ [];
  role_ids = [];
}

abbrev start : PostWorld equal (memory_table SysPost) (memory_table User)
start = record { posts = frontend ∷ backend ∷ []; users = writer ∷ [] }

abbrev to_backend : UpdatePostDto
to_backend = record {
  name = none;
  code = some "backend";
  sort = none;
  status = none;
  remark = none;
}

abbrev tester : CreatePostDto
tester = record { name = "测试"; code = "tester"; sort = none; status = none; remark = none }

taken :
    (update equal (memory_table SysPost) (memory_table User) "p1" to_backend start).0
    ≡ err (conflict "岗位编码已存在")
unfolding update find_one check_code ◌>>=◌
taken = refl

start-PostsUnique : PostsUnique equal (memory_table SysPost) (memory_table User) start
start-PostsUnique = ((refl, (refl, tt)), (refl, (refl, tt)))

start-PostsKnown : PostsKnown equal (memory_table SysPost) (memory_table User) start
start-PostsKnown u (zero, e) r names = let q : writer ≡ u = ground arith in ground arith
start-PostsKnown u (suc i, e) r names = absurd (ground arith)

create-PostsUnique_example :
    PostsUnique equal
      (memory_table SysPost)
      (memory_table User)
      (create equal (memory_table SysPost) (memory_table User) tester "p3" active start).1
create-PostsUnique_example =
    create-PostsUnique equal (memory_table SysPost) (memory_table User) tester "p3" active start
      refl start-PostsUnique

remove-PostsKnown_example :
    PostsKnown equal
      (memory_table SysPost)
      (memory_table User)
      (remove equal (memory_table SysPost) (memory_table User) "p2" start).1
    × PostsUnique equal
        (memory_table SysPost)
        (memory_table User)
        (remove equal (memory_table SysPost) (memory_table User) "p2" start).1
remove-PostsKnown_example =
    remove-PostsKnown equal (memory_table SysPost) (memory_table User) "p2" start start-PostsKnown
      start-PostsUnique
