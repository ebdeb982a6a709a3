-- ===== src/Posts.antt =====
-- apps/api/src/modules/system/post/post.service.ts: the posts. How the database compares a
-- text with a search is an argument.
pub mod Laws
mod Tests
use mathlib.Core.Option
use zhuo_stack.Prelude.{
  ℕ, Bool, true, false, not, ◌&&◌, ◌||◌, Option, none, some, List, [], ◌∷◌, map, String, ◌==◌,
  if◌then◌else◌, ltb, length, is_some,
}
use zhuo_stack.Prelude.Keyed.{has}
use zhuo_stack.Prelude.Action.{
  Action, pure, throw_if, or_throw, gets, modify_state, not_found, conflict, ◌>>=◌, ◌>>◌,
}
use zhuo_stack.Database.Table.{Table}
use zhuo_stack.Auth.Account.{User}
use zhuo_stack.Guards.{Status}
use zhuo_stack.Depts.{or_old, remark_of}
use zhuo_stack.Trees.Chains.{same}
use zhuo_stack.Roles.{given}
use zhuo_stack.Notifications.Query.{Pagination, ceil_div, page_of}

pub record SysPost : Type 0 where
  pub id : String
  pub name : String
  pub code : String
  pub sort : ℕ
  pub status : Status
  pub remark : Option String

pub record CreatePostDto : Type 0 where
  pub name : String
  pub code : String
  pub sort : Option ℕ
  pub status : Option Status
  pub remark : Option String

pub record UpdatePostDto : Type 0 where
  pub name : Option String
  pub code : Option String
  pub sort : Option ℕ
  pub status : Option Status
  pub remark : Option String

-- A query with the defaults of the page filled in.
pub record QueryPostDto : Type 0 where
  pub page : ℕ
  pub page_size : ℕ
  pub search : Option String

abbrev pub post_id : SysPost → String
post_id r = r.id

abbrev pub post_code : SysPost → String
post_code r = r.code

abbrev pub created_post : CreatePostDto → String → Status → SysPost
created_post dto fresh_id status = record {
  id = fresh_id;
  name = dto.name;
  code = dto.code;
  sort = or_old dto.sort 0;
  status = or_old dto.status status;
  remark = dto.remark;
}

abbrev pub updated_post : UpdatePostDto → SysPost → SysPost
updated_post dto r = record r {
  name = or_old dto.name r.name;
  code = or_old dto.code r.code;
  sort = or_old dto.sort r.sort;
  status = or_old dto.status r.status;
  remark = remark_of dto.remark r.remark;
}

module _ (contains : String → String → Bool) (post_table : Table SysPost)
    (user_table : Table User) where
  pub record PostWorld : Type 0 where
    pub posts : post_table.State
    pub users : user_table.State

  abbrev pub by_code : String → PostWorld → Option SysPost
  by_code c w = post_table.find_first (λ r. r.code == c) w.posts

  -- `fresh_id` is the id that the database draws, `status` its default.
  unfoldable pub create : CreatePostDto → String → Status → Action PostWorld SysPost
  create dto fresh_id status = do
    existing ← gets (by_code dto.code)
    throw_if (is_some existing) (conflict "岗位编码已存在")
    modify_state
        (λ w. record w { posts = post_table.create (created_post dto fresh_id status) w.posts })
    pure (created_post dto fresh_id status)

  abbrev pub wanted : QueryPostDto → SysPost → Bool
  wanted q r = elim q.search [
    | none ↦ true
    | some s ↦ s == "" || (contains r.name s || contains r.code s)
  ]

  unfoldable pub find_all : QueryPostDto → PostWorld → List SysPost × Pagination
  find_all q w =
      let total = post_table.count (wanted q) w.posts in
      (
        page_of q.page q.page_size (post_table.find_many (wanted q) w.posts),
        record {
          total = total;
          page = q.page;
          page_size = q.page_size;
          total_pages = ceil_div total q.page_size;
        },
      )

  unfoldable pub find_one : String → Action PostWorld SysPost
  find_one id = do
    found ← gets (λ w. post_table.find_first (λ r. r.id == id) w.posts)
    or_throw found (not_found id)

  -- `existing && existing.id !== id`
  abbrev pub is_other : String → Option SysPost → Bool
  is_other id existing = elim existing [ none ↦ false | some r ↦ not (r.id == id) ]

  unfoldable pub check_code : String → Option String → Action PostWorld (Unit {0})
  check_code id code =
      if given code
      then (do
        existing ← gets (by_code (or_old code ""))
        throw_if (is_other id existing) (conflict "岗位编码已存在"))
      else pure tt

  unfoldable pub update : String → UpdatePostDto → Action PostWorld SysPost
  update id dto = do
    old ← find_one id
    check_code id dto.code
    modify_state (λ w. record w {
      posts = post_table.update_many (λ r. r.id == id) (updated_post dto) w.posts;
    })
    pure (updated_post dto old)

  unfoldable pub remove : String → Action PostWorld String
  remove id = do
    find_one id
    users ← gets (λ w. user_table.find_many (λ u. has same id u.post_ids) w.users)
    throw_if (ltb 0 (length users)) (conflict "该岗位下存在用户，无法删除")
    modify_state (λ w. record w { posts = post_table.delete_many (λ r. r.id == id) w.posts })
    pure "删除成功"
