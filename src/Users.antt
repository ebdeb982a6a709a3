-- ===== src/Users.antt =====
-- apps/api/src/modules/user/user.service.ts: the accounts, their roles and passwords. The service
-- works on the world of the authentication, whose sessions it ends. The checks of the data
-- transfer objects (lengths, the form of an address) come before it and are not modelled.
pub mod Counting
pub mod Admins
mod Tests
use mathlib.Core.Option
use zhuo_stack.Prelude.{
  ℕ, ◌≡◌, Bool, true, false, not, ◌&&◌, ◌||◌, Option, none, some, List, [], ◌∷◌, String, ◌==◌,
  if◌then◌else◌, leb, is_some,
}
use zhuo_stack.Prelude.Action.{
  Action, pure, throw_if, or_throw, gets, modify_state, not_found, conflict, bad_request, ◌>>=◌,
  ◌>>◌,
}
use zhuo_stack.Auth.Account.{
  AuthEnv, World, User, Role, admin, user, Fresh, PublicUser, public_user, or_null, find_by_email,
  find_by_id, decrypt_password, revoke_sessions, blacklist_token,
}

pub record CreateUserDto : Type 0 where
  pub email : String
  pub name : Option String
  pub password : String
  pub avatar : Option String

-- A field that the request leaves out is `none`.
pub record UpdateUserDto : Type 0 where
  pub email : Option String
  pub name : Option String
  pub password : Option String
  pub avatar : Option String
  pub role : Option Role
  pub dept_id : Option String
  pub post_ids : Option (List String)
  pub role_ids : Option (List String)

abbrev pub is_admin : Role → Bool
is_admin admin = true
is_admin user = false

-- `value !== undefined && { field: value }`
abbrev pub or_kept {ℓ} : {A : Type ℓ} → Option A → A → A
or_kept none old = old
or_kept (some new) old = new

-- A field that may be null.
abbrev pub or_kept_nullable {ℓ} : {A : Type ℓ} → Option A → Option A → Option A
or_kept_nullable none old = old
or_kept_nullable (some new) old = some new

-- The empty department disconnects.
abbrev pub connected_dept : Option String → Option String → Option String
connected_dept none old = old
connected_dept (some id) old = if id == "" then none else some id

-- The data of the `update` statement, on a row.
unfoldable pub updated_user : UpdateUserDto → Option String → User → User
updated_user dto hashed u = record u {
  email = or_kept dto.email u.email;
  name = or_kept_nullable dto.name u.name;
  avatar = or_kept_nullable dto.avatar u.avatar;
  password = or_kept hashed u.password;
  role = or_kept dto.role u.role;
  dept_id = connected_dept dto.dept_id u.dept_id;
  post_ids = or_kept dto.post_ids u.post_ids;
  role_ids = or_kept dto.role_ids u.role_ids;
}

-- `current.role === ADMIN && roleValue !== undefined && roleValue !== ADMIN`
abbrev pub demotes : User → UpdateUserDto → Bool
demotes u dto = is_admin u.role && elim dto.role [ none ↦ false | some r ↦ not (is_admin r) ]

module _ (env : AuthEnv) where
  abbrev pub admin_count : World env → ℕ
  admin_count w = env.users.count (λ u. is_admin u.role) w.users

  unfoldable pub create : CreateUserDto → Fresh → Action (World env) PublicUser
  create dto f = do
    existing ← find_by_email env dto.email
    throw_if (is_some existing) (conflict "Email already registered")
    plain ← decrypt_password env dto.password
    let created : User = record {
      id = f.user_id;
      email = dto.email;
      name = dto.name;
      password = env.bcrypt_hash f.salt plain;
      role = user;
      avatar = or_null dto.avatar;
      dept_id = none;
      post_ids = [];
      role_ids = [];
    }
    modify_state (λ w. record w { users = env.users.create created w.users })
    pure (public_user created)

  unfoldable pub find_one : String → Action (World env) User
  find_one id = do found ← find_by_id env id; or_throw found (not_found id)

  -- The check that another account has not the new address.
  unfoldable pub check_email : String → Option String → Action (World env) (Unit {0})
  check_email id none = pure tt
  check_email id (some email) = if email == "" then pure tt else (do
    existing ← find_by_email env email
    throw_if (elim existing [ none ↦ false | some other ↦ not (other.id == id) ])
        (conflict "Email already in use"))

  unfoldable pub hash_password : Option String → Fresh → Action (World env) (Option String)
  hash_password none f = pure none
  hash_password (some password) f =
      if password == ""
      then pure none
      else (do plain ← decrypt_password env password; pure (some (env.bcrypt_hash f.salt plain)))

  -- The serializable transaction of `update`.
  unfoldable pub update_row : String → UpdateUserDto → Option String → Action (World env) User
  unfolding updated_user
  update_row id dto hashed = do
    found ← find_by_id env id
    current ← or_throw found (not_found id)
    admins ← gets admin_count
    throw_if (demotes current dto && leb admins 1) (bad_request "不能降级最后一个管理员")
    modify_state (λ w. record w {
      users = env.users.update_many (λ u. u.id == id) (updated_user dto hashed) w.users;
    })
    pure (updated_user dto hashed current)

  unfoldable pub update : String → UpdateUserDto → Fresh → Action (World env) PublicUser
  update id dto f = do
    find_one id
    check_email id dto.email
    hashed ← hash_password dto.password f
    updated ← update_row id dto hashed
    if is_some hashed then revoke_sessions env id false else pure false
    pure (public_user updated)

  -- The serializable transaction of `remove`.
  unfoldable pub delete_row : String → Action (World env) (Unit {0})
  delete_row id = do
    found ← find_by_id env id
    current ← or_throw found (not_found id)
    admins ← gets admin_count
    throw_if (is_admin current.role && leb admins 1) (bad_request "不能删除最后一个管理员")
    modify_state (λ w. record w { users = env.users.delete_many (λ u. u.id == id) w.users })

  unfoldable pub remove : String → Action (World env) String
  remove id = do delete_row id; revoke_sessions env id false; pure "用户删除成功"

  -- `if (token) await this.authService.blacklistToken(token)`
  unfoldable pub blacklist_current : Option String → ℕ → Action (World env) (Unit {0})
  blacklist_current none now = pure tt
  blacklist_current (some t) now = if t == "" then pure tt else blacklist_token env t now

  unfoldable pub change_password :
      String → String → String → Option String → Fresh → ℕ → Action (World env) String
  change_password id old new token f now = do
    found ← find_by_id env id
    current ← or_throw found (not_found "用户不存在")
    plain_old ← decrypt_password env old
    plain_new ← decrypt_password env new
    throw_if (not (env.bcrypt_compare plain_old current.password)) (bad_request "旧密码错误")
    modify_state (λ w. record w {
      users =
          env.users.update_many (λ u. u.id == id)
            (λ u. record u { password = env.bcrypt_hash f.salt plain_new }) w.users;
    })
    revoke_sessions env id false
    blacklist_current token now
    pure "密码修改成功"
