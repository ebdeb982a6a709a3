-- ===== src/Users/Admins.antt =====
-- The last administrator, in apps/api/src/modules/user/user.service.ts.
use zhuo_stack.Prelude.{
  subst, ◌<◌, ◌≡◌, refl, sym, ◌⊎◌, inl, inr, Bool, true, false, not, ◌&&◌, ◌||◌, Option, none, some,
  List, map, String, arith, ◌==◌, if◌then◌else◌, leb, is_some, Bool-cases, Option-cases,
}
use zhuo_stack.Prelude.Keyed.{find, Distinct, Distinct-filter, Distinct-map}
use zhuo_stack.Prelude.Action.{
  Action, ok, pure, not_found, conflict, ◌>>=◌, Keeps, >>=-Keeps, or_throw-Keeps, throw_if-Keeps,
}
use zhuo_stack.Database.Redis.{Redis}
use zhuo_stack.Auth.Account.{
  AuthEnv, World, User, on_redis, find_by_id, find_by_email, decrypt_password, Fresh,
  revoke_sessions, utf16_length,
}
use zhuo_stack.Users.{
  is_admin, update, find_one, check_email, hash_password, UpdateUserDto, updated_user, demotes,
  update_row, delete_row, remove,
}
use zhuo_stack.Users.Counting.{user_id, admins, replaced, admins-filter, admins-map, left_over}

module _ (env : AuthEnv) where
  -- No two users have the same id, and there is an administrator.
  abbrev pub HasAdmin : World env → Type 0
  HasAdmin w = Distinct user_id (env.users.rows w.users) × (0 < admins (env.users.rows w.users))

  found_user :
      (id : String) (w : World env) {found : Option User} {w' : World env}
      → find_by_id env id w ≡ (ok found, w')
      → (found ≡ find user_id id (env.users.rows w.users)) × (w' ≡ w)
  unfolding find_by_id
  found_user id w h =
      (ground (arith, env.users.find_first-rows (λ u. u.id == id) w.users), ground arith)

  -- The transaction of `remove` on every branch: it throws and changes nothing, or it removes the row.
  delete_row-cases :
      (id : String) (w : World env)
      → ((delete_row env id w).1 ≡ w)
        ⊎ ((u : User) × (find user_id id (env.users.rows w.users) ≡ some u)
            × ((is_admin u.role && leb (admins (env.users.rows w.users)) 1) ≡ false)
            × ((delete_row env id w).1
                ≡ record w { users = env.users.delete_many (λ u. u.id == id) w.users }))
  unfolding delete_row find_by_id ◌>>=◌
  delete_row-cases id w = elim (Option-cases (find user_id id (env.users.rows w.users))) [
    | inl e ↦ inl (rw (env.users.find_first-rows (λ u. u.id == id) w.users, e) refl)
    | inr (u, e) ↦ elim (Bool-cases (is_admin u.role && leb (admins (env.users.rows w.users)) 1)) [
      | inl last ↦ inl (
          rw
            (
              env.users.find_first-rows (λ u. u.id == id) w.users,
              e,
              env.users.count-rows (λ u. is_admin u.role) w.users,
              last,
            )
            refl)
      | inr more ↦ inr (
        u,
        e,
        more,
        rw
            (
              env.users.find_first-rows (λ u. u.id == id) w.users,
              e,
              env.users.count-rows (λ u. is_admin u.role) w.users,
              more,
            )
            refl,
      )
    ]
  ]

  delete_row-HasAdmin :
      (id : String) (w : World env) → HasAdmin w → HasAdmin (delete_row env id w).1
  delete_row-HasAdmin id w (d, pos) = elim (delete_row-cases id w) [
    | inl e ↦ subst HasAdmin (sym e) (d, pos)
    | inr (u, e, more, f) ↦ subst HasAdmin (sym f) (
      rw (env.users.rows-delete_many (λ u. u.id == id) w.users)
          (Distinct-filter user_id (λ v. not (v.id == id)) (env.users.rows w.users) d),
      rw (env.users.rows-delete_many (λ u. u.id == id) w.users)
          (ground (arith, admins-filter id (env.users.rows w.users) u d e)),
    )
  ]

  on_redis-HasAdmin :
      {A : Type 0} (m : Action (Redis env.redis) A) → Keeps HasAdmin (on_redis env m)
  unfolding on_redis
  on_redis-HasAdmin m w h = h

  revoke_sessions-HasAdmin :
      (id : String) (kicked : Bool) → Keeps HasAdmin (revoke_sessions env id kicked)
  unfolding revoke_sessions
  revoke_sessions-HasAdmin id kicked = on_redis-HasAdmin _

  -- Deleting an account never leaves the system without an administrator, whatever the request
  -- ends in: where ids are distinct and there is an administrator, both hold afterwards.
  pub remove-HasAdmin : (id : String) (w : World env) → HasAdmin w → HasAdmin (remove env id w).1
  unfolding remove
  remove-HasAdmin id = >>=-Keeps HasAdmin (delete_row env id) _ (delete_row-HasAdmin id) λ _.
      >>=-Keeps HasAdmin (revoke_sessions env id false) _ (revoke_sessions-HasAdmin id false)
        λ _ w h. h

  -- The transaction of `update` on every branch.
  update_row-cases :
      (id : String) (dto : UpdateUserDto) (hashed : Option String) (w : World env)
      → ((update_row env id dto hashed w).1 ≡ w)
        ⊎ ((u : User) × (find user_id id (env.users.rows w.users) ≡ some u)
            × ((demotes u dto && leb (admins (env.users.rows w.users)) 1) ≡ false)
            × ((update_row env id dto hashed w).1 ≡ record w {
              users = env.users.update_many (λ u. u.id == id) (updated_user dto hashed) w.users;
            }))
  unfolding update_row find_by_id ◌>>=◌
  update_row-cases id dto hashed w =
      elim (Option-cases (find user_id id (env.users.rows w.users))) [
        | inl e ↦ inl (rw (env.users.find_first-rows (λ u. u.id == id) w.users, e) refl)
        | inr (u, e) ↦
            elim (Bool-cases (demotes u dto && leb (admins (env.users.rows w.users)) 1)) [
              | inl last ↦ inl (
                  rw
                    (
                      env.users.find_first-rows (λ u. u.id == id) w.users,
                      e,
                      env.users.count-rows (λ u. is_admin u.role) w.users,
                      last,
                    )
                    refl)
              | inr more ↦ inr (
                u,
                e,
                more,
                rw
                    (
                      env.users.find_first-rows (λ u. u.id == id) w.users,
                      e,
                      env.users.count-rows (λ u. is_admin u.role) w.users,
                      more,
                    )
                    refl,
              )
            ]
      ]

  updated_role :
      (u : User) (dto : UpdateUserDto) (hashed : Option String)
      → demotes u dto ≡ false
      → is_admin u.role ≡ true
      → is_admin (updated_user dto hashed u).role ≡ true
  unfolding updated_user
  updated_role u dto hashed d a = elim (Option-cases dto.role) [
    | inl e ↦ rw e a
    | inr (r, e) ↦ rw e (ground arith)
  ]

  replaced_id :
      (id : String) (dto : UpdateUserDto) (hashed : Option String) (v : User)
      → user_id (replaced id (updated_user dto hashed) v) ≡ v.id
  unfolding updated_user
  replaced_id id dto hashed v = elim (Bool-cases (v.id == id)) [
    | inl e ↦ rw e refl
    | inr e ↦ rw e refl
  ]

  enough :
      (us : List User) (id : String) (dto : UpdateUserDto) (hashed : Option String) (u : User)
      → Distinct user_id us
      → 0 < admins us
      → find user_id id us ≡ some u
      → (demotes u dto && leb (admins us) 1) ≡ false
      → 0 < admins (map (replaced id (updated_user dto hashed)) us)
  enough us id dto hashed u d pos e more =
      left_over (admins (map (replaced id (updated_user dto hashed)) us)) (admins us)
        (is_admin u.role) (is_admin (updated_user dto hashed u).role) (demotes u dto)
        (admins-map id (updated_user dto hashed) us u d e) pos more (updated_role u dto hashed)

  update_row-HasAdmin :
      (id : String) (dto : UpdateUserDto) (hashed : Option String)
      → Keeps HasAdmin (update_row env id dto hashed)
  update_row-HasAdmin id dto hashed w (d, pos) = elim (update_row-cases id dto hashed w) [
    | inl e ↦ subst HasAdmin (sym e) (d, pos)
    | inr (u, e, more, f) ↦ subst HasAdmin (sym f) (
      rw (env.users.rows-update_many (λ u. u.id == id) (updated_user dto hashed) w.users) (
          Distinct-map user_id (replaced id (updated_user dto hashed)) (env.users.rows w.users)
            (replaced_id id dto hashed) d),
      rw (env.users.rows-update_many (λ u. u.id == id) (updated_user dto hashed) w.users)
          (enough (env.users.rows w.users) id dto hashed u d pos e more),
    )
  ]

  quiet :
      {A : Type 0} (m : Action (World env) A) → ((w : World env) → (m w).1 ≡ w) → Keeps HasAdmin m
  quiet m e w h = subst HasAdmin (sym (e w)) h

  find_one-HasAdmin : (id : String) → Keeps HasAdmin (find_one env id)
  unfolding find_one find_by_id
  find_one-HasAdmin id =
      >>=-Keeps HasAdmin (find_by_id env id) _ (λ w h. h)
        λ o. or_throw-Keeps HasAdmin o (not_found id)

  check_email-HasAdmin :
      (id : String) (email : Option String) → Keeps HasAdmin (check_email env id email)
  unfolding check_email find_by_email
  check_email-HasAdmin id none w h = h
  check_email-HasAdmin id (some email) w h = elim (Bool-cases (email == "")) [
    | inl e ↦ rw e h
    | inr e ↦ rw e (
        >>=-Keeps HasAdmin (find_by_email env email) _ (λ v k. k)
          (λ o. throw_if-Keeps HasAdmin _ (conflict "Email already in use")) w h)
  ]

  decrypt_password-HasAdmin : (p : String) → Keeps HasAdmin (decrypt_password env p)
  unfolding decrypt_password
  decrypt_password-HasAdmin p w h = elim (Bool-cases (p == "" || not (leb (utf16_length p) 4096))) [
    | inl e ↦ rw e h
    | inr e ↦ rw e (or_throw-Keeps HasAdmin (env.private_decrypt p) _ w h)
  ]

  hash_password-HasAdmin : (p : Option String) (f : Fresh) → Keeps HasAdmin (hash_password env p f)
  unfolding hash_password
  hash_password-HasAdmin none f w h = h
  hash_password-HasAdmin (some p) f w h = elim (Bool-cases (p == "")) [
    | inl e ↦ rw e h
    | inr e ↦ rw e (
        >>=-Keeps HasAdmin (decrypt_password env p) _ (decrypt_password-HasAdmin p) (λ o v k. k) w
          h)
  ]

  end_sessions-HasAdmin :
      (b : Bool) (id : String)
      → Keeps HasAdmin (if b then revoke_sessions env id false else pure false)
  end_sessions-HasAdmin true id = revoke_sessions-HasAdmin id false
  end_sessions-HasAdmin false id = λ w h. h

  -- Changing an account never leaves the system without an administrator, whatever the request ends
  -- in: where ids are distinct and there is an administrator, both hold afterwards.
  pub update-HasAdmin :
      (id : String) (dto : UpdateUserDto) (f : Fresh) (w : World env)
      → HasAdmin w
      → HasAdmin (update env id dto f w).1
  unfolding update
  update-HasAdmin id dto f = >>=-Keeps HasAdmin (find_one env id) _ (find_one-HasAdmin id) λ _.
      >>=-Keeps HasAdmin (check_email env id dto.email) _ (check_email-HasAdmin id dto.email) λ _.
        >>=-Keeps HasAdmin (hash_password env dto.password f) _
          (hash_password-HasAdmin dto.password f)
          λ hashed.
            >>=-Keeps HasAdmin (update_row env id dto hashed) _ (update_row-HasAdmin id dto hashed)
              λ u.
                >>=-Keeps HasAdmin
                  (if is_some hashed then revoke_sessions env id false else pure false) _
                  (end_sessions-HasAdmin (is_some hashed) id) λ _ w h. h
