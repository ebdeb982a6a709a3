-- ===== src/Roles/Laws.antt =====
-- What the requests of apps/api/src/modules/system/role/role.service.ts leave of the roles.
use zhuo_stack.Prelude.{
  subst, ◌≡◌, refl, sym, ap, ◌∙◌, ◌⊎◌, inl, inr, Bool, true, false, Option, none, some, String,
  arith, ◌==◌, ltb, length, Bool-cases, Option-cases, In,
}
use zhuo_stack.Prelude.Keyed.{has, has-filter_ne}
use zhuo_stack.Prelude.Action.{
  Action, ok, err, gets, not_found, conflict, ◌>>=◌, >>=-run, >>=-stop, throw_if-stop,
  throw_if-pass,
}
use zhuo_stack.Database.Table.{Table}
use zhuo_stack.Database.Unique.{
  IsUnique, create-IsUnique, delete_many-IsUnique, update_many-IsUnique, update_many-IsUnique_kept,
}
use zhuo_stack.Auth.Account.{User}
use zhuo_stack.Guards.{Status}
use zhuo_stack.Depts.{or_old}
use zhuo_stack.Depts.Parents.{filter-none}
use zhuo_stack.Trees.Chains.{same}
use zhuo_stack.Roles.{
  SysRole, CreateRoleDto, created_role, UpdateRoleDto, updated_role, role_id, role_code, given,
  RoleWorld, by_code, create, find_one, is_other, check_code, update, remove,
}

module _ (contains : String → String → Bool) (role_table : Table SysRole)
    (user_table : Table User) where
  abbrev pub W : Type 0
  W = RoleWorld contains role_table user_table

  -- No two roles have the same id, and no two the same code.
  abbrev pub CodesUnique : W → Type 0
  CodesUnique w = IsUnique role_id role_code (role_table.rows w.roles)

  create-cases :
      (dto : CreateRoleDto) (fresh_id : String) (status : Status) (w : W)
      → ((create contains role_table user_table dto fresh_id status w).1 ≡ w)
        ⊎ ((by_code contains role_table user_table dto.code w ≡ none)
            × ((create contains role_table user_table dto fresh_id status w).1 ≡ record w {
              roles = role_table.create (created_role dto fresh_id status) w.roles;
            }))
  unfolding create ◌>>=◌
  create-cases dto fresh_id status w =
      elim (Option-cases (by_code contains role_table user_table dto.code w)) [
        | inl e ↦ inr (e, rw e refl)
        | inr (r, e) ↦ inl (rw e refl)
      ]

  -- Creating a role, however the request ends, keeps ids and codes distinct, where the id that the
  -- database draws is new.
  pub create-CodesUnique :
      (dto : CreateRoleDto) (fresh_id : String) (status : Status) (w : W)
      → has role_id fresh_id (role_table.rows w.roles) ≡ false
      → CodesUnique w
      → CodesUnique (create contains role_table user_table dto fresh_id status w).1
  create-CodesUnique dto fresh_id status w fresh u = elim (create-cases dto fresh_id status w) [
    | inl e ↦ subst CodesUnique (sym e) u
    | inr (free, e) ↦ subst CodesUnique (sym e) (
        create-IsUnique role_id role_code role_table w.roles (created_role dto fresh_id status) u
          fresh free)
  ]

  find_one-ok :
      (id : String) (w : W) (r : SysRole)
      → role_table.find_first (λ r. r.id == id) w.roles ≡ some r
      → find_one contains role_table user_table id w ≡ (ok r, w)
  unfolding find_one ◌>>=◌
  find_one-ok id w r e = rw e refl

  find_one-err :
      (id : String) (w : W)
      → role_table.find_first (λ r. r.id == id) w.roles ≡ none
      → find_one contains role_table user_table id w ≡ (err (not_found id), w)
  unfolding find_one ◌>>=◌
  find_one-err id w e = rw e refl

  check_code-ok :
      (id : String) (c : Option String) (w : W)
      → (check_code contains role_table user_table id c w ≡ (err (conflict "角色标识已存在"), w))
        ⊎ ((given c ≡ true
              → is_other contains role_table user_table id
                  (by_code contains role_table user_table (or_old c "") w)
                ≡ false)
            × (check_code contains role_table user_table id c w ≡ (ok tt, w)))
  unfolding check_code ◌>>=◌
  check_code-ok id c w = elim (Bool-cases (given c)) [
    | inr off ↦ inr (λ on. absurd (ground arith), rw off refl)
    | inl on ↦
        elim (Bool-cases (
          is_other contains role_table user_table id
            (by_code contains role_table user_table (or_old c "") w))) [
              | inl other ↦ inl (rw (on, other) refl)
              | inr free ↦ inr (λ _. free, rw (on, free) refl)
            ]
  ]

  -- What an update of a role that is there writes: nothing, where the code is another role's.
  update-cases :
      (id : String) (dto : UpdateRoleDto) (w : W)
      → ((update contains role_table user_table id dto w).1 ≡ w)
        ⊎ ((given dto.code ≡ true
              → is_other contains role_table user_table id
                  (by_code contains role_table user_table (or_old dto.code "") w)
                ≡ false)
            × ((update contains role_table user_table id dto w).1 ≡ record w {
              roles = role_table.update_many (λ r. r.id == id) (updated_role dto) w.roles;
            }))
  unfolding update
  update-cases id dto w = elim (Option-cases (role_table.find_first (λ r. r.id == id) w.roles)) [
    | inl e ↦ inl (
        ap (λ x. x.1)
          (>>=-stop (find_one contains role_table user_table id) _ w (find_one-err id w e)))
    | inr (r, e) ↦
        let found = λ (rest : SysRole → Action W SysRole).
          >>=-run (find_one contains role_table user_table id) rest w (find_one-ok id w r e) in
        elim (check_code-ok id dto.code w) [
          | inl used ↦ inl (
              ap (λ x. x.1)
                (found _
                  ∙ >>=-stop (check_code contains role_table user_table id dto.code) _ w used))
          | inr (free, passed) ↦ inr (
            free,
            ap (λ x. x.1)
                (found _
                  ∙ >>=-run (check_code contains role_table user_table id dto.code) _ w passed
                  ∙ >>=-run _ _ w refl),
          )
        ]
  ]

  updated-CodesUnique :
      (id : String) (dto : UpdateRoleDto) (w : W)
      → ((dto.code ≡ none) ⊎ (given dto.code ≡ true))
      → (given dto.code ≡ true
          → is_other contains role_table user_table id
              (by_code contains role_table user_table (or_old dto.code "") w)
            ≡ false)
      → CodesUnique w
      → CodesUnique
          (record w { roles = role_table.update_many (λ r. r.id == id) (updated_role dto) w.roles })
  updated-CodesUnique id dto w (inl e) free u =
      update_many-IsUnique_kept role_id role_code role_table w.roles id (updated_role dto)
        (λ r. refl) (λ r. rw e refl) u
  updated-CodesUnique id dto w (inr on) free u =
      update_many-IsUnique role_id role_code role_table w.roles id (updated_role dto) (λ r. refl)
        (or_old dto.code "") (λ r. takes dto.code r.code on) u (free on)
    where
      takes : (c : Option String) (old : String) → given c ≡ true → or_old c old ≡ or_old c ""
      takes none old h = absurd (ground arith)
      takes (some c) old h = refl

  -- Updating a role, however the request ends, keeps ids and codes distinct, where the code that the
  -- request names, if any, is not empty.
  pub update-CodesUnique :
      (id : String) (dto : UpdateRoleDto) (w : W)
      → ((dto.code ≡ none) ⊎ (given dto.code ≡ true))
      → CodesUnique w
      → CodesUnique (update contains role_table user_table id dto w).1
  update-CodesUnique id dto w named u = elim (update-cases id dto w) [
    | inl e ↦ subst CodesUnique (sym e) u
    | inr (free, e) ↦ subst CodesUnique (sym e) (updated-CodesUnique id dto w named free u)
  ]

  -- Every role that a user names is a role.
  abbrev pub RolesKnown : W → Type 0
  RolesKnown w =
      (u : User)
      → In u (user_table.rows w.users)
      → (r : String) → has same r u.role_ids ≡ true
      → has role_id r (role_table.rows w.roles) ≡ true

  remove-cases :
      (id : String) (w : W)
      → ((remove contains role_table user_table id w).1 ≡ w)
        ⊎ ((ltb 0 (length (user_table.find_many (λ u. has same id u.role_ids) w.users)) ≡ false)
            × ((remove contains role_table user_table id w).1
                ≡ record w { roles = role_table.delete_many (λ r. r.id == id) w.roles }))
  unfolding remove
  remove-cases id w = elim (Option-cases (role_table.find_first (λ r. r.id == id) w.roles)) [
    | inl e ↦ inl (
        ap (λ x. x.1)
          (>>=-stop (find_one contains role_table user_table id) _ w (find_one-err id w e)))
    | inr (r, e) ↦
        let found = λ (rest : SysRole → Action W String).
          >>=-run (find_one contains role_table user_table id) rest w (find_one-ok id w r e) in
        elim (Bool-cases
          (ltb 0 (length (user_table.find_many (λ u. has same id u.role_ids) w.users)))) [
            | inl used ↦ inl (
                ap (λ x. x.1)
                  (found _
                    ∙ >>=-run
                        (gets (λ w. user_table.find_many (λ u. has same id u.role_ids) w.users)) _ w
                        refl
                    ∙ throw_if-stop _ _ _ w used))
            | inr free ↦ inr (
              free,
              ap (λ x. x.1)
                  (found _
                    ∙ >>=-run
                        (gets (λ w. user_table.find_many (λ u. has same id u.role_ids) w.users)) _ w
                        refl
                    ∙ throw_if-pass _ _ _ w free
                    ∙ >>=-run _ _ w refl),
            )
          ]
  ]

  -- Removing a role, however the request ends, leaves no user with a role that is not there, where no
  -- user had one before; and it keeps ids and codes distinct, where they were.
  pub remove-RolesKnown :
      (id : String) (w : W)
      → RolesKnown w
      → CodesUnique w
      → RolesKnown (remove contains role_table user_table id w).1
        × CodesUnique (remove contains role_table user_table id w).1
  remove-RolesKnown id w known u = elim (remove-cases id w) [
    | inl e ↦ (subst RolesKnown (sym e) known, subst CodesUnique (sym e) u)
    | inr (free, e) ↦ (
      subst RolesKnown (sym e) (left free),
      subst CodesUnique (sym e)
          (delete_many-IsUnique role_id role_code role_table w.roles (λ r. r.id == id) u),
    )
  ]
    where
      left :
          ltb 0 (length (user_table.find_many (λ u. has same id u.role_ids) w.users)) ≡ false
          → RolesKnown (record w { roles = role_table.delete_many (λ r. r.id == id) w.roles })
      left free v at r names =
          let unused =
            filter-none (λ (x : User). has same id x.role_ids) (user_table.rows w.users) v
              (rw (user_table.find_many-rows (λ x. has same id x.role_ids) w.users) at free) at in
          rw (role_table.rows-delete_many (λ x. x.id == id) w.roles) (
            has-filter_ne role_id r id (role_table.rows w.roles)
              (λ same_one.
                absurd (
                  let q = subst (λ k. has same k v.role_ids ≡ true) same_one names in ground arith))
              (known v at r names))
