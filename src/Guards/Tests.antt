-- ===== src/Guards/Tests.antt =====
-- The guards at a concrete table.
use zhuo_stack.Prelude.{◌≡◌, ◌↔◌, ◌⊎◌, refl, true, some, find?, [], ◌∷◌, ◌==◌}
use zhuo_stack.Prelude.Action.{ok, err, forbidden, ◌>>=◌}
use zhuo_stack.Database.Table.{memory_table}
use zhuo_stack.Auth.Account.{admin, user}
use zhuo_stack.Guards.{
  active, UserWithRoles, PermissionUser, permissions_can_activate, check_menus, menu_matches,
  slashed,
}
use zhuo_stack.Guards.Laws.{HasPermission, permissions_can_activate_iff}

abbrev editor : UserWithRoles
editor = record {
  id = "u2";
  roles =
      record {
        status = active;
        menus =
            record { status = active; path = some "/system/user"; perms = some "system:user:edit" }
            ∷ [];
      }
      ∷ [];
}

abbrev li : PermissionUser
li = record { id = "u2"; role = some user }

may_read :
    permissions_can_activate
      (memory_table UserWithRoles)
      (some ("system:user" ∷ []))
      (some li)
      (editor ∷ [])
    ≡ (ok true, editor ∷ [])
unfolding permissions_can_activate check_menus menu_matches slashed ◌>>=◌
may_read = refl

may_not_delete :
    permissions_can_activate
      (memory_table UserWithRoles)
      (some ("system:role:delete" ∷ []))
      (some li)
      (editor ∷ [])
    ≡ (err (forbidden "无权访问该资源"), editor ∷ [])
unfolding permissions_can_activate check_menus menu_matches slashed ◌>>=◌
may_not_delete = refl

permissions_can_activate_iff_example :
    ((permissions_can_activate
        (memory_table UserWithRoles)
        (some ("system:user" ∷ []))
        (some li)
        (editor ∷ [])).0
      ≡ ok true)
    ↔ ((some user ≡ some admin)
        ⊎ ((row : UserWithRoles) × (find? (λ r. r.id == "u2") (editor ∷ []) ≡ some row)
            × HasPermission ("system:user" ∷ []) row))
permissions_can_activate_iff_example =
    permissions_can_activate_iff (memory_table UserWithRoles) "system:user" [] li (editor ∷ [])
