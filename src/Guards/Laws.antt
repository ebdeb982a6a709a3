-- ===== src/Guards/Laws.antt =====
-- Which requests the guards of apps/api/src/common/guards let pass.
use Prim.Native.String.{◌++◌}
use text.Mathlib.TextEquality.{starts_with_iff}
use zhuo_stack.Prelude.{
  subst, ◌≡◌, refl, sym, ap, ◌∙◌, ◌↔◌, ◌⊎◌, inl, inr, Bool, true, false, ◌&&◌, Option, none, some,
  List, ◌∷◌, String, ◌==◌, arith, any, filter, find?, In, any-In, In-any, any-filter_and,
  any-flat_map, eq_iff, Bool-cases, Option-cases,
}
use zhuo_stack.Prelude.Action.{Error, Result, ok, err, ◌>>=◌}
use zhuo_stack.Database.Table.{Table}
use zhuo_stack.Auth.Account.{Role, admin, user}
use zhuo_stack.Guards.{
  Status, active, inactive, is_active, Menu, RoleWithMenus, UserWithRoles, PermissionUser,
  resource_path, text_is, text_starts, menu_matches, selected_menus, check_menus,
  permissions_can_activate, role_is, roles_can_activate,
}

-- A menu grants a permission by its own permission, by one for an action below it, or by its path.
abbrev pub Grants : Menu → String → Type 0
Grants m required =
    (m.perms ≡ some required)
    ⊎ (((t : String) × (m.perms ≡ some ((required ++ ":") ++ t)))
        ⊎ (m.path ≡ some (resource_path required)))

-- An active role of the user has an active menu that grants one of the required permissions.
abbrev pub HasPermission : List String → UserWithRoles → Type 0
HasPermission required row =
    (r : String) × In r required
    × (role : RoleWithMenus) × In role row.roles
    × (role.status ≡ active)
    × (m : Menu) × In m role.menus
    × (m.status ≡ active)
    × Grants m r

text_is_iff : (o : Option String) (t : String) → (text_is o t ≡ true) ↔ (o ≡ some t)
text_is_iff none t = ground arith
text_is_iff (some s) t = ground (arith, eq_iff s t)

starts_text :
    (o : Option String) (p : String)
    → (text_starts o p ≡ true) ↔ ((t : String) × (o ≡ some (p ++ t)))
starts_text none p = ground arith
starts_text (some s) p = (
  λ h. let (t, e) = (starts_with_iff s p).0 h in (t, ap some (sym e)),
  λ (t, e). (starts_with_iff s p).1 (t, ground arith),
)

menu_matches_iff : (m : Menu) (r : String) → (menu_matches m r ≡ true) ↔ Grants m r
unfolding menu_matches
menu_matches_iff m r = (to, from)
  where
    to : menu_matches m r ≡ true → Grants m r
    to h = elim (Bool-cases (text_is m.perms r)) [
      | inl a ↦ inl ((text_is_iff m.perms r).0 a)
      | inr a ↦ elim (Bool-cases (text_starts m.perms (r ++ ":"))) [
        | inl b ↦ inr (inl ((starts_text m.perms (r ++ ":")).0 b))
        | inr b ↦ inr (inr ((text_is_iff m.path (resource_path r)).0 (rw (a, b) at h)))
      ]
    ]

    from : Grants m r → menu_matches m r ≡ true
    from (inl e) = let a = (text_is_iff m.perms r).1 e in ground arith
    from (inr (inl e)) = let a = (starts_text m.perms (r ++ ":")).1 e in ground arith
    from (inr (inr e)) = let a = (text_is_iff m.path (resource_path r)).1 e in ground arith

active_iff : (s : Status) → (is_active s ≡ true) ↔ (s ≡ active)
active_iff active = ground arith
active_iff inactive = ground arith

and_true : (a b : Bool) → (a && b) ≡ true → (a ≡ true) × (b ≡ true)
and_true true true h = (refl, refl)
and_true true false h = absurd (ground arith)
and_true false b h = absurd (ground arith)

selected-Grants :
    (row : UserWithRoles) (r : String)
    → any (λ m. menu_matches m r) (selected_menus row) ≡ true
    → (role : RoleWithMenus) × In role row.roles
      × (role.status ≡ active)
      × (m : Menu) × In m role.menus
      × (m.status ≡ active)
      × Grants m r
selected-Grants row r h =
    let p = λ (m : Menu). menu_matches m r in
    let menus = λ (role : RoleWithMenus). filter (λ (m : Menu). is_active m.status) role.menus in
    let (role, at, e) =
      any-In (λ (x : RoleWithMenus). is_active x.status && any p (menus x)) row.roles
        (sym (
            any-filter_and (λ (x : RoleWithMenus). any p (menus x)) (λ x. is_active x.status)
              row.roles)
          ∙ sym (any-flat_map p menus (filter (λ x. is_active x.status) row.roles))
          ∙ h) in
    let (a, b) = and_true (is_active role.status) (any p (menus role)) e in
    let (m, there, f) =
      any-In (λ (m : Menu). is_active m.status && p m) role.menus
        (sym (any-filter_and p (λ m. is_active m.status) role.menus) ∙ b) in
    let (c, d) = and_true (is_active m.status) (p m) f in
    (
      role,
      at,
      (active_iff role.status).0 a,
      m,
      there,
      (active_iff m.status).0 c,
      (menu_matches_iff m r).0 d,
    )

Grants-selected :
    (row : UserWithRoles) (r : String) (role : RoleWithMenus) (m : Menu)
    → In role row.roles
    → role.status ≡ active
    → In m role.menus
    → m.status ≡ active
    → Grants m r
    → any (λ m. menu_matches m r) (selected_menus row) ≡ true
Grants-selected row r role m at a there c g =
    let p = λ (m : Menu). menu_matches m r in
    let menus = λ (role : RoleWithMenus). filter (λ (m : Menu). is_active m.status) role.menus in
    let inner : any p (menus role) ≡ true =
      any-filter_and p (λ m. is_active m.status) role.menus
      ∙ In-any (λ (m : Menu). is_active m.status && p m) role.menus m there
          (both_true (is_active m.status) (p m) ((active_iff m.status).1 c)
            ((menu_matches_iff m r).1 g)) in
    any-flat_map p menus (filter (λ x. is_active x.status) row.roles)
    ∙ any-filter_and (λ (x : RoleWithMenus). any p (menus x)) (λ x. is_active x.status) row.roles
    ∙ In-any (λ (x : RoleWithMenus). is_active x.status && any p (menus x)) row.roles role at
        (both_true (is_active role.status) (any p (menus role)) ((active_iff role.status).1 a)
          inner)
  where
    both_true : (a b : Bool) → a ≡ true → b ≡ true → (a && b) ≡ true
    both_true a b e f = ground arith

module _ (users : Table UserWithRoles) where
  abbrev row_of : PermissionUser → users.State → Option UserWithRoles
  row_of u s = find? (λ r. r.id == u.id) (users.rows s)

  check_menus-passes :
      (required : List String) (u : PermissionUser) (s : users.State)
      → (check_menus users required u s).0 ≡ ok true
      → (row : UserWithRoles) × (row_of u s ≡ some row) × HasPermission required row
  unfolding check_menus ◌>>=◌
  check_menus-passes required u s h = elim (Option-cases (row_of u s)) [
    | inl e ↦ absurd (ground (arith, users.find_first-rows (λ r. r.id == u.id) s))
    | inr (row, e) ↦
        let yes : any (λ r. any (λ m. menu_matches m r) (selected_menus row)) required ≡ true =
          elim (Bool-cases (any (λ r. any (λ m. menu_matches m r) (selected_menus row)) required)) [
            | inl y ↦ y
            | inr n ↦
                absurd (passes_not (rw (users.find_first-rows (λ r. r.id == u.id) s, e, n) at h))
          ] in
        let (r, at, f) =
          any-In (λ (r : String). any (λ m. menu_matches m r) (selected_menus row)) required yes in
        let (role, in_roles, a, m, in_menus, c, g) = selected-Grants row r f in
        (row, e, (r, at, role, in_roles, a, m, in_menus, c, g))
  ]
    where
      passes_not : {x : Error} → ¬ (◌≡◌ {A = Result Bool} (err x) (ok true))
      passes_not q = ground arith

  passes-check_menus :
      (required : List String) (u : PermissionUser) (s : users.State) (row : UserWithRoles)
      → row_of u s ≡ some row
      → HasPermission required row
      → (check_menus users required u s).0 ≡ ok true
  unfolding check_menus ◌>>=◌
  passes-check_menus required u s row e (r, at, role, in_roles, a, m, in_menus, c, g) =
      let yes : any (λ r. any (λ m. menu_matches m r) (selected_menus row)) required ≡ true =
        In-any (λ (r : String). any (λ m. menu_matches m r) (selected_menus row)) required r at
          (Grants-selected row r role m in_roles a in_menus c g) in
      rw (users.find_first-rows (λ r. r.id == u.id) s, e, yes) refl

  no_admin : (o : Option Role) → o ≡ some admin ⊎ ((r : Role) × (o ≡ some user)) ⊎ (o ≡ none)
  no_admin none = inr (inr refl)
  no_admin (some admin) = inl refl
  no_admin (some user) = inr (inl (user, refl))

  -- Where a handler requires permissions and the request has a user, the permissions guard lets it
  -- pass exactly if the user is an administrator, or the user's row has an active role with an
  -- active menu that grants one of the required permissions: by that permission, by one for an
  -- action below it, or by the path of the resource.
  pub permissions_can_activate_iff :
      (p : String) (ps : List String) (u : PermissionUser) (s : users.State)
      → ((permissions_can_activate users (some (p ∷ ps)) (some u) s).0 ≡ ok true) ↔ (
          (u.role ≡ some admin)
          ⊎ ((row : UserWithRoles) × (row_of u s ≡ some row) × HasPermission (p ∷ ps) row))
  unfolding permissions_can_activate
  permissions_can_activate_iff p ps u s = elim (no_admin u.role) [
    | inl e ↦ (λ h. inl e, λ h. rw e refl)
    | inr (inl (_, e)) ↦ by_menus (rw e refl) (λ q. ground arith)
    | inr (inr e) ↦ by_menus (rw e refl) (λ q. ground arith)
  ]
    where
      Passes : Type 0
      Passes = (permissions_can_activate users (some (p ∷ ps)) (some u) s).0 ≡ ok true

      Granted : Type 0
      Granted = (row : UserWithRoles) × (row_of u s ≡ some row) × HasPermission (p ∷ ps) row

      by_menus :
          permissions_can_activate users (some (p ∷ ps)) (some u) s ≡ check_menus users (p ∷ ps) u s
          → ¬ (u.role ≡ some admin)
          → Passes ↔ ((u.role ≡ some admin) ⊎ Granted)
      by_menus same n = (
        λ h. inr (check_menus-passes (p ∷ ps) u s (ap (λ x. x.0) (sym same) ∙ h)),
        λ g. elim g [
          | inl a ↦ absurd (n a)
          | inr (row, e, has) ↦ ap (λ x. x.0) same ∙ passes-check_menus (p ∷ ps) u s row e has
        ],
      )

role_is_iff : (a b : Role) → (role_is a b ≡ true) ↔ (b ≡ a)
role_is_iff admin admin = ground arith
role_is_iff admin user = ground arith
role_is_iff user admin = ground arith
role_is_iff user user = ground arith

-- Where a handler requires roles, the roles guard lets a request pass exactly if it has a user whose
-- role is one of them.
pub roles_can_activate_iff :
    {W : Type 0} (r : Role) (rs : List Role) (u : Option (Option Role)) (w : W)
    → ((roles_can_activate (some (r ∷ rs)) u w).0 ≡ ok true)
      ↔ ((role : Role) × (u ≡ some (some role)) × In role (r ∷ rs))
unfolding roles_can_activate
roles_can_activate_iff r rs none w = (λ h. absurd (ground arith), λ h. absurd (ground arith))
roles_can_activate_iff r rs (some none) w = (λ h. absurd (ground arith), λ h. absurd (ground arith))
roles_can_activate_iff r rs (some (some role)) w = elim (Bool-cases (any (role_is role) (r ∷ rs))) [
  | inl e ↦ (
    λ h.
        let (x, at, q) = any-In (role_is role) (r ∷ rs) e in
        let same : x ≡ role = (role_is_iff role x).0 q in
        (role, refl, subst (λ y. In y (r ∷ rs)) same at),
    λ h. rw e refl,
  )
  | inr e ↦ (
    λ h. absurd (passes_not (rw e at h)),
    λ (x, q, at).
        let same : x ≡ role = ground arith in
        let yes = In-any (role_is role) (r ∷ rs) x at ((role_is_iff role x).1 same) in
        absurd (ground arith),
  )
]
  where
    passes_not : {x : Error} → ¬ (◌≡◌ {A = Result Bool} (err x) (ok true))
    passes_not q = ground arith
