-- ===== src/Depts/Parents.antt =====
-- Parents of departments, in apps/api/src/modules/system/dept/dept.service.ts.
use zhuo_stack.Prelude.{
  subst, ℕ, zero, suc, ◌≡◌, refl, sym, ◌∙◌, ◌≢◌, ◌⊎◌, inl, inr, Bool, true, false, not, ◌&&◌, some,
  List, [], ◌∷◌, String, arith, ◌==◌, eq_iff, ltb, length, filter, any, get_elem?, In, In-any,
  any-filter_and, Bool-cases,
}
use zhuo_stack.Prelude.Keyed.{has, has-filter_ne}
use zhuo_stack.Prelude.Action.{gets, not_found, ◌>>=◌, Keeps, >>=-Keeps, or_throw-Keeps}
use zhuo_stack.Database.Client.{RedisClient}
use zhuo_stack.Database.Table.{Table}
use zhuo_stack.Database.Redis.{del_key}
use zhuo_stack.Auth.Account.{User}
use zhuo_stack.Guards.{text_is}
use zhuo_stack.Depts.{
  Dept, DeptValue, dept_id, DeptWorld, cached, clear_dept_cache, find_one, delete_leaf, remove,
}

In-filter :
    {A : Type 0} (p : A → Bool) (xs : List A) (x : A) (i : ℕ)
    → get_elem? (filter p xs) i ≡ some x
    → In x xs × (p x ≡ true)
In-filter p [] x i e = absurd (ground arith)
In-filter p (y ∷ ys) x i e = elim (Bool-cases (p y)) [
  | inl on ↦ kept i (λ j q. In-filter p ys x j q) (rw on at e) on
  | inr off ↦ let ((j, f), q) = In-filter p ys x i (rw off at e) in ((suc j, f), q)
]
  where
    kept :
        (i : ℕ)
        → ((j : ℕ) → get_elem? (filter p ys) j ≡ some x → In x ys × (p x ≡ true))
        → get_elem? (y ∷ filter p ys) i ≡ some x
        → p y ≡ true
        → In x (y ∷ ys) × (p x ≡ true)
    kept zero ih e on =
        let same : y ≡ x = ground arith in ((zero, e), subst (λ z. p z ≡ true) same on)
    kept (suc i) ih e on = let ((j, f), q) = ih i e in ((suc j, f), q)

pub filter-none :
    {A : Type 0} (p : A → Bool) (xs : List A) (x : A)
    → ltb 0 (length (filter p xs)) ≡ false
    → In x xs
    → p x ≡ false
filter-none {A} p xs x h at = elim (Bool-cases (p x)) [
  | inr off ↦ off
  | inl on ↦ absurd (
      empty_none (filter p xs) h
        (any-filter_and (λ _. true) p xs ∙ In-any (λ x. p x && true) xs x at (ground arith)))
]
  where
    empty_none : (ys : List A) → ltb 0 (length ys) ≡ false → ¬ (any (λ _. true) ys ≡ true)
    empty_none [] h e = ground arith
    empty_none (y ∷ ys) h e = ground arith

-- Every parent that a department names is a department.
abbrev pub IsRooted : List Dept → Type 0
IsRooted ds = (d : Dept) → In d ds → (p : String) → d.parent_id ≡ some p → has dept_id p ds ≡ true

filter-IsRooted :
    (id : String) (ds : List Dept)
    → ltb 0 (length (filter (λ d. text_is d.parent_id id) ds)) ≡ false
    → IsRooted ds
    → IsRooted (filter (λ d. not (d.id == id)) ds)
filter-IsRooted id ds leaf rooted d at p e =
    let (here, other) = In-filter (λ (d : Dept). not (d.id == id)) ds d at.0 at.1 in
    let no_child = filter-none (λ (d : Dept). text_is d.parent_id id) ds d leaf here in
    has-filter_ne dept_id p id ds (λ same. differs p id e no_child same) (rooted d here p e)
  where
    differs : (p id : String) → d.parent_id ≡ some p → text_is d.parent_id id ≡ false → p ≢ id
    differs p id e n same = ground (arith, eq_iff p id)

module _ (rc : RedisClient DeptValue) (dept_table : Table Dept) (user_table : Table User) where
  abbrev pub W : Type 0
  W = DeptWorld rc dept_table user_table

  abbrev pub Rooted : W → Type 0
  Rooted w = IsRooted (dept_table.rows w.depts)

  delete_leaf-cases :
      (id : String) (w : W)
      → ((delete_leaf rc dept_table user_table id w).1 ≡ w)
        ⊎ ((ltb 0 (length (filter (λ d. text_is d.parent_id id) (dept_table.rows w.depts))) ≡ false)
            × ((delete_leaf rc dept_table user_table id w).1
                ≡ record w { depts = dept_table.delete_many (λ d. d.id == id) w.depts }))
  unfolding delete_leaf ◌>>=◌
  delete_leaf-cases id w =
      elim (Bool-cases
        (ltb 0 (length (filter (λ d. text_is d.parent_id id) (dept_table.rows w.depts))))) [
          | inl e ↦
              inl (rw (dept_table.find_many-rows (λ d. text_is d.parent_id id) w.depts, e) refl)
          | inr e ↦
              elim (Bool-cases
                (ltb 0 (length (user_table.find_many (λ u. text_is u.dept_id id) w.users)))) [
                  | inl f ↦ inl (
                      rw (dept_table.find_many-rows (λ d. text_is d.parent_id id) w.depts, e, f)
                        refl)
                  | inr f ↦ inr (
                    e,
                    rw (dept_table.find_many-rows (λ d. text_is d.parent_id id) w.depts, e, f) refl,
                  )
                ]
        ]

  delete_leaf-Rooted : (id : String) → Keeps Rooted (delete_leaf rc dept_table user_table id)
  delete_leaf-Rooted id w r = elim (delete_leaf-cases id w) [
    | inl e ↦ subst Rooted (sym e) r
    | inr (leaf, e) ↦ subst Rooted (sym e) (
        rw (dept_table.rows-delete_many (λ d. d.id == id) w.depts)
          (filter-IsRooted id (dept_table.rows w.depts) leaf r))
  ]

  find_one-Rooted : (id : String) → Keeps Rooted (find_one rc dept_table user_table id)
  unfolding find_one
  find_one-Rooted id =
      >>=-Keeps Rooted (gets (λ w. dept_table.find_first (λ d. d.id == id) w.depts)) _ (λ w h. h)
        λ o. or_throw-Keeps Rooted o (not_found id)

  clear_dept_cache-Rooted : Keeps Rooted (clear_dept_cache rc dept_table user_table)
  unfolding clear_dept_cache
  clear_dept_cache-Rooted =
      >>=-Keeps Rooted (cached rc dept_table user_table (del_key rc "dept:tree" false)) _ (λ w h. h)
        λ _ w h. h

  -- Deleting a department leaves no orphan, whatever the request ends in: where every named parent is
  -- a department, it is so afterwards.
  pub remove-Rooted :
      (id : String) (w : W) → Rooted w → Rooted (remove rc dept_table user_table id w).1
  unfolding remove
  remove-Rooted id =
      >>=-Keeps Rooted (find_one rc dept_table user_table id) _ (find_one-Rooted id) λ _.
        >>=-Keeps Rooted (delete_leaf rc dept_table user_table id) _ (delete_leaf-Rooted id) λ _.
          >>=-Keeps Rooted (clear_dept_cache rc dept_table user_table) _ clear_dept_cache-Rooted
            λ _ w h. h
