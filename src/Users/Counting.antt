-- ===== src/Users/Counting.antt =====
-- Counting the administrators of a list of users, when one is removed or changed.
use zhuo_stack.Prelude.{
  subst, ℕ, ◌+◌, ◌<◌, ◌≡◌, refl, inl, inr, Bool, true, false, not, ◌&&◌, some, List, [], ◌∷◌, map,
  String, arith, ◌==◌, eq_iff, if◌then◌else◌, leb, filter, length, Bool-cases,
}
use zhuo_stack.Prelude.Keyed.{has, find, Distinct}
use zhuo_stack.Auth.Account.{User}
use zhuo_stack.Users.{is_admin}

abbrev pub user_id : User → String
user_id u = u.id

-- The administrators of a list.
abbrev pub admins : List User → ℕ
admins us = length (filter (λ u. is_admin u.role) us)

abbrev pub one_if : Bool → ℕ
one_if b = if b then 1 else 0

filter_absent :
    (id : String) (us : List User)
    → has user_id id us ≡ false
    → filter (λ u. not (u.id == id)) us ≡ us
filter_absent id [] h = refl
filter_absent id (u ∷ us) h = ground (arith, filter_absent id us)

pub admins-filter :
    (id : String) (us : List User) (u : User)
    → Distinct user_id us
    → find user_id id us ≡ some u
    → admins (filter (λ v. not (v.id == id)) us) + one_if (is_admin u.role) ≡ admins us
admins-filter id [] u d h = absurd (ground arith)
admins-filter id (v ∷ vs) u d h = elim (Bool-cases (v.id == id)) [
  | inl e ↦
      let same : v.id ≡ id = (eq_iff v.id id).0 e in
      let gone : has user_id id vs ≡ false = subst (λ k. has user_id k vs ≡ false) same d.0 in
      let it : v ≡ u = ground arith in
      let rest : filter (λ v. not (v.id == id)) vs ≡ vs = filter_absent id vs gone in
      subst
        (λ x.
          admins (filter (λ v. not (v.id == id)) (v ∷ vs)) + one_if (is_admin x.role)
          ≡ admins (v ∷ vs))
        it
        (rw (e, rest)
          (elim (Bool-cases (is_admin v.role)) [ inl p ↦ ground arith | inr p ↦ ground arith ]))
  | inr n ↦
      let ih = admins-filter id vs u d.1 (ground arith) in
      rw n (elim (Bool-cases (is_admin v.role)) [ inl p ↦ ground arith | inr p ↦ ground arith ])
]

abbrev pub replaced : String → (User → User) → User → User
replaced id f v = if v.id == id then f v else v

map_absent :
    (id : String) (f : User → User) (us : List User)
    → has user_id id us ≡ false
    → map (replaced id f) us ≡ us
map_absent id f [] h = refl
map_absent id f (u ∷ us) h = ground (arith, map_absent id f us)

pub admins-map :
    (id : String) (f : User → User) (us : List User) (u : User)
    → Distinct user_id us
    → find user_id id us ≡ some u
    → admins (map (replaced id f) us) + one_if (is_admin u.role)
      ≡ admins us + one_if (is_admin (f u).role)
admins-map id f [] u d h = absurd (ground arith)
admins-map id f (v ∷ vs) u d h = elim (Bool-cases (v.id == id)) [
  | inl e ↦
      let same : v.id ≡ id = (eq_iff v.id id).0 e in
      let gone : has user_id id vs ≡ false = subst (λ k. has user_id k vs ≡ false) same d.0 in
      let it : v ≡ u = ground arith in
      let rest : map (replaced id f) vs ≡ vs = map_absent id f vs gone in
      subst
        (λ x.
          admins (map (replaced id f) (v ∷ vs)) + one_if (is_admin x.role)
          ≡ admins (v ∷ vs) + one_if (is_admin (f x).role))
        it
        (rw (e, rest)
          (elim (Bool-cases (is_admin v.role)) [
            | inl p ↦ elim (Bool-cases (is_admin (f v).role)) [
              | inl q ↦ ground arith
              | inr q ↦ ground arith
            ]
            | inr p ↦ elim (Bool-cases (is_admin (f v).role)) [
              | inl q ↦ ground arith
              | inr q ↦ ground arith
            ]
          ]))
  | inr n ↦
      let ih = admins-map id f vs u d.1 (ground arith) in
      rw n (elim (Bool-cases (is_admin v.role)) [ inl p ↦ ground arith | inr p ↦ ground arith ])
]

pub left_over :
    (n m : ℕ) (a b demoted : Bool)
    → n + one_if a ≡ m + one_if b
    → 0 < m
    → (demoted && leb m 1) ≡ false
    → (demoted ≡ false → a ≡ true → b ≡ true)
    → 0 < n
left_over n m a b true e pos more k = ground arith
left_over n m true b false e pos more k = let q = k refl refl in ground arith
left_over n m false b false e pos more k = ground arith
