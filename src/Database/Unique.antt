-- ===== src/Database/Unique.antt =====
-- Tables with two unique columns, an id and a code, as apps/api declares them for roles, posts and
-- dictionaries.
use zhuo_stack.Prelude.{
  subst, ◌≡◌, refl, sym, ◌∙◌, inl, inr, Bool, false, not, ◌&&◌, none, some, List, [], ◌∷◌, ◌++◌,
  map, String, arith, ◌==◌, eq_iff, if◌then◌else◌, any, Bool-cases, text_cases, eq_false,
}
use zhuo_stack.Prelude.Keyed.{
  has, find, Distinct, Distinct-filter, Distinct-map, has-append, absent_of_find,
}
use zhuo_stack.Database.Table.{Table}

module _ {R : Type 0} (key : R → String) where
  -- A row with a key of its own may stand anywhere.
  pub Distinct-insert :
      (xs ys : List R) (r : R)
      → Distinct key (xs ++ ys)
      → has key (key r) (xs ++ ys) ≡ false
      → Distinct key (xs ++ r ∷ ys)
  Distinct-insert [] ys r d h = (h, d)
  Distinct-insert (x ∷ xs) ys r (g, d) h = (
    ground (
      arith,
      g,
      h,
      has-append key (key x) xs ys,
      has-append key (key x) xs (r ∷ ys),
      eq_iff (key r) (key x),
      eq_iff (key x) (key r),
    ),
    Distinct-insert xs ys r d (ground arith),
  )

module _ {R : Type 0} (id code : R → String) where
  -- The change of the row with an id.
  abbrev pub changed : String → (R → R) → R → R
  changed i f r = if id r == i then f r else r

  -- The rows with the code, but for the row with the id.
  abbrev pub others : String → String → List R → Bool
  others i c = any (λ r. code r == c && not (id r == i))

  map-changed_absent :
      (i : String) (f : R → R) (xs : List R) → has id i xs ≡ false → map (changed i f) xs ≡ xs
  map-changed_absent i f [] h = refl
  map-changed_absent i f (x ∷ xs) h = ground (arith, map-changed_absent i f xs)

  has-map-changed :
      (i c k : String) (f : R → R) (xs : List R)
      → ((r : R) → code (f r) ≡ c)
      → (c == k) ≡ false
      → has code k xs ≡ false
      → has code k (map (changed i f) xs) ≡ false
  has-map-changed i c k f [] e n h = refl
  has-map-changed i c k f (x ∷ xs) e n h = elim (Bool-cases (id x == i)) [
    | inl on ↦ rw (on, e x, n) (has-map-changed i c k f xs e n (ground arith))
    | inr off ↦ rw off (ground (arith, has-map-changed i c k f xs e n))
  ]

  others_absent :
      (i c : String) (xs : List R)
      → others i c xs ≡ false
      → has id i xs ≡ false
      → has code c xs ≡ false
  others_absent i c [] o h = refl
  others_absent i c (x ∷ xs) o h = ground (arith, others_absent i c xs)

  -- A row may take a code that no other row has.
  pub Distinct-changed :
      (i c : String) (f : R → R) (xs : List R)
      → ((r : R) → code (f r) ≡ c)
      → others i c xs ≡ false
      → Distinct id xs
      → Distinct code xs
      → Distinct code (map (changed i f) xs)
  Distinct-changed i c f [] e o d d' = tt
  Distinct-changed i c f (x ∷ xs) e o (g, d) (g', d') =
      let rest = Distinct-changed i c f xs e (ground arith) d d' in
      elim (Bool-cases (id x == i)) [
        | inl on ↦
            let q : id x ≡ i = (eq_iff (id x) i).0 on in
            let gone : has id i xs ≡ false = subst (λ k. has id k xs ≡ false) q g in
            let free = others_absent i c xs (ground arith) gone in
            (rw (on, e x, map-changed_absent i f xs gone) free, rest)
        | inr off ↦
            let differs : (c == code x) ≡ false =
              eq_false c (code x) (λ p. let t = (eq_iff (code x) c).1 (sym p) in ground arith) in
            (rw off (has-map-changed i c (code x) f xs e differs g'), rest)
      ]

  -- What a look at the code finds is no other row: none, or the row itself.
  pub others-find :
      (i c : String) (xs : List R)
      → Distinct code xs
      → (elim (find code c xs) [ none ↦ false | some r ↦ not (id r == i) ]) ≡ false
      → others i c xs ≡ false
  others-find i c [] d h = refl
  others-find i c (x ∷ xs) (g, d) h = elim (text_cases (code x) c) [
    | inl (b, q) ↦
        let none_else : has code c xs ≡ false = subst (λ k. has code k xs ≡ false) q g in
        ground (arith, others_none i c xs none_else)
    | inr (b, n) ↦ ground (arith, others-find i c xs d)
  ]
    where
      others_none : (i c : String) (xs : List R) → has code c xs ≡ false → others i c xs ≡ false
      others_none i c [] h = refl
      others_none i c (x ∷ xs) h = ground (arith, others_none i c xs)

  -- Ids are distinct, and codes are.
  abbrev pub IsUnique : List R → Type 0
  IsUnique xs = Distinct id xs × Distinct code xs

  module _ (table : Table R) (s : table.State) where
    pub create-IsUnique :
        (r : R)
        → IsUnique (table.rows s)
        → has id (id r) (table.rows s) ≡ false
        → table.find_first (λ x. code x == code r) s ≡ none
        → IsUnique (table.rows (table.create r s))
    create-IsUnique r (d, d') fresh free =
        let (xs, ys, before, after) = table.rows-create r s in
        let absent =
          absent_of_find code (code r) (table.rows s)
            (sym (table.find_first-rows (λ x. code x == code r) s) ∙ free) in
        rw after (
          Distinct-insert id xs ys r (subst (Distinct id) before d)
              (subst (λ rs. has id (id r) rs ≡ false) before fresh),
          Distinct-insert code xs ys r (subst (Distinct code) before d')
              (subst (λ rs. has code (code r) rs ≡ false) before absent),
        )

    pub delete_many-IsUnique :
        (p : R → Bool) → IsUnique (table.rows s) → IsUnique (table.rows (table.delete_many p s))
    delete_many-IsUnique p (d, d') =
        rw (table.rows-delete_many p s)
          (Distinct-filter id (λ r. not (p r)) _ d, Distinct-filter code (λ r. not (p r)) _ d')

    module _ (i : String) (f : R → R) (same_id : (r : R) → id (f r) ≡ id r) where
      changed-id : (r : R) → id (changed i f r) ≡ id r
      changed-id r = ground (arith, same_id r)

      pub update_many-IsUnique :
          (c : String)
          → ((r : R) → code (f r) ≡ c)
          → IsUnique (table.rows s)
          → (elim (table.find_first (λ x. code x == c) s) [
            | none ↦ false
            | some r ↦ not (id r == i)
          ])
            ≡ false
          → IsUnique (table.rows (table.update_many (λ r. id r == i) f s))
      update_many-IsUnique c e (d, d') h =
          let free =
            others-find i c (table.rows s) d'
              (rw (table.find_first-rows (λ x. code x == c) s) at h) in
          rw (table.rows-update_many (λ r. id r == i) f s) (
            Distinct-map id (changed i f) (table.rows s) changed-id d,
            Distinct-changed i c f (table.rows s) e free d d',
          )

      pub update_many-IsUnique_kept :
          ((r : R) → code (f r) ≡ code r)
          → IsUnique (table.rows s)
          → IsUnique (table.rows (table.update_many (λ r. id r == i) f s))
      update_many-IsUnique_kept e (d, d') = rw (table.rows-update_many (λ r. id r == i) f s) (
        Distinct-map id (changed i f) (table.rows s) changed-id d,
        Distinct-map code (changed i f) (table.rows s) (λ r. ground (arith, e r)) d',
      )
