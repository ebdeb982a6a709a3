-- ===== src/Trees/Depth.antt =====
-- How deep a tree goes that is built of rows.
use zhuo_stack.Prelude.{
  subst, ℕ, zero, suc, ◌+◌, ◌≤◌, ◌≡◌, refl, sym, ap, ◌∙◌, ◌⊎◌, inl, inr, Bool, true, Option, none,
  some, List, [], ◌∷◌, String, arith, eq_iff, eq_refl, if◌then◌else◌, filter, length, In,
  Bool-cases,
}
use zhuo_stack.Prelude.Keyed.{Distinct}
use zhuo_stack.Trees.{Forest, leaf, same_parent, plant, build, build_tree}
use zhuo_stack.Trees.Chains.{Chain, Chain-length, first}

pub same_parent_sound : (a b : Option String) → same_parent a b ≡ true → a ≡ b
same_parent_sound none none h = refl
same_parent_sound (some a) (some b) h = let e = (eq_iff a b).0 h in ap some e
same_parent_sound none (some b) h = absurd (ground arith)
same_parent_sound (some a) none h = absurd (ground arith)

pub same_parent_refl : (a : Option String) → same_parent a a ≡ true
same_parent_refl none = refl
same_parent_refl (some a) = eq_refl a

In-cons {ℓ} : {A : Type ℓ} (y : A) (ys : List A) (x : A) → In x (y ∷ ys) → (y ≡ x) ⊎ In x ys
In-cons y ys x (zero, e) = inl (ground arith)
In-cons y ys x (suc i, e) = inr (i, e)

-- What passes a filter stands in the list and passes the test.
pub filter-In {ℓ} :
    {A : Type ℓ} (p : A → Bool) (xs : List A) (x : A) → In x (filter p xs) → In x xs × (p x ≡ true)
filter-In p [] x (i, e) = absurd (ground arith)
filter-In p (y ∷ ys) x at =
    let rest = filter-In p ys x in
    elim (Bool-cases (p y)) [
      | inl on ↦
          elim (In-cons y (filter p ys) x
            (subst (λ b. In x (if b then y ∷ filter p ys else filter p ys)) on at)) [
              | inl e ↦ ((0, ap some e), subst (λ z. p z ≡ true) e on)
              | inr below ↦ let ((j, q), h) = rest below in ((suc j, q), h)
            ]
      | inr off ↦
          let ((j, q), h) =
            rest (subst (λ b. In x (if b then y ∷ filter p ys else filter p ys)) off at) in
          ((suc j, q), h)
    ]

-- A list without members is empty.
plant-empty :
    {R : Type 0} (f : R → Forest R) (rs : List R) → ((r : R) → In r rs → ⊥) → plant f rs ≡ leaf
unfolding plant
plant-empty f [] h = refl
plant-empty f (r ∷ rs) h = absurd (h r (0, refl))

-- Rows with the same tree below them are planted alike.
plant-cong :
    {R : Type 0} (f g : R → Forest R) (rs : List R)
    → ((r : R) → In r rs → f r ≡ g r)
    → plant f rs ≡ plant g rs
unfolding plant
plant-cong f g [] h = refl
plant-cong f g (r ∷ rs) h = rw (h r (0, refl), plant-cong f g rs (λ s (i, e). h s (suc i, e))) refl

module _ {R : Type 0} (key : R → String) (parent : R → Option String) (rows : List R) where
  -- A row whose parent is the head of a chain makes it longer.
  longer :
      (xs : List String) (r : R)
      → Chain key parent rows xs
      → In r (filter (λ r. same_parent (parent r) (first xs)) rows)
      → Chain key parent rows (key r ∷ xs)
  longer xs r c at =
      let (stands, is) = filter-In (λ r. same_parent (parent r) (first xs)) rows r at in
      ((r, stands, refl, same_parent_sound (parent r) (first xs) is), c)

  build-one_more :
      (n : ℕ) (xs : List String)
      → Distinct key rows
      → Chain key parent rows xs
      → length rows ≤ n + length xs
      → build key parent n rows (first xs) ≡ build key parent (suc n) rows (first xs)
  unfolding build
  build-one_more zero xs d c h = sym (plant-empty _ _ (λ r at. too_long r at))
    where
      too_long : (r : R) → In r (filter (λ r. same_parent (parent r) (first xs)) rows) → ⊥
      too_long r at =
          let short = Chain-length key parent rows (key r ∷ xs) d (longer xs r c at) in
          omega (arith, short, h)
  build-one_more (suc n) xs d c h =
      plant-cong _ _ _
        (λ r at. build-one_more n (key r ∷ xs) d (longer xs r c at) (omega (arith, h)))

  -- More levels than rows change nothing.
  build-enough :
      (m n : ℕ) (xs : List String)
      → Distinct key rows
      → Chain key parent rows xs
      → length rows ≤ n + length xs
      → build key parent (m + n) rows (first xs) ≡ build key parent n rows (first xs)
  build-enough zero n xs d c h = ap (λ i. build key parent i rows (first xs)) (omega arith)
  build-enough (suc m) n xs d c h =
      let e : suc m + n ≡ suc (m + n) = omega arith in
      ap (λ i. build key parent i rows (first xs)) e
      ∙ sym (build-one_more (m + n) xs d c (omega (arith, h)))
      ∙ build-enough m n xs d c h

  -- Where the rows have distinct keys, `build_tree` goes as deep as it ever would: with any larger
  -- number of levels the trees are the same, so the recursion of the code ends with these trees.
  pub build_tree-enough :
      Distinct key rows
      → (m : ℕ) → build key parent (m + length rows) rows none ≡ build_tree key parent rows
  unfolding build_tree
  build_tree-enough d m = build-enough m (length rows) [] d tt (omega arith)
