-- ===== src/Trees/Members.antt =====
-- Which rows a tree shows that is built of them.
use zhuo_stack.Prelude.{
  subst, ℕ, zero, suc, ◌+◌, ◌-◌, ◌≡◌, refl, inl, inr, true, ◌||◌, Option, none, some, List, [], ◌∷◌,
  String, arith, ◌==◌, eq_iff, length, In, In-filter_keep, Bool-cases, ◌↔◌,
}
use zhuo_stack.Prelude.Keyed.{Distinct}
use zhuo_stack.Trees.{Forest, same_parent, plant, build, build_tree, has_tree, has_forest}
use zhuo_stack.Trees.Chains.{Chain, Chain-length, first}
use zhuo_stack.Trees.Depth.{same_parent_sound, same_parent_refl, filter-In}

module _ {R : Type 0} (key : R → String) where
  -- A key of a planted forest is that of a row or below one.
  planted :
      (k : String) (f : R → Forest R) (rs : List R)
      → has_forest key k (plant f rs) ≡ true
      → (r : R) × In r rs × ((key r == k || has_forest key k (f r)) ≡ true)
  unfolding plant has_tree has_forest
  planted k f [] h = absurd (ground arith)
  planted k f (r ∷ rs) h = elim (Bool-cases (key r == k || has_forest key k (f r))) [
    | inl e ↦ (r, (0, refl), e)
    | inr e ↦ let (s, (i, q), t) = planted k f rs (ground arith) in (s, (suc i, q), t)
  ]

  plants :
      (k : String) (f : R → Forest R) (rs : List R) (r : R)
      → In r rs
      → (key r == k || has_forest key k (f r)) ≡ true
      → has_forest key k (plant f rs) ≡ true
  unfolding plant has_tree has_forest
  plants k f [] r (i, e) h = absurd (ground arith)
  plants k f (s ∷ rs) r (zero, e) h = let q : s ≡ r = ground arith in rw q (rw h refl)
  plants k f (s ∷ rs) r (suc i, e) h = let below = plants k f rs r (i, e) h in ground arith

module _ {R : Type 0} (key : R → String) (parent : R → Option String) (rows : List R) where
  -- A key of the forest below a chain starts a chain.
  built_Chain :
      (n : ℕ) (k : String) (xs : List String)
      → Chain key parent rows xs
      → has_forest key k (build key parent n rows (first xs)) ≡ true
      → (path : List String) × Chain key parent rows (k ∷ path)
  unfolding build has_forest
  built_Chain zero k xs c h = absurd (ground arith)
  built_Chain (suc n) k xs c h =
      let (r, at, t) = planted key k _ _ h in
      let (stands, is) = filter-In (λ r. same_parent (parent r) (first xs)) rows r at in
      let p = same_parent_sound (parent r) (first xs) is in
      elim (Bool-cases (key r == k)) [
        | inl e ↦ (xs, ((r, stands, (eq_iff (key r) k).0 e, p), c))
        | inr e ↦ built_Chain n k (key r ∷ xs) ((r, stands, refl, p), c) (ground arith)
      ]

  -- The forest below a parent shows the rows of the parent.
  own :
      (n : ℕ) (xs : List String) (r : R) {k : String}
      → In r rows
      → same_parent (parent r) (first xs) ≡ true
      → key r ≡ k
      → has_forest key k (build key parent (suc n) rows (first xs)) ≡ true
  unfolding build
  own n xs r {k = k} at here e =
      let t = (eq_iff (key r) k).1 e in
      plants key k _ _ r (In-filter_keep (λ r. same_parent (parent r) (first xs)) rows r at here)
        (ground arith)

  -- What the forest below a chain shows, the forest shows.
  climb :
      (n : ℕ) (k : String) (xs : List String)
      → Chain key parent rows xs
      → has_forest key k (build key parent n rows (first xs)) ≡ true
      → has_forest key k (build key parent (length xs + n) rows none) ≡ true
  unfolding build
  climb n k [] c h =
      subst (λ i. has_forest key k (build key parent i rows none) ≡ true) (omega arith) h
  climb n k (x ∷ xs) ((r, at, e, p), c) h =
      let here : same_parent (parent r) (first xs) ≡ true = rw p (same_parent_refl (first xs)) in
      let below : has_forest key k (build key parent n rows (some (key r))) ≡ true = rw e h in
      let up : has_forest key k (build key parent (length xs + suc n) rows none) ≡ true =
        climb (suc n) k xs c (
          plants key k _ _ r
            (In-filter_keep (λ r. same_parent (parent r) (first xs)) rows r at here)
            (ground arith)) in
      subst (λ i. has_forest key k (build key parent i rows none) ≡ true) (omega arith) up

  -- `build_tree` shows a key exactly if the parents lead from its row to a row without a parent,
  -- where the rows have distinct keys. A row whose chain of parents ends nowhere or runs in a
  -- circle is not shown.
  pub has_forest-build_tree_iff :
      Distinct key rows
      → (k : String)
      → (has_forest key k (build_tree key parent rows) ≡ true)
        ↔ ((path : List String) × Chain key parent rows (k ∷ path))
  unfolding build_tree
  has_forest-build_tree_iff d k =
      (λ h. built_Chain (length rows) k [] tt h, λ (path, c). shown path c)
    where
      shown :
          (path : List String)
          → Chain key parent rows (k ∷ path)
          → has_forest key k (build key parent (length rows) rows none) ≡ true
      shown path ((r, at, e, p), c) =
          let short = Chain-length key parent rows (k ∷ path) d ((r, at, e, p), c) in
          let n = length rows - length (k ∷ path) in
          let here : same_parent (parent r) (first path) ≡ true =
            rw p (same_parent_refl (first path)) in
          let node_r : has_forest key k (build key parent (suc n) rows (first path)) ≡ true =
            own n path r at here e in
          subst (λ i. has_forest key k (build key parent i rows none) ≡ true) (omega (arith, short))
            (climb (suc n) k path c node_r)
