-- ===== src/Trees/Chains.antt =====
-- Chains of parents, from a row up to one that has none.
use zhuo_stack.Prelude.{
  subst, suc, ◌≤◌, ◌≡◌, ◌≢◌, refl, sym, ap, ◌∙◌, inl, inr, true, false, not, Option, none, some,
  List, [], ◌∷◌, String, arith, ◌==◌, eq_iff, filter, length, In, In-any, length-filter-le,
  text_cases, Bool-cases,
}
use zhuo_stack.Prelude.Keyed.{has, find, Distinct, find_of_get, has-filter_ne}

abbrev pub same : String → String
same k = k

abbrev pub first : List String → Option String
first [] = none
first (x ∷ xs) = some x

has-first : (ys : List String) (z : String) → first ys ≡ some z → has same z ys ≡ true
has-first [] z q = absurd (ground arith)
has-first (y ∷ ys) z q = ground (arith, eq_iff y z)

module _ {R : Type 0} (key : R → String) where
  shorter :
      (x : String) (rows : List R)
      → has key x rows ≡ true
      → suc (length (filter (λ r. not (key r == x)) rows)) ≤ length rows
  shorter x [] h = absurd (ground arith)
  shorter x (r ∷ rs) h = ground (arith, shorter x rs, length-filter-le (λ r. not (key r == x)) rs)

  -- Each key of the list is that of a row.
  abbrev pub Present : List R → List String → Type 0
  Present rows [] = Unit
  Present rows (x ∷ xs) = (has key x rows ≡ true) × Present rows xs

  Present-filter :
      (x : String) (rows : List R) (xs : List String)
      → has same x xs ≡ false
      → Present rows xs
      → Present (filter (λ r. not (key r == x)) rows) xs
  Present-filter x rows [] h p = tt
  Present-filter x rows (y ∷ ys) h (q, p) =
      let (n, h') : ((y == x) ≡ false) × (has same x ys ≡ false) = ground arith in
      let ne : y ≢ x = λ e. let t = (eq_iff y x).1 e in ground arith in
      (has-filter_ne key y x rows ne q, Present-filter x rows ys h' p)

  -- Distinct keys of rows are no more than the rows.
  pub Distinct-length :
      (xs : List String) (rows : List R)
      → Distinct same xs
      → Present rows xs
      → length xs ≤ length rows
  Distinct-length [] rows d p = omega arith
  Distinct-length (x ∷ xs) rows (h, d) (q, p) =
      let rest =
        Distinct-length xs (filter (λ r. not (key r == x)) rows) d (Present-filter x rows xs h p) in
      omega (arith, rest, shorter x rows q)

module _ {R : Type 0} (key : R → String) (parent : R → Option String) (rows : List R) where
  -- Each key is that of a row, whose parent is the next key; the last has no parent.
  abbrev pub Chain : List String → Type 0
  Chain [] = Unit
  Chain (x ∷ xs) = ((r : R) × In r rows × (key r ≡ x) × (parent r ≡ first xs)) × Chain xs

  one_row : (r r' : R) → Distinct key rows → In r rows → In r' rows → key r ≡ key r' → r ≡ r'
  one_row r r' d (i, a) (j, b) e =
      let p = find_of_get key rows i r d a in
      let q = find_of_get key rows j r' d b in
      let p' : find key (key r') rows ≡ some r = subst (λ k. find key k rows ≡ some r) e p in
      ground arith

  -- The parent of a key of the chain stands further up.
  parent_above :
      (x : String) (xs : List String) (k z : String) (r : R)
      → Distinct key rows
      → Chain (x ∷ xs)
      → has same k (x ∷ xs) ≡ true
      → In r rows
      → key r ≡ k
      → parent r ≡ some z
      → has same z xs ≡ true
  parent_above x [] k z r d ((r', at', e', p'), c) h at e p =
      let s : x ≡ k = ground (arith, eq_iff x k) in
      let it = one_row r r' d at at' (e ∙ sym s ∙ sym e') in
      has-first [] z (sym p' ∙ ap parent (sym it) ∙ p)
  parent_above x (y ∷ ys) k z r d ((r', at', e', p'), c) h at e p = elim (text_cases x k) [
    | inl (b, s) ↦
        let it = one_row r r' d at at' (e ∙ sym s ∙ sym e') in
        has-first (y ∷ ys) z (sym p' ∙ ap parent (sym it) ∙ p)
    | inr (b, n) ↦ let up = parent_above y ys k z r d c (ground arith) at e p in ground arith
  ]

  -- A row under a chain of distinct keys makes it longer.
  pub Chain-Distinct : (xs : List String) → Distinct key rows → Chain xs → Distinct same xs
  Chain-Distinct [] d c = tt
  Chain-Distinct (x ∷ []) d c = (refl, tt)
  Chain-Distinct (x ∷ y ∷ ys) d ((r, at, e, p), c) =
      let below = Chain-Distinct (y ∷ ys) d c in
      let new : has same x (y ∷ ys) ≡ false = elim (Bool-cases (has same x (y ∷ ys))) [
        | inl h ↦ let up = parent_above y ys x y r d c h at e p in absurd (ground arith)
        | inr h ↦ h
      ] in
      (new, below)

  Chain-Present : (xs : List String) → Chain xs → Present key rows xs
  Chain-Present [] c = tt
  Chain-Present (x ∷ xs) ((r, at, e, p), c) =
      (In-any (λ r. key r == x) rows r at ((eq_iff (key r) x).1 e), Chain-Present xs c)

  pub Chain-length : (xs : List String) → Distinct key rows → Chain xs → length xs ≤ length rows
  Chain-length xs d c = Distinct-length key xs rows (Chain-Distinct xs d c) (Chain-Present xs c)
