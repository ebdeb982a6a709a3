-- ===== src/Prelude/Keyed.antt =====
-- Lists of items that a text identifies: rows of a table, tabs of a page.
use zhuo_stack.Prelude.{
  ◌≡◌, refl, ◌≢◌, Bool, true, false, ◌||◌, List, [], ◌∷◌, ◌++◌, map, Option, none, some, String,
  arith, ◌==◌, eq_iff, filter, any, find?, find_index?, get_elem?, not, ℕ, zero, suc, Option-cases,
  inl, inr,
}

module _ {ℓ} {A : Type ℓ} (key : A → String) where
  -- Is there an item with the key?
  abbrev pub has : String → List A → Bool
  has k = any (λ x. key x == k)

  abbrev pub find : String → List A → Option A
  find k = find? (λ x. key x == k)

  -- No two items have the same key.
  abbrev pub Distinct : List A → Type 0
  Distinct [] = Unit
  Distinct (x ∷ xs) = (has (key x) xs ≡ false) × Distinct xs

module _ {ℓ} {A : Type ℓ} (key : A → String) where
  pub has-append :
      (k : String) (xs ys : List A) → has key k (xs ++ ys) ≡ (has key k xs || has key k ys)
  has-append k [] ys = refl
  has-append k (x ∷ xs) ys = ground (arith, has-append k xs ys)

  pub has_of_find :
      (k : String) (xs : List A) (x : A) → find key k xs ≡ some x → has key k xs ≡ true
  has_of_find k [] x h = ground arith
  has_of_find k (y ∷ ys) x h = ground (arith, has_of_find k ys x)

  pub key_of_find : (k : String) (xs : List A) (x : A) → find key k xs ≡ some x → key x ≡ k
  key_of_find k [] x h = ground arith
  key_of_find k (y ∷ ys) x h = ground (arith, key_of_find k ys x, eq_iff (key y) k)

  pub find-has : (k : String) (xs : List A) → has key k xs ≡ false → find key k xs ≡ none
  find-has k [] h = refl
  find-has k (y ∷ ys) h = ground (arith, find-has k ys)

  pub has-filter_absent :
      (k : String) (p : A → Bool) (xs : List A)
      → has key k xs ≡ false
      → has key k (filter p xs) ≡ false
  has-filter_absent k p [] h = refl
  has-filter_absent k p (x ∷ xs) h = ground (arith, has-filter_absent k p xs)

  -- An item that passes the filter stays to be found.
  pub find-filter :
      (k : String) (p : A → Bool) (xs : List A) (x : A)
      → find key k xs ≡ some x
      → p x ≡ true
      → find key k (filter p xs) ≡ some x
  find-filter k p [] x h q = h
  find-filter k p (y ∷ ys) x h q = ground (arith, find-filter k p ys x)

  pub Distinct-filter : (p : A → Bool) (xs : List A) → Distinct key xs → Distinct key (filter p xs)
  Distinct-filter p [] d = d
  Distinct-filter p (x ∷ xs) d =
      ground (arith, Distinct-filter p xs d.1, has-filter_absent (key x) p xs d.0)

  pub Distinct-append_one :
      (xs : List A) (x : A)
      → Distinct key xs
      → has key (key x) xs ≡ false
      → Distinct key (xs ++ x ∷ [])
  Distinct-append_one [] x d h = (refl, tt)
  Distinct-append_one (y ∷ ys) x d h = ground (
    arith,
    Distinct-append_one ys x d.1,
    has-append (key y) ys (x ∷ []),
    eq_iff (key x) (key y),
    eq_iff (key y) (key x),
    h,
  )

  pub has-map :
      (k : String) (f : A → A) (xs : List A)
      → ((x : A) → key (f x) ≡ key x)
      → has key k (map f xs) ≡ has key k xs
  has-map k f [] h = refl
  has-map k f (x ∷ xs) h = ground (arith, h x, has-map k f xs h)

  pub Distinct-map :
      (f : A → A) (xs : List A)
      → ((x : A) → key (f x) ≡ key x)
      → Distinct key xs
      → Distinct key (map f xs)
  Distinct-map f [] h d = d
  Distinct-map f (x ∷ xs) h d = ground (arith, h x, has-map (key x) f xs h, Distinct-map f xs h d.1)

  pub has-filter_ne :
      (k j : String) (xs : List A)
      → k ≢ j
      → has key k xs ≡ true
      → has key k (filter (λ x. not (key x == j)) xs) ≡ true
  has-filter_ne k j [] n h = h
  has-filter_ne k j (x ∷ xs) n h =
      ground (arith, has-filter_ne k j xs n, eq_iff (key x) k, eq_iff (key x) j)

  pub has_of_get :
      (xs : List A) (i : ℕ) (x : A) → get_elem? xs i ≡ some x → has key (key x) xs ≡ true
  has_of_get [] i x h = ground arith
  has_of_get (y ∷ ys) zero x h = ground (arith, eq_iff (key y) (key x))
  has_of_get (y ∷ ys) (suc i) x h = ground (arith, has_of_get ys i x h)

  -- The index that a search returns is that of the item that it finds.
  pub get-find_index :
      (k : String) (xs : List A) (i : ℕ)
      → find_index? (λ x. key x == k) xs ≡ some i
      → get_elem? xs i ≡ find key k xs
  get-find_index k [] i h = ground arith
  get-find_index k (y ∷ ys) zero h = elim (Option-cases (find_index? (λ x. key x == k) ys)) [
    | inl e ↦ ground arith
    | inr (j, e) ↦ ground arith
  ]
  get-find_index k (y ∷ ys) (suc i) h = elim (Option-cases (find_index? (λ x. key x == k) ys)) [
    | inl e ↦ ground arith
    | inr (j, e) ↦ ground (arith, get-find_index k ys i)
  ]

  -- Where keys are distinct, an item at a position is the one that its key finds.
  pub find_of_get :
      (xs : List A) (i : ℕ) (x : A)
      → Distinct key xs
      → get_elem? xs i ≡ some x
      → find key (key x) xs ≡ some x
  find_of_get [] i x d h = ground arith
  find_of_get (y ∷ ys) zero x d h = ground (arith, eq_iff (key y) (key x))
  find_of_get (y ∷ ys) (suc i) x d h =
      ground (arith, find_of_get ys i x d.1 h, has_of_get ys i x h, eq_iff (key y) (key x))

  pub absent_of_find : (k : String) (xs : List A) → find key k xs ≡ none → has key k xs ≡ false
  absent_of_find k [] h = refl
  absent_of_find k (y ∷ ys) h = ground (arith, absent_of_find k ys)
