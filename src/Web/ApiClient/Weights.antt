-- ===== src/Web/ApiClient/Weights.antt =====
-- Sums over the requests of a page.
use zhuo_stack.Prelude.{
  ℕ, zero, suc, ◌+◌, ◌≤◌, ◌≡◌, subst, some, List, [], ◌∷◌, ◌++◌, map, arith, get_elem?, modify, All,
}

module _ {A : Type 0} where
  abbrev pub weight : (A → ℕ) → List A → ℕ
  weight f [] = 0
  weight f (x ∷ xs) = f x + weight f xs

  pub weight-append :
      (f : A → ℕ) (xs : List A) (x : A) → weight f (xs ++ x ∷ []) ≡ weight f xs + f x
  weight-append f [] x = omega arith
  weight-append f (y ∷ ys) x = omega (arith, weight-append f ys x)

  -- One item changes.
  pub weight-modify :
      (f : A → ℕ) (i : ℕ) (g : A → A) (xs : List A) (x : A)
      → get_elem? xs i ≡ some x
      → weight f (modify i g xs) + f x ≡ weight f xs + f (g x)
  weight-modify f i g [] x e = absurd (ground arith)
  weight-modify f zero g (y ∷ ys) x e = let q : y ≡ x = ground arith in rw q (omega arith)
  weight-modify f (suc i) g (y ∷ ys) x e = omega (arith, weight-modify f i g ys x e)

  pub weight-get :
      (f : A → ℕ) (i : ℕ) (xs : List A) (x : A) → get_elem? xs i ≡ some x → f x ≤ weight f xs
  weight-get f i [] x e = absurd (ground arith)
  weight-get f zero (y ∷ ys) x e = let q : y ≡ x = ground arith in rw q (omega arith)
  weight-get f (suc i) (y ∷ ys) x e = omega (arith, weight-get f i ys x e)

  -- All items change.
  pub weight-map-le :
      (f h k : A → ℕ) (g : A → A) (xs : List A)
      → All (λ x. f (g x) + h x ≤ k x) xs
      → weight f (map g xs) + weight h xs ≤ weight k xs
  weight-map-le f h k g [] a = omega arith
  weight-map-le f h k g (x ∷ xs) (a, as_) =
      let rest = weight-map-le f h k g xs as_ in omega (arith, rest, a)

  pub weight-map :
      (f h k : A → ℕ) (g : A → A) (xs : List A)
      → ((x : A) → f (g x) + h x ≡ k x)
      → weight f (map g xs) + weight h xs ≡ weight k xs
  weight-map f h k g [] a = omega arith
  weight-map f h k g (x ∷ xs) a =
      let rest = weight-map f h k g xs a in let one = a x in omega (arith, rest, one)

  module _ (P : A → Type 0) where
    pub All-get : (i : ℕ) (xs : List A) (x : A) → All P xs → get_elem? xs i ≡ some x → P x
    All-get i [] x a e = absurd (ground arith)
    All-get zero (y ∷ ys) x (a, _) e = let q : y ≡ x = ground arith in subst P q a
    All-get (suc i) (y ∷ ys) x (_, a) e = All-get i ys x a e

    pub All-modify :
        (i : ℕ) (g : A → A) (xs : List A) (x : A)
        → get_elem? xs i ≡ some x
        → P (g x)
        → All P xs
        → All P (modify i g xs)
    All-modify i g [] x e h a = tt
    All-modify zero g (y ∷ ys) x e h (_, a) =
        let q : x ≡ y = ground arith in (subst (λ z. P (g z)) q h, a)
    All-modify (suc i) g (y ∷ ys) x e h (p, a) = (p, All-modify i g ys x e h a)

    pub All-append_one : (xs : List A) (x : A) → All P xs → P x → All P (xs ++ x ∷ [])
    All-append_one [] x a p = (p, tt)
    All-append_one (y ∷ ys) x (q, a) p = (q, All-append_one ys x a p)

    pub All-map :
        (g : A → A) (xs : List A) → ((x : A) → P x → P (g x)) → All P xs → All P (map g xs)
    All-map g [] h a = tt
    All-map g (x ∷ xs) h (p, a) = (h x p, All-map g xs h a)

    pub All-imp : (Q : A → Type 0) (xs : List A) → ((x : A) → P x → Q x) → All P xs → All Q xs
    All-imp Q [] h a = tt
    All-imp Q (x ∷ xs) h (p, a) = (h x p, All-imp Q xs h a)
