-- ===== src/Database/Table.antt =====
-- What apps/api relies on of Prisma and the relational database, for one table. `rows` lists the
-- table in the order that the queries ask for; a query is a function of it. That a statement
-- fails, by a lost connection or a violated constraint, is not part of the model.
use zhuo_stack.Prelude.{
  ℕ, ◌≡◌, refl, Bool, not, Option, List, [], ◌∷◌, ◌++◌, map, if◌then◌else◌, filter, find?, length,
}

pub record Table (R : Type 0) : Type 1 where
  pub State : Type 0
  pub rows : State → List R
  pub find_first : (R → Bool) → State → Option R
  pub find_many : (R → Bool) → State → List R
  pub count : (R → Bool) → State → ℕ
  pub create : R → State → State
  pub update_many : (R → Bool) → (R → R) → State → State
  pub delete_many : (R → Bool) → State → State
  pub find_first-rows : (p : R → Bool) (s : State) → find_first p s ≡ find? p (rows s)
  pub find_many-rows : (p : R → Bool) (s : State) → find_many p s ≡ filter p (rows s)
  pub count-rows : (p : R → Bool) (s : State) → count p s ≡ length (filter p (rows s))
  -- A new row stands somewhere among the old ones.
  pub rows-create :
      (r : R) (s : State)
      → (xs : List R) × (ys : List R) × (rows s ≡ xs ++ ys) × (rows (create r s) ≡ xs ++ r ∷ ys)
  pub rows-update_many :
      (p : R → Bool) (f : R → R) (s : State)
      → rows (update_many p f s) ≡ map (λ r. if p r then f r else r) (rows s)
  pub rows-delete_many :
      (p : R → Bool) (s : State) → rows (delete_many p s) ≡ filter (λ r. not (p r)) (rows s)

-- A table in memory, at which the theorems are instantiated.
abbrev pub memory_table : (R : Type 0) → Table R
memory_table R = record {
  State = List R;
  rows = λ s. s;
  find_first = find?;
  find_many = filter;
  count = λ p s. length (filter p s);
  create = λ r s. r ∷ s;
  update_many = λ p f s. map (λ r. if p r then f r else r) s;
  delete_many = λ p s. filter (λ r. not (p r)) s;
  find_first-rows = λ p s. refl;
  find_many-rows = λ p s. refl;
  count-rows = λ p s. refl;
  rows-create = λ r s. ([], s, refl, refl);
  rows-update_many = λ p f s. refl;
  rows-delete_many = λ p s. refl;
}
