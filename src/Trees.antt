-- ===== src/Trees.antt =====
-- `buildTree`, which apps/api/src/modules/auth/auth.service.ts,
-- apps/api/src/modules/system/dept/dept.service.ts and
-- apps/api/src/modules/system/menu/menu.service.ts each have: the rows of a parent, each with the tree
-- of its own children. A list of trees stands beside the trees.
pub mod Chains
pub mod Depth
pub mod Members
mod Tests
use mathlib.Core.Option
use zhuo_stack.Prelude.{
  ℕ, zero, suc, Bool, true, false, ◌||◌, Option, none, some, List, [], ◌∷◌, String, ◌==◌,
  if◌then◌else◌, filter, length,
}

mutual
  pub data Tree (R : Type 0) : Type 0 where
    node : R → Forest R → Tree R

  pub data Forest (R : Type 0) : Type 0 where
    leaf : Forest R
    grow : Tree R → Forest R → Forest R

-- `a === b` on keys that may be null.
abbrev pub same_parent : Option String → Option String → Bool
same_parent none none = true
same_parent (some a) (some b) = a == b
same_parent _ _ = false

-- `rows.map(row => ({ ...row, children: below(row.id) }))`
unfoldable pub plant : {R : Type 0} → (R → Forest R) → List R → Forest R
plant below [] = leaf
plant below (r ∷ rs) = grow (node r (below r)) (plant below rs)

module _ {R : Type 0} (key : R → String) (parent : R → Option String) where
  -- For at most `fuel` levels.
  unfoldable pub build : ℕ → List R → Option String → Forest R
  build zero rows p = leaf
  build (suc fuel) rows p =
      plant (λ r. build fuel rows (some (key r))) (filter (λ r. same_parent (parent r) p) rows)

  -- As many levels as there are rows are enough.
  unfoldable pub build_tree : List R → Forest R
  build_tree rows = build (length rows) rows none

-- Is there a node with the key?
unfoldable mutual
  pub has_tree : {R : Type 0} → (R → String) → String → Tree R → Bool
  has_tree key k (node r below) = key r == k || has_forest key k below

  pub has_forest : {R : Type 0} → (R → String) → String → Forest R → Bool
  has_forest key k leaf = false
  has_forest key k (grow t ts) = has_tree key k t || has_forest key k ts
