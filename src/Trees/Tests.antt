-- ===== src/Trees/Tests.antt =====
-- Trees at concrete rows.
use zhuo_stack.Prelude.{
  ◌+◌, ◌≡◌, ◌↔◌, refl, true, false, Option, none, some, List, [], ◌∷◌, String, length,
}
use zhuo_stack.Trees.{node, leaf, grow, plant, build, build_tree, has_tree, has_forest}
use zhuo_stack.Trees.Chains.{Chain}
use zhuo_stack.Trees.Depth.{build_tree-enough}
use zhuo_stack.Trees.Members.{has_forest-build_tree_iff}

-- A row: its id and its parent.
abbrev Row : Type 0
Row = String × Option String

abbrev id_of : Row → String
id_of r = r.0

abbrev parent_of : Row → Option String
parent_of r = r.1

abbrev root_and_child : List Row
root_and_child = ("b", some "a") ∷ ("a", none) ∷ []

-- Two rows that are each other's parent, beside a row without one.
abbrev circle : List Row
circle = ("a", none) ∷ ("b", some "c") ∷ ("c", some "b") ∷ []

nested :
    build_tree id_of parent_of root_and_child
    ≡ grow (node ("a", none) (grow (node ("b", some "a") leaf) leaf)) leaf
unfolding build_tree build plant
nested = refl

circle_hidden : has_forest id_of "b" (build_tree id_of parent_of circle) ≡ false
unfolding build_tree build plant has_forest has_tree
circle_hidden = refl

build_tree-enough_example :
    build id_of parent_of (4 + length circle) circle none ≡ build_tree id_of parent_of circle
build_tree-enough_example = build_tree-enough id_of parent_of circle (refl, (refl, (refl, tt))) 4

has_forest-build_tree_iff_example :
    (has_forest id_of "b" (build_tree id_of parent_of circle) ≡ true)
    ↔ ((path : List String) × Chain id_of parent_of circle ("b" ∷ path))
has_forest-build_tree_iff_example =
    has_forest-build_tree_iff id_of parent_of circle (refl, (refl, (refl, tt))) "b"
