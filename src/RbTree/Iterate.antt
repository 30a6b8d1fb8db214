-- ===== src/RbTree/Iterate.antt =====
-- src/std/c_rbtree.c: stepping from node to node, `c_rbtree_node_next` and `c_rbtree_node_prev`.
-- A node is reached by the path to the root that its parent pointers give.
pub mod Steps
use ocsync.Base.{Option, none, some, List, [], ◌∷◌}
use ocsync.RbTree.{Color, Tree, nil, node, Frame, from_left, from_right}

-- a node of a tree, with the path to the root
pub record Place {ℓ} (D : Type ℓ) : Type ℓ where
  pub color : Color
  pub left : Tree D
  pub value : D
  pub right : Tree D
  pub path : List (Frame D)

module _ {ℓ} {D : Type ℓ} where
  -- `_rbtree_subtree_head` and `_rbtree_subtree_tail`
  unfoldable pub head_from : Color → Tree D → D → Tree D → List (Frame D) → Place D
  head_from c nil d r fs = record { color = c; left = nil; value = d; right = r; path = fs }
  head_from c (node c' a x b) d r fs = head_from c' a x b (from_left c d r ∷ fs)

  unfoldable pub tail_from : Color → Tree D → D → Tree D → List (Frame D) → Place D
  tail_from c l d nil fs = record { color = c; left = l; value = d; right = nil; path = fs }
  tail_from c l d (node c' a x b) fs = tail_from c' a x b (from_right c l d ∷ fs)

  -- `while (parent && node == parent->right)`, and the parent where it ends
  unfoldable pub climb_right : Tree D → List (Frame D) → Option (Place D)
  climb_right t [] = none
  climb_right t (from_right c l d ∷ fs) = climb_right (node c l d t) fs
  climb_right t (from_left c d r ∷ fs) =
      some (record { color = c; left = t; value = d; right = r; path = fs })

  unfoldable pub climb_left : Tree D → List (Frame D) → Option (Place D)
  climb_left t [] = none
  climb_left t (from_left c d r ∷ fs) = climb_left (node c t d r) fs
  climb_left t (from_right c l d ∷ fs) =
      some (record { color = c; left = l; value = d; right = t; path = fs })

  abbrev pub next_of : Color → Tree D → D → Tree D → List (Frame D) → Option (Place D)
  next_of c l d nil fs = climb_right (node c l d nil) fs
  next_of c l d (node c' a x b) fs = some (head_from c' a x b (from_right c l d ∷ fs))

  abbrev pub prev_of : Color → Tree D → D → Tree D → List (Frame D) → Option (Place D)
  prev_of c nil d r fs = climb_left (node c nil d r) fs
  prev_of c (node c' a x b) d r fs = some (tail_from c' a x b (from_left c d r ∷ fs))

  unfoldable pub c_rbtree_node_next : Place D → Option (Place D)
  unfolding climb_right head_from
  c_rbtree_node_next p = next_of p.color p.left p.value p.right p.path

  unfoldable pub c_rbtree_node_prev : Place D → Option (Place D)
  unfolding climb_left tail_from
  c_rbtree_node_prev p = prev_of p.color p.left p.value p.right p.path

  -- `c_rbtree_head` and `c_rbtree_tail`, as nodes
  abbrev pub first_place : Tree D → Option (Place D)
  first_place nil = none
  first_place (node c l d r) = some (head_from c l d r [])

  abbrev pub last_place : Tree D → Option (Place D)
  last_place nil = none
  last_place (node c l d r) = some (tail_from c l d r [])
