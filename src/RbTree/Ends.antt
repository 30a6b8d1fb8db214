-- ===== src/RbTree/Ends.antt =====
-- The first and the last node of a tree.
use ocsync.Base.{append_assoc, sym, ◌≡◌, refl, ◌∙◌, Option, none, some, List, [], ◌∷◌, ◌++◌}
use ocsync.RbTree.{
  Tree, nil, node, RbTree, subtree_head, subtree_tail, c_rbtree_head, c_rbtree_tail,
}
use ocsync.RbTree.InOrder.{to_list}

module _ {ℓ} {D : Type ℓ} where
  abbrev pub first_of : List D → Option D
  first_of [] = none
  first_of (x ∷ xs) = some x

  abbrev pub last_of : List D → Option D
  last_of [] = none
  last_of (x ∷ []) = some x
  last_of (x ∷ y ∷ ys) = last_of (y ∷ ys)

  subtree_head_first :
      (l : Tree D) (d : D) (rest : List D)
      → first_of (to_list l ++ d ∷ rest) ≡ some (subtree_head l d)
  unfolding subtree_head
  subtree_head_first nil d rest = refl
  subtree_head_first (node c l e r) d rest =
      rw (append_assoc (to_list l) (e ∷ to_list r) (d ∷ rest))
        (subtree_head_first l e (to_list r ++ d ∷ rest))

  last_of-append : (xs : List D) (y : D) (ys : List D) → last_of (xs ++ y ∷ ys) ≡ last_of (y ∷ ys)
  last_of-append [] y ys = refl
  last_of-append (x ∷ []) y ys = refl
  last_of-append (x ∷ x' ∷ xs) y ys = last_of-append (x' ∷ xs) y ys

  subtree_tail_last : (r : Tree D) (d : D) → last_of (d ∷ to_list r) ≡ some (subtree_tail r d)
  unfolding subtree_tail
  subtree_tail_last nil d = refl
  subtree_tail_last (node c l e r) d =
      last_of-append (d ∷ to_list l) e (to_list r) ∙ subtree_tail_last r e

module _ {ℓ κ} {K : Type ℓ} {D : Type κ} where
  ends_at :
      (u : Tree D) (t : RbTree K D)
      → t.root ≡ u
      → (c_rbtree_head t ≡ first_of (to_list t.root)) × (c_rbtree_tail t ≡ last_of (to_list t.root))
  unfolding c_rbtree_head c_rbtree_tail
  ends_at nil t e = (rw e refl, rw e refl)
  ends_at (node c l d r) t e = (
    rw e (sym (subtree_head_first l d (to_list r))),
    rw e (sym (last_of-append (to_list l) d (to_list r) ∙ subtree_tail_last r d)),
  )

  -- The head of a tree is the first and its tail the last entry in the order of the walk; both are
  -- missing in an empty tree.
  pub c_rbtree_head-c_rbtree_tail :
      (t : RbTree K D)
      → (c_rbtree_head t ≡ first_of (to_list t.root)) × (c_rbtree_tail t ≡ last_of (to_list t.root))
  unfolding c_rbtree_head c_rbtree_tail
  c_rbtree_head-c_rbtree_tail t = ends_at t.root t refl
