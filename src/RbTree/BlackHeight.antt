-- ===== src/RbTree/BlackHeight.antt =====
-- The self check of the tree, `c_rbtree_check_sanity`'s part on black heights.
use ocsync.Base.{ℕ, zero, suc, ◌≡◌, pos, arith}
use ocsync.RbTree.{black, red, Tree, nil, node, subtree_check_black_height}
use ocsync.RbTree.Balance.{HasHeight}

module _ {D : Type 0} where
  -- The check of a balanced tree returns its black height.
  pub check_black_height-HasHeight :
      (n : ℕ) (t : Tree D) → HasHeight n t → subtree_check_black_height t ≡ pos n
  unfolding subtree_check_black_height
  check_black_height-HasHeight n nil h = ground arith
  check_black_height-HasHeight n (node red l d r) h =
      let el = check_black_height-HasHeight n l h.0 in
      let er = check_black_height-HasHeight n r h.1 in rw (el, er) (ground arith)
  check_black_height-HasHeight (suc n) (node black l d r) h =
      let el = check_black_height-HasHeight n l h.0 in
      let er = check_black_height-HasHeight n r h.1 in rw (el, er) (ground arith)
  check_black_height-HasHeight zero (node black l d r) h = elim h [ ]
