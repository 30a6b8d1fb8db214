-- ===== src/RbTree/Sanity.antt =====
-- src/std/c_rbtree.c: `c_rbtree_check_sanity`, the tree's check of itself.
--
-- A node is told apart from the others by the turns of its path. That each node knows its tree, and
-- that the root alone has no parent, is so by the representation. The loop runs on fuel.
pub mod Places
pub mod Valid
use ocsync.Base.{
  ℕ, zero, suc, ◌+◌, ◌%◌, ◌^◌, ◌==◌, Bool, true, false, not, ◌&&◌, Ordering, lt, eq, gt, Option,
  none, some, List, [], ◌∷◌, ℤ, pos, negsuc, is_negative, if◌then◌else◌,
}
use ocsync.RbTree.{
  Color, black, red, Tree, nil, node, Frame, from_left, from_right, RbTree, color_of,
  subtree_check_black_height,
}
use ocsync.RbTree.Iterate.{Place, c_rbtree_node_next, c_rbtree_node_prev, first_place, last_place}

abbrev pub is_gt : Ordering → Bool
is_gt gt = true
is_gt _ = false

abbrev pub is_lt : Ordering → Bool
is_lt lt = true
is_lt _ = false

abbrev pub is_red : Color → Bool
is_red red = true
is_red black = false

-- the code of the first test that finds a fault
abbrev pub first_fault : List (Bool × ℤ) → ℤ
first_fault [] = pos 0
first_fault ((fault, code) ∷ tests) = let rest = first_fault tests in if fault then code else rest

module _ {D : Type 0} where
  abbrev pub same_path : List (Frame D) → List (Frame D) → Bool
  same_path [] [] = true
  same_path (from_left c d r ∷ fs) (from_left c' d' r' ∷ gs) = same_path fs gs
  same_path (from_right c l d ∷ fs) (from_right c' l' d' ∷ gs) = same_path fs gs
  same_path _ _ = false

  -- equal pointers
  abbrev pub same_node : Option (Place D) → Option (Place D) → Bool
  same_node none none = true
  same_node (some p) (some q) = same_path p.path q.path
  same_node _ _ = false

  module _ (cmp : D → D → Ordering) where
    -- the order of the data of the node before and of this one
    abbrev pub sequence_tests : Option (Place D) → D → List (Bool × ℤ) → List (Bool × ℤ)
    sequence_tests none d tests = tests
    sequence_tests (some q) d tests =
        (is_gt (cmp q.value d), negsuc 8) ∷ (is_lt (cmp d q.value), negsuc 9) ∷ tests

    abbrev pub left_tests : Tree D → D → List (Bool × ℤ) → List (Bool × ℤ)
    left_tests nil d tests = tests
    left_tests (node c a x b) d tests =
        (is_gt (cmp x d), negsuc 10) ∷ (is_lt (cmp d x), negsuc 10) ∷ tests

    abbrev pub right_tests : Tree D → D → List (Bool × ℤ) → List (Bool × ℤ)
    right_tests nil d tests = tests
    right_tests (node c a x b) d tests =
        (is_gt (cmp d x), negsuc 11) ∷ (is_lt (cmp x d), negsuc 12) ∷ tests

    -- whether the node is the tail, where it has a next one and where it has none
    abbrev pub end_tests : (tail : Option (Place D)) → Place D → Option (Place D) → List (Bool × ℤ)
    end_tests tail p none = (not (same_node (some p) tail), negsuc 16) ∷ []
    end_tests tail p (some q) = (same_node (some p) tail, negsuc 15) ∷ []

    abbrev pub node_tests : (tail prev : Option (Place D)) → Place D → List (Bool × ℤ)
    node_tests tail prev p =
        (not (same_node prev (c_rbtree_node_prev p)), negsuc 7)
        ∷ sequence_tests prev p.value (
            left_tests p.left p.value (
              right_tests p.right p.value (
                (is_red p.color && is_red (color_of p.left), negsuc 13)
                ∷ (is_red p.color && is_red (color_of p.right), negsuc 14)
                ∷ end_tests tail p (c_rbtree_node_next p))))

    unfoldable pub check_node : (tail prev : Option (Place D)) → Place D → ℤ
    unfolding c_rbtree_node_next c_rbtree_node_prev
    check_node tail prev p = first_fault (node_tests tail prev p)

    -- the fault of the first node that has one, or else the number of nodes
    unfoldable pub sanity_loop :
        (fuel : ℕ)
        → (tail prev : Option (Place D)) → (cur : Option (Place D)) → (size : ℕ) → Option (ℤ × ℕ)
    unfolding check_node
    sanity_loop fuel tail prev none size = some (pos 0, size)
    sanity_loop zero tail prev (some p) size = none
    sanity_loop (suc fuel) tail prev (some p) size =
        let rc = check_node tail prev p in
        let rest = sanity_loop fuel tail (some p) (c_rbtree_node_next p) (size + 1) in
        if is_negative rc then some (rc, size) else rest

  module _ {K : Type 0} where
    -- after the loop; `size` counts in 64 bits
    abbrev pub final_checks : RbTree K D → ℤ × ℕ → ℤ
    final_checks t (rc, size) =
        if is_negative rc
        then rc
        else first_fault (
            (not (size % 2 ^ 64 == t.size), negsuc 17)
            ∷ (is_negative (subtree_check_black_height t.root), negsuc 18)
            ∷ [])

    abbrev pub after_loop : RbTree K D → Option (ℤ × ℕ) → Option ℤ
    after_loop t none = none
    after_loop t (some result) = some (final_checks t result)

    unfoldable pub c_rbtree_check_sanity : (fuel : ℕ) → RbTree K D → Option ℤ
    unfolding sanity_loop subtree_check_black_height
    c_rbtree_check_sanity fuel t =
        after_loop t
          (sanity_loop t.data_compare fuel (last_place t.root) none (first_place t.root) 0)
