-- ===== src/Tests/TreeRuns.antt =====
-- The red-black tree on small inputs.
use ocsync.Base.{
  List, ◌≤◌, ◌*◌, ◌^◌, length, ℕ, ◌+◌, compare, ◌≡◌, refl, none, some, pos, minus_one, negsuc,
  arith, true, [], ◌∷◌,
}
use ocsync.RbTree.{
  black, red, Tree, nil, node, RbTree, c_rbtree_find, c_rbtree_insert, subtree_check_black_height,
}
use ocsync.RbTree.Depth.{depth}
use ocsync.RbTree.Iterate.{Place, c_rbtree_node_next}
use ocsync.RbTree.Iterate.Steps.{StepsTo, c_rbtree_node_next-StepsTo}
use ocsync.RbTree.Sanity.{c_rbtree_check_sanity}
use ocsync.RbTree.Sanity.Valid.{c_rbtree_check_sanity-IsValid}
use ocsync.RbTree.Build.{insert_each, empty, kept_or_first, insert_each_shallow}
use ocsync.RbTree.Insert.{IsValid, Added, insert_absent}

-- numbers that are their own keys
abbrev same_key : ℕ → ℕ
same_key n = n

abbrev root_tree : Tree ℕ
root_tree = node black (node red nil 2 nil) 5 (node red nil 8 nil)

abbrev numbers : RbTree ℕ ℕ
numbers = record { root = root_tree; key_compare = compare; data_compare = compare; size = 3 }

numbers-IsValid : IsValid same_key numbers
numbers-IsValid = record {
  keyed = record { by_key = λ k d. refl; by_data = λ d e. refl };
  ascends = ground arith;
  balanced = (1, ((refl, refl, refl, refl), (refl, refl, refl, refl)));
  root_black = refl;
  counted = refl;
}

absent_6 : c_rbtree_find numbers 6 ≡ none
unfolding c_rbtree_find
absent_6 = refl

present_8 : c_rbtree_find numbers 8 ≡ some 8
unfolding c_rbtree_find
present_8 = refl

insert_absent_example :
    (t' : RbTree ℕ ℕ) × (c_rbtree_insert true numbers 6 ≡ some (pos 0, t'))
    × Added same_key 6 numbers t'
insert_absent_example = insert_absent same_key 6 numbers numbers-IsValid absent_6

-- the uncle of the new node is red: both become black, and so does the root
insert_recolours :
    c_rbtree_insert true numbers 6
    ≡ some (
      pos 0,
      record numbers {
        root = node black (node black nil 2 nil) 5 (node black (node red nil 6 nil) 8 nil);
        size = 4;
      },
    )
unfolding c_rbtree_insert
insert_recolours = refl

abbrev in_turn : List ℕ
in_turn = 5 ∷ 8 ∷ 2 ∷ 8 ∷ 9 ∷ []

insert_each_shallow_example :
    (t : RbTree ℕ ℕ) × (insert_each in_turn (empty same_key) ≡ some t)
    × ((k : ℕ) → c_rbtree_find t k ≡ kept_or_first same_key none k in_turn)
    × ((n : ℕ) × (depth t.root ≤ 2 * n) × (2 ^ n ≤ length in_turn + 1))
insert_each_shallow_example = insert_each_shallow same_key in_turn

-- one black child and none on the other side
abbrev uneven : ℕ → Tree ℕ
uneven n = node black nil n (node black nil (n + 1) nil)

uneven_fails : (n : ℕ) → subtree_check_black_height (uneven n) ≡ minus_one
unfolding subtree_check_black_height
uneven_fails n = refl

-- A black node over two unbalanced subtrees passes for a tree of height 0.
fault_is_masked : subtree_check_black_height (node black (uneven 1) 5 (uneven 7)) ≡ pos 0
unfolding subtree_check_black_height
fault_is_masked = refl

-- the root of the tree of numbers
abbrev root_place : Place ℕ
root_place = record {
  color = black;
  left = node red nil 2 nil;
  value = 5;
  right = node red nil 8 nil;
  path = [];
}

c_rbtree_node_next-StepsTo_example : StepsTo (2 ∷ 5 ∷ []) (8 ∷ []) (c_rbtree_node_next root_place)
c_rbtree_node_next-StepsTo_example = c_rbtree_node_next-StepsTo root_place

c_rbtree_check_sanity-IsValid_example : c_rbtree_check_sanity 3 numbers ≡ some (pos 0)
c_rbtree_check_sanity-IsValid_example =
    c_rbtree_check_sanity-IsValid same_key 3 numbers numbers-IsValid (omega arith)

-- a tree whose data do not ascend is found out
out_of_order :
    c_rbtree_check_sanity 3 (record numbers { root = node black (node red nil 6 nil) 5 nil })
    ≡ some (negsuc 8)
unfolding c_rbtree_check_sanity
out_of_order = refl
