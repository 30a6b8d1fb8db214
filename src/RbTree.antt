-- ===== src/RbTree.antt =====
-- src/std/c_rbtree.c: the red-black tree that holds the files of a replica.
--
-- A node is reached from its parent, so the parent pointers are the frames of a path to the root
-- (`Frame`, innermost first). The shared leaf `NIL` is `nil`. A comparison function's `int` is its
-- sign, an `Ordering`. `none` stands for a pointer that the code follows although it is null, or
-- a rotation round the shared leaf.
pub mod InOrder
pub mod Relabel
pub mod Pointwise
pub mod Walk
pub mod Visit
pub mod Build
pub mod Collect
pub mod Iterate
pub mod Sanity
pub mod Insert
pub mod Balance
pub mod Order
pub mod Depth
pub mod Ends
pub mod BlackHeight
use ocsync.Base.{
  ℕ, zero, suc, ◌+◌, ◌%◌, ◌^◌, ◌==◌, Ordering, lt, eq, gt, Bool, false, Option, none, some, List,
  [], ◌∷◌, ℤ, pos, negsuc, is_negative, minus_one, if◌then◌else◌,
}

-- `enum xrbcolor_e`
pub data Color : Type 0 where
  black red : Color

-- `struct c_rbnode_s`, less the back pointers
pub data Tree {ℓ} (D : Type ℓ) : Type ℓ where
  nil : Tree D
  node : Color → Tree D → D → Tree D → Tree D

-- `struct c_rbtree_s`
pub record RbTree {ℓ κ} (K : Type ℓ) (D : Type κ) : Type (ℓ ⊔ κ) where
  pub root : Tree D
  pub key_compare : K → D → Ordering
  pub data_compare : D → D → Ordering
  pub size : ℕ

-- One step of the path from a node to the root: the node is the left or the right child of a node
-- of this colour, with this data and this other child.
pub data Frame {ℓ} (D : Type ℓ) : Type ℓ where
  from_left : Color → D → Tree D → Frame D
  from_right : Color → Tree D → D → Frame D

infixl 5 ◌>>=◌
abbrev ◌>>=◌ {ℓ κ} : {A : Type ℓ} {B : Type κ} → Option A → (A → Option B) → Option B
none >>= k = none
some a >>= k = k a

unfoldable pub c_rbtree_create {ℓ κ} :
    {K : Type ℓ} {D : Type κ} → (K → D → Ordering) → (D → D → Ordering) → RbTree K D
c_rbtree_create key data_order = record {
  root = nil;
  key_compare = key;
  data_compare = data_order;
  size = 0;
}

same_int : ℤ → ℤ → Bool
same_int (pos m) (pos n) = m == n
same_int (negsuc m) (negsuc n) = m == n
same_int _ _ = false

-- `left + (node->color == BLACK)`
add_black : Color → ℤ → ℤ
add_black red h = h
add_black black (pos n) = pos (n + 1)
add_black black (negsuc zero) = pos 0
add_black black (negsuc (suc n)) = negsuc n

module _ {ℓ} {D : Type ℓ} where
  abbrev pub color_of : Tree D → Color
  color_of nil = black
  color_of (node c l d r) = c

  -- `node->color = c`
  abbrev pub set_color : Color → Tree D → Tree D
  set_color c nil = nil
  set_color c (node _ l d r) = node c l d r

  abbrev pub frame_color : Frame D → Color
  frame_color (from_left c d r) = c
  frame_color (from_right c l d) = c

  -- the parent with this child
  abbrev pub plug : Frame D → Tree D → Tree D
  plug (from_left c d r) t = node c t d r
  plug (from_right c l d) t = node c l d t

  -- the whole tree, from a node and its path
  pub zip_up : Tree D → List (Frame D) → Tree D
  zip_up t [] = t
  zip_up t (f ∷ fs) = zip_up (plug f t) fs

  -- A copy of a node keeps its colour and its data, and its children are copied.
  unfoldable pub left_rotate : Tree D → Option (Tree D)
  left_rotate (node c a x (node c' b y e)) = some (node c' (node c a x b) y e)
  left_rotate _ = none

  unfoldable pub right_rotate : Tree D → Option (Tree D)
  right_rotate (node c (node c' a x b) y e) = some (node c' a x (node c b y e))
  right_rotate _ = none

  -- `x` under its parent, made a left child by a rotation if it is a right one
  make_left_child : Frame D → Tree D → Option (Tree D)
  make_left_child (from_left c d r) x = some (node c x d r)
  make_left_child (from_right c l d) x = left_rotate (node c l d x)

  make_right_child : Frame D → Tree D → Option (Tree D)
  make_right_child (from_left c d r) x = right_rotate (node c x d r)
  make_right_child (from_right c l d) x = some (node c l d x)

  -- the uncle is black: make `x` an outer child, recolour, and rotate the grandparent
  rotate_left_side : Frame D → Tree D → D → Tree D → Option (Tree D)
  unfolding make_left_child left_rotate right_rotate
  rotate_left_side f x grand uncle = do
    parent ← make_left_child f x
    right_rotate (node red (set_color black parent) grand uncle)

  rotate_right_side : Frame D → Tree D → D → Tree D → Option (Tree D)
  unfolding make_right_child left_rotate right_rotate
  rotate_right_side f x grand uncle = do
    parent ← make_right_child f x
    left_rotate (node red uncle grand (set_color black parent))

  -- `while (x != tree->root && x->parent->color == RED)`, for a red node `x` with the children
  -- `a` and `b`; it ends with the whole tree. After a rotation the parent is black and the loop ends.
  pub insert_fixup : Tree D → D → Tree D → List (Frame D) → Option (Tree D)
  unfolding zip_up rotate_left_side rotate_right_side
  insert_fixup a x b [] = some (node red a x b)
  insert_fixup a x b (f ∷ []) = elim (frame_color f) [
    | black ↦ some (plug f (node red a x b))
    | red ↦ none
  ]
  insert_fixup a x b (f ∷ from_left c grand uncle ∷ fs) = elim (frame_color f) [
    | black ↦ some (zip_up (node red a x b) (f ∷ from_left c grand uncle ∷ fs))
    | red ↦ elim (color_of uncle) [
      | red ↦
          insert_fixup (set_color black (plug f (node red a x b))) grand (set_color black uncle) fs
      | black ↦ rotate_left_side f (node red a x b) grand uncle >>= λ top. some (zip_up top fs)
    ]
  ]
  insert_fixup a x b (f ∷ from_right c uncle grand ∷ fs) = elim (frame_color f) [
    | black ↦ some (zip_up (node red a x b) (f ∷ from_right c uncle grand ∷ fs))
    | red ↦ elim (color_of uncle) [
      | red ↦
          insert_fixup (set_color black uncle) grand (set_color black (plug f (node red a x b))) fs
      | black ↦ rotate_right_side f (node red a x b) grand uncle >>= λ top. some (zip_up top fs)
    ]
  ]

  -- the classic insert's search: the path to the leaf where `x` belongs, `none` if `x` is there
  pub descend : (D → D → Ordering) → D → Tree D → List (Frame D) → Option (List (Frame D))
  descend cmp x nil fs = some fs
  descend cmp x (node c l d r) fs = elim (cmp x d) [
    | eq ↦ none
    | lt ↦ descend cmp x l (from_left c d r ∷ fs)
    | gt ↦ descend cmp x r (from_right c l d ∷ fs)
  ]

  -- Both subtrees must report the same height; a black node adds one to it, also to the error code.
  unfoldable pub subtree_check_black_height : Tree D → ℤ
  unfolding same_int add_black
  subtree_check_black_height nil = pos 0
  subtree_check_black_height (node c l d r) =
      let left = subtree_check_black_height l in
      let right = subtree_check_black_height r in
      if same_int left right then add_black c left else minus_one

  -- `_rbtree_subtree_head`: the leftmost node
  subtree_head : Tree D → D → D
  subtree_head nil d = d
  subtree_head (node c l e r) d = subtree_head l e

  subtree_tail : Tree D → D → D
  subtree_tail nil d = d
  subtree_tail (node c l e r) d = subtree_tail r e

module _ {ℓ κ} {K : Type ℓ} {D : Type κ} where
  unfoldable pub c_rbtree_head : RbTree K D → Option D
  unfolding subtree_head
  c_rbtree_head t = elim (t.root) [ nil ↦ none | node c l d r ↦ some (subtree_head l d) ]

  unfoldable pub c_rbtree_tail : RbTree K D → Option D
  unfolding subtree_tail
  c_rbtree_tail t = elim (t.root) [ nil ↦ none | node c l d r ↦ some (subtree_tail r d) ]

  unfoldable pub subtree_find : (K → D → Ordering) → K → Tree D → Option D
  subtree_find cmp k nil = none
  subtree_find cmp k (node c l d r) = elim (cmp k d) [
    | eq ↦ some d
    | lt ↦ subtree_find cmp k l
    | gt ↦ subtree_find cmp k r
  ]

  unfoldable pub c_rbtree_find : RbTree K D → K → Option D
  unfolding subtree_find
  c_rbtree_find t k = subtree_find t.key_compare k t.root

  -- A write through the `node->data` that a search for `k` returns.
  unfoldable pub subtree_modify : (K → D → Ordering) → K → (D → D) → Tree D → Tree D
  subtree_modify cmp k f nil = nil
  subtree_modify cmp k f (node c l d r) = elim (cmp k d) [
    | eq ↦ node c l (f d) r
    | lt ↦ node c (subtree_modify cmp k f l) d r
    | gt ↦ node c l d (subtree_modify cmp k f r)
  ]

  unfoldable pub modify_found : RbTree K D → K → (D → D) → RbTree K D
  unfolding subtree_modify
  modify_found t k f = record t { root = subtree_modify t.key_compare k f t.root }

  -- The return code, and the tree; `allocated` says whether `c_malloc` returned a node.
  unfoldable pub c_rbtree_insert : Bool → RbTree K D → D → Option (ℤ × RbTree K D)
  unfolding descend insert_fixup
  c_rbtree_insert allocated t x = elim (descend t.data_compare x t.root []) [
    | none ↦ some (pos 1, t)
    | some path ↦
        if allocated
        then (insert_fixup nil x nil path >>= λ whole.
            some (pos 0, record t { root = set_color black whole; size = (t.size + 1) % 2 ^ 64 }))
        else some (minus_one, t)
  ]

-- The visitor reads and writes the node's data and a state of its own; a negative return code
-- stops the walk and leaves the nodes behind it as they are.
module _ {ℓ κ} {D : Type ℓ} {S : Type κ} (visitor : D → S → ℤ × D × S) where
  unfoldable pub subtree_walk : Tree D → S → ℤ × Tree D × S
  subtree_walk nil s = (pos 0, nil, s)
  subtree_walk (node c l d r) s =
      let (left_rc, l', s₁) = subtree_walk l s in
      let (rc, d', s₂) = visitor d s₁ in
      let (right_rc, r', s₃) = subtree_walk r s₂ in
      if is_negative left_rc
      then (minus_one, node c l' d r, s₁)
      else if is_negative rc
      then (minus_one, node c l' d' r, s₂)
      else (if is_negative right_rc then minus_one else pos 0, node c l' d' r', s₃)

module _ {ℓ κ μ} {K : Type ℓ} {D : Type κ} {S : Type μ} (visitor : D → S → ℤ × D × S) where
  unfoldable pub c_rbtree_walk : RbTree K D → S → ℤ × RbTree K D × S
  unfolding subtree_walk
  c_rbtree_walk t s =
      let (rc, root', s') = subtree_walk visitor t.root s in
      (if is_negative rc then minus_one else pos 0, record t { root = root' }, s')
