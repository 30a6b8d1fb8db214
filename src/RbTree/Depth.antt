-- ===== src/RbTree/Depth.antt =====
-- The depth of a balanced tree.
use ocsync.Base.{
  ℕ, zero, suc, ◌+◌, ◌*◌, ◌^◌, ◌≤◌, ap, ◌∷◌, length, length-append, arith, leb, if◌then◌else◌,
}
use ocsync.RbTree.{Color, black, red, Tree, nil, node, RbTree, color_of}
use ocsync.RbTree.InOrder.{to_list}
use ocsync.RbTree.Balance.{HasHeight}
use ocsync.RbTree.Insert.{IsValid}

abbrev red_one : Color → ℕ
red_one red = 1
red_one black = 0

red_one_le : (c : Color) → red_one c ≤ 1
red_one_le red = omega arith
red_one_le black = omega arith

module _ {D : Type 0} where
  -- the length of the longest path down
  abbrev pub depth : Tree D → ℕ
  depth nil = 0
  depth (node c l d r) = suc (if leb (depth l) (depth r) then depth r else depth l)

  depth-HasHeight : (n : ℕ) (t : Tree D) → HasHeight n t → depth t ≤ 2 * n + red_one (color_of t)
  depth-HasHeight n nil h = omega arith
  depth-HasHeight n (node red l d r) h =
      let a : depth l ≤ 2 * n + red_one (color_of l) = depth-HasHeight n l h.0 in
      let b : depth r ≤ 2 * n + red_one (color_of r) = depth-HasHeight n r h.1 in
      let e = h.2 in let f = h.3 in ground arith
  depth-HasHeight zero (node black l d r) h = elim h [ ]
  depth-HasHeight (suc n) (node black l d r) h =
      let a : depth l ≤ 2 * n + red_one (color_of l) = depth-HasHeight n l h.0 in
      let b : depth r ≤ 2 * n + red_one (color_of r) = depth-HasHeight n r h.1 in
      let e = red_one_le (color_of l) in let f = red_one_le (color_of r) in ground arith

  full-HasHeight : (n : ℕ) (t : Tree D) → HasHeight n t → 2 ^ n ≤ length (to_list t) + 1
  full-HasHeight n nil h = ground arith
  full-HasHeight n (node red l d r) h =
      let a = full-HasHeight n l h.0 in omega (arith, a, length-append (to_list l) (d ∷ to_list r))
  full-HasHeight zero (node black l d r) h = elim h [ ]
  full-HasHeight (suc n) (node black l d r) h =
      let a = full-HasHeight n l h.0 in
      let b = full-HasHeight n r h.1 in
      omega (arith, a, b, length-append (to_list l) (d ∷ to_list r))

  -- A valid tree is shallow: for its black height `n` it holds at least 2 ^ n - 1 entries, and no
  -- path is longer than 2 * n.
  pub depth-IsValid :
      (key : D → ℕ) (t : RbTree ℕ D)
      → IsValid key t
      → (n : ℕ) × (depth t.root ≤ 2 * n) × (2 ^ n ≤ length (to_list t.root) + 1)
  depth-IsValid key t v =
      let (n, h) = v.balanced in
      let b = v.root_black in
      let le : depth t.root ≤ 2 * n + red_one (color_of t.root) = depth-HasHeight n t.root h in
      (n, omega (arith, le, ap red_one b), full-HasHeight n t.root h)
