-- ===== src/RbTree/Sanity/Places.antt =====
-- src/std/c_rbtree.c: the places of a tree as `c_rbtree_check_sanity` compares them.
use ocsync.Base.{
  ℕ, zero, suc, ◌<◌, arith, compare, lt, gt, ◌≡◌, refl, sym, ap, ◌∙◌, Bool, true, false, ◌&&◌,
  Bool-cases, some-ne-none, Option, none, some, List, [], ◌∷◌, ℤ, pos, negsuc, All, inl, inr,
  Option-cases,
}
use ocsync.RbTree.{
  Color, black, red, Tree, nil, node, Frame, from_left, from_right, color_of, zip_up,
}
use ocsync.RbTree.Balance.{IsBalanced}
use ocsync.RbTree.Iterate.{Place, c_rbtree_node_next, next_of, last_place}
use ocsync.RbTree.Iterate.Steps.{around, last_place-next, last_place-around}
use ocsync.RbTree.Sanity.{is_red, first_fault, same_path, same_node}

-- tests that find nothing
abbrev pub Passes : List (Bool × ℤ) → Type 0
Passes tests = All (λ t. t.0 ≡ false) tests

pub first_fault-Passes : (tests : List (Bool × ℤ)) → Passes tests → first_fault tests ≡ pos 0
first_fault-Passes [] p = refl
first_fault-Passes ((fault, code) ∷ tests) p = rw (p.0) (first_fault-Passes tests p.1)

pub compare-lt : (a b : ℕ) → a < b → compare a b ≡ lt
compare-lt a b h = ground arith

pub compare-gt : (a b : ℕ) → b < a → compare a b ≡ gt
compare-gt a b h = ground arith

module _ {D : Type 0} where
  pub same_path_self : (fs : List (Frame D)) → same_path fs fs ≡ true
  same_path_self [] = refl
  same_path_self (from_left c d r ∷ fs) = same_path_self fs
  same_path_self (from_right c l d ∷ fs) = same_path_self fs

  pub same_node_self : (p : Option (Place D)) → same_node p p ≡ true
  same_node_self none = refl
  same_node_self (some p) = same_path_self p.path

  -- two nodes of one tree with the same turns are the same
  zip_up_inj :
      (t u : Tree D) (fs gs : List (Frame D))
      → same_path fs gs ≡ true
      → zip_up t fs ≡ zip_up u gs
      → (t ≡ u) × (fs ≡ gs)
  unfolding zip_up
  zip_up_inj t u [] [] s e = (e, refl)
  zip_up_inj t u [] (g ∷ gs) s e = cc
  zip_up_inj t u (from_left c d r ∷ fs) [] s e = cc
  zip_up_inj t u (from_right c l d ∷ fs) [] s e = cc
  zip_up_inj t u (from_left c d r ∷ fs) (from_right c' l' d' ∷ gs) s e = cc
  zip_up_inj t u (from_right c l d ∷ fs) (from_left c' d' r' ∷ gs) s e = cc
  zip_up_inj t u (from_left c d r ∷ fs) (from_left c' d' r' ∷ gs) s e =
      let (same_child, same_rest) = zip_up_inj (node c t d r) (node c' u d' r') fs gs s e in
      (cc, cc)
  zip_up_inj t u (from_right c l d ∷ fs) (from_right c' l' d' ∷ gs) s e =
      let (same_child, same_rest) = zip_up_inj (node c l d t) (node c' l' d' u) fs gs s e in
      (cc, cc)

  -- the next node by a subtree and its path
  abbrev next_at : Tree D → List (Frame D) → Option (Place D)
  next_at nil fs = none
  next_at (node c l d r) fs = next_of c l d r fs

  -- a node that has a next one is not the tail
  pub not_tail :
      (t : Tree D) (p q : Place D)
      → around p ≡ t
      → c_rbtree_node_next p ≡ some q
      → same_node (some p) (last_place t) ≡ false
  unfolding c_rbtree_node_next
  not_tail t p q inside e = elim (Bool-cases (same_node (some p) (last_place t))) [
    | inr different ↦ different
    | inl same ↦ elim (Option-cases (last_place t)) [
      | inl none_last ↦ cc (rw (none_last) at same)
      | inr (z, last) ↦
          let turns : same_path p.path z.path ≡ true = sym (ap (same_node (some p)) last) ∙ same in
          let (same_tree, same_route) =
            zip_up_inj (node p.color p.left p.value p.right) (node z.color z.left z.value z.right)
              p.path z.path turns (inside ∙ sym (last_place-around t z last)) in
          absurd (
            some-ne-none (
              sym e
              ∙ ap (λ u. next_at u p.path) same_tree
              ∙ ap (next_at (node z.color z.left z.value z.right)) same_route
              ∙ last_place-next t z last))
    ]
  ]

  -- a balanced tree is balanced at each node
  pub zip_up-height : (t : Tree D) (fs : List (Frame D)) → IsBalanced (zip_up t fs) → IsBalanced t
  unfolding zip_up
  zip_up-height t [] h = h
  zip_up-height t (from_left red d r ∷ fs) h =
      let (n, b) = zip_up-height (node red t d r) fs h in (n, b.0)
  zip_up-height t (from_right red l d ∷ fs) h =
      let (n, b) = zip_up-height (node red l d t) fs h in (n, b.1)
  zip_up-height t (from_left black d r ∷ fs) h = left_part (zip_up-height (node black t d r) fs h)
    where
      left_part : IsBalanced (node black t d r) → IsBalanced t
      left_part (zero, b) = absurd b
      left_part (suc n, b) = (n, b.0)
  zip_up-height t (from_right black l d ∷ fs) h = right_part (zip_up-height (node black l d t) fs h)
    where
      right_part : IsBalanced (node black l d t) → IsBalanced t
      right_part (zero, b) = absurd b
      right_part (suc n, b) = (n, b.1)

  pub color_tests :
      (c : Color) (l r : Tree D) (d : D) (more : List (Bool × ℤ))
      → IsBalanced (node c l d r)
      → Passes more
      → Passes (
          (is_red c && is_red (color_of l), negsuc 13)
          ∷ (is_red c && is_red (color_of r), negsuc 14)
          ∷ more)
  color_tests black l r d more h p = (refl, (refl, p))
  color_tests red l r d more (n, h) p = (ap is_red h.2, (ap is_red h.3, p))
