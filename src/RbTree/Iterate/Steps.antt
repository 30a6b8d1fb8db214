-- ===== src/RbTree/Iterate/Steps.antt =====
-- src/std/c_rbtree.c: where a step goes, and that it can be taken back.
use mathlib.Core.Path.{subst}
use ocsync.Base.{
  ◌≡◌, refl, sym, ap, ◌∙◌, Option, none, some, List, [], ◌∷◌, ◌++◌, append_assoc, append-nil,
}
use ocsync.RbTree.{Color, Tree, nil, node, Frame, from_left, from_right, zip_up}
use ocsync.RbTree.InOrder.{to_list, before, behind}
use ocsync.RbTree.Iterate.{
  Place, head_from, tail_from, climb_right, climb_left, next_of, c_rbtree_node_next,
  c_rbtree_node_prev, last_place,
}

module _ {ℓ} {D : Type ℓ} where
  -- the data before and behind a node
  abbrev pub done : Place D → List D
  done p = before p.path ++ to_list p.left

  abbrev pub rest : Place D → List D
  rest p = to_list p.right ++ behind p.path

  -- a step to a node: one node further in the sequence, or past its end
  abbrev pub StepsTo : (seen : List D) → (unseen : List D) → Option (Place D) → Type ℓ
  StepsTo seen unseen none = unseen ≡ []
  StepsTo seen unseen (some q) = (unseen ≡ q.value ∷ rest q) × (done q ≡ seen)

  pub head_from-StepsTo :
      (c : Color) (l : Tree D) (d : D) (r : Tree D) (fs : List (Frame D))
      → StepsTo (before fs) (to_list (node c l d r) ++ behind fs) (some (head_from c l d r fs))
  unfolding head_from
  head_from-StepsTo c nil d r fs = (refl, append-nil (before fs))
  head_from-StepsTo c (node c' a x b) d r fs =
      let step = head_from-StepsTo c' a x b (from_left c d r ∷ fs) in
      (append_assoc (to_list (node c' a x b)) (d ∷ to_list r) (behind fs) ∙ step.0, step.1)

  climb_right-StepsTo :
      (t : Tree D) (fs : List (Frame D))
      → StepsTo (before fs ++ to_list t) (behind fs) (climb_right t fs)
  unfolding climb_right
  climb_right-StepsTo t [] = refl
  climb_right-StepsTo t (from_left c d r ∷ fs) = (refl, refl)
  climb_right-StepsTo t (from_right c l d ∷ fs) =
      let e = append_assoc (before fs) (to_list l ++ d ∷ []) (to_list t) in
      let f = ap (λ xs. before fs ++ xs) (append_assoc (to_list l) (d ∷ []) (to_list t)) in
      subst (λ seen. StepsTo seen (behind fs) (climb_right (node c l d t) fs)) (sym (e ∙ f))
        (climb_right-StepsTo (node c l d t) fs)

  next_of-StepsTo :
      (c : Color) (l : Tree D) (d : D) (r : Tree D) (fs : List (Frame D))
      → StepsTo ((before fs ++ to_list l) ++ d ∷ []) (to_list r ++ behind fs) (next_of c l d r fs)
  next_of-StepsTo c l d nil fs =
      subst (λ seen. StepsTo seen (behind fs) (climb_right (node c l d nil) fs))
        (sym (append_assoc (before fs) (to_list l) (d ∷ [])))
        (climb_right-StepsTo (node c l d nil) fs)
  next_of-StepsTo c l d (node c' a x b) fs =
      subst
        (λ seen.
          StepsTo seen (to_list (node c' a x b) ++ behind fs)
            (some (head_from c' a x b (from_right c l d ∷ fs))))
        (sym (append_assoc (before fs) (to_list l) (d ∷ [])))
        (head_from-StepsTo c' a x b (from_right c l d ∷ fs))

  -- The step from a node goes to the node whose data comes next in the order of the walk, with what
  -- was before and this node's data before it, and nowhere exactly at the end.
  pub c_rbtree_node_next-StepsTo :
      (p : Place D) → StepsTo (done p ++ p.value ∷ []) (rest p) (c_rbtree_node_next p)
  unfolding c_rbtree_node_next
  c_rbtree_node_next-StepsTo p = next_of-StepsTo p.color p.left p.value p.right p.path

  pub head_from-climb_left :
      (c : Color) (l : Tree D) (d : D) (r : Tree D) (fs : List (Frame D))
      → c_rbtree_node_prev (head_from c l d r fs) ≡ climb_left (node c l d r) fs
  unfolding c_rbtree_node_prev head_from
  head_from-climb_left c nil d r fs = refl
  head_from-climb_left c (node c' a x b) d r fs =
      head_from-climb_left c' a x b (from_left c d r ∷ fs)

  climb_right-tail_from :
      (c : Color) (l : Tree D) (d : D) (r : Tree D) (fs : List (Frame D)) (q : Place D)
      → climb_right (node c l d r) fs ≡ some q
      → c_rbtree_node_prev q ≡ some (tail_from c l d r fs)
  unfolding climb_right tail_from c_rbtree_node_prev
  climb_right-tail_from c l d r [] q e = cc
  climb_right-tail_from c l d r (from_right c' l' d' ∷ fs) q e =
      climb_right-tail_from c' l' d' (node c l d r) fs q e
  climb_right-tail_from c l d r (from_left c' d' r' ∷ fs) q e =
      let here : Place D = record {
        color = c';
        left = node c l d r;
        value = d';
        right = r';
        path = fs;
      } in
      let same_place : here ≡ q = cc in
      subst (λ x. c_rbtree_node_prev x ≡ some (tail_from c l d r (from_left c' d' r' ∷ fs)))
        same_place refl

  prev-next_of :
      (c : Color) (l : Tree D) (d : D) (r : Tree D) (fs : List (Frame D)) (q : Place D)
      → next_of c l d r fs ≡ some q
      → c_rbtree_node_prev q
        ≡ some (record { color = c; left = l; value = d; right = r; path = fs })
  unfolding tail_from climb_left
  prev-next_of c l d nil fs q e = climb_right-tail_from c l d nil fs q e
  prev-next_of c l d (node c' a x b) fs q e =
      let same_place : head_from c' a x b (from_right c l d ∷ fs) ≡ q = cc in
      subst
        (λ y.
          c_rbtree_node_prev y
          ≡ some (record { color = c; left = l; value = d; right = node c' a x b; path = fs }))
        same_place (head_from-climb_left c' a x b (from_right c l d ∷ fs))

  -- A step back from the node that a step leads to leads to the node that it came from.
  pub c_rbtree_node_prev-next :
      (p q : Place D) → c_rbtree_node_next p ≡ some q → c_rbtree_node_prev q ≡ some p
  unfolding c_rbtree_node_next
  c_rbtree_node_prev-next p q e = prev-next_of p.color p.left p.value p.right p.path q e

  -- the node with the greatest data of a tree that hangs on a path
  climb_right-none :
      (c : Color) (l : Tree D) (d : D) (r : Tree D) (fs : List (Frame D)) (t : Tree D)
      → climb_right (node c l d r) fs ≡ none
      → zip_up (node c l d r) fs ≡ t
      → last_place t ≡ some (tail_from c l d r fs)
  unfolding climb_right tail_from zip_up
  climb_right-none c l d r [] t e z = sym (ap last_place z)
  climb_right-none c l d r (from_right c' l' d' ∷ fs) t e z =
      climb_right-none c' l' d' (node c l d r) fs t e z
  climb_right-none c l d r (from_left c' d' r' ∷ fs) t e z = cc

  climb_right_tail :
      (c : Color) (l : Tree D) (d : D) (r : Tree D) (fs : List (Frame D))
      → c_rbtree_node_next (tail_from c l d r fs) ≡ climb_right (node c l d r) fs
  unfolding climb_right tail_from c_rbtree_node_next
  climb_right_tail c l d nil fs = refl
  climb_right_tail c l d (node c' a x b) fs = climb_right_tail c' a x b (from_right c l d ∷ fs)

  -- the whole tree around a node
  abbrev pub around : Place D → Tree D
  around p = zip_up (node p.color p.left p.value p.right) p.path

  pub head_from-around :
      (c : Color) (l : Tree D) (d : D) (r : Tree D) (fs : List (Frame D))
      → around (head_from c l d r fs) ≡ zip_up (node c l d r) fs
  unfolding head_from zip_up
  head_from-around c nil d r fs = refl
  head_from-around c (node c' a x b) d r fs = head_from-around c' a x b (from_left c d r ∷ fs)

  climb_right-around :
      (t : Tree D) (fs : List (Frame D)) (q : Place D)
      → climb_right t fs ≡ some q
      → around q ≡ zip_up t fs
  unfolding climb_right zip_up
  climb_right-around t [] q e = cc
  climb_right-around t (from_right c l d ∷ fs) q e = climb_right-around (node c l d t) fs q e
  climb_right-around t (from_left c d r ∷ fs) q e =
      let here : Place D = record { color = c; left = t; value = d; right = r; path = fs } in
      let same_place : here ≡ q = cc in sym (ap around same_place)

  next_of-around :
      (c : Color) (l : Tree D) (d : D) (r : Tree D) (fs : List (Frame D)) (q : Place D)
      → next_of c l d r fs ≡ some q
      → around q ≡ zip_up (node c l d r) fs
  unfolding zip_up
  next_of-around c l d nil fs q e = climb_right-around (node c l d nil) fs q e
  next_of-around c l d (node c' a x b) fs q e =
      let same_place : head_from c' a x b (from_right c l d ∷ fs) ≡ q = cc in
      sym (ap around same_place) ∙ head_from-around c' a x b (from_right c l d ∷ fs)

  -- a step stays in the tree
  pub next-around : (p q : Place D) → c_rbtree_node_next p ≡ some q → around q ≡ around p
  unfolding c_rbtree_node_next
  next-around p q e = next_of-around p.color p.left p.value p.right p.path q e

  next_of-none :
      (c : Color) (l : Tree D) (d : D) (r : Tree D) (fs : List (Frame D))
      → next_of c l d r fs ≡ none
      → last_place (zip_up (node c l d r) fs)
        ≡ some (record { color = c; left = l; value = d; right = r; path = fs })
  unfolding tail_from
  next_of-none c l d nil fs e = climb_right-none c l d nil fs _ e refl
  next_of-none c l d (node c' a x b) fs e = cc

  -- a node with no next one is the tail
  pub next-none : (p : Place D) → c_rbtree_node_next p ≡ none → last_place (around p) ≡ some p
  unfolding c_rbtree_node_next
  next-none p e = next_of-none p.color p.left p.value p.right p.path e

  -- nothing follows the tail
  pub last_place-next :
      (t : Tree D) (p : Place D) → last_place t ≡ some p → c_rbtree_node_next p ≡ none
  unfolding climb_right
  last_place-next nil p e = cc
  last_place-next (node c l d r) p e =
      let same_place : tail_from c l d r [] ≡ p = cc in
      subst (λ q. c_rbtree_node_next q ≡ none) same_place (climb_right_tail c l d r [])

  tail_from-around :
      (c : Color) (l : Tree D) (d : D) (r : Tree D) (fs : List (Frame D))
      → around (tail_from c l d r fs) ≡ zip_up (node c l d r) fs
  unfolding tail_from zip_up
  tail_from-around c l d nil fs = refl
  tail_from-around c l d (node c' a x b) fs = tail_from-around c' a x b (from_right c l d ∷ fs)

  -- the tail is a node of the tree
  pub last_place-around : (t : Tree D) (p : Place D) → last_place t ≡ some p → around p ≡ t
  unfolding zip_up
  last_place-around nil p e = cc
  last_place-around (node c l d r) p e =
      let same_place : tail_from c l d r [] ≡ p = cc in
      sym (ap around same_place) ∙ tail_from-around c l d r []
