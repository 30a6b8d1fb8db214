-- ===== src/RbTree/Sanity/Valid.antt =====
-- src/std/c_rbtree.c: `c_rbtree_check_sanity` accepts every valid tree.
use mathlib.Core.Path.{subst}
use ocsync.Base.{
  ℕ, zero, suc, ◌+◌, ◌<◌, ◌≤◌, ◌%◌, ◌^◌, ◌==◌, ==_iff, arith, compare, Ordering, ◌≡◌, refl, sym, ap,
  ◌∙◌, Bool, not, append-nil, if◌then◌else◌, Option, none, some, List, [], ◌∷◌, ◌++◌, append_assoc,
  length, ℤ, pos, negsuc, is_negative,
}
use ocsync.RbTree.{Tree, nil, node, RbTree, zip_up, subtree_check_black_height}
use ocsync.RbTree.Balance.{IsBalanced}
use ocsync.RbTree.BlackHeight.{check_black_height-HasHeight}
use ocsync.RbTree.InOrder.{to_list, before, behind, to_list-zip_up}
use ocsync.RbTree.Insert.{IsValid}
use ocsync.RbTree.Iterate.{
  Place, c_rbtree_node_next, c_rbtree_node_prev, climb_left, first_place, last_place, head_from,
}
use ocsync.RbTree.Iterate.Steps.{
  done, rest, around, StepsTo, c_rbtree_node_next-StepsTo, c_rbtree_node_prev-next, next-around,
  next-none, head_from-StepsTo, head_from-around, head_from-climb_left,
}
use ocsync.RbTree.Order.{Ascends, Ascends-split, AllBelow, AllAbove, All-left, All-right}
use ocsync.RbTree.Sanity.{
  is_gt, is_lt, same_node, sequence_tests, left_tests, right_tests, end_tests, node_tests,
  check_node, sanity_loop, after_loop, c_rbtree_check_sanity,
}
use ocsync.RbTree.Sanity.Places.{
  Passes, first_fault-Passes, compare-lt, compare-gt, same_path_self, same_node_self, not_tail,
  zip_up-height, color_tests,
}

module _ {D : Type 0} where
  abbrev Follows : Option (Place D) → Place D → Type 0
  Follows none p = done p ≡ []
  Follows (some q) p = done p ≡ done q ++ q.value ∷ []

  module _ (key : D → ℕ) (cmp : D → D → Ordering)
      (law : (a b : D) → cmp a b ≡ compare (key a) (key b)) where
    ordered_tests :
        (a b : D) (i j : ℤ) (more : List (Bool × ℤ))
        → key a < key b
        → Passes more
        → Passes ((is_gt (cmp a b), i) ∷ (is_lt (cmp b a), j) ∷ more)
    ordered_tests a b i j more h p = (
      ap is_gt (law a b ∙ compare-lt (key a) (key b) h),
      (ap is_lt (law b a ∙ compare-gt (key b) (key a) h), p),
    )

    left_Passes :
        (l : Tree D) (d : D) (more : List (Bool × ℤ))
        → AllBelow key (key d) (to_list l)
        → Passes more
        → Passes (left_tests cmp l d more)
    left_Passes nil d more h p = p
    left_Passes (node c a x b) d more h p =
        ordered_tests x d (negsuc 10) (negsuc 10) more
          (All-right key (λ y. key y < key d) (to_list a) (x ∷ to_list b) h).0 p

    right_Passes :
        (r : Tree D) (d : D) (more : List (Bool × ℤ))
        → AllAbove key (key d) (to_list r)
        → Passes more
        → Passes (right_tests cmp r d more)
    right_Passes nil d more h p = p
    right_Passes (node c a x b) d more h p =
        ordered_tests d x (negsuc 11) (negsuc 12) more
          (All-right key (λ y. key d < key y) (to_list a) (x ∷ to_list b) h).0 p

    -- The loop is at `p`, after `prev`, in the tree `t`.
    record At (t : Tree D) (prev : Option (Place D)) (p : Place D) : Type 0 where
      inside : around p ≡ t
      back : c_rbtree_node_prev p ≡ prev
      follows : Follows prev p

    sequence_Passes :
        (t : Tree D) (prev : Option (Place D)) (p : Place D) (more : List (Bool × ℤ))
        → Follows prev p
        → AllBelow key (key p.value) (done p)
        → Passes more
        → Passes (sequence_tests cmp prev p.value more)
    sequence_Passes t none p more f h ok = ok
    sequence_Passes t (some q) p more f h ok =
        ordered_tests q.value p.value (negsuc 8) (negsuc 9) more
          (All-right key (λ y. key y < key p.value) (done q) (q.value ∷ [])
            (subst (AllBelow key (key p.value)) f h)).0
          ok

    end_Passes :
        (t : Tree D) (p : Place D) (o : Option (Place D))
        → around p ≡ t
        → c_rbtree_node_next p ≡ o
        → Passes (end_tests cmp (last_place t) p o)
    end_Passes t p none inside e =
        let last = sym (ap last_place inside) ∙ next-none p e in
        (ap not (ap (same_node (some p)) last ∙ same_path_self p.path), tt)
    end_Passes t p (some q) inside e = (not_tail t p q inside e, tt)

    -- the order around a node of a tree that ascends
    node_order :
        (t : Tree D) (p : Place D)
        → around p ≡ t
        → Ascends key (to_list t)
        → AllBelow key (key p.value) (done p)
          × AllBelow key (key p.value) (to_list p.left)
          × AllAbove key (key p.value) (to_list p.right)
    node_order t p inside asc =
        let whole : to_list t ≡ done p ++ p.value ∷ rest p =
          sym (ap to_list inside)
          ∙ to_list-zip_up (node p.color p.left p.value p.right) p.path
          ∙ ap (λ xs. before p.path ++ xs)
              (append_assoc (to_list p.left) (p.value ∷ to_list p.right) (behind p.path))
          ∙ sym (append_assoc (before p.path) (to_list p.left) (p.value ∷ rest p)) in
        let parts = Ascends-split key (done p) p.value (rest p) (subst (Ascends key) whole asc) in
        (
          parts.1,
          All-right key (λ y. key y < key p.value) (before p.path) (to_list p.left) parts.1,
          All-left key (λ y. key p.value < key y) (to_list p.right) (behind p.path) parts.2,
        )

    check_node-At :
        (t : Tree D) (prev : Option (Place D)) (p : Place D)
        → Ascends key (to_list t)
        → IsBalanced t
        → At t prev p
        → check_node cmp (last_place t) prev p ≡ pos 0
    unfolding check_node
    check_node-At t prev p asc balanced at =
        let order = node_order t p at.inside asc in
        let here =
          zip_up-height (node p.color p.left p.value p.right) p.path
            (subst IsBalanced (sym at.inside) balanced) in
        first_fault-Passes (node_tests cmp (last_place t) prev p) (
          ap not (ap (same_node prev) at.back ∙ same_node_self prev),
          sequence_Passes t prev p _ at.follows order.0 (
              left_Passes p.left p.value _ order.1 (
                right_Passes p.right p.value _ order.2 (
                  color_tests p.color p.left p.right p.value _ here
                    (end_Passes t p (c_rbtree_node_next p) at.inside refl)))),
        )

    -- The loop goes through the nodes from `p` on, finds no fault, and counts them.
    sanity_loop-At :
        (fuel : ℕ) (t : Tree D) (prev : Option (Place D)) (p : Place D) (size : ℕ)
        → Ascends key (to_list t)
        → IsBalanced t
        → At t prev p
        → length (rest p) < fuel
        → sanity_loop cmp fuel (last_place t) prev (some p) size
          ≡ some (pos 0, size + 1 + length (rest p))
    unfolding sanity_loop
    sanity_loop-At zero t prev p size asc balanced at enough = absurd (omega arith)
    sanity_loop-At (suc fuel) t prev p size asc balanced at enough =
        ap
          (λ rc.
            if is_negative rc
            then some (rc, size)
            else sanity_loop cmp fuel (last_place t) (some p) (c_rbtree_node_next p) (size + 1))
          (check_node-At t prev p asc balanced at)
        ∙ go_on (c_rbtree_node_next p) refl (c_rbtree_node_next-StepsTo p)
            (λ q inside back follows enough'.
              sanity_loop-At fuel t (some p) q (size + 1) asc balanced
                (record { inside = inside; back = back; follows = follows }) enough')
      where
        go_on :
            (o : Option (Place D))
            → c_rbtree_node_next p ≡ o
            → StepsTo (done p ++ p.value ∷ []) (rest p) o
            → ((q : Place D)
                → around q ≡ t
                → c_rbtree_node_prev q ≡ some p
                → done q ≡ done p ++ p.value ∷ []
                → length (rest q) < fuel
                → sanity_loop cmp fuel (last_place t) (some p) (some q) (size + 1)
                  ≡ some (pos 0, size + 1 + 1 + length (rest q)))
            → sanity_loop cmp fuel (last_place t) (some p) o (size + 1)
              ≡ some (pos 0, size + 1 + length (rest p))
        go_on none e s again =
            ap (λ n. let r : Option (ℤ × ℕ) = some (pos 0, n) in r) (omega (arith, ap length s))
        go_on (some q) e s again =
            again q (next-around p q e ∙ at.inside) (c_rbtree_node_prev-next p q e) s.1
              (omega (arith, ap length s.0))
            ∙ ap (λ n. let r : Option (ℤ × ℕ) = some (pos 0, n) in r) (omega (arith, ap length s.0))

module _ {D : Type 0} (key : D → ℕ) where
  loop_whole :
      (cmp : D → D → Ordering)
      → ((a b : D) → cmp a b ≡ compare (key a) (key b))
      → (fuel : ℕ) (t : Tree D) → Ascends key (to_list t)
      → IsBalanced t
      → length (to_list t) ≤ fuel
      → sanity_loop cmp fuel (last_place t) none (first_place t) 0
        ≡ some (pos 0, length (to_list t))
  unfolding sanity_loop zip_up climb_left
  loop_whole cmp law fuel nil asc balanced enough = refl
  loop_whole cmp law fuel (node c l d r) asc balanced enough =
      let start = head_from c l d r [] in
      let first = head_from-StepsTo c l d r [] in
      let sizes = ap length (sym (append-nil (to_list (node c l d r))) ∙ first.0) in
      sanity_loop-At key cmp law fuel (node c l d r) none start 0 asc balanced
        (record {
          inside = head_from-around c l d r [];
          back = head_from-climb_left c l d r [];
          follows = first.1;
        })
        (omega (arith, sizes))
      ∙ ap (λ n. let r : Option (ℤ × ℕ) = some (pos 0, n) in r) (omega (arith, sizes))

  -- With fuel for all its nodes the self check of a valid tree ends, and finds no fault.
  pub c_rbtree_check_sanity-IsValid :
      (fuel : ℕ) (t : RbTree ℕ D)
      → IsValid key t
      → length (to_list t.root) ≤ fuel
      → c_rbtree_check_sanity fuel t ≡ some (pos 0)
  unfolding c_rbtree_check_sanity
  c_rbtree_check_sanity-IsValid fuel t v enough =
      let n = length (to_list t.root) in
      ap (after_loop t)
        (loop_whole t.data_compare v.keyed.by_data fuel t.root v.ascends v.balanced enough)
      ∙ ap some (
          first_fault-Passes
            ((not (n % 2 ^ 64 == t.size), negsuc 17)
              ∷ (is_negative (subtree_check_black_height t.root), negsuc 18)
              ∷ [])
            (
              ap not ((==_iff (n % 2 ^ 64) t.size).1 (sym v.counted)),
              (ap is_negative (check_black_height-HasHeight v.balanced.0 t.root v.balanced.1), tt),
            ))
