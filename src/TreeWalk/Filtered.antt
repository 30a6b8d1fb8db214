-- ===== src/TreeWalk/Filtered.antt =====
-- src/csync.c: what a tree walk shows to the visitor.
use ocsync.Base.{
  ℕ, ◌≡◌, refl, ap, some, List, [], ◌∷◌, ◌++◌, ℤ, pos, minus_one, is_negative, if◌then◌else◌, inl,
  inr, Bool-cases,
}
use ocsync.RbTree.{Tree, nil, node, subtree_walk, c_rbtree_walk}
use ocsync.RbTree.InOrder.{to_list}
use ocsync.Types.{FileStat, ok, Ctx}
use ocsync.Reconcile.{Files}
use ocsync.TreeWalk.{
  WalkFile, walk_file, is_filtered, treewalk_visitor, walk_tree, csync_walk_local_tree,
  csync_walk_remote_tree,
}

module _ {S : Type 0} (filter : ℕ) (visitor : WalkFile → S → ℤ × S) where
  -- the visitor on each entry of a list that the filter lets pass, up to its first failure
  abbrev pub visit_all : List FileStat → S → ℤ × S
  visit_all [] s = (pos 0, s)
  visit_all (st ∷ sts) s =
      let (rc, s') = visitor (walk_file st) s in
      let rest = visit_all sts s' in
      let skipped = visit_all sts s in
      if is_filtered filter st then skipped else if is_negative rc then (minus_one, s') else rest

  visit_all-append :
      (xs ys : List FileStat) (s : S)
      → visit_all (xs ++ ys) s ≡ (
          if is_negative (visit_all xs s).0
          then (minus_one, (visit_all xs s).1)
          else visit_all ys (visit_all xs s).1)
  visit_all-append [] ys s = refl
  visit_all-append (x ∷ xs) ys s = elim (Bool-cases (is_filtered filter x)) [
    | inl e ↦ rw (e) (visit_all-append xs ys s)
    | inr e ↦ elim (Bool-cases (is_negative (visitor (walk_file x) s).0)) [
      | inl f ↦ rw (e, f) refl
      | inr f ↦ rw (e, f) (visit_all-append xs ys (visitor (walk_file x) s).1)
    ]
  ]

  visit_all_rc :
      (xs : List FileStat) (s : S)
      → (if is_negative (visit_all xs s).0 then minus_one else pos 0) ≡ (visit_all xs s).0
  visit_all_rc [] s = refl
  visit_all_rc (x ∷ xs) s = elim (Bool-cases (is_filtered filter x)) [
    | inl e ↦ rw (e) (visit_all_rc xs s)
    | inr e ↦ elim (Bool-cases (is_negative (visitor (walk_file x) s).0)) [
      | inl f ↦ rw (e, f) refl
      | inr f ↦ rw (e, f) (visit_all_rc xs (visitor (walk_file x) s).1)
    ]
  ]

  subtree_walk-visit_all :
      (t : Tree FileStat) (s : S)
      → subtree_walk (treewalk_visitor filter visitor) t s
        ≡ ((visit_all (to_list t) s).0, t, (visit_all (to_list t) s).1)
  unfolding subtree_walk treewalk_visitor
  subtree_walk-visit_all nil s = refl
  subtree_walk-visit_all (node c l d r) s =
      let a = visit_all (to_list l) s in
      let whole = visit_all-append (to_list l) (d ∷ to_list r) s in
      elim (Bool-cases (is_negative a.0)) [
        | inl e ↦ rw (subtree_walk-visit_all l s, whole, e) refl
        | inr e ↦ elim (Bool-cases (is_filtered filter d)) [
          | inl f ↦
              rw (subtree_walk-visit_all l s, whole, e, f, subtree_walk-visit_all r a.1)
                (ap (λ rc. (rc, node c l d r, (visit_all (to_list r) a.1).1))
                  (visit_all_rc (to_list r) a.1))
          | inr f ↦
              let v = visitor (walk_file d) a.1 in
              elim (Bool-cases (is_negative v.0)) [
                | inl g ↦ rw (subtree_walk-visit_all l s, whole, e, f, g) refl
                | inr g ↦
                    rw (subtree_walk-visit_all l s, whole, e, f, g, subtree_walk-visit_all r v.1)
                      (ap (λ rc. (rc, node c l d r, (visit_all (to_list r) v.1).1))
                        (visit_all_rc (to_list r) v.1))
              ]
        ]
      ]

  walk_whole :
      (t : Files) (s : S)
      → c_rbtree_walk (treewalk_visitor filter visitor) t s
        ≡ ((visit_all (to_list t.root) s).0, t, (visit_all (to_list t.root) s).1)
  unfolding c_rbtree_walk
  walk_whole t s =
      rw (subtree_walk-visit_all t.root s)
        (ap (λ rc. (rc, t, (visit_all (to_list t.root) s).1)) (visit_all_rc (to_list t.root) s))

  -- A walk over either tree is the visitor on the tree's entries in their order, of which it sees
  -- those that the filter lets pass, up to its first failure; the context is as it was, but for the
  -- status, which is that nothing failed.
  pub csync_walk_tree-visit_all :
      (ctx : Ctx) (s : S)
      → let a = visit_all (to_list ctx.local.tree.root) s in
        let b = visit_all (to_list ctx.remote.tree.root) s in
        (csync_walk_local_tree ctx (some visitor) filter s
          ≡ (a.0, record ctx { status_code = ok }, a.1))
        × (csync_walk_remote_tree ctx (some visitor) filter s
            ≡ (b.0, record ctx { status_code = ok }, b.1))
  unfolding csync_walk_local_tree csync_walk_remote_tree walk_tree
  csync_walk_tree-visit_all ctx s =
      (rw (walk_whole ctx.local.tree s) refl, rw (walk_whole ctx.remote.tree s) refl)
