-- ===== src/RbTree/Collect.antt =====
-- src/std/c_rbtree.c, `c_rbtree_walk`: walks whose visitor always succeeds and leaves the entries as
-- they are, by what its state knows of the entries that were visited.
use ocsync.Base.{
  ◌≡◌, refl, sym, ◌∙◌, ap, List, [], ◌∷◌, ◌++◌, append_assoc, append-nil, ℤ, pos, is_negative,
  false,
}
use ocsync.RbTree.{Tree, nil, node, RbTree, subtree_walk, c_rbtree_walk}
use ocsync.RbTree.InOrder.{to_list}

module _ {D S : Type 0} (visitor : D → S → ℤ × D × S) (P : List D → S → Type 0)
    (whole : List D) where
  -- a visit succeeds, and takes what is known of the entries before to those with this one
  abbrev pub Collects : Type 0
  Collects =
      (seen rest : List D) (d : D) (s : S)
      → seen ++ d ∷ rest ≡ whole
      → P seen s
      → (is_negative (visitor d s).0 ≡ false)
        × ((visitor d s).1 ≡ d)
        × P (seen ++ d ∷ []) (visitor d s).2

  abbrev Collected : Tree D → List D → ℤ × Tree D × S → Type 0
  Collected t seen (rc, t', s') = (rc ≡ pos 0) × (t' ≡ t) × P (seen ++ to_list t) s'

  module _ (visits : Collects) where
    subtree_walk-Collected :
        (t : Tree D) (seen rest : List D) (s : S)
        → seen ++ (to_list t ++ rest) ≡ whole
        → P seen s
        → Collected t seen (subtree_walk visitor t s)
    unfolding subtree_walk
    subtree_walk-Collected nil seen rest s e p = (refl, refl, rw (append-nil seen) p)
    subtree_walk-Collected (node c l d r) seen rest s e p =
        let e₁ = ap (λ xs. seen ++ xs) (append_assoc (to_list l) (d ∷ to_list r) rest) in
        let left = subtree_walk-Collected l seen (d ∷ (to_list r ++ rest)) s (sym e₁ ∙ e) p in
        let s₁ = (subtree_walk visitor l s).2 in
        let e₂ = append_assoc seen (to_list l) (d ∷ (to_list r ++ rest)) ∙ sym e₁ ∙ e in
        let visit = visits (seen ++ to_list l) (to_list r ++ rest) d s₁ e₂ left.2 in
        let s₂ = (visitor d s₁).2 in
        let e₃ = append_assoc (seen ++ to_list l) (d ∷ []) (to_list r ++ rest) ∙ e₂ in
        let right = subtree_walk-Collected r ((seen ++ to_list l) ++ d ∷ []) rest s₂ e₃ visit.2 in
        let e₄ : ((seen ++ to_list l) ++ d ∷ []) ++ to_list r
            ≡ seen ++ (to_list l ++ d ∷ to_list r) =
          append_assoc (seen ++ to_list l) (d ∷ []) (to_list r)
          ∙ append_assoc seen (to_list l) (d ∷ to_list r) in
        rw (left.0, visit.0, right.0)
          (
            refl,
            ap (λ x. node c x (visitor d s₁).1 (subtree_walk visitor r s₂).1) left.1
                ∙ ap (λ x. node c l x (subtree_walk visitor r s₂).1) visit.1
                ∙ ap (λ x. node c l d x) right.1,
            rw (← e₄) right.2,
          )

    -- The walk succeeds, leaves the tree as it is, and its state knows of all entries.
    pub c_rbtree_walk-Collects :
        {K : Type 0} (t : RbTree K D) (s : S)
        → to_list t.root ≡ whole
        → P [] s
        → (s' : S) × (c_rbtree_walk visitor t s ≡ (pos 0, t, s')) × P whole s'
    unfolding c_rbtree_walk
    c_rbtree_walk-Collects t s e p =
        let w = subtree_walk-Collected t.root [] [] s (append-nil (to_list t.root) ∙ e) p in
        let s' = (subtree_walk visitor t.root s).2 in
        (
          s',
          rw (w.0) (
              ap (λ root. let o : ℤ × RbTree _ D × S = (pos 0, record t { root = root }, s') in o)
                w.1),
          rw (← e) w.2,
        )
