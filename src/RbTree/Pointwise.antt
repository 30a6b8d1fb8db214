-- ===== src/RbTree/Pointwise.antt =====
-- What a whole walk does at one key, for a visitor that changes the visited entry and the
-- counterpart of its key in a store that the walk carries along.
use ocsync.Base.{
  ℕ, compare, Ordering, ◌≡◌, refl, ◌∙◌, ap, Option, none, some, map, ℤ, pos, arith, ◌==◌,
  if◌then◌else◌,
}
use mathlib.Core.List.{map-append}
use mathlib.Core.Option
use ocsync.RbTree.{Color, Tree, nil, node, subtree_find, subtree_walk}
use ocsync.RbTree.InOrder.{to_list}
use ocsync.RbTree.Order.{Ascends, Ascends-split}
use ocsync.RbTree.Walk.{SameShape, find-AllBelow, find-AllAbove}

module _ {D S E : Type 0} (key : D → ℕ) (cmp : ℕ → D → Ordering)
    (law : (k : ℕ) (d : D) → cmp k d ≡ compare k (key d)) (visitor : D → S → ℤ × D × S)
    (look : S → ℕ → Option E) (mine : D → Option E → D) (theirs : D → Option E → Option E)
    (Good : S → Type 0) where
  -- The visitor succeeds, gives the entry its new value, changes a good store at most at the entry's
  -- key and leaves it good, and keeps the entry's key.
  pub record VisitsOne : Type 0 where
    pub succeeds : (d : D) (s : S) → (visitor d s).0 ≡ pos 0
    pub entry : (d : D) (s : S) → (visitor d s).1 ≡ mine d (look s (key d))
    pub store :
        (d : D) (s : S) (k : ℕ)
        → Good s
        → look (visitor d s).2 k ≡ (if k == key d then theirs d (look s k) else look s k)
    pub stays : (d : D) (s : S) → Good s → Good (visitor d s).2
    pub keeps : (d : D) (e : Option E) → key (mine d e) ≡ key d

  -- the outcome at one key
  pub record AtKey (t t' : Tree D) (s s' : S) (k : ℕ) : Type 0 where
    pub entry : subtree_find cmp k t' ≡ Option.map (λ d. mine d (look s k)) (subtree_find cmp k t)
    pub store :
        look s' k ≡ (elim (subtree_find cmp k t) [ none ↦ look s k | some d ↦ theirs d (look s k) ])

  module _ (v : VisitsOne) where
    pub walk-succeeds : (t : Tree D) (s : S) → (subtree_walk visitor t s).0 ≡ pos 0
    unfolding subtree_walk
    walk-succeeds nil s = refl
    walk-succeeds (node c l d r) s =
        let w = subtree_walk visitor l s in
        let x = visitor d w.2 in
        ground (arith, walk-succeeds l s, v.succeeds d w.2, walk-succeeds r x.2)

    walk_nil : (s : S) → subtree_walk visitor nil s ≡ (pos 0, nil, s)
    unfolding subtree_walk
    walk_nil s = refl

    walk_node :
        (c : Color) (l : Tree D) (d : D) (r : Tree D) (s : S)
        → let w = subtree_walk visitor l s in
          let x = visitor d w.2 in
          let y = subtree_walk visitor r x.2 in
          ((subtree_walk visitor (node c l d r) s).1 ≡ node c w.1 x.1 y.1)
          × ((subtree_walk visitor (node c l d r) s).2 ≡ y.2)
    unfolding subtree_walk
    walk_node c l d r s =
        let w = subtree_walk visitor l s in
        let x = visitor d w.2 in
        (
          ground (arith, walk-succeeds l s, v.succeeds d w.2),
          ground (arith, walk-succeeds l s, v.succeeds d w.2),
        )

    pub walk-Good : (t : Tree D) (s : S) → Good s → Good (subtree_walk visitor t s).2
    walk-Good nil s g = rw walk_nil g
    walk-Good (node c l d r) s g =
        let w = subtree_walk visitor l s in
        let x = visitor d w.2 in
        rw (walk_node c l d r s).1 (walk-Good r x.2 (v.stays d w.2 (walk-Good l s g)))

    pub walk-keys :
        (t : Tree D) (s : S) → map key (to_list (subtree_walk visitor t s).1) ≡ map key (to_list t)
    walk-keys nil s = rw walk_nil
    walk-keys (node c l d r) s =
        let w = subtree_walk visitor l s in
        let x = visitor d w.2 in
        let same : key x.1 ≡ key d = ap key (v.entry d w.2) ∙ v.keeps d (look w.2 (key d)) in
        rw (walk_node c l d r s).0 (simp (map-append, walk-keys l s, same, walk-keys r x.2))

    pub walk-SameShape : (t : Tree D) (s : S) → SameShape t (subtree_walk visitor t s).1
    walk-SameShape nil s = rw walk_nil tt
    walk-SameShape (node c l d r) s =
        let w = subtree_walk visitor l s in
        let x = visitor d w.2 in
        rw (walk_node c l d r s).0 (refl, walk-SameShape l s, walk-SameShape r x.2)

    -- A walk over an ascending tree acts on each key once, by the value that the store had there
    -- before the walk.
    pub walk-AtKey :
        (t : Tree D) (s : S) (k : ℕ)
        → Ascends key (to_list t)
        → Good s
        → AtKey t (subtree_walk visitor t s).1 s (subtree_walk visitor t s).2 k
    unfolding subtree_find
    walk-AtKey nil s k a g = rw walk_nil (record { entry = refl; store = refl })
    walk-AtKey (node c l d r) s k a g =
        let parts = Ascends-split key (to_list l) d (to_list r) a in
        let w = subtree_walk visitor l s in
        let x = visitor d w.2 in
        let left = walk-AtKey l s k parts.0 g in
        let left_d = walk-AtKey l s (key d) parts.0 g in
        let good = walk-Good l s g in
        let right = walk-AtKey r x.2 k parts.3 (v.stays d w.2 good) in
        let same : key x.1 ≡ key d = ap key (v.entry d w.2) ∙ v.keeps d (look w.2 (key d)) in
        let node_eq = walk_node c l d r s in
        record {
          entry = rw node_eq.0 (
              ground (
                arith,
                law k d,
                law k x.1,
                same,
                left.entry,
                left.store,
                left_d.store,
                right.entry,
                v.entry d w.2,
                v.store d w.2 k good,
                find-AllBelow key cmp law (key d) (key d) l parts.0 parts.1,
                find-AllBelow key cmp law (key d) k l parts.0 parts.1,
              ));
          store = rw node_eq.1 (
              ground (
                arith,
                law k d,
                left.store,
                left_d.store,
                right.store,
                v.store d w.2 k good,
                find-AllBelow key cmp law (key d) k l parts.0 parts.1,
                find-AllAbove key cmp law (key d) k r parts.3 parts.2,
              ));
        }
