-- ===== src/RbTree/Visit.antt =====
-- src/std/c_rbtree.c, `c_rbtree_walk`: walks whose visitor writes to the entry that it visits.
use ocsync.Base.{
  ℕ, ◌≡◌, refl, sym, ◌∙◌, ap, Bool, true, false, List, [], ◌∷◌, ◌++◌, map, ℤ, pos, negsuc,
  minus_one, is_negative, if◌then◌else◌, All, All-append, inl, inr, Bool-cases, Ordering,
}
use mathlib.Core.List.{map-append}
use ocsync.RbTree.{Color, Tree, nil, node, RbTree, subtree_walk, c_rbtree_walk, subtree_modify}
use ocsync.RbTree.InOrder.{to_list}
use ocsync.RbTree.Walk.{SameShape, SameShape-refl}

pub All-parts :
    {D : Type 0} (P : D → Type 0) (xs ys : List D) → All P (xs ++ ys) → All P xs × All P ys
All-parts P [] ys h = (tt, h)
All-parts P (x ∷ xs) ys h = let parts = All-parts P xs ys (h.1) in ((h.0, parts.0), parts.1)

module _ {D S : Type 0} (key : D → ℕ) (visitor : D → S → ℤ × D × S) (Pre Post : D → Type 0)
    (Inv : S → Type 0) where
  -- what a visit makes of an entry and of the state
  abbrev pub Visits : ℤ × D × S → D → Type 0
  Visits (rc, d', s') d = Inv s' × (key d' ≡ key d) × (is_negative rc ≡ false → Post d')

  -- what a walk makes of a tree and of the state
  abbrev pub Walks : ℤ × Tree D × S → Tree D → Type 0
  Walks (rc, t', s') t =
      Inv s'
      × (map key (to_list t') ≡ map key (to_list t))
      × SameShape t t'
      × (is_negative rc ≡ false → All Post (to_list t'))

  keys_of_node :
      (l l' r r' : List D) (d d' : D)
      → map key l' ≡ map key l
      → key d' ≡ key d
      → map key r' ≡ map key r
      → map key (l' ++ d' ∷ r') ≡ map key (l ++ d ∷ r)
  keys_of_node l l' r r' d d' e f g =
      map-append key l' (d' ∷ r')
      ∙ ap (λ k. k ++ map key (d' ∷ r')) e
      ∙ ap (λ k. map key l ++ k) (ap (λ k. k ∷ map key r') f ∙ ap (λ ks. key d ∷ ks) g)
      ∙ sym (map-append key l (d ∷ r))

  joined :
      (c : Color) (l r : Tree D) (d : D) (left : ℤ × Tree D × S) (visit : ℤ × D × S)
      (right : ℤ × Tree D × S)
      → Walks left l
      → Visits visit d
      → Walks right r
      → Walks
          (if is_negative left.0
            then (minus_one, node c left.1 d r, left.2)
            else if is_negative visit.0
            then (minus_one, node c left.1 visit.1 r, visit.2)
            else (
              if is_negative right.0 then minus_one else pos 0,
              node c left.1 visit.1 right.1,
              right.2,
            ))
          (node c l d r)
  joined c l r d left visit right hl hd hr = elim (Bool-cases (is_negative left.0)) [
    | inl e ↦ rw (e) (
      hl.0,
      keys_of_node (to_list l) (to_list left.1) (to_list r) (to_list r) d d hl.1 refl refl,
      (refl, hl.2, SameShape-refl r),
      λ no. absurd cc,
    )
    | inr el ↦ elim (Bool-cases (is_negative visit.0)) [
      | inl e ↦
          rw (el, e)
            (
              hd.0,
              keys_of_node (to_list l) (to_list left.1) (to_list r) (to_list r) d visit.1 hl.1 hd.1
                  refl,
              (refl, hl.2, SameShape-refl r),
              λ no. absurd cc,
            )
      | inr ed ↦
          rw (el, ed)
            (
              hr.0,
              keys_of_node (to_list l) (to_list left.1) (to_list r) (to_list right.1) d visit.1 hl.1
                  hd.1 hr.1,
              (refl, hl.2, hr.2),
              λ ok.
                  All-append Post (to_list left.1) (visit.1 ∷ to_list right.1) (hl.3 el)
                    (hd.2 ed, hr.3 (right_ok (is_negative right.0) ok)),
            )
    ]
  ]
    where
      right_ok : (b : Bool) → is_negative (if b then minus_one else pos 0) ≡ false → b ≡ false
      right_ok true e = cc
      right_ok false e = refl

  module _ (visits : (d : D) (s : S) → Pre d → Inv s → Visits (visitor d s) d) where
    subtree_walk-Walks :
        (t : Tree D) (s : S) → All Pre (to_list t) → Inv s → Walks (subtree_walk visitor t s) t
    unfolding subtree_walk
    subtree_walk-Walks nil s p i = (i, refl, tt, λ ok. tt)
    subtree_walk-Walks (node c l d r) s p i =
        let parts = All-parts Pre (to_list l) (d ∷ to_list r) p in
        let left = subtree_walk-Walks l s (parts.0) i in
        let visit = visits d (subtree_walk visitor l s).2 (parts.1.0) (left.0) in
        let right =
          subtree_walk-Walks r (visitor d (subtree_walk visitor l s).2).2 (parts.1.1) (visit.0) in
        joined c l r d (subtree_walk visitor l s) _ _ left visit right

    -- A walk whose visitor keeps keys and an invariant of its state keeps both and the tree's shape,
    -- and unless it failed every entry is as a visit leaves it.
    pub c_rbtree_walk-Walks :
        {K : Type 0} (t : RbTree K D) (s : S)
        → All Pre (to_list t.root)
        → Inv s
        → let o = c_rbtree_walk visitor t s in Walks (o.0, o.1.root, o.2) t.root
    unfolding c_rbtree_walk
    c_rbtree_walk-Walks t s p i =
        let w = subtree_walk-Walks t.root s p i in (w.0, w.1, w.2, λ ok. w.3 (negative _ ok))
      where
        negative :
            (rc : ℤ)
            → is_negative (if is_negative rc then minus_one else pos 0) ≡ false
            → is_negative rc ≡ false
        negative (pos n) e = refl
        negative (negsuc n) e = cc

-- a write that keeps a property of the entries
pub All-modify :
    {D : Type 0} (P : D → Type 0) (cmp : ℕ → D → Ordering) (k : ℕ) (f : D → D)
    → ((d : D) → P d → P (f d))
    → (t : Tree D) → All P (to_list t)
    → All P (to_list (subtree_modify cmp k f t))
unfolding subtree_modify
All-modify P cmp k f keeps nil h = h
All-modify P cmp k f keeps (node c l d r) h =
    let parts = All-parts P (to_list l) (d ∷ to_list r) h in
    step (cmp k d) parts (All-modify P cmp k f keeps l (parts.0))
      (All-modify P cmp k f keeps r (parts.1.1))
  where
    step :
        (o : Ordering)
        → All P (to_list l) × (P d × All P (to_list r))
        → All P (to_list (subtree_modify cmp k f l))
        → All P (to_list (subtree_modify cmp k f r))
        → All P (
            to_list (elim o [
              | Ordering.eq ↦ node c l (f d) r
              | Ordering.lt ↦ node c (subtree_modify cmp k f l) d r
              | Ordering.gt ↦ node c l d (subtree_modify cmp k f r)
            ]))
    step Ordering.lt p a b = All-append P _ (d ∷ to_list r) a (p.1)
    step Ordering.eq p a b =
        All-append P (to_list l) (f d ∷ to_list r) (p.0) (keeps d (p.1.0), p.1.1)
    step Ordering.gt p a b = All-append P (to_list l) (d ∷ _) (p.0) (p.1.0, b)
