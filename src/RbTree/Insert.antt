-- ===== src/RbTree/Insert.antt =====
-- `c_rbtree_insert` as a whole: what it returns, what it keeps, and what a search finds afterwards.
use ocsync.Base.{
  ℕ, ◌+◌, ◌%◌, ◌^◌, ◌<◌, compare, Ordering, lt, eq, gt, ◌≡◌, refl, ◌≢◌, ◌∙◌, inl, inr, Bool, true,
  none, some, List, [], ◌∷◌, ◌++◌, append_assoc, append-nil, pos, arith, ◌==◌, if◌then◌else◌,
  length, length-append, Option-cases, Ordering-cases, All-append, All-imp,
}
use ocsync.RbTree.{
  Color, black, red, Tree, nil, node, Frame, from_left, from_right, color_of, set_color, RbTree,
  insert_fixup, descend, subtree_find, c_rbtree_find, c_rbtree_insert,
}
use ocsync.RbTree.InOrder.{
  to_list, before, behind, to_list-zip_up, to_list-insert_fixup, to_list-set_color,
}
use ocsync.RbTree.Order.{
  Ascends, AllBelow, AllAbove, Ascends-split, Ascends-join, Ascends-left, Ascends-right,
  search_list, search_list-append, search_list-AllBelow, search_list-AllAbove, find-search_list,
}
use ocsync.RbTree.Balance.{Fits, IsBalanced, insert_fixup-Repaired, descend-Fits}

module _ {D : Type 0} (key : D → ℕ) where
  -- both comparison functions of the tree go by the key
  pub record IsKeyed (t : RbTree ℕ D) : Type 0 where
    pub by_key : (k : ℕ) (d : D) → t.key_compare k d ≡ compare k (key d)
    pub by_data : (d e : D) → t.data_compare d e ≡ compare (key d) (key e)

  -- The invariant of a tree: ascending keys, balance, a black root, and a size that counts the
  -- nodes modulo the width of `size_t`.
  pub record IsValid (t : RbTree ℕ D) : Type 0 where
    pub keyed : IsKeyed t
    pub ascends : Ascends key (to_list t.root)
    pub balanced : IsBalanced t.root
    pub root_black : color_of t.root ≡ black
    pub counted : t.size ≡ length (to_list t.root) % 2 ^ 64

  -- where the search of the insertion ends: between the smaller and the greater keys
  record Cut (x : D) (t : Tree D) (fs gs : List (Frame D)) : Type 0 where
    low : List D
    high : List D
    cut : to_list t ≡ low ++ high
    low_below : AllBelow key (key x) low
    high_above : AllAbove key (key x) high
    before_eq : before gs ≡ before fs ++ low
    behind_eq : behind gs ≡ high ++ behind fs

  Cut-left :
      (x : D) (c : Color) (l : Tree D) (d : D) (r : Tree D) (fs gs : List (Frame D))
      → Ascends key (to_list (node c l d r))
      → key x < key d
      → Cut x l (from_left c d r ∷ fs) gs
      → Cut x (node c l d r) fs gs
  Cut-left x c l d r fs gs s less k =
      let parts = Ascends-split key (to_list l) d (to_list r) s in
      record {
        low = k.low;
        high = k.high ++ d ∷ to_list r;
        cut = rw (k.cut, append_assoc);
        low_below = k.low_below;
        high_above =
            All-append (λ e. key x < key e) k.high (d ∷ to_list r) k.high_above
              (less, All-imp {P = λ e. key d < key e} (λ e p. omega arith) (to_list r) parts.2);
        before_eq = k.before_eq;
        behind_eq = rw (k.behind_eq, append_assoc);
      }

  Cut-right :
      (x : D) (c : Color) (l : Tree D) (d : D) (r : Tree D) (fs gs : List (Frame D))
      → Ascends key (to_list (node c l d r))
      → key d < key x
      → Cut x r (from_right c l d ∷ fs) gs
      → Cut x (node c l d r) fs gs
  Cut-right x c l d r fs gs s less k =
      let parts = Ascends-split key (to_list l) d (to_list r) s in
      record {
        low = to_list l ++ d ∷ k.low;
        high = k.high;
        cut = simp (k.cut, append_assoc);
        low_below =
            All-append (λ e. key e < key x) (to_list l) (d ∷ k.low)
              (All-imp {P = λ e. key e < key d} (λ e p. omega arith) (to_list l) parts.1)
              (less, k.low_below);
        high_above = k.high_above;
        before_eq = simp (k.before_eq, append_assoc);
        behind_eq = k.behind_eq;
      }

  module _ (cmp : D → D → Ordering) (law : (d e : D) → cmp d e ≡ compare (key d) (key e)) where
    descend-Cut :
        (x : D) (t : Tree D) (fs gs : List (Frame D))
        → Ascends key (to_list t)
        → descend cmp x t fs ≡ some gs
        → Cut x t fs gs
    unfolding descend
    descend-Cut x nil fs gs s e =
        let same : gs ≡ fs = cc in
        record {
          low = [];
          high = [];
          cut = refl;
          low_below = tt;
          high_above = tt;
          before_eq = rw (same, append-nil);
          behind_eq = rw same;
        }
    descend-Cut x (node c l d r) fs gs s e =
        let parts = Ascends-split key (to_list l) d (to_list r) s in
        elim (Ordering-cases (cmp x d)) [
          | inl o ↦
              Cut-left x c l d r fs gs s (ground (arith, law x d))
                (descend-Cut x l (from_left c d r ∷ fs) gs parts.0 (rw (o, descend) at e))
          | inr (inl o) ↦ absurd (ground (arith))
          | inr (inr o) ↦
              Cut-right x c l d r fs gs s (ground (arith, law x d))
                (descend-Cut x r (from_right c l d ∷ fs) gs parts.3 (rw (o, descend) at e))
        ]

    -- A search that ends at no leaf has met the key.
    descend-none :
        (x : D) (t : Tree D) (fs : List (Frame D)) (kcmp : ℕ → D → Ordering)
        → ((k : ℕ) (d : D) → kcmp k d ≡ compare k (key d))
        → descend cmp x t fs ≡ none
        → subtree_find kcmp (key x) t ≢ none
    unfolding descend subtree_find
    descend-none x nil fs kcmp klaw e = cc
    descend-none x (node c l d r) fs kcmp klaw e =
        let kl = klaw (key x) d in
        let dl = law x d in
        elim (Ordering-cases (cmp x d)) [
          | inl o ↦
              let k : kcmp (key x) d ≡ lt = cc in
              rw (k, subtree_find)
                (descend-none x l (from_left c d r ∷ fs) kcmp klaw (rw (o, descend) at e))
          | inr (inl o) ↦ let k : kcmp (key x) d ≡ eq = cc in rw (k, subtree_find) (λ q. cc)
          | inr (inr o) ↦
              let k : kcmp (key x) d ≡ gt = cc in
              rw (k, subtree_find)
                (descend-none x r (from_right c l d ∷ fs) kcmp klaw (rw (o, descend) at e))
        ]

  -- the tree after a node for `x` was added
  pub record Added (x : D) (t t' : RbTree ℕ D) : Type 0 where
    pub valid : IsValid t'
    pub finds : (k : ℕ) → c_rbtree_find t' k ≡ (if k == key x then some x else c_rbtree_find t k)
    pub longer : length (to_list t'.root) ≡ length (to_list t.root) + 1

  module _ (x : D) (t : RbTree ℕ D) (v : IsValid t) where
    to_list-descend :
        (gs : List (Frame D)) (whole : Tree D)
        → insert_fixup nil x nil gs ≡ some whole
        → to_list (set_color black whole) ≡ before gs ++ x ∷ behind gs
    to_list-descend gs whole e =
        to_list-set_color black whole
        ∙ (to_list-insert_fixup nil x nil gs e ∙ to_list-zip_up (node red nil x nil) gs)

    find_list :
        (u : RbTree ℕ D)
        → IsKeyed u
        → Ascends key (to_list u.root)
        → (k : ℕ) → c_rbtree_find u k ≡ search_list key k (to_list u.root)
    unfolding c_rbtree_find
    find_list u w a k = find-search_list key u.key_compare w.by_key k u.root a

    painted :
        (whole : Tree D)
        → IsBalanced (set_color black whole)
        → color_of (set_color black whole) ≡ black
    painted nil h = refl
    painted (node c l d r) h = refl

    search_list_cut :
        (low high : List D) (k : ℕ)
        → AllBelow key (key x) low
        → search_list key k (low ++ x ∷ high)
          ≡ (if k == key x then some x else search_list key k (low ++ high))
    search_list_cut low high k b =
        rw (search_list-append key k low (x ∷ high), search_list-append key k low high)
          (ground (arith, search_list-AllBelow key k (key x) low))

    Added-of :
        (gs : List (Frame D)) (whole : Tree D) (k : Cut x t.root [] gs)
        → insert_fixup nil x nil gs ≡ some whole
        → IsBalanced (set_color black whole)
        → Added x t (record t { root = set_color black whole; size = (t.size + 1) % 2 ^ 64 })
    Added-of gs whole k e b =
        let after : to_list (set_color black whole) ≡ k.low ++ x ∷ k.high =
          to_list-descend gs whole e ∙ rw (k.before_eq, k.behind_eq, append-nil) in
        let u : RbTree ℕ D = record t {
          root = set_color black whole;
          size = (t.size + 1) % 2 ^ 64;
        } in
        let w : IsKeyed u = record { by_key = v.keyed.by_key; by_data = v.keyed.by_data } in
        let order : Ascends key (to_list u.root) = rw after (
          let whole_order = rw k.cut at (v.ascends) in
          Ascends-join key k.low x k.high (Ascends-left key k.low k.high whole_order) k.low_below
            k.high_above (Ascends-right key k.low k.high whole_order)) in
        let count : length (to_list u.root) ≡ length (to_list t.root) + 1 =
          rw (after, k.cut)
            (omega (arith, length-append k.low (x ∷ k.high), length-append k.low k.high)) in
        record {
          valid = record {
            keyed = w;
            ascends = order;
            balanced = b;
            root_black = painted whole b;
            counted = omega (arith, v.counted, count);
          };
          finds = λ j.
              find_list u w order j
              ∙ rw (after, find_list t v.keyed v.ascends j, k.cut)
                  (search_list_cut k.low k.high j k.low_below);
          longer = count;
        }

    Cut-absent :
        (gs : List (Frame D))
        → descend t.data_compare x t.root [] ≡ some gs
        → c_rbtree_find t (key x) ≡ none
    Cut-absent gs e =
        let k = descend-Cut t.data_compare v.keyed.by_data x t.root [] gs v.ascends e in
        find_list t v.keyed v.ascends (key x)
        ∙ rw
            (
              k.cut,
              search_list-append key (key x) k.low k.high,
              search_list-AllBelow key (key x) (key x) k.low (omega arith) k.low_below,
            )
            (search_list-AllAbove key (key x) (key x) k.high (omega arith) k.high_above)

    descend_absent :
        c_rbtree_find t (key x) ≡ none
        → (gs : List (Frame D)) × (descend t.data_compare x t.root [] ≡ some gs)
          × Cut x t.root [] gs
    unfolding c_rbtree_find
    descend_absent absent = elim (Option-cases (descend t.data_compare x t.root [])) [
      | inl e ↦ absurd (
          descend-none t.data_compare v.keyed.by_data x t.root [] t.key_compare v.keyed.by_key e
            absent)
      | inr (gs, e) ↦ (gs, e, descend-Cut t.data_compare v.keyed.by_data x t.root [] gs v.ascends e)
    ]

  -- On a valid tree that holds no entry with the key of `x`, and with memory for a node, the
  -- insertion follows no null pointer and returns 0. The new tree is valid (ascending keys,
  -- red-black balance, black root, `size` counted), has one entry more, and a search in it finds
  -- `x` at its key and at every other key what it found before.
  pub insert_absent :
      (x : D) (t : RbTree ℕ D)
      → IsValid t
      → c_rbtree_find t (key x) ≡ none
      → (t' : RbTree ℕ D) × (c_rbtree_insert true t x ≡ some (pos 0, t')) × Added x t t'
  unfolding c_rbtree_insert
  insert_absent x t v absent =
      let (gs, e, k) = descend_absent x t v absent in
      let fits : Fits 0 gs =
        descend-Fits t.data_compare x t.root v.balanced.0 [] gs e v.balanced.1 tt
          (inl v.root_black) in
      let (whole, done, b) = insert_fixup-Repaired gs 0 nil x nil (refl, refl, refl, refl) fits in
      (_, rw (e, done, c_rbtree_insert), Added-of x t v gs whole k done b)

  -- Where a search finds an entry with the key of `x`, the insertion returns 1 and changes nothing.
  pub insert_present :
      (allocated : Bool) (x : D) (t : RbTree ℕ D) {y : D}
      → IsValid t
      → c_rbtree_find t (key x) ≡ some y
      → c_rbtree_insert allocated t x ≡ some (pos 1, t)
  unfolding c_rbtree_insert
  insert_present allocated x t v found = elim (Option-cases (descend t.data_compare x t.root [])) [
    | inl e ↦ rw (e, c_rbtree_insert)
    | inr (gs, e) ↦ let gone = Cut-absent x t v gs e in cc
  ]
