-- ===== src/RbTree/Walk.antt =====
-- Walks whose visitor rewrites the visited entry and the counterpart of its key in another store,
-- and writes through the pointer that a search returns.
use ocsync.Base.{
  ℕ, ◌<◌, ◌≤◌, compare, Ordering, ◌≡◌, refl, ◌∙◌, inl, inr, none, List, [], ◌∷◌, map, arith, ◌==◌,
  if◌then◌else◌, Ordering-cases, All,
}
use mathlib.Core.List.{map-append}
use mathlib.Core.Option
use ocsync.RbTree.{Tree, nil, node, color_of, subtree_find, subtree_modify}
use ocsync.RbTree.InOrder.{to_list}
use ocsync.RbTree.Order.{
  Ascends, AllBelow, AllAbove, search_list-AllBelow, search_list-AllAbove, find-search_list,
}

-- the same colours in the same places
abbrev pub SameShape : {D : Type 0} → Tree D → Tree D → Type 0
SameShape nil nil = Unit
SameShape nil (node _ _ _ _) = ⊥
SameShape (node _ _ _ _) nil = ⊥
SameShape (node c l d r) (node c' l' d' r') = (c' ≡ c) × SameShape l l' × SameShape r r'

module _ {D : Type 0} where
  SameShape-color : (t u : Tree D) → SameShape t u → color_of u ≡ color_of t
  SameShape-color nil nil h = refl
  SameShape-color nil (node c l d r) h = absurd h
  SameShape-color (node c l d r) nil h = absurd h
  SameShape-color (node c l d r) (node c' l' d' r') h = h.0

  pub SameShape-refl : (t : Tree D) → SameShape t t
  SameShape-refl nil = tt
  SameShape-refl (node c l d r) = (refl, SameShape-refl l, SameShape-refl r)

module _ {D : Type 0} (key : D → ℕ) where
  All-keys :
      (P : ℕ → Type 0) (xs ys : List D)
      → map key xs ≡ map key ys
      → All (λ x. P (key x)) xs
      → All (λ x. P (key x)) ys
  All-keys P [] [] e h = tt
  All-keys P [] (y ∷ ys) e h = cc
  All-keys P (x ∷ xs) [] e h = cc
  All-keys P (x ∷ xs) (y ∷ ys) e h =
      let heads : key x ≡ key y = cc in
      let tails : map key xs ≡ map key ys = cc in (rw heads at (h.0), All-keys P xs ys tails h.1)

  -- whether a sequence ascends depends on its keys alone
  pub Ascends-keys : (xs ys : List D) → map key xs ≡ map key ys → Ascends key xs → Ascends key ys
  Ascends-keys [] [] e h = tt
  Ascends-keys [] (y ∷ ys) e h = cc
  Ascends-keys (x ∷ xs) [] e h = cc
  Ascends-keys (x ∷ xs) (y ∷ ys) e h =
      let heads : key x ≡ key y = cc in
      let tails : map key xs ≡ map key ys = cc in
      (rw heads at (All-keys (λ k. key x < k) xs ys tails h.0), Ascends-keys xs ys tails h.1)

  module _ (cmp : ℕ → D → Ordering) (law : (k : ℕ) (d : D) → cmp k d ≡ compare k (key d)) where
    pub find-AllBelow :
        (j k : ℕ) (t : Tree D)
        → Ascends key (to_list t)
        → AllBelow key j (to_list t)
        → j ≤ k
        → subtree_find cmp k t ≡ none
    find-AllBelow j k t s b le =
        find-search_list key cmp law k t s
        ∙ search_list-AllBelow key k j (to_list t) (omega arith) b

    pub find-AllAbove :
        (j k : ℕ) (t : Tree D)
        → Ascends key (to_list t)
        → AllAbove key j (to_list t)
        → k ≤ j
        → subtree_find cmp k t ≡ none
    find-AllAbove j k t s b le =
        find-search_list key cmp law k t s
        ∙ search_list-AllAbove key k j (to_list t) (omega arith) b

    module _ (f : D → D) (keeps : (d : D) → key (f d) ≡ key d) where
      -- a search after a write through the pointer found for `k`
      pub find-modify :
          (j k : ℕ) (t : Tree D)
          → subtree_find cmp j (subtree_modify cmp k f t)
            ≡ (if j == k then Option.map f (subtree_find cmp k t) else subtree_find cmp j t)
      unfolding subtree_find subtree_modify
      find-modify j k nil = ground arith
      find-modify j k (node c l d r) =
          ground
            (arith, law j d, law k d, law j (f d), keeps d, find-modify j k l, find-modify j k r)

      pub modify-keys :
          (k : ℕ) (t : Tree D) → map key (to_list (subtree_modify cmp k f t)) ≡ map key (to_list t)
      unfolding subtree_modify
      modify-keys k nil = refl
      modify-keys k (node c l d r) = elim (Ordering-cases (cmp k d)) [
        | inl o ↦ rw (o, subtree_modify) (simp (map-append, modify-keys k l))
        | inr (inl o) ↦ rw (o, subtree_modify) (simp (map-append, keeps))
        | inr (inr o) ↦ rw (o, subtree_modify) (simp (map-append, modify-keys k r))
      ]

    pub modify-SameShape : (f : D → D) (k : ℕ) (t : Tree D) → SameShape t (subtree_modify cmp k f t)
    unfolding subtree_modify
    modify-SameShape f k nil = tt
    modify-SameShape f k (node c l d r) = elim (Ordering-cases (cmp k d)) [
      | inl o ↦ rw (o, subtree_modify) (refl, modify-SameShape f k l, SameShape-refl r)
      | inr (inl o) ↦ rw (o, subtree_modify) (refl, SameShape-refl l, SameShape-refl r)
      | inr (inr o) ↦ rw (o, subtree_modify) (refl, SameShape-refl l, modify-SameShape f k r)
    ]
