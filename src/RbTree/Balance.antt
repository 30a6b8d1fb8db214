-- ===== src/RbTree/Balance.antt =====
-- The red-black properties: equal black heights and no red node under a red one, and the repair
-- loop of the insertion.
use ocsync.Base.{
  ℕ, zero, suc, ◌≡◌, refl, ◌⊎◌, inl, inr, Option, none, some, List, [], ◌∷◌, arith, Ordering,
}
use mathlib.Core.Path.{subst₂}
use ocsync.RbTree.{
  Color, black, red, Tree, nil, node, Frame, from_left, from_right, color_of, set_color,
  frame_color, zip_up, insert_fixup, descend,
}

module _ {D : Type 0} where
  -- every path down has this many black nodes, and a red node's children are black
  abbrev pub HasHeight : ℕ → Tree D → Type 0
  HasHeight n nil = n ≡ 0
  HasHeight n (node red l d r) =
      HasHeight n l × HasHeight n r × (color_of l ≡ black) × (color_of r ≡ black)
  HasHeight zero (node black l d r) = ⊥
  HasHeight (suc n) (node black l d r) = HasHeight n l × HasHeight n r

  abbrev pub parent_color : List (Frame D) → Option Color
  parent_color [] = none
  parent_color (f ∷ fs) = some (frame_color f)

  -- the path of a place where a black node of height `n` keeps the whole tree balanced
  abbrev pub Fits : ℕ → List (Frame D) → Type 0
  Fits n [] = Unit
  Fits n (from_left black d r ∷ fs) = HasHeight n r × Fits (suc n) fs
  Fits n (from_right black l d ∷ fs) = HasHeight n l × Fits (suc n) fs
  Fits n (from_left red d r ∷ fs) =
      HasHeight n r × (color_of r ≡ black) × (parent_color fs ≡ some black) × Fits n fs
  Fits n (from_right red l d ∷ fs) =
      HasHeight n l × (color_of l ≡ black) × (parent_color fs ≡ some black) × Fits n fs

  -- no red node under a red parent here
  abbrev pub NoClash : Tree D → List (Frame D) → Type 0
  NoClash t fs = (color_of t ≡ black) ⊎ (parent_color fs ≡ some black)

  abbrev pub IsBalanced : Tree D → Type 0
  IsBalanced t = (n : ℕ) × HasHeight n t

  zip_up-IsBalanced :
      (fs : List (Frame D)) (n : ℕ) (t : Tree D)
      → HasHeight n t
      → Fits n fs
      → NoClash t fs
      → IsBalanced (zip_up t fs)
  unfolding zip_up
  zip_up-IsBalanced [] n t h fit ok = (n, h)
  zip_up-IsBalanced (from_left black d r ∷ fs) n t h fit ok =
      zip_up-IsBalanced fs (suc n) (node black t d r) (h, fit.0) fit.1 (inl refl)
  zip_up-IsBalanced (from_right black l d ∷ fs) n t h fit ok =
      zip_up-IsBalanced fs (suc n) (node black l d t) (fit.0, h) fit.1 (inl refl)
  zip_up-IsBalanced (from_left red d r ∷ fs) n t h fit ok =
      zip_up-IsBalanced fs n (node red t d r) (h, fit.0, ground arith, fit.1) fit.3 (inr fit.2)
  zip_up-IsBalanced (from_right red l d ∷ fs) n t h fit ok =
      zip_up-IsBalanced fs n (node red l d t) (fit.0, h, fit.1, ground arith) fit.3 (inr fit.2)

  -- the root may be painted black
  set_color-IsBalanced : (t : Tree D) → IsBalanced t → IsBalanced (set_color black t)
  set_color-IsBalanced nil h = h
  set_color-IsBalanced (node black l d r) h = h
  set_color-IsBalanced (node red l d r) (n, h) = (suc n, (h.0, h.1))

  -- a run of the loop that ends, with a balanced tree once its root is black
  abbrev pub Repaired : Option (Tree D) → Type 0
  Repaired o = (t : Tree D) × (o ≡ some t) × IsBalanced (set_color black t)

  ends :
      (fs : List (Frame D)) (n : ℕ) (t : Tree D)
      → HasHeight n t
      → Fits n fs
      → NoClash t fs
      → Repaired (some (zip_up t fs))
  ends fs n t h fit ok =
      (zip_up t fs, refl, set_color-IsBalanced _ (zip_up-IsBalanced fs n t h fit ok))

  pub insert_fixup-Repaired :
      (fs : List (Frame D)) (n : ℕ) (a : Tree D) (x : D) (b : Tree D)
      → HasHeight n (node red a x b)
      → Fits n fs
      → Repaired (insert_fixup a x b fs)
  unfolding insert_fixup zip_up
  insert_fixup-Repaired [] n a x b h fit = (node red a x b, refl, (suc n, (h.0, h.1)))
  insert_fixup-Repaired (from_left black d r ∷ []) n a x b h fit =
      ends (from_left black d r ∷ []) n (node red a x b) h fit (inr refl)
  insert_fixup-Repaired (from_right black l d ∷ []) n a x b h fit =
      ends (from_right black l d ∷ []) n (node red a x b) h fit (inr refl)
  insert_fixup-Repaired (from_left red d r ∷ []) n a x b h fit = absurd (ground arith)
  insert_fixup-Repaired (from_right red l d ∷ []) n a x b h fit = absurd (ground arith)
  insert_fixup-Repaired (from_left black d r ∷ from_left c g u ∷ fs) n a x b h fit =
      ends (from_left black d r ∷ from_left c g u ∷ fs) n (node red a x b) h fit (inr refl)
  insert_fixup-Repaired (from_left red d r ∷ from_left red g u ∷ fs) n a x b h fit =
      absurd (ground arith)
  insert_fixup-Repaired (from_left red d r ∷ from_left black g (node red ul ud ur) ∷ fs) n a x b h
        fit =
      insert_fixup-Repaired fs (suc n) (node black (node red a x b) d r) g (node black ul ud ur)
        ((h, fit.0), (fit.3.0.0, fit.3.0.1), refl, refl) fit.3.1
  insert_fixup-Repaired (from_left red d r ∷ from_left black g nil ∷ fs) n a x b h fit =
      ends fs (suc n) (node black (node red a x b) d (node red r g nil))
        (h, (fit.0, fit.3.0, fit.1, refl)) fit.3.1 (inl refl)
  insert_fixup-Repaired (from_left red d r ∷ from_left black g (node black ul ud ur) ∷ fs) n a x b h
        fit =
      ends fs (suc n) (node black (node red a x b) d (node red r g (node black ul ud ur)))
        (h, (fit.0, fit.3.0, fit.1, refl)) fit.3.1 (inl refl)
  insert_fixup-Repaired (from_right black l d ∷ from_left c g u ∷ fs) n a x b h fit =
      ends (from_right black l d ∷ from_left c g u ∷ fs) n (node red a x b) h fit (inr refl)
  insert_fixup-Repaired (from_right red l d ∷ from_left red g u ∷ fs) n a x b h fit =
      absurd (ground arith)
  insert_fixup-Repaired (from_right red l d ∷ from_left black g (node red ul ud ur) ∷ fs) n a x b h
        fit =
      insert_fixup-Repaired fs (suc n) (node black l d (node red a x b)) g (node black ul ud ur)
        ((fit.0, h), (fit.3.0.0, fit.3.0.1), refl, refl) fit.3.1
  insert_fixup-Repaired (from_right red l d ∷ from_left black g nil ∷ fs) n a x b h fit =
      ends fs (suc n) (node black (node red l d a) x (node red b g nil))
        ((fit.0, h.0, fit.1, h.2), (h.1, fit.3.0, h.3, refl)) fit.3.1 (inl refl)
  insert_fixup-Repaired (from_right red l d ∷ from_left black g (node black ul ud ur) ∷ fs) n a x b
        h fit =
      ends fs (suc n) (node black (node red l d a) x (node red b g (node black ul ud ur)))
        ((fit.0, h.0, fit.1, h.2), (h.1, fit.3.0, h.3, refl)) fit.3.1 (inl refl)
  insert_fixup-Repaired (from_left black d r ∷ from_right c u g ∷ fs) n a x b h fit =
      ends (from_left black d r ∷ from_right c u g ∷ fs) n (node red a x b) h fit (inr refl)
  insert_fixup-Repaired (from_left red d r ∷ from_right red u g ∷ fs) n a x b h fit =
      absurd (ground arith)
  insert_fixup-Repaired (from_left red d r ∷ from_right black (node red ul ud ur) g ∷ fs) n a x b h
        fit =
      insert_fixup-Repaired fs (suc n) (node black ul ud ur) g (node black (node red a x b) d r)
        ((fit.3.0.0, fit.3.0.1), (h, fit.0), refl, refl) fit.3.1
  insert_fixup-Repaired (from_left red d r ∷ from_right black nil g ∷ fs) n a x b h fit =
      ends fs (suc n) (node black (node red nil g a) x (node red b d r))
        ((fit.3.0, h.0, refl, h.2), (h.1, fit.0, h.3, fit.1)) fit.3.1 (inl refl)
  insert_fixup-Repaired (from_left red d r ∷ from_right black (node black ul ud ur) g ∷ fs) n a x b
        h fit =
      ends fs (suc n) (node black (node red (node black ul ud ur) g a) x (node red b d r))
        ((fit.3.0, h.0, refl, h.2), (h.1, fit.0, h.3, fit.1)) fit.3.1 (inl refl)
  insert_fixup-Repaired (from_right black l d ∷ from_right c u g ∷ fs) n a x b h fit =
      ends (from_right black l d ∷ from_right c u g ∷ fs) n (node red a x b) h fit (inr refl)
  insert_fixup-Repaired (from_right red l d ∷ from_right red u g ∷ fs) n a x b h fit =
      absurd (ground arith)
  insert_fixup-Repaired (from_right red l d ∷ from_right black (node red ul ud ur) g ∷ fs) n a x b h
        fit =
      insert_fixup-Repaired fs (suc n) (node black ul ud ur) g (node black l d (node red a x b))
        ((fit.3.0.0, fit.3.0.1), (fit.0, h), refl, refl) fit.3.1
  insert_fixup-Repaired (from_right red l d ∷ from_right black nil g ∷ fs) n a x b h fit =
      ends fs (suc n) (node black (node red nil g l) d (node red a x b))
        ((fit.3.0, fit.0, refl, fit.1), h) fit.3.1 (inl refl)
  insert_fixup-Repaired (from_right red l d ∷ from_right black (node black ul ud ur) g ∷ fs) n a x b
        h fit =
      ends fs (suc n) (node black (node red (node black ul ud ur) g l) d (node red a x b))
        ((fit.3.0, fit.0, refl, fit.1), h) fit.3.1 (inl refl)

  -- The search reaches a leaf whose path keeps the tree balanced.
  pub descend-Fits :
      (cmp : D → D → Ordering) (x : D) (t : Tree D) (n : ℕ) (fs : List (Frame D))
      (gs : List (Frame D))
      → descend cmp x t fs ≡ some gs
      → HasHeight n t
      → Fits n fs
      → NoClash t fs
      → Fits 0 gs
  unfolding descend
  descend-Fits cmp x nil n fs gs e h fit ok = let same : fs ≡ gs = cc in subst₂ Fits h same fit
  descend-Fits cmp x (node red l d r) n fs gs e h fit ok = ground (
    arith,
    descend-Fits cmp x l n (from_left red d r ∷ fs) gs,
    descend-Fits cmp x r n (from_right red l d ∷ fs) gs,
  )
  descend-Fits cmp x (node black l d r) zero fs gs e h fit ok = absurd h
  descend-Fits cmp x (node black l d r) (suc n) fs gs e h fit ok = ground (
    arith,
    descend-Fits cmp x l n (from_left black d r ∷ fs) gs,
    descend-Fits cmp x r n (from_right black l d ∷ fs) gs,
  )
