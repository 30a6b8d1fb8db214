-- ===== src/RbTree/InOrder.antt =====
-- The sequence of a tree's data in walking order, also under the insertion's repair loop.
use ocsync.Base.{◌≡◌, refl, sym, ap, ◌∙◌, some, List, [], ◌∷◌, ◌++◌, append_assoc, append-nil}
use ocsync.RbTree.{
  Color, black, red, Tree, nil, node, Frame, from_left, from_right, set_color, zip_up, insert_fixup,
}

module _ {ℓ} {D : Type ℓ} where
  abbrev pub to_list : Tree D → List D
  to_list nil = []
  to_list (node c l d r) = to_list l ++ d ∷ to_list r

  -- what stands before and behind the node at the end of a path
  abbrev pub before : List (Frame D) → List D
  before [] = []
  before (from_left c d r ∷ fs) = before fs
  before (from_right c l d ∷ fs) = before fs ++ (to_list l ++ d ∷ [])

  abbrev pub behind : List (Frame D) → List D
  behind [] = []
  behind (from_left c d r ∷ fs) = (d ∷ to_list r) ++ behind fs
  behind (from_right c l d ∷ fs) = behind fs

  pub to_list-zip_up :
      (t : Tree D) (fs : List (Frame D))
      → to_list (zip_up t fs) ≡ before fs ++ (to_list t ++ behind fs)
  unfolding zip_up
  to_list-zip_up t [] = sym (append-nil _)
  to_list-zip_up t (from_left c d r ∷ fs) = simp (to_list-zip_up (node c t d r) fs, append_assoc)
  to_list-zip_up t (from_right c l d ∷ fs) = simp (to_list-zip_up (node c l d t) fs, append_assoc)

  pub to_list-set_color : (c : Color) (t : Tree D) → to_list (set_color c t) ≡ to_list t
  to_list-set_color c nil = refl
  to_list-set_color c (node _ l d r) = refl

  zip_up_congr :
      (u v : Tree D) (fs : List (Frame D))
      → to_list u ≡ to_list v
      → to_list (zip_up u fs) ≡ to_list (zip_up v fs)
  zip_up_congr u v fs e = rw (to_list-zip_up u fs, to_list-zip_up v fs, e)

  -- A step that ends the loop with `u` where `v` stood.
  ends_with :
      (u v : Tree D) (fs : List (Frame D)) {t : Tree D}
      → to_list u ≡ to_list v
      → some (zip_up u fs) ≡ some t
      → to_list t ≡ to_list (zip_up v fs)
  ends_with u v fs {t} e h =
      let top : zip_up u fs ≡ t = cc in sym (ap to_list top) ∙ zip_up_congr u v fs e

  -- The repaired tree holds the same sequence as the tree with the red node hung on the path.
  pub to_list-insert_fixup :
      (a : Tree D) (x : D) (b : Tree D) (fs : List (Frame D)) {t : Tree D}
      → insert_fixup a x b fs ≡ some t
      → to_list t ≡ to_list (zip_up (node red a x b) fs)
  unfolding insert_fixup zip_up
  to_list-insert_fixup a x b [] h = ends_with (node red a x b) (node red a x b) [] refl h
  to_list-insert_fixup a x b (from_left black d r ∷ []) h =
      ends_with (node black (node red a x b) d r) (node black (node red a x b) d r) [] refl h
  to_list-insert_fixup a x b (from_left red d r ∷ []) h = cc
  to_list-insert_fixup a x b (from_right black l d ∷ []) h =
      ends_with (node black l d (node red a x b)) (node black l d (node red a x b)) [] refl h
  to_list-insert_fixup a x b (from_right red l d ∷ []) h = cc
  to_list-insert_fixup a x b (from_left black d r ∷ from_left c g u ∷ fs) h =
      ends_with (node red a x b) _ (from_left black d r ∷ from_left c g u ∷ fs) refl h
  to_list-insert_fixup a x b (from_left red d r ∷ from_left c g (node red ul ud ur) ∷ fs) h =
      to_list-insert_fixup (node black (node red a x b) d r) g (node black ul ud ur) fs h
      ∙ zip_up_congr (node red (node black (node red a x b) d r) g (node black ul ud ur)) _ fs refl
  to_list-insert_fixup a x b (from_left red d r ∷ from_left c g nil ∷ fs) h =
      ends_with _ _ fs (simp append_assoc) h
  to_list-insert_fixup a x b (from_left red d r ∷ from_left c g (node black ul ud ur) ∷ fs) h =
      ends_with _ _ fs (simp append_assoc) h
  to_list-insert_fixup a x b (from_right black l d ∷ from_left c g u ∷ fs) h =
      ends_with (node red a x b) _ (from_right black l d ∷ from_left c g u ∷ fs) refl h
  to_list-insert_fixup a x b (from_right red l d ∷ from_left c g (node red ul ud ur) ∷ fs) h =
      to_list-insert_fixup (node black l d (node red a x b)) g (node black ul ud ur) fs h
      ∙ zip_up_congr (node red (node black l d (node red a x b)) g (node black ul ud ur)) _ fs refl
  to_list-insert_fixup a x b (from_right red l d ∷ from_left c g nil ∷ fs) h =
      ends_with _ _ fs (simp append_assoc) h
  to_list-insert_fixup a x b (from_right red l d ∷ from_left c g (node black ul ud ur) ∷ fs) h =
      ends_with _ _ fs (simp append_assoc) h
  to_list-insert_fixup a x b (from_left black d r ∷ from_right c u g ∷ fs) h =
      ends_with (node red a x b) _ (from_left black d r ∷ from_right c u g ∷ fs) refl h
  to_list-insert_fixup a x b (from_left red d r ∷ from_right c (node red ul ud ur) g ∷ fs) h =
      to_list-insert_fixup (node black ul ud ur) g (node black (node red a x b) d r) fs h
      ∙ zip_up_congr (node red (node black ul ud ur) g (node black (node red a x b) d r)) _ fs refl
  to_list-insert_fixup a x b (from_left red d r ∷ from_right c nil g ∷ fs) h =
      ends_with _ _ fs (simp append_assoc) h
  to_list-insert_fixup a x b (from_left red d r ∷ from_right c (node black ul ud ur) g ∷ fs) h =
      ends_with _ _ fs (simp append_assoc) h
  to_list-insert_fixup a x b (from_right black l d ∷ from_right c u g ∷ fs) h =
      ends_with (node red a x b) _ (from_right black l d ∷ from_right c u g ∷ fs) refl h
  to_list-insert_fixup a x b (from_right red l d ∷ from_right c (node red ul ud ur) g ∷ fs) h =
      to_list-insert_fixup (node black ul ud ur) g (node black l d (node red a x b)) fs h
      ∙ zip_up_congr (node red (node black ul ud ur) g (node black l d (node red a x b))) _ fs refl
  to_list-insert_fixup a x b (from_right red l d ∷ from_right c nil g ∷ fs) h =
      ends_with _ _ fs (simp append_assoc) h
  to_list-insert_fixup a x b (from_right red l d ∷ from_right c (node black ul ud ur) g ∷ fs) h =
      ends_with _ _ fs (simp append_assoc) h
