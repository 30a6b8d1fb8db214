-- ===== src/Propagate/Cleanup.antt =====
-- src/csync_propagate.c, `_csync_propagation_cleanup`: the order in which it removes directories.
use ocsync.Base.{
  ℕ, gt, arith, ◌==◌, ◌+◌, ◌≡◌, refl, sym, ap, ◌∙◌, Bool, true, false, List, [], ◌∷◌, ◌++◌, All,
  All-imp, if◌then◌else◌, inl, inr, Bool-cases,
}
use ocsync.CList.{c_list_sort}
use ocsync.CList.Sort.{is_le, IsOrder, Sorted, count, c_list_sort-Sorted}
use ocsync.FileSystem.{FileSystem}
use ocsync.PathName.{slash}
use ocsync.Propagate.{strcmp, cleanup_cmp, listed, cleanup_walk, propagation_cleanup}
use ocsync.Reconcile.{Files}
use ocsync.Types.{Str, Replica, FileStat, Ctx}
use ocsync.Update.{current_side}

strcmp_total : (s t : Str) → is_le (strcmp s t) ≡ false → is_le (strcmp t s) ≡ true
unfolding strcmp
strcmp_total [] [] e = refl
strcmp_total [] (b ∷ t) e = absurd cc
strcmp_total (a ∷ s) [] e = refl
strcmp_total (a ∷ s) (b ∷ t) e = let rest = strcmp_total s t in ground arith

strcmp_trans :
    (s t u : Str)
    → is_le (strcmp s t) ≡ true
    → is_le (strcmp t u) ≡ true
    → is_le (strcmp s u) ≡ true
unfolding strcmp
strcmp_trans [] t [] e f = refl
strcmp_trans [] t (c ∷ u) e f = refl
strcmp_trans (a ∷ s) [] u e f = absurd cc
strcmp_trans (a ∷ s) (b ∷ t) [] e f = absurd cc
strcmp_trans (a ∷ s) (b ∷ t) (c ∷ u) e f = let rest = strcmp_trans s t u in ground arith

-- `cleanup_cmp` is a total order.
pub cleanup_cmp-IsOrder : IsOrder cleanup_cmp
unfolding strcmp
cleanup_cmp-IsOrder = record {
  total = λ x y e. strcmp_total x.path y.path e;
  trans = λ x y z e f. strcmp_trans x.path y.path z.path e f;
}

abbrev pub starts_with : (front : Str) → Str → Bool
starts_with [] t = true
starts_with (a ∷ s) [] = false
starts_with (a ∷ s) (b ∷ t) = if a == b then starts_with s t else false

-- whether the first entry lies below the directory of the second
abbrev pub is_below : FileStat → FileStat → Bool
is_below y x = starts_with (x.path ++ slash ∷ []) y.path

strcmp-starts_with : (s t : Str) → starts_with (s ++ slash ∷ []) t ≡ true → strcmp t s ≡ gt
unfolding strcmp
strcmp-starts_with [] [] e = absurd cc
strcmp-starts_with [] (b ∷ t) e = refl
strcmp-starts_with (a ∷ s) [] e = absurd cc
strcmp-starts_with (a ∷ s) (b ∷ t) e = let rest = strcmp-starts_with s t in ground arith

not_below : (x y : FileStat) → is_le (cleanup_cmp y x) ≡ true → is_below y x ≡ false
unfolding strcmp
not_below x y e = elim (Bool-cases (is_below y x)) [
  | inr other ↦ other
  | inl lies ↦ absurd (cc (strcmp-starts_with x.path y.path lies))
]

-- no later entry lies below an earlier one
abbrev pub DeepestFirst : List FileStat → Type 0
DeepestFirst [] = Unit
DeepestFirst (x ∷ xs) = All (λ y. is_below y x ≡ false) xs × DeepestFirst xs

abbrev backwards : List FileStat → List FileStat
backwards [] = []
backwards (x ∷ xs) = backwards xs ++ x ∷ []

All-last :
    (P : FileStat → Type 0) (xs : List FileStat) (y : FileStat)
    → All P xs
    → P y
    → All P (xs ++ y ∷ [])
All-last P [] y h k = (k, tt)
All-last P (x ∷ xs) y h k = (h.0, All-last P xs y h.1 k)

All-backwards : (P : FileStat → Type 0) (xs : List FileStat) → All P xs → All P (backwards xs)
All-backwards P [] h = tt
All-backwards P (x ∷ xs) h = All-last P (backwards xs) x (All-backwards P xs h.1) h.0

last-DeepestFirst :
    (xs : List FileStat) (y : FileStat)
    → DeepestFirst xs
    → All (λ x. is_below y x ≡ false) xs
    → DeepestFirst (xs ++ y ∷ [])
last-DeepestFirst [] y h k = (tt, tt)
last-DeepestFirst (x ∷ xs) y h k =
    (All-last (λ y. is_below y x ≡ false) xs y h.0 k.0, last-DeepestFirst xs y h.1 k.1)

backwards-DeepestFirst : (xs : List FileStat) → Sorted cleanup_cmp xs → DeepestFirst (backwards xs)
backwards-DeepestFirst [] h = tt
backwards-DeepestFirst (x ∷ xs) h =
    last-DeepestFirst (backwards xs) x (backwards-DeepestFirst xs h.1)
      (All-backwards (λ y. is_below x y ≡ false) xs (All-imp (λ y. not_below y x) xs h.0))

count-last :
    (p : FileStat → Bool) (xs : List FileStat) (y : FileStat)
    → count p (xs ++ y ∷ []) ≡ (if p y then 1 else 0) + count p xs
count-last p [] y = refl
count-last p (x ∷ xs) y = let rest = count-last p xs y in omega (arith, rest)

count-backwards : (p : FileStat → Bool) (xs : List FileStat) → count p (backwards xs) ≡ count p xs
count-backwards p [] = refl
count-backwards p (x ∷ xs) =
    count-last p (backwards xs) x ∙ ap (λ n. (if p x then 1 else 0) + n) (count-backwards p xs)

module _ {W : Type 0} (fs : FileSystem W) where
  -- the directories removed one after the other
  abbrev pub rmdir_each : Replica → (uri : Str) → List FileStat → W → W
  rmdir_each q uri [] w = w
  rmdir_each q uri (st ∷ sts) w = rmdir_each q uri sts (fs.rmdir q (uri ++ slash ∷ st.path) w).1

  rmdir_each-last :
      (q : Replica) (uri : Str) (xs : List FileStat) (y : FileStat) (w : W)
      → rmdir_each q uri (xs ++ y ∷ []) w
        ≡ (fs.rmdir q (uri ++ slash ∷ y.path) (rmdir_each q uri xs w)).1
  rmdir_each-last q uri [] y w = refl
  rmdir_each-last q uri (x ∷ xs) y w = rmdir_each-last q uri xs y _

  cleanup_walk-backwards :
      (q : Replica) (uri : Str) (sts : List FileStat) (tree : Files) (w : W)
      → (cleanup_walk fs q uri sts tree w).1 ≡ rmdir_each q uri (backwards sts) w
  unfolding cleanup_walk
  cleanup_walk-backwards q uri [] tree w = refl
  cleanup_walk-backwards q uri (st ∷ sts) tree w =
      ap (λ v. (fs.rmdir q (uri ++ slash ∷ st.path) v).1) (cleanup_walk-backwards q uri sts tree w)
      ∙ sym (rmdir_each-last q uri (backwards sts) st w)

  cleaned :
      (ctx : Ctx) (w : W) (keys : List ℕ)
      → (current_side ctx).list ≡ keys
      → let side = current_side ctx in
        (order : List FileStat) × ((propagation_cleanup fs ctx w).2
          ≡ rmdir_each ctx.replica side.uri order w)
        × ((p : FileStat → Bool) → count p order ≡ count p (listed side.tree keys))
        × DeepestFirst order
  unfolding propagation_cleanup listed
  cleaned ctx w [] e = ([], rw (propagation_cleanup, e) refl, λ p. refl, tt)
  cleaned ctx w (k ∷ ks) e =
      let side = current_side ctx in
      let (sorted, same) =
        c_list_sort-Sorted cleanup_cmp cleanup_cmp-IsOrder (listed side.tree (k ∷ ks)) in
      (
        backwards (c_list_sort cleanup_cmp (listed side.tree (k ∷ ks))),
        rw (propagation_cleanup, e) (cleanup_walk-backwards ctx.replica side.uri _ side.tree w),
        λ p. count-backwards p _ ∙ same p,
        backwards-DeepestFirst _ sorted,
      )

  -- The cleanup asks for the removal of each directory that was left, as often as it is listed, and
  -- nothing else, and of no directory before those below it that are listed too.
  pub propagation_cleanup-DeepestFirst :
      (ctx : Ctx) (w : W)
      → let side = current_side ctx in
        (order : List FileStat) × ((propagation_cleanup fs ctx w).2
          ≡ rmdir_each ctx.replica side.uri order w)
        × ((p : FileStat → Bool) → count p order ≡ count p (listed side.tree side.list))
        × DeepestFirst order
  propagation_cleanup-DeepestFirst ctx w = cleaned ctx w (current_side ctx).list refl
