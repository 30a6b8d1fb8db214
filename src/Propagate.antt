-- ===== src/Propagate.antt =====
-- src/csync_propagate.c: the visitors, the cleanup, and `csync_propagate_files`.
pub mod Cleanup
pub mod Trees
pub mod Visits
use ocsync.Base.{
  ℕ, compare, Ordering, lt, eq, gt, Option, none, some, List, [], ◌∷◌, ◌++◌, ℤ, pos, minus_one,
  if◌then◌else◌, is_negative,
}
use ocsync.PathName.{slash}
use ocsync.CList.{c_list_sort}
use ocsync.RbTree.{c_rbtree_find, c_rbtree_walk, modify_found}
use ocsync.Types.{Str, Instruction, deleted, Replica, memory_error, FileStat, Ctx}
use ocsync.Reconcile.{Files, set_instruction}
use ocsync.Update.{current_side, set_current_side}
use ocsync.FileSystem.{FileSystem}
use ocsync.Handlers.{file_action, dir_action}

-- `strcmp`, of which the sign is the order
unfoldable pub strcmp : Str → Str → Ordering
strcmp [] [] = eq
strcmp [] (y ∷ ys) = lt
strcmp (x ∷ xs) [] = gt
strcmp (x ∷ xs) (y ∷ ys) = let rest = strcmp xs ys in elim (compare x y) [ eq ↦ rest | o ↦ o ]

abbrev pub cleanup_cmp : FileStat → FileStat → Ordering
unfolding strcmp
cleanup_cmp a b = strcmp a.path b.path

-- the entries that a list of keys names
unfoldable pub listed : Files → List ℕ → List FileStat
listed tree [] = []
listed tree (k ∷ ks) = elim (c_rbtree_find tree k) [
  | none ↦ listed tree ks
  | some st ↦ st ∷ listed tree ks
]

abbrev pub set_tree : Files → Ctx → Ctx
set_tree tree ctx =
    let side = current_side ctx in set_current_side ctx (record side { tree = tree })

module _ {W : Type 0} where
  -- a visitor's state is `none` once a push never came back
  abbrev pub conclude : FileStat → Option (ℤ × Ctx × FileStat × W) → ℤ × FileStat × Option (Ctx × W)
  conclude st none = (minus_one, st, none)
  conclude st (some (rc, ctx, st', w)) =
      (if is_negative rc then minus_one else pos 0, st', some (ctx, w))

  -- a walk over the current tree
  unfoldable pub walk_with :
      (FileStat → Option (Ctx × W) → ℤ × FileStat × Option (Ctx × W))
      → Ctx
      → W
      → Option (ℤ × Ctx × W)
  walk_with visitor ctx w =
      let (rc, tree, s) = c_rbtree_walk visitor (current_side ctx).tree (some (ctx, w)) in
      elim s [ none ↦ none | some (ctx', w') ↦ some (rc, set_tree tree ctx', w') ]

module _ {W : Type 0} (fs : FileSystem W) where
  unfoldable pub propagation_file_visitor :
      (fuel : ℕ) → FileStat → Option (Ctx × W) → ℤ × FileStat × Option (Ctx × W)
  unfolding file_action
  propagation_file_visitor fuel st none = (minus_one, st, none)
  propagation_file_visitor fuel st (some (ctx, w)) = conclude st (file_action fs fuel ctx st w)

  unfoldable pub propagation_dir_visitor :
      FileStat → Option (Ctx × W) → ℤ × FileStat × Option (Ctx × W)
  unfolding dir_action
  propagation_dir_visitor st none = (minus_one, st, none)
  propagation_dir_visitor st (some (ctx, w)) = conclude st (dir_action fs ctx st w)

  -- from the last entry to the first: the directory is removed, and its entry is marked
  unfoldable pub cleanup_walk : Replica → (uri : Str) → List FileStat → Files → W → Files × W
  cleanup_walk q uri [] tree w = (tree, w)
  cleanup_walk q uri (st ∷ sts) tree w =
      let (tree₁, w₁) = cleanup_walk q uri sts tree w in
      let (ok, w₂) = fs.rmdir q (uri ++ slash ∷ st.path) w₁ in
      (modify_found tree₁ st.phash (set_instruction (if ok then deleted else Instruction.none)), w₂)

  unfoldable pub propagation_cleanup : Ctx → W → ℤ × Ctx × W
  unfolding listed cleanup_walk strcmp
  propagation_cleanup ctx w =
      let side = current_side ctx in
      elim (side.list) [
        | [] ↦ (pos 0, record ctx { status_code = memory_error }, w)
        | k ∷ ks ↦
            let sorted = c_list_sort cleanup_cmp (listed side.tree (k ∷ ks)) in
            let (tree, w') = cleanup_walk ctx.replica side.uri sorted side.tree w in
            (pos 0, set_current_side ctx (record side { tree = tree }), w')
      ]

  -- from the second walk of `csync_propagate_files` on
  unfoldable pub propagate_dirs : Ctx → W → Option (ℤ × Ctx × W)
  unfolding walk_with propagation_dir_visitor propagation_cleanup
  propagate_dirs ctx w = elim (walk_with propagation_dir_visitor ctx w) [
    | none ↦ none
    | some (rc, ctx₁, w₁) ↦
        if is_negative rc
        then some (minus_one, ctx₁, w₁)
        else (let (rc', ctx₂, w₂) = propagation_cleanup ctx₁ w₁ in
            some (if is_negative rc' then minus_one else pos 0, ctx₂, w₂))
  ]

  unfoldable pub csync_propagate_files : (fuel : ℕ) → Ctx → W → Option (ℤ × Ctx × W)
  unfolding walk_with propagation_file_visitor propagate_dirs
  csync_propagate_files fuel ctx w = elim (walk_with (propagation_file_visitor fuel) ctx w) [
    | none ↦ none
    | some (rc, ctx₁, w₁) ↦
        if is_negative rc then some (minus_one, ctx₁, w₁) else propagate_dirs ctx₁ w₁
  ]
