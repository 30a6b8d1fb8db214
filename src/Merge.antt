-- ===== src/Merge.antt =====
-- src/csync_util.c: the merge of the remote tree into the local one, which is then written to the
-- journal.
pub mod Trees
use ocsync.Base.{
  ℕ, Bool, true, false, Option, none, some, ◌++◌, ◌∷◌, ℤ, pos, minus_one, is_negative,
  if◌then◌else◌,
}
use ocsync.PathName.{slash}
use ocsync.RbTree.{c_rbtree_find, c_rbtree_insert, c_rbtree_walk, modify_found}
use ocsync.Types.{Str, Instruction, updated, error, Replica, local_replica, FileStat, Ctx}
use ocsync.Reconcile.{Files, set_instruction}
use ocsync.Update.{VioStat}
use ocsync.Session.{enter}

abbrev pub is_updated : Instruction → Bool
is_updated updated = true
is_updated _ = false

-- the node of the entry's key, with a copy of the entry where there is none; `none` is a null pointer
-- that the insertion follows
unfoldable pub enter_missing : Files → FileStat → Option (ℤ × Option FileStat × Files)
enter_missing tree fs = elim (c_rbtree_find tree fs.phash) [
  | some d ↦ some (pos 0, some d, tree)
  | none ↦ elim (c_rbtree_insert true tree fs) [
    | none ↦ none
    | some (rc, tree') ↦ some (rc, c_rbtree_find tree' fs.phash, tree')
  ]
]

-- what the merge writes to the entry of the local tree
abbrev pub refresh : VioStat → FileStat → FileStat
refresh v st = record st { inode = v.inode; modtime = v.mtime; instruction = Instruction.none }

-- `csync_vio_stat` on the replica, for a world `W`
module _ {W : Type 0} (stat : Replica → Str → W → Option VioStat × W) (q : Replica)
    (uri : Str) where
  -- The visit of an entry of the remote tree; the state is the local tree and the world.
  unfoldable pub merge_file_trees_visitor :
      FileStat → Option (Files × W) → ℤ × FileStat × Option (Files × W)
  unfolding enter_missing
  merge_file_trees_visitor fs none = (minus_one, fs, none)
  merge_file_trees_visitor fs (some (tree, w)) =
      if is_updated fs.instruction
      then elim (enter_missing tree fs) [
        | none ↦ (minus_one, fs, none)
        | some (rc, node, tree₁) ↦
            if is_negative rc
            then (minus_one, set_instruction error fs, some (tree₁, w))
            else elim node [
              | none ↦ (minus_one, set_instruction error fs, some (tree₁, w))
              | some st ↦
                  let (o, w₁) = stat q (uri ++ slash ∷ st.path) w in
                  elim o [
                    | none ↦ (
                      minus_one,
                      fs,
                      some (modify_found tree₁ fs.phash (set_instruction error), w₁),
                    )
                    | some v ↦ (pos 0, fs, some (modify_found tree₁ fs.phash (refresh v), w₁))
                  ]
            ]
      ]
      else (pos 0, fs, some (tree, w))

module _ {W : Type 0} (stat : Replica → Str → W → Option VioStat × W) where
  unfoldable pub csync_merge_file_trees : Ctx → W → Option (ℤ × Ctx × W)
  unfolding merge_file_trees_visitor
  csync_merge_file_trees ctx w =
      let c = enter local_replica ctx in
      let (rc, remote_tree, s) =
        c_rbtree_walk (merge_file_trees_visitor stat c.replica c.local.uri) c.remote.tree
          (some (c.local.tree, w)) in
      elim s [
        | none ↦ none
        | some (tree, w') ↦ some (
          rc,
          record c {
            local = record (c.local) { tree = tree };
            remote = record (c.remote) { tree = remote_tree };
          },
          w',
        )
      ]
