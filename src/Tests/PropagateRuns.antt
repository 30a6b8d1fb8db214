-- ===== src/Tests/PropagateRuns.antt =====
-- The propagation of one local file to an empty replica.
use ocsync.CList.Sort.{count}
use ocsync.Propagate.{propagation_cleanup, listed}
use ocsync.Propagate.Cleanup.{rmdir_each, DeepestFirst, propagation_cleanup-DeepestFirst}
use ocsync.Update.{current_side}
use ocsync.Base.{◌++◌, Bool, List, ◌≡◌, refl, Option, none, some, [], ◌∷◌, ℤ, pos}
use mathlib.Core.Option
use ocsync.Types.{key_cmp, Str, remote_replica, Instruction, new, updated, FileStat, Ctx}
use ocsync.Reconcile.{Files}
use ocsync.PathName.{slash}
use ocsync.RbTree.{black, red, nil, node, c_rbtree_find, c_rbtree_walk, c_rbtree_create}
use ocsync.Reconcile.Trees.{create-IsFiles}
use ocsync.Session.Reconcile.{HasTrees}
use ocsync.Transfer.{push_to_tmp_first}
use ocsync.Handlers.{file_action}
use ocsync.Handlers.Effect.{Marked}
use ocsync.Handlers.Settle.{Settles, file_action-Marked}
use ocsync.Session.Propagate.{csync_propagate, Propagated, csync_propagate-Propagated}
use ocsync.Tests.Disk.{World, disk, two_files}
use ocsync.Tests.SessionRuns.{start, journal_entry, one_entry, one_entry-IsFiles}

abbrev new_file : FileStat
new_file = record journal_entry { instruction = new; size = 3; mode = 420 }

abbrev pending_ctx : Ctx
pending_ctx = record start { local = record (start.local) { tree = one_entry new_file } }

pending_ctx-HasTrees : HasTrees pending_ctx
pending_ctx-HasTrees = record {
  local_valid = one_entry-IsFiles new_file;
  remote_valid = create-IsFiles;
}

-- the return code, the entry's instruction, and the remote file
abbrev summary : Option (ℤ × Ctx × World) → Option (ℤ × Option Instruction × Str)
summary none = none
summary (some (rc, ctx, w)) =
    some (
      rc,
      Option.map (λ st. st.instruction) (c_rbtree_find ctx.local.tree 5),
      w.file remote_replica,
    )

file_arrives :
    summary (csync_propagate disk 13 pending_ctx two_files)
    ≡ some (pos 0, some updated, 5 ∷ 6 ∷ 7 ∷ [])
unfolding csync_propagate push_to_tmp_first key_cmp c_rbtree_find c_rbtree_walk c_rbtree_create
file_arrives = refl

csync_propagate-Propagated_example : Propagated (csync_propagate disk 13 pending_ctx two_files)
csync_propagate-Propagated_example =
    csync_propagate-Propagated disk 13 pending_ctx two_files pending_ctx-HasTrees

file_action-Marked_example :
    Marked (Settles new_file) start new_file (file_action disk 13 start new_file two_files)
file_action-Marked_example = file_action-Marked disk start new_file two_files 13

-- a directory and one below it that wait for the cleanup
abbrev below_entry : FileStat
below_entry = record journal_entry { phash = 7; path = journal_entry.path ++ slash ∷ 98 ∷ [] }

abbrev two_entries : Files
two_entries = record (one_entry journal_entry) {
  root = node black nil journal_entry (node red nil below_entry nil);
  size = 2;
}

abbrev waiting_ctx : Ctx
waiting_ctx = record start {
  local = record (start.local) { tree = two_entries; list = 5 ∷ 7 ∷ [] };
}

propagation_cleanup-DeepestFirst_example :
    let side = current_side waiting_ctx in
    (order : List FileStat) × ((propagation_cleanup disk waiting_ctx two_files).2
      ≡ rmdir_each disk waiting_ctx.replica side.uri order two_files)
    × ((p : FileStat → Bool) → count p order ≡ count p (listed side.tree side.list))
    × DeepestFirst order
propagation_cleanup-DeepestFirst_example =
    propagation_cleanup-DeepestFirst disk waiting_ctx two_files
