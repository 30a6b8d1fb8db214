-- ===== src/Tests/MergeRuns.antt =====
-- The merge of one entry into an empty local tree.
use ocsync.Base.{ℕ, ◌≡◌, refl, Option, none, some, ◌++◌, ◌∷◌, ℤ, pos}
use mathlib.Core.Option
use ocsync.RbTree.{c_rbtree_create, c_rbtree_insert, c_rbtree_find, c_rbtree_walk, modify_found}
use ocsync.Types.{
  Str, Instruction, updated, Replica, local_replica, FileStat, Ctx, key_cmp, data_cmp,
}
use ocsync.Exclude.{bytes}
use ocsync.PathName.{slash}
use ocsync.Reconcile.{Files}
use ocsync.Reconcile.Trees.{create-IsFiles}
use ocsync.Update.{VioStat}
use ocsync.Merge.{csync_merge_file_trees}
use ocsync.Merge.Trees.{Merged, local_entry, merge_file_trees_visitor-Merged}
use ocsync.Tests.SessionRuns.{start, journal_entry, one_entry, stat_at}

abbrev pushed : FileStat
pushed = record journal_entry { instruction = updated }

abbrev stat : Replica → Str → ℕ → Option VioStat × ℕ
stat q path w = (some (stat_at 9), w)

abbrev empty : Files
empty = c_rbtree_create key_cmp data_cmp

merge_file_trees_visitor-Merged_example :
    Merged stat local_replica
      (bytes "/l")
      pushed
      empty
      0
      (stat local_replica (bytes "/l" ++ slash ∷ (local_entry empty pushed).path) 0)
merge_file_trees_visitor-Merged_example =
    merge_file_trees_visitor-Merged stat local_replica (bytes "/l") pushed empty 0 create-IsFiles
      refl

abbrev found_time : Option (ℤ × Ctx × ℕ) → Option (ℤ × Option (ℕ × Instruction))
found_time none = none
found_time (some (rc, ctx, w)) =
    some (rc, Option.map (λ st. (st.modtime, st.instruction)) (c_rbtree_find ctx.local.tree 5))

pushed_is_merged :
    found_time (
      csync_merge_file_trees stat
        (record start { remote = record (start.remote) { tree = one_entry pushed } })
        0)
    ≡ some (pos 0, some (9, Instruction.none))
unfolding csync_merge_file_trees c_rbtree_create c_rbtree_insert c_rbtree_find c_rbtree_walk
    modify_found key_cmp data_cmp
pushed_is_merged = refl
