-- ===== src/Tests/WalkRuns.antt =====
-- A walk over a local tree of one entry with a visitor that counts.
use ocsync.Base.{ℕ, suc, ◌≡◌, some, ℤ, pos}
use ocsync.Types.{instruction_code, eval, ok, Ctx}
use ocsync.RbTree.{c_rbtree_create}
use ocsync.TreeWalk.{WalkFile, csync_walk_local_tree, csync_walk_remote_tree}
use ocsync.TreeWalk.Filtered.{csync_walk_tree-visit_all}
use ocsync.Tests.SessionRuns.{start, journal_entry, one_entry}

abbrev walked : Ctx
walked = record start {
  local = record (start.local) { tree = one_entry (record journal_entry { instruction = eval }) };
}

abbrev count : WalkFile → ℕ → ℤ × ℕ
count f n = (pos 0, suc n)

csync_walk_tree-visit_all_example :
    (csync_walk_local_tree walked (some count) 1 3 ≡ (pos 0, record walked { status_code = ok }, 4))
    × (csync_walk_remote_tree walked (some count) 1 3
        ≡ (pos 0, record walked { status_code = ok }, 3))
unfolding c_rbtree_create instruction_code
csync_walk_tree-visit_all_example = csync_walk_tree-visit_all 1 count walked 3
