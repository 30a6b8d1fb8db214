-- ===== src/Reconcile.antt =====
-- src/csync_reconcile.c: which replica's version of each file wins.
pub mod Pair
pub mod Trees
use ocsync.Base.{
  ℕ, Ordering, lt, eq, gt, Bool, Option, none, some, compare, ℤ, pos, is_negative, if◌then◌else◌,
}
use ocsync.RbTree.{RbTree, c_rbtree_find, c_rbtree_walk, modify_found}
use ocsync.Types.{
  Instruction, eval, remove, rename, new, conflict, ignore, sync, stat_error, error, deleted,
  updated, Replica, local_replica, remote_replica, reconcile_error, FileStat, Side, Ctx,
}

-- The tree of a replica.
abbrev pub Files : Type 0
Files = RbTree ℕ FileStat

-- The file is only on the current replica.
unfoldable pub alone : Instruction → Instruction
alone eval = new
alone Instruction.none = remove
alone rename = new
alone other = other

-- The file is on both replicas. `age` compares the modification times of the current and of the
-- other version, `keep` is the option `with_conflict_copys`; the result is the instruction of the
-- current version and that of the other one.
unfoldable pub merged :
    (keep : Bool) (age : Ordering) (cur other : Instruction) → Instruction × Instruction
merged keep age new new = elim age [
  | gt ↦ if keep then (conflict, Instruction.none) else (sync, Instruction.none)
  | lt ↦ if keep then (Instruction.none, conflict) else (Instruction.none, sync)
  | eq ↦ (Instruction.none, Instruction.none)
]
merged keep age new eval = elim age [
  | gt ↦ if keep then (conflict, eval) else (sync, eval)
  | _ ↦ (Instruction.none, eval)
]
merged keep age new Instruction.none = (sync, Instruction.none)
merged keep age eval new = elim age [
  | gt ↦ if keep then (conflict, new) else (sync, new)
  | _ ↦ (Instruction.none, new)
]
merged keep age eval eval = elim age [
  | gt ↦ if keep then (conflict, Instruction.none) else (sync, eval)
  | _ ↦ if keep then (Instruction.none, conflict) else (Instruction.none, eval)
]
merged keep age eval Instruction.none = (sync, Instruction.none)
merged keep age cur other = (cur, other)

abbrev pub set_instruction : Instruction → FileStat → FileStat
set_instruction i st = record st { instruction = i }

-- The visitor with the opposite tree as its state; its instruction changes are written through the
-- pointer that the search in that tree returns.
unfoldable pub merge_algorithm_visitor : (keep : Bool) → FileStat → Files → ℤ × FileStat × Files
unfolding alone merged
merge_algorithm_visitor keep cur tree = elim (c_rbtree_find tree cur.phash) [
  | none ↦ (pos 0, set_instruction (alone cur.instruction) cur, tree)
  | some other ↦
      let (i, j) =
        merged keep (compare cur.modtime other.modtime) cur.instruction other.instruction in
      (pos 0, set_instruction i cur, modify_found tree cur.phash (set_instruction j))
]

abbrev pub with_trees : Ctx → Files → Files → Ctx
with_trees ctx l r = record ctx {
  local = record (ctx.local) { tree = l };
  remote = record (ctx.remote) { tree = r };
}

-- The walk over the tree of the current replica; both trees may change.
unfoldable pub merge_walk : (keep : Bool) → Replica → Ctx → ℤ × Ctx
merge_walk keep local_replica ctx =
    let (rc, l, r) = c_rbtree_walk (merge_algorithm_visitor keep) ctx.local.tree ctx.remote.tree in
    (rc, with_trees ctx l r)
merge_walk keep remote_replica ctx =
    let (rc, r, l) = c_rbtree_walk (merge_algorithm_visitor keep) ctx.remote.tree ctx.local.tree in
    (rc, with_trees ctx l r)

unfoldable pub csync_reconcile_updates : Ctx → ℤ × Ctx
unfolding merge_walk
csync_reconcile_updates ctx =
    let keep = ctx.options.with_conflict_copys in
    let (rc, ctx') = merge_walk keep ctx.current ctx in
    (rc, if is_negative rc then record ctx' { status_code = reconcile_error } else ctx')
