-- ===== src/TreeWalk.antt =====
-- src/csync.c: `csync_walk_local_tree` and `csync_walk_remote_tree`, which call a visitor of the
-- library's user. The context's `userdata` is the visitor's own state `S`.
pub mod Filtered
use Prim.Native.Nat.{bit_and}
use ocsync.Base.{ℕ, ◌==◌, ◌&&◌, Bool, Option, none, some, ℤ, pos, minus_one, if◌then◌else◌, ltb}
use ocsync.RbTree.{c_rbtree_walk}
use ocsync.Types.{
  Str, Instruction, instruction_code, FtwType, FileStat, StatusCode, ok, param_error, Ctx,
}
use ocsync.Reconcile.{Files}

-- `TREE_WALK_FILE`
pub record WalkFile : Type 0 where
  pub path : Str
  pub modtime : ℕ
  pub uid : ℕ
  pub gid : ℕ
  pub mode : ℕ
  pub type : FtwType
  pub instruction : Instruction

abbrev pub walk_file : FileStat → WalkFile
walk_file cur = record {
  path = cur.path;
  modtime = cur.modtime;
  uid = cur.uid;
  gid = cur.gid;
  mode = cur.mode;
  type = cur.type;
  instruction = cur.instruction;
}

-- the filter is set, and has no bit of the instruction; a negative filter is the filter 0
abbrev pub is_filtered : (filter : ℕ) → FileStat → Bool
is_filtered filter cur = ltb 0 filter && (bit_and filter (instruction_code cur.instruction) == 0)

module _ {S : Type 0} where
  unfoldable pub treewalk_visitor :
      (filter : ℕ) → (WalkFile → S → ℤ × S) → FileStat → S → ℤ × FileStat × S
  treewalk_visitor filter visitor cur s =
      if is_filtered filter cur
      then (pos 0, cur, s)
      else (let (rc, s') = visitor (walk_file cur) s in (rc, cur, s'))

  -- `none` is a visitor that is null
  unfoldable pub walk_tree :
      Files → Option (WalkFile → S → ℤ × S) → (filter : ℕ) → Ctx → S → ℤ × Ctx × Files × S
  unfolding treewalk_visitor
  walk_tree tree none filter ctx s = (minus_one, record ctx { status_code = param_error }, tree, s)
  walk_tree tree (some visitor) filter ctx s =
      let (rc, tree', s') = c_rbtree_walk (treewalk_visitor filter visitor) tree s in
      (rc, ctx, tree', s')

  unfoldable pub csync_walk_local_tree :
      Ctx → Option (WalkFile → S → ℤ × S) → (filter : ℕ) → S → ℤ × Ctx × S
  unfolding walk_tree
  csync_walk_local_tree ctx visitor filter s =
      let (rc, c, tree, s') =
        walk_tree ctx.local.tree visitor filter (record ctx { status_code = ok }) s in
      (rc, record c { local = record (c.local) { tree = tree } }, s')

  unfoldable pub csync_walk_remote_tree :
      Ctx → Option (WalkFile → S → ℤ × S) → (filter : ℕ) → S → ℤ × Ctx × S
  unfolding walk_tree
  csync_walk_remote_tree ctx visitor filter s =
      let (rc, c, tree, s') =
        walk_tree ctx.remote.tree visitor filter (record ctx { status_code = ok }) s in
      (rc, record c { remote = record (c.remote) { tree = tree } }, s')
