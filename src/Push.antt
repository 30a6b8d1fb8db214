-- ===== src/Push.antt =====
-- src/csync_propagate.c, `_csync_push_file`: the copy of a file to the other replica.
--
-- `none` is a loop that needs more fuel.
pub mod Arrival
pub mod Copy
pub mod Finish
pub mod Loop
pub mod Divergence
pub mod Frame
pub mod Keeps
pub mod Store
use ocsync.Base.{
  ℕ, zero, suc, ◌+◌, ◌*◌, ◌%◌, ◌==◌, Bool, true, false, not, Option, none, some, List, [], ◌∷◌,
  ◌++◌, ℤ, pos, minus_one, if◌then◌else◌, length, ltb,
}
use ocsync.Misc.{Errno}
use ocsync.PathName.{slash, c_dirname, is_template, fill_template}
use ocsync.Exclude.{bytes}
use ocsync.Types.{
  Str, Instruction, updated, error, Replica, local_replica, remote_replica, param_error, open_error,
  file_size_error, FileStat, Side, Ctx,
}
use ocsync.Reconcile.{set_instruction}
use ocsync.Update.{current_side}
use ocsync.FileSystem.{
  is_zero, FileSystem, Run, Outcome, next, out, hang, Action, after, ◌>>=◌, ◌>>◌, pure, exit, gets,
  modify, call, run_on, set_status, set_replica, status_of_errno, fail_errno, or_fail, rands,
}
use ocsync.Transfer.{
  other_side, uri_of, max_xfer_buf_size, c_file_mode, c_dir_mode, permissions, push_to_tmp_first,
  wrote_all, no_space, mark, begin, errno_of, draw_name, open_source, name_target, make_parent,
  next_name, create_target, copy_loop, close_both, check_size, put_in_place, set_mode,
  set_owner_and_time,
}

module _ {W : Type 0} (fs : FileSystem W) where
  -- the function up to its label `out`; `fuel` is for each of the loops
  unfoldable pub push_between : (fuel : ℕ) → (src dst : Side) → FileStat → Action W Unit
  unfolding open_source name_target create_target copy_loop close_both check_size put_in_place
      set_mode set_owner_and_time
  push_between fuel src dst st = do
    let duri = uri_of dst st
    hs ← open_source fs src.type (uri_of src st)
    named ← name_target fs duri
    set_replica dst.type
    made ← create_target fs fuel 0 dst.type named
    copy_loop fs fuel src.type dst.type hs made.0
    close_both fs src.type dst.type hs made.0
    check_size fs dst.type made.1
    put_in_place fs dst.type made.1 duri
    set_mode fs dst.type c_file_mode duri
    set_owner_and_time fs dst.type duri
    mark updated

  unfoldable pub push_body : (fuel : ℕ) → Action W Unit
  unfolding push_between
  push_body fuel r = push_between fuel (current_side r.ctx) (other_side r.ctx) r.st r

  abbrev pub close_handle : Replica → Option ℕ → W → W
  close_handle q none w = w
  close_handle q (some h) w = (fs.close q h w).1

  abbrev pub unlink_temporary : Replica → Option Str → W → W
  unlink_temporary q none w = w
  unlink_temporary q (some uri) w = (fs.unlink q uri w).1

  -- the label `out`
  unfoldable pub push_out : (srep drep before : Replica) → ℤ → Run W → ℤ × Ctx × FileStat × W
  push_out srep drep before rc r =
      let w = close_handle drep r.target (close_handle srep r.source r.world) in
      let ctx = record (r.ctx) { replica = before } in
      if is_zero rc
      then (rc, ctx, r.st, w)
      else (rc, ctx, set_instruction error r.st, unlink_temporary drep r.temporary w)

  -- `none`: a loop needs more fuel
  unfoldable pub push_file : (fuel : ℕ) → Ctx → FileStat → W → Option (ℤ × Ctx × FileStat × W)
  unfolding push_body push_out
  push_file fuel ctx st w =
      let srep = (current_side ctx).type in
      let drep = (other_side ctx).type in
      elim (push_body fuel (begin ctx st w)) [
        | next _ r ↦ some (push_out srep drep ctx.replica (pos 0) r)
        | out rc r ↦ some (push_out srep drep ctx.replica rc r)
        | hang ↦ none
      ]
