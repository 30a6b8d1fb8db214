-- ===== src/Handlers.antt =====
-- src/csync_propagate.c: what is done for one entry.
--
-- `asprintf`, `c_malloc` and `c_list_prepend` are taken to return memory. A handler works on one
-- entry: it takes the context, the entry and the world, and gives the return code with them; `none`
-- is a push of which a loop needs more fuel.
pub mod Effect
pub mod Conflict
pub mod Settle
use ocsync.Base.{
  ℕ, Bool, true, false, Option, none, some, ◌∷◌, ◌++◌, ℤ, pos, minus_one, if◌then◌else◌,
  is_negative,
}
use ocsync.Misc.{is_enomem, is_enotempty}
use ocsync.PathName.{slash}
use ocsync.PathName.Split.{c_split_path}
use ocsync.Exclude.{bytes}
use ocsync.CList.{c_list_prepend}
use ocsync.Types.{
  Str, Instruction, sync, conflict, remove, new, updated, error, deleted, file, slink, dir, Replica,
  local_replica, remote_replica, unsuccessful, FileStat, Side, Ctx,
}
use ocsync.Reconcile.{set_instruction}
use ocsync.Update.{current_side, set_current_side}
use ocsync.FileSystem.{
  FileSystem, Outcome, next, out, hang, Action, ◌>>=◌, ◌>>◌, exit, gets, modify, call, set_status,
  set_replica, is_zero, status_of_errno, or_fail,
}
use ocsync.Transfer.{other_side, uri_of, c_dir_mode, set_mode, set_owner_and_time, mark, begin}
use ocsync.Push.{push_file}

-- `_backup_path`; `time` is what `strftime` writes
unfoldable pub backup_path : (uri path time : Str) → Str
unfolding c_split_path
backup_path uri path time =
    let info = c_split_path path in
    uri ++ slash ∷ info.directory ++ info.filename ++ bytes "_conflict-" ++ time ++ info.extension

-- a directory that is not empty waits for the cleanup
abbrev pub postpone : FileStat → Ctx → Ctx
postpone st ctx =
    let side = current_side ctx in
    set_current_side ctx (record side { list = c_list_prepend side.list st.phash })

abbrev pub is_conflict : Instruction → Bool
is_conflict conflict = true
is_conflict _ = false

abbrev pub unchanged : Ctx → Ctx
unchanged ctx = ctx

module _ {W : Type 0} where
  -- the label `out`, which writes `bad` to an entry that failed
  abbrev pub finish : Instruction → (Ctx → Ctx) → Outcome W Unit → Option (ℤ × Ctx × FileStat × W)
  finish bad restore (next _ r) = some (pos 0, restore r.ctx, r.st, r.world)
  finish bad restore (out rc r) =
      some (rc, restore r.ctx, if is_zero rc then r.st else set_instruction bad r.st, r.world)
  finish bad restore hang = none

module _ {W : Type 0} (fs : FileSystem W) where
  pub backup_body : (name : Str) → Action W Unit
  backup_body name = do
    st ← gets (λ r. r.st)
    dst ← gets (λ r. other_side r.ctx)
    (if is_conflict st.instruction
        then (do
          set_replica dst.type
          ok ← call (fs.rename dst.type (uri_of dst st) name)
          or_fail fs ok
          mark Instruction.none)
        else (do set_status unsuccessful; exit minus_one))

  unfoldable pub backup_file : (name : Str) → Ctx → FileStat → W → Option (ℤ × Ctx × FileStat × W)
  unfolding backup_body
  backup_file name ctx st w =
      finish error (λ c. record c { replica = ctx.replica }) (backup_body name (begin ctx st w))

  -- the end of `_csync_conflict_file`: a conflict copy that equals the local file goes
  unfoldable pub drop_copy : (name : Str) → Ctx → FileStat → W → W
  drop_copy name ctx st w = elim (ctx.current) [
    | local_replica ↦ w
    | remote_replica ↦
        let (same, w₁) = fs.compare_file (uri_of ctx.local st) name w in
        if same then (fs.unlink local_replica name w₁).1 else w₁
  ]

  unfoldable pub conflict_file : (fuel : ℕ) → Ctx → FileStat → W → Option (ℤ × Ctx × FileStat × W)
  unfolding backup_path backup_file push_file drop_copy
  conflict_file fuel ctx st w =
      let name = backup_path (other_side ctx).uri st.path (fs.time_string w) in
      elim (backup_file name ctx st w) [
        | none ↦ none
        | some (rc, ctx₁, st₁, w₁) ↦
            if is_negative rc
            then some (rc, ctx₁, st₁, w₁)
            else elim (push_file fs fuel ctx₁ st₁ w₁) [
              | none ↦ none
              | some (rc', ctx₂, st₂, w₂) ↦
                  if is_negative rc'
                  then some (rc', ctx₂, st₂, w₂)
                  else some (rc', ctx₂, st₂, drop_copy name ctx₂ st₂ w₂)
            ]
      ]

  pub remove_file_body : Action W Unit
  remove_file_body = do
    st ← gets (λ r. r.st)
    src ← gets (λ r. current_side r.ctx)
    q ← gets (λ r. r.ctx.replica)
    ok ← call (fs.unlink q (uri_of src st))
    or_fail fs ok
    mark deleted

  unfoldable pub remove_file : Ctx → FileStat → W → Option (ℤ × Ctx × FileStat × W)
  unfolding remove_file_body
  remove_file ctx st w = finish Instruction.none unchanged (remove_file_body (begin ctx st w))

  -- `_csync_sync_dir` after the checks: the replica comes back where all of it succeeds only
  pub attributes : (before : Replica) → (dst : Side) → FileStat → Action W Unit
  unfolding set_mode set_owner_and_time
  attributes before dst st = do
    set_mode fs dst.type c_dir_mode (uri_of dst st)
    set_owner_and_time fs dst.type (uri_of dst st)
    mark updated
    set_replica before

  pub new_dir_body : (dst : Side) → FileStat → (before : Replica) → Action W Unit
  unfolding attributes
  new_dir_body dst st before = do
    set_replica dst.type
    ok ← call (fs.mkdirs dst.type (uri_of dst st))
    or_fail fs ok
    attributes before dst st

  unfoldable pub new_dir : Ctx → FileStat → W → Option (ℤ × Ctx × FileStat × W)
  unfolding new_dir_body
  new_dir ctx st w =
      finish error unchanged (new_dir_body (other_side ctx) st ctx.replica (begin ctx st w))

  pub sync_dir_body : (dst : Side) → FileStat → (before : Replica) → Action W Unit
  unfolding attributes
  sync_dir_body dst st before = do set_replica dst.type; attributes before dst st

  unfoldable pub sync_dir : Ctx → FileStat → W → Option (ℤ × Ctx × FileStat × W)
  unfolding sync_dir_body
  sync_dir ctx st w =
      finish error unchanged (sync_dir_body (other_side ctx) st ctx.replica (begin ctx st w))

  pub remove_dir_body : (src : Side) → FileStat → Action W Unit
  remove_dir_body src st = do
    q ← gets (λ r. r.ctx.replica)
    ok ← call (fs.rmdir q (uri_of src st))
    (if ok then mark deleted else (do
      status_of_errno fs
      e ← gets (λ r. fs.errno r.world)
      (if is_enomem e
          then exit minus_one
          else if is_enotempty e
          then (do modify (λ r. record r { ctx = postpone st r.ctx }); exit (pos 0))
          else exit (pos 1))))

  unfoldable pub remove_dir : Ctx → FileStat → W → Option (ℤ × Ctx × FileStat × W)
  unfolding remove_dir_body
  remove_dir ctx st w =
      finish Instruction.none unchanged (remove_dir_body (current_side ctx) st (begin ctx st w))

  unfoldable pub file_action : (fuel : ℕ) → Ctx → FileStat → W → Option (ℤ × Ctx × FileStat × W)
  unfolding push_file remove_file conflict_file
  file_action fuel ctx st w = elim (st.type) [
    | file ↦ elim (st.instruction) [
      | new ↦ push_file fs fuel ctx st w
      | sync ↦ push_file fs fuel ctx st w
      | remove ↦ remove_file ctx st w
      | conflict ↦ conflict_file fuel ctx st w
      | _ ↦ some (pos 0, ctx, st, w)
    ]
    | slink ↦ some (pos 0, ctx, st, w)
    | dir ↦ some (pos 0, ctx, st, w)
  ]

  unfoldable pub dir_action : Ctx → FileStat → W → Option (ℤ × Ctx × FileStat × W)
  unfolding new_dir sync_dir remove_dir
  dir_action ctx st w = elim (st.type) [
    | dir ↦ elim (st.instruction) [
      | new ↦ new_dir ctx st w
      | sync ↦ sync_dir ctx st w
      | conflict ↦ sync_dir ctx st w
      | remove ↦ remove_dir ctx st w
      | _ ↦ some (pos 0, ctx, st, w)
    ]
    | slink ↦ some (pos 0, ctx, st, w)
    | file ↦ some (pos 0, ctx, st, w)
  ]
