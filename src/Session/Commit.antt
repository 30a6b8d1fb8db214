-- ===== src/Session/Commit.antt =====
-- src/csync.c: `csync_commit`, the end of a synchronisation.
--
-- The journal's file and handle are `ctx->statedb.file` and `ctx->statedb.db`. Trees that are freed are
-- empty, as the new ones are. `csync_vio_commit` calls the module of the remote replica, a parameter.
pub mod Closing
use ocsync.Base.{
  ℕ, Bool, true, false, Option, none, some, [], ◌++◌, ℤ, pos, minus_one, is_negative, if◌then◌else◌,
  leb,
}
use ocsync.Exclude.{bytes}
use ocsync.FileCopy.{Posix}
use ocsync.Merge.{csync_merge_file_trees}
use ocsync.RbTree.{c_rbtree_create}
use ocsync.Session.{csync_status_done, csync_status_init}
use ocsync.Sqlite.{Handle, Sqlite}
use ocsync.Statedb.Files.{csync_statedb_load, csync_statedb_close}
use ocsync.Statedb.Metadata.{csync_statedb_write}
use ocsync.Types.{
  Str, Replica, StatusCode, ok, statedb_write_error, merge_filetree_error, statedb_load_error,
  status_is_ok, Side, Ctx, key_cmp, data_cmp,
}
use ocsync.Update.{VioStat}

abbrev pub set_status_code : StatusCode → Ctx → Ctx
set_status_code code ctx = record ctx { status_code = code }

abbrev pub empty_trees : Ctx → Ctx
empty_trees ctx = record ctx {
  local = record (ctx.local) { tree = c_rbtree_create key_cmp data_cmp; list = [] };
  remote = record (ctx.remote) { tree = c_rbtree_create key_cmp data_cmp; list = [] };
}

-- "%s/.csync_journal.db"
abbrev pub journal_of : Str → Str
journal_of uri = uri ++ bytes "/.csync_journal.db"

abbrev pub name_or : Str → Option Str → Str
name_or otherwise none = otherwise
name_or otherwise (some file) = file

module _ {W : Type 0} (posix : Posix W) (sql : Sqlite W)
    (stat : Replica → Str → W → Option VioStat × W) (vio_commit : W → ℤ × W) (fuel : ℕ) where
  -- `rc`, and whether the journal was written; `none` is a call that did not come back
  unfoldable pub merge_and_write : Handle → Ctx → W → Option (ℤ × Bool × Ctx × W)
  unfolding csync_merge_file_trees csync_statedb_write
  merge_and_write db ctx w = elim (csync_merge_file_trees stat ctx w) [
    | none ↦ none
    | some (rc, ctx₁, w₁) ↦ elim (is_negative rc) [
      | true ↦ some (minus_one, false, set_status_code merge_filetree_error ctx₁, w₁)
      | false ↦ elim (csync_statedb_write sql fuel db ctx₁.local.tree w₁) [
        | none ↦ none
        | some (rc', tree, w₂) ↦
            let ctx₂ = record ctx₁ { local = record (ctx₁.local) { tree = tree } } in
            some (
              if is_negative rc'
              then (minus_one, false, set_status_code statedb_write_error ctx₂, w₂)
              else (pos 0, true, ctx₂, w₂))
      ]
    ]
  ]

  -- the closing of the journal after that, whose failure is one of the whole
  abbrev pub close_journal : Handle → Str → Option (ℤ × Bool × Ctx × W) → Option (ℤ × Ctx × W)
  close_journal db file none = none
  close_journal db file (some (rc, jwritten, ctx, w)) =
      elim (csync_statedb_close posix sql fuel db file jwritten w) [
        | none ↦ none
        | some (closed, w') ↦ some (if is_negative closed then minus_one else rc, ctx, w')
      ]

  -- "if we have a statedb and we have successfully synchronized"
  unfoldable pub merge_and_write_statedb : Handle → Str → Ctx → W → Option (ℤ × Ctx × W)
  unfolding merge_and_write csync_statedb_close
  merge_and_write_statedb none file ctx w = some (pos 0, ctx, w)
  merge_and_write_statedb (some db) file ctx w = close_journal (some db) file (
      if leb csync_status_done ctx.status
      then merge_and_write (some db) ctx w
      else some (pos 0, false, ctx, w))

  -- The rest of `csync_commit` after the replicas' module has committed; the name of the journal's
  -- file is made where there is none.
  unfoldable pub reload : Handle → Option Str → Ctx → W → Option (ℤ × Handle × Option Str × Ctx × W)
  unfolding csync_statedb_load
  reload db file ctx w =
      let name = name_or (journal_of ctx.local.uri) file in
      if ctx.statedb_disabled
      then some (pos 0, db, file, record ctx { status = csync_status_init }, w)
      else elim (csync_statedb_load posix sql fuel db name ctx w) [
        | none ↦ none
        | some (rc, db', ctx', w') ↦ some (
            if is_negative rc
            then (rc, db', some name, set_status_code statedb_load_error ctx', w')
            else (pos 0, db', some name, record ctx' { status = csync_status_init }, w'))
      ]

  -- a failed journal is a soft error, which only the status code keeps
  abbrev pub soften : ℤ → Ctx → Ctx
  soften rc ctx =
      if is_negative rc
      then (if status_is_ok ctx.status_code then set_status_code statedb_write_error ctx else ctx)
      else ctx

  unfoldable pub csync_commit :
      Handle → Option Str → Ctx → W → Option (ℤ × Handle × Option Str × Ctx × W)
  unfolding merge_and_write_statedb reload c_rbtree_create
  csync_commit db file ctx w =
      elim (merge_and_write_statedb db (name_or [] file) (set_status_code ok ctx) w) [
        | none ↦ none
        | some (rc, ctx₁, w₁) ↦
            let ctx₂ = soften rc ctx₁ in
            let (committed, w₂) = vio_commit w₁ in
            if is_negative committed
            then some (committed, db, file, ctx₂, w₂)
            else reload db file (empty_trees ctx₂) w₂
      ]
