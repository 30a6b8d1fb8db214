-- ===== src/Session.antt =====
-- src/csync.c: the phases of a synchronisation, and the bits of `status` that record them.
pub mod Reconcile
pub mod Detection
pub mod Whole
pub mod Commit
pub mod Propagate
use Prim.Native.Nat.{bit_or}
use ocsync.Base.{ℕ, ℤ, pos, minus_one, is_negative, if◌then◌else◌, Bool, Option, none, some}
use ocsync.Types.{
  Str, Replica, local_replica, remote_replica, StatusCode, ok, status_is_ok, reconcile_error, Side,
  Ctx, tree_error, update_error,
}
use ocsync.Reconcile.{csync_reconcile_updates}
use ocsync.Update.{Vio, Journal, csync_walker, csync_ftw}

-- `CSYNC_STATUS_INIT` and the others of csync_private.h
abbrev pub csync_status_init : ℕ
csync_status_init = 1

abbrev pub csync_status_update : ℕ
csync_status_update = 2

abbrev pub csync_status_reconcile : ℕ
csync_status_reconcile = 4

abbrev pub csync_status_propagate : ℕ
csync_status_propagate = 8

abbrev pub csync_status_done : ℕ
csync_status_done = 15

-- `ctx->current = ...; ctx->replica = ...`
abbrev pub enter : Replica → Ctx → Ctx
enter local_replica ctx = record ctx { current = local_replica; replica = ctx.local.type }
enter remote_replica ctx = record ctx { current = remote_replica; replica = ctx.remote.type }

-- After a failed pass: an error code that was set before gives way to the general one.
abbrev pub fail_with : StatusCode → Ctx → ℤ × Ctx
fail_with code ctx =
    (minus_one, if status_is_ok ctx.status_code then ctx else record ctx { status_code = code })

unfoldable pub csync_reconcile : Ctx → ℤ × Ctx
unfolding csync_reconcile_updates
csync_reconcile ctx =
    let ctx₀ = record ctx { status_code = ok } in
    let (rc, ctx₁) = csync_reconcile_updates (enter local_replica ctx₀) in
    let (rc', ctx₂) = csync_reconcile_updates (enter remote_replica ctx₁) in
    if is_negative rc
    then fail_with reconcile_error ctx₁
    else if is_negative rc'
    then fail_with reconcile_error ctx₂
    else (pos 0, record ctx₂ { status = bit_or ctx₂.status csync_status_reconcile })

-- `MAX_DEPTH` of csync_private.h
abbrev pub max_depth : ℕ
max_depth = 50

abbrev pub end_update : Ctx → ℤ × Ctx
end_update ctx = (pos 0, record ctx { status = bit_or ctx.status csync_status_update })

-- The file system that `csync_vio_opendir` and `csync_vio_stat` use depends on `ctx->replica`,
-- which a walk leaves as it is.
module _ (matches : (pattern name : Str) → Bool) (vio : Replica → Vio) (journal : Journal) where
  abbrev pub walk_from : Replica → Ctx → Option (ℤ × Ctx)
  walk_from local_replica ctx =
      csync_ftw matches (vio ctx.replica) (csync_walker journal) max_depth ctx ctx.local.uri
  walk_from remote_replica ctx =
      csync_ftw matches (vio ctx.replica) (csync_walker journal) max_depth ctx ctx.remote.uri

  -- the second half of `csync_update`
  abbrev pub update_remote : Ctx → Option (ℤ × Ctx)
  update_remote ctx =
      if ctx.options.local_only_mode
      then some (end_update ctx)
      else elim (walk_from remote_replica (enter remote_replica ctx)) [
        | none ↦ none
        | some (rc, ctx') ↦
            some (if is_negative rc then fail_with update_error ctx' else end_update ctx')
      ]

  unfoldable pub csync_update : Ctx → Option (ℤ × Ctx)
  csync_update ctx =
      elim (walk_from local_replica (enter local_replica (record ctx { status_code = ok }))) [
        | none ↦ none
        | some (rc, ctx') ↦
            if is_negative rc
            then some (minus_one, record ctx' { status_code = tree_error })
            else update_remote ctx'
      ]
