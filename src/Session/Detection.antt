-- ===== src/Session/Detection.antt =====
-- `csync_update` on both replicas.
use ocsync.Base.{Bool, is_negative, Bool-cases, inl, inr}
use ocsync.Types.{Str, Replica, local_replica, remote_replica, status_is_ok, Ctx, update_error, ok}
use ocsync.Update.{Vio, Journal}
use ocsync.Update.Walk.{Ends, Ends-bind, Ends-if}
use ocsync.Update.Scan.{IsScanned, csync_ftw-IsScanned}
use ocsync.Session.{enter, fail_with, max_depth, walk_from, end_update, update_remote, csync_update}

module _ (matches : (pattern name : Str) → Bool) (vio : Replica → Vio) (journal : Journal) where
  -- the property depends on nothing that the phases set besides the trees
  failed :
      (ctx : Ctx)
      → IsScanned matches journal ctx
      → IsScanned matches journal (fail_with update_error ctx).1
  failed ctx g = elim (Bool-cases (status_is_ok ctx.status_code)) [
    | inl e ↦ rw e g
    | inr e ↦ rw e (record { local_scan = g.local_scan; remote_scan = g.remote_scan })
  ]

  ended : (ctx : Ctx) → IsScanned matches journal ctx → IsScanned matches journal (end_update ctx).1
  ended ctx g = record { local_scan = g.local_scan; remote_scan = g.remote_scan }

  remote-Ends :
      (ctx : Ctx)
      → IsScanned matches journal ctx
      → Ends (IsScanned matches journal) (update_remote matches vio journal ctx)
  remote-Ends ctx g =
      let start = enter remote_replica ctx in
      Ends-if (IsScanned matches journal) (ctx.options.local_only_mode) _ _ (λ _. ended ctx g)
        (λ _.
          Ends-bind (IsScanned matches journal) (walk_from matches vio journal remote_replica start)
            _
            (csync_ftw-IsScanned matches journal (vio start.replica) max_depth start
              start.remote.uri (record { local_scan = g.local_scan; remote_scan = g.remote_scan }))
            (λ rc c h. elim (Bool-cases (is_negative rc)) [
              | inl e ↦ rw e (failed c h)
              | inr e ↦ rw e (ended c h)
            ]))

  -- Where both trees hold only what the detection entered, as empty ones do, the update detection
  -- ends on every file system, whatever fails, and leaves both trees so: valid, with entries under
  -- their paths' hashes, of no excluded path, and each with the instruction that the detection
  -- chose.
  pub csync_update-IsScanned :
      (ctx : Ctx)
      → IsScanned matches journal ctx
      → Ends (IsScanned matches journal) (csync_update matches vio journal ctx)
  unfolding csync_update
  csync_update-IsScanned ctx g =
      let start = enter local_replica (record ctx { status_code = ok }) in
      Ends-bind (IsScanned matches journal) (walk_from matches vio journal local_replica start) _
        (csync_ftw-IsScanned matches journal (vio start.replica) max_depth start start.local.uri
          (record { local_scan = g.local_scan; remote_scan = g.remote_scan }))
        (λ rc c h.
          Ends-if (IsScanned matches journal) (is_negative rc) _ _
            (λ _. record { local_scan = h.local_scan; remote_scan = h.remote_scan })
            (λ _. remote-Ends c h))
