-- ===== src/Session/Whole.antt =====
-- The update detection and the reconciliation after it.
use ocsync.Base.{ℤ, pos, ◌≡◌, refl, Option, none, some, Bool, ℕ, ap, true, not, ◌&&◌}
use ocsync.Types.{Str, Replica, Ctx, local_replica, remote_replica, FileStat}
use ocsync.Update.{Vio, Journal}
use ocsync.Update.Walk.{Ends}
use ocsync.Update.Scan.{Rules, rules_of, IsScanned, IsDetected, Holds}
use ocsync.Update.Pair.{Agrees, detect_instruction-detected_pair}
use ocsync.Reconcile.Pair.{acts, settle_one_side}
use ocsync.RbTree.{c_rbtree_find}
use ocsync.Session.{csync_update, csync_reconcile}
use ocsync.Session.Reconcile.{csync_reconcile-decide, decide_path}
use ocsync.Session.Detection.{csync_update-IsScanned}

-- a result that `Ends` speaks of
Ends-some :
    (Good : Ctx → Type 0) (o : Option (ℤ × Ctx))
    → Ends Good o
    → (rc : ℤ) × (ctx : Ctx) × (o ≡ some (rc, ctx)) × Good ctx
Ends-some Good none g = elim g [ ]
Ends-some Good (some (rc, ctx)) g = (rc, ctx, refl, g)

-- A path's two versions after both phases: they are not both propagated.
abbrev pub one_acts : Option FileStat → Option FileStat → Bool
one_acts (some l) (some r) = not (acts l.instruction && acts r.instruction)
one_acts _ _ = true

decide_path-one_acts :
    (rules : Rules) (keep : Bool) (k : ℕ) (l r : Option FileStat)
    → Holds (IsDetected rules local_replica k) l
    → Holds (IsDetected rules remote_replica k) r
    → Agrees rules.journal k
    → one_acts (decide_path keep l r).0 (decide_path keep l r).1 ≡ true
decide_path-one_acts rules keep k none none h h' agrees = refl
decide_path-one_acts rules keep k (some l) none h h' agrees = refl
decide_path-one_acts rules keep k none (some r) h h' agrees = refl
decide_path-one_acts rules keep k (some l) (some r) h h' agrees =
    let (fs, type, e) = h.decided in
    let (fs', type', e') = h'.decided in
    let p =
      detect_instruction-detected_pair rules.journal rules.journal_exists k fs fs' type type'
        agrees in
    ap not (settle_one_side keep l.modtime r.modtime l.instruction r.instruction (rw (e, e') p))

-- From trees that hold only what the detection entered, after it and the reconciliation, on any
-- file systems and with any journal whose lookups by hash answer alike in both walks, no path has a
-- version on each replica that is propagated to the other one.
pub csync_update-csync_reconcile-one_acts :
    (matches : (pattern name : Str) → Bool) (vio : Replica → Vio) (journal : Journal) (ctx : Ctx)
    → IsScanned matches journal ctx
    → ((h : ℕ) → Agrees journal h)
    → (rc : ℤ) × (ctx₁ : Ctx) × (ctx₂ : Ctx) × (csync_update matches vio journal ctx
        ≡ some (rc, ctx₁))
      × (csync_reconcile ctx₁ ≡ (pos 0, ctx₂))
      × ((k : ℕ)
          → one_acts (c_rbtree_find ctx₂.local.tree k) (c_rbtree_find ctx₂.remote.tree k) ≡ true)
csync_update-csync_reconcile-one_acts matches vio journal ctx g agrees =
    let (rc, ctx₁, done, g₁) =
      Ends-some (IsScanned matches journal) _ (csync_update-IsScanned matches vio journal ctx g) in
    let (ctx₂, done', r) =
      csync_reconcile-decide ctx₁
        (record { local_valid = g₁.local_scan.valid; remote_valid = g₁.remote_scan.valid }) in
    (
      rc,
      ctx₁,
      ctx₂,
      done,
      done',
      λ k.
          rw ((r.decided k).0, (r.decided k).1)
            (decide_path-one_acts (rules_of matches journal ctx₁) ctx₁.options.with_conflict_copys k
              (c_rbtree_find ctx₁.local.tree k) (c_rbtree_find ctx₁.remote.tree k)
              (g₁.local_scan.detected k) (g₁.remote_scan.detected k) (agrees k)),
    )
