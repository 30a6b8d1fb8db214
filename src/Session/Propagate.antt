-- ===== src/Session/Propagate.antt =====
-- src/csync.c, `csync_propagate`: both replicas' trees are propagated, the local one first.
use Prim.Native.Nat.{bit_or}
use ocsync.Base.{
  ℕ, ◌≡◌, sym, false, Option, none, some, ℤ, pos, is_negative, if◌then◌else◌, All, inl, inr,
  Bool-cases,
}
use mathlib.Core.Path.{subst}
use ocsync.RbTree.InOrder.{to_list}
use ocsync.Types.{local_replica, remote_replica, ok, propagate_error, status_is_ok, Ctx}
use ocsync.FileSystem.{FileSystem}
use ocsync.Reconcile.{Files}
use ocsync.Reconcile.Trees.{IsFiles}
use ocsync.Propagate.{csync_propagate_files}
use ocsync.Propagate.Visits.{IsDone, Walked}
use ocsync.Propagate.Trees.{csync_propagate_files-Walked}
use ocsync.Session.{enter, fail_with, csync_status_propagate}
use ocsync.Session.Reconcile.{HasTrees}

module _ {W : Type 0} (fs : FileSystem W) where
  -- the second half of `csync_propagate`
  abbrev pub propagate_remote : (fuel : ℕ) → Ctx → W → Option (ℤ × Ctx × W)
  unfolding csync_propagate_files
  propagate_remote fuel ctx w = elim (csync_propagate_files fs fuel (enter remote_replica ctx) w) [
    | none ↦ none
    | some (rc, ctx', w') ↦
        if is_negative rc
        then (let (rc', c) = fail_with propagate_error ctx' in some (rc', c, w'))
        else some (pos 0, record ctx' { status = bit_or ctx'.status csync_status_propagate }, w')
  ]

  -- `none`: a push needs more fuel
  unfoldable pub csync_propagate : (fuel : ℕ) → Ctx → W → Option (ℤ × Ctx × W)
  unfolding propagate_remote
  csync_propagate fuel ctx w =
      elim (csync_propagate_files fs fuel (enter local_replica (record ctx { status_code = ok }))
        w) [
          | none ↦ none
          | some (rc, ctx', w') ↦
              if is_negative rc
              then (let (rc', c) = fail_with propagate_error ctx' in some (rc', c, w'))
              else propagate_remote fuel ctx' w'
        ]

abbrev pub AllDone : Files → Type 0
AllDone t = All IsDone (to_list t.root)

-- what a propagation leaves
abbrev pub Propagated : {W : Type 0} → Option (ℤ × Ctx × W) → Type 0
Propagated none = Unit
Propagated (some (rc, ctx, w)) =
    HasTrees ctx × (is_negative rc ≡ false → AllDone ctx.local.tree × AllDone ctx.remote.tree)

module _ {W : Type 0} where
  after_remote :
      (ctx ctx' : Ctx) (rc : ℤ) (w : W)
      → Walked (enter remote_replica ctx) (some (rc, ctx', w))
      → (ctx'.local.tree ≡ ctx.local.tree)
        × IsFiles ctx'.remote.tree
        × (is_negative rc ≡ false → AllDone ctx'.remote.tree)
  unfolding Walked
  after_remote ctx ctx' rc w h = rw (h.0) at (h.1)

  after_local :
      (ctx ctx' : Ctx) (rc : ℤ) (w : W)
      → Walked (enter local_replica ctx) (some (rc, ctx', w))
      → (ctx'.remote.tree ≡ ctx.remote.tree)
        × IsFiles ctx'.local.tree
        × (is_negative rc ≡ false → AllDone ctx'.local.tree)
  unfolding Walked
  after_local ctx ctx' rc w h = rw (h.0) at (h.1)

  failed :
      (ctx : Ctx) (w : W)
      → HasTrees ctx
      → Propagated (let (rc, c) = fail_with propagate_error ctx in some (rc, c, w))
  failed ctx w t = elim (Bool-cases (status_is_ok ctx.status_code)) [
    | inl e ↦ rw (e) (t, λ e. absurd cc)
    | inr e ↦
        rw (e)
          (record { local_valid = t.local_valid; remote_valid = t.remote_valid }, λ e. absurd cc)
  ]

  on_remote :
      (ctx : Ctx) (o : Option (ℤ × Ctx × W))
      → HasTrees ctx
      → AllDone ctx.local.tree
      → Walked (enter remote_replica ctx) o
      → Propagated (elim o [
        | none ↦ none
        | some (rc, ctx', w') ↦
            if is_negative rc
            then (let (rc', c) = fail_with propagate_error ctx' in some (rc', c, w'))
            else some
                (pos 0, record ctx' { status = bit_or ctx'.status csync_status_propagate }, w')
      ])
  on_remote ctx none t d h = tt
  on_remote ctx (some (rc, ctx', w')) t d h =
      let a = after_remote ctx ctx' rc w' h in
      let trees : HasTrees ctx' = record {
        local_valid = subst IsFiles (sym (a.0)) t.local_valid;
        remote_valid = a.1;
      } in
      elim (Bool-cases (is_negative rc)) [
        | inl e ↦ rw (e) (failed ctx' w' trees)
        | inr e ↦ rw (e) (
          record { local_valid = trees.local_valid; remote_valid = trees.remote_valid },
          λ _. (subst AllDone (sym (a.0)) d, a.2 e),
        )
      ]

module _ {W : Type 0} (fs : FileSystem W) where
  on_local :
      (fuel : ℕ) (ctx : Ctx) (o : Option (ℤ × Ctx × W))
      → HasTrees ctx
      → Walked (enter local_replica ctx) o
      → Propagated (elim o [
        | none ↦ none
        | some (rc, ctx', w') ↦
            if is_negative rc
            then (let (rc', c) = fail_with propagate_error ctx' in some (rc', c, w'))
            else propagate_remote fs fuel ctx' w'
      ])
  unfolding csync_propagate_files
  on_local fuel ctx none t h = tt
  on_local fuel ctx (some (rc, ctx', w')) t h =
      let a = after_local ctx ctx' rc w' h in
      let trees : HasTrees ctx' = record {
        local_valid = a.1;
        remote_valid = subst IsFiles (sym (a.0)) t.remote_valid;
      } in
      elim (Bool-cases (is_negative rc)) [
        | inl e ↦ rw (e) (failed ctx' w' trees)
        | inr e ↦ rw (e) (
            on_remote ctx' (csync_propagate_files fs fuel (enter remote_replica ctx') w') trees
              (a.2 e)
              (csync_propagate_files-Walked fs fuel (enter remote_replica ctx') w'
                trees.remote_valid))
      ]

  -- For any file systems: when a propagation of two valid trees comes back, both trees are valid, and
  -- unless it failed no file of either tree still has an instruction to be created, synchronised,
  -- removed or to resolve a conflict.
  pub csync_propagate-Propagated :
      (fuel : ℕ) (ctx : Ctx) (w : W) → HasTrees ctx → Propagated (csync_propagate fs fuel ctx w)
  unfolding csync_propagate
  csync_propagate-Propagated fuel ctx w t =
      let ctx₀ = record ctx { status_code = ok } in
      let trees : HasTrees ctx₀ = record {
        local_valid = t.local_valid;
        remote_valid = t.remote_valid;
      } in
      on_local fuel ctx₀ (csync_propagate_files fs fuel (enter local_replica ctx₀) w) trees
        (csync_propagate_files-Walked fs fuel (enter local_replica ctx₀) w t.local_valid)
