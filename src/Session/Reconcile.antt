-- ===== src/Session/Reconcile.antt =====
-- `csync_reconcile`, seen from one path: the decision that it comes to.
use ocsync.Base.{ℕ, Option, none, some, Bool, ◌≡◌, refl, pos, arith}
use Prim.Native.Nat.{bit_or}
use ocsync.RbTree.{c_rbtree_find}
use ocsync.Types.{ok, FileStat, Ctx}
use ocsync.Reconcile.{Files, alone, set_instruction}
use ocsync.Reconcile.Pair.{settle}
use ocsync.Reconcile.Trees.{IsFiles, Passed, one_pass, one_pass-Passed}
use ocsync.Session.{csync_reconcile, csync_status_reconcile}

-- The decision for one path: the versions of both replicas, each with its new instruction.
abbrev pub decide_path :
    (keep : Bool) → Option FileStat → Option FileStat → Option FileStat × Option FileStat
decide_path keep none none = (none, none)
decide_path keep (some l) none = (some (set_instruction (alone l.instruction) l), none)
decide_path keep none (some r) = (none, some (set_instruction (alone r.instruction) r))
decide_path keep (some l) (some r) =
    let (i, j) = settle keep l.modtime r.modtime l.instruction r.instruction in
    (some (set_instruction i l), some (set_instruction j r))

-- both trees of the context are valid
pub record HasTrees (ctx : Ctx) : Type 0 where
  pub local_valid : IsFiles ctx.local.tree
  pub remote_valid : IsFiles ctx.remote.tree

-- what a reconciliation leaves
pub record Reconciled (ctx ctx' : Ctx) : Type 0 where
  pub trees : HasTrees ctx'
  pub decided :
      (k : ℕ)
      → let keep = ctx.options.with_conflict_copys in
        let both =
          decide_path keep (c_rbtree_find ctx.local.tree k) (c_rbtree_find ctx.remote.tree k) in
        (c_rbtree_find ctx'.local.tree k ≡ both.0) × (c_rbtree_find ctx'.remote.tree k ≡ both.1)
  pub code : ctx'.status_code ≡ ok
  pub phase : ctx'.status ≡ bit_or ctx.status csync_status_reconcile

-- two passes, first over `a` and then over `b`, decide each path
passes_decide :
    (keep : Bool) (a b a₁ b₁ a₂ b₂ : Files)
    → Passed keep a b a₁ b₁
    → Passed keep b₁ a₁ b₂ a₂
    → (k : ℕ)
    → let both = decide_path keep (c_rbtree_find a k) (c_rbtree_find b k) in
      (c_rbtree_find a₂ k ≡ both.0) × (c_rbtree_find b₂ k ≡ both.1)
passes_decide keep a b a₁ b₁ a₂ b₂ p q k =
    let e₁ = p.current_found k in
    let e₂ = p.other_found k in
    let e₃ = q.current_found k in let e₄ = q.other_found k in (ground arith, ground arith)

-- On valid trees the reconciliation succeeds, sets its bit of the status, keeps both trees valid,
-- and gives each path the instructions that its two versions alone decide: the order of the walk
-- and the other files have no influence.
pub csync_reconcile-decide :
    (ctx : Ctx)
    → HasTrees ctx
    → (ctx' : Ctx) × (csync_reconcile ctx ≡ (pos 0, ctx')) × Reconciled ctx ctx'
unfolding csync_reconcile
csync_reconcile-decide ctx h =
    let keep = ctx.options.with_conflict_copys in
    let a = ctx.local.tree in
    let b = ctx.remote.tree in
    let first = one_pass keep a b h.local_valid h.remote_valid in
    let p = one_pass-Passed keep a b h.local_valid h.remote_valid in
    let second = one_pass keep first.2 first.1 p.1.other_valid p.1.current_valid in
    let q = one_pass-Passed keep first.2 first.1 p.1.other_valid p.1.current_valid in
    (
      (csync_reconcile ctx).1,
      rw (p.0, q.0) refl,
      rw (p.0, q.0)
          (record {
            trees = record { local_valid = q.1.other_valid; remote_valid = q.1.current_valid };
            decided = passes_decide keep a b first.1 first.2 second.2 second.1 p.1 q.1;
            code = refl;
            phase = refl;
          }),
    )
