-- ===== src/Push/Frame.antt =====
-- src/csync_propagate.c, `_csync_push_file`: what a push leaves alone.
use ocsync.Base.{ℕ, false, Option, none, some, ℤ, pos, if◌then◌else◌, ◌≡◌, refl, ap}
use ocsync.Types.{updated, error, Replica, FileStat, Ctx}
use ocsync.Reconcile.{set_instruction}
use ocsync.Update.{current_side}
use ocsync.FileSystem.{FileSystem, Run, Outcome, next, out, hang, is_zero}
use ocsync.FileSystem.Keeps.{Ensures, IsFrame, Leads}
use ocsync.Transfer.{mark, begin, other_side}
use ocsync.Push.{push_body, push_out, push_file}
use ocsync.Push.Keeps.{push_between-Leads}

-- What a push changes of the context and the entry: the replica and the status of the first, nothing
-- of the second.
Untouched : {W : Type 0} → Ctx → FileStat → Run W → Type 0
Untouched ctx st r =
    (r.st ≡ st) × (r.ctx ≡ record ctx { status_code = r.ctx.status_code; replica = r.ctx.replica })

Untouched-IsFrame : {W : Type 0} (ctx : Ctx) (st : FileStat) → IsFrame {W = W} (Untouched ctx st)
unfolding Untouched
Untouched-IsFrame ctx st = record {
  by_world = λ r w h. h;
  by_status = λ r code h. (h.0, ap (λ (c : Ctx). record c { status_code = code }) h.1);
  by_replica = λ r q h. (h.0, ap (λ (c : Ctx). record c { replica = q }) h.1);
  by_source = λ r h i. i;
  by_target = λ r h i. i;
  by_temporary = λ r name i. i;
}

Done : {W : Type 0} → Ctx → FileStat → Run W → Type 0
Done ctx st r =
    (r.st ≡ set_instruction updated st)
    × (r.ctx ≡ record ctx { status_code = r.ctx.status_code; replica = r.ctx.replica })

-- what a push that returned gives
abbrev pub Pushed : {W : Type 0} → Ctx → FileStat → Option (ℤ × Ctx × FileStat × W) → Type 0
Pushed ctx st none = Unit
Pushed ctx st (some (rc, ctx', st', w)) =
    (st' ≡ set_instruction (if is_zero rc then updated else error) st)
    × (ctx' ≡ record ctx { status_code = ctx'.status_code })

out-Pushed :
    {W : Type 0} (fs : FileSystem W) (srep drep : Replica) (ctx : Ctx) (st : FileStat)
    (o : Outcome W Unit)
    → Ensures (λ a r. Done ctx st r) (λ rc r. Untouched ctx st r × (is_zero rc ≡ false)) o
    → Pushed ctx st (elim o [
      | next _ r ↦ some (push_out fs srep drep ctx.replica (pos 0) r)
      | out rc r ↦ some (push_out fs srep drep ctx.replica rc r)
      | hang ↦ none
    ])
unfolding push_out Done Untouched
out-Pushed fs srep drep ctx st (next a r) h =
    (h.0, ap (λ (c : Ctx). record c { replica = ctx.replica }) h.1)
out-Pushed fs srep drep ctx st (out rc r) h =
    rw (h.1, h.1)
      (ap (set_instruction error) h.0.0, ap (λ (c : Ctx). record c { replica = ctx.replica }) h.0.1)
out-Pushed fs srep drep ctx st hang h = tt

-- Whatever the two file systems answer: a push that returns has marked its entry as updated exactly
-- when its return code is 0 and as an error otherwise, and has changed nothing else of the entry, and
-- of the context only the status, with the replica restored.
pub push_file-Pushed :
    {W : Type 0} (fs : FileSystem W) (fuel : ℕ) (ctx : Ctx) (st : FileStat) (w : W)
    → Pushed ctx st (push_file fs fuel ctx st w)
unfolding push_file push_body Done Untouched
push_file-Pushed {W} fs fuel ctx st w =
    let r : Run W = begin ctx st w in
    let src = current_side ctx in
    let dst = other_side ctx in
    let done : Leads (Untouched ctx st) (λ _ r. Done ctx st r) (mark updated) = record {
      leads = λ r i. (ap (set_instruction updated) (i.0), i.1);
    } in
    let frame = Untouched-IsFrame ctx st in
    let leads =
      push_between-Leads fs (Untouched ctx st) frame (λ _ r. Done ctx st r) done fuel src dst st in
    out-Pushed fs src.type dst.type ctx st (push_body fs fuel r) (leads.leads r (refl, refl))
