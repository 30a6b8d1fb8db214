-- ===== src/Handlers/Effect.antt =====
-- src/csync_propagate.c: what the handlers of one entry change of it and of the context.
use ocsync.Base.{
  ℕ, ◌≡◌, refl, ap, Bool, true, false, Option, none, some, ℤ, minus_one, if◌then◌else◌,
}
use ocsync.Types.{
  Str, Instruction, updated, error, deleted, Replica, unsuccessful, FileStat, Side, Ctx,
}
use ocsync.Reconcile.{set_instruction}
use ocsync.Update.{current_side}
use ocsync.FileSystem.{FileSystem, Run, Outcome, next, out, hang, Action, exit, is_zero}
use ocsync.FileSystem.Keeps.{
  Ensures, IsFrame, Leads, Leads-bind, Keeps-gets, Keeps-call, Keeps-set_status, Keeps-set_replica,
  Keeps-or_fail,
}
use ocsync.Transfer.{other_side, uri_of, c_dir_mode, mark, begin}
use ocsync.Push.{push_file}
use ocsync.Push.Frame.{Pushed, push_file-Pushed}
use ocsync.Push.Keeps.{Keeps-set_mode, Keeps-set_owner_and_time}
use ocsync.Handlers.{
  is_conflict, finish, unchanged, backup_body, backup_file, remove_file_body, remove_file,
  attributes, new_dir_body, new_dir, sync_dir_body, sync_dir,
}

-- the instructions of an entry that is done with
abbrev pub is_final : Instruction → Bool
is_final Instruction.none = true
is_final error = true
is_final deleted = true
is_final updated = true
is_final _ = false

-- the trees and the current replica
abbrev pub SameTrees : Ctx → Ctx → Type 0
SameTrees ctx ctx' =
    (ctx'.local.tree ≡ ctx.local.tree)
    × (ctx'.remote.tree ≡ ctx.remote.tree)
    × (ctx'.current ≡ ctx.current)

-- what a handler that came back gives: the entry with an instruction that satisfies `P`
abbrev pub Marked :
    {W : Type 0}
    → (Instruction → Type 0)
    → Ctx
    → FileStat
    → Option (ℤ × Ctx × FileStat × W)
    → Type 0
Marked P ctx st none = Unit
Marked P ctx st (some (rc, ctx', st', w)) =
    ((i : Instruction) × (st' ≡ set_instruction i st) × P i) × SameTrees ctx ctx'

abbrev pub Final : Instruction → Type 0
Final i = is_final i ≡ true

module _ {W : Type 0} (ctx : Ctx) (st : FileStat) where
  Before : Run W → Type 0
  Before r = (r.st ≡ st) × SameTrees ctx r.ctx

  After : Run W → Type 0
  After r = ((i : Instruction) × (r.st ≡ set_instruction i st) × Final i) × SameTrees ctx r.ctx

  Before-IsFrame : IsFrame Before
  unfolding Before
  Before-IsFrame = record {
    by_world = λ r w h. h;
    by_status = λ r code h. h;
    by_replica = λ r q h. h;
    by_source = λ r h i. i;
    by_target = λ r h i. i;
    by_temporary = λ r name i. i;
  }

  mark-Leads : (i : Instruction) → Final i → Leads Before (λ _. After) (mark i)
  unfolding Before After
  mark-Leads i final = record { leads = λ r h. ((i, ap (set_instruction i) (h.0), final), h.1) }

  finish-Marked :
      (bad : Instruction) (restore : Ctx → Ctx) (o : Outcome W Unit)
      → Final bad
      → ((c : Ctx) → SameTrees ctx c → SameTrees ctx (restore c))
      → Ensures (λ _. After) (λ rc r. Before r × (is_zero rc ≡ false)) o
      → Marked Final ctx st (finish bad restore o)
  unfolding Before After
  finish-Marked bad restore (next a r) final same h = (h.0, same r.ctx (h.1))
  finish-Marked bad restore (out rc r) final same h =
      rw (h.1) ((bad, ap (set_instruction bad) (h.0.0), final), same r.ctx (h.0.1))
  finish-Marked bad restore hang final same h = h

module _ {W : Type 0} {I : Run W → Type 0} {A : Type 0} {Q : A → Run W → Type 0} where
  Leads-if :
      (b : Bool) {m n : Action W A} → Leads I Q m → Leads I Q n → Leads I Q (if b then m else n)
  Leads-if true h k = h
  Leads-if false h k = k

  Leads-exit : (rc : ℤ) → is_zero rc ≡ false → Leads I Q (exit rc)
  Leads-exit rc e = record { leads = λ r i. (i, e) }

Pushed-Marked :
    {W : Type 0} (ctx : Ctx) (st : FileStat) (o : Option (ℤ × Ctx × FileStat × W))
    → Pushed ctx st o
    → Marked Final ctx st o
Pushed-Marked ctx st none h = tt
Pushed-Marked ctx st (some (rc, ctx', st', w)) h = (
  ((if is_zero rc then updated else error), h.0, final (is_zero rc)),
  (
    ap (λ (c : Ctx). c.local.tree) (h.1),
    ap (λ (c : Ctx). c.remote.tree) (h.1),
    ap (λ (c : Ctx). c.current) (h.1),
  ),
)
  where
    final : (b : Bool) → Final (if b then updated else error)
    final true = refl
    final false = refl

module _ {W : Type 0} (fs : FileSystem W) (ctx : Ctx) (st : FileStat) where
  frame : IsFrame {W = W} (Before ctx st)
  frame = Before-IsFrame ctx st

  backup_body-Leads : (name : Str) → Leads (Before ctx st) (λ _. After ctx st) (backup_body fs name)
  unfolding backup_body
  backup_body-Leads name = Leads-bind (Before ctx st) (Keeps-gets (Before ctx st) (λ r. r.st)) λ s.
      Leads-bind (Before ctx st) (Keeps-gets (Before ctx st) (λ r. other_side r.ctx)) λ dst.
        Leads-if (is_conflict s.instruction)
          (Leads-bind (Before ctx st) (Keeps-set_replica (Before ctx st) frame dst.type) λ _.
            Leads-bind (Before ctx st)
              (Keeps-call (Before ctx st) frame (fs.rename dst.type (uri_of dst s) name))
              λ ok.
                Leads-bind (Before ctx st) (Keeps-or_fail (Before ctx st) frame fs ok)
                  λ _. mark-Leads ctx st Instruction.none refl)
          (Leads-bind (Before ctx st) (Keeps-set_status (Before ctx st) frame unsuccessful)
            λ _. Leads-exit minus_one refl)

  remove_file_body-Leads : Leads (Before ctx st) (λ _. After ctx st) (remove_file_body fs)
  unfolding remove_file_body
  remove_file_body-Leads = Leads-bind (Before ctx st) (Keeps-gets (Before ctx st) (λ r. r.st)) λ s.
      Leads-bind (Before ctx st) (Keeps-gets (Before ctx st) (λ r. current_side r.ctx)) λ src.
        Leads-bind (Before ctx st) (Keeps-gets (Before ctx st) (λ r. r.ctx.replica)) λ q.
          Leads-bind (Before ctx st) (Keeps-call (Before ctx st) frame (fs.unlink q (uri_of src s)))
            λ ok.
              Leads-bind (Before ctx st) (Keeps-or_fail (Before ctx st) frame fs ok)
                λ _. mark-Leads ctx st deleted refl

  attributes-Leads :
      (before : Replica) (dst : Side) (s : FileStat)
      → Leads (Before ctx st) (λ _. After ctx st) (attributes fs before dst s)
  unfolding attributes After
  attributes-Leads before dst s =
      Leads-bind (Before ctx st)
        (Keeps-set_mode fs (Before ctx st) frame dst.type c_dir_mode (uri_of dst s))
        λ _.
          Leads-bind (Before ctx st)
            (Keeps-set_owner_and_time fs (Before ctx st) frame dst.type (uri_of dst s))
            λ _. record { leads = λ r h. (mark-Leads ctx st updated refl).leads r h }

  new_dir_body-Leads :
      (before : Replica) (dst : Side) (s : FileStat)
      → Leads (Before ctx st) (λ _. After ctx st) (new_dir_body fs dst s before)
  unfolding new_dir_body
  new_dir_body-Leads before dst s =
      Leads-bind (Before ctx st) (Keeps-set_replica (Before ctx st) frame dst.type) λ _.
        Leads-bind (Before ctx st)
          (Keeps-call (Before ctx st) frame (fs.mkdirs dst.type (uri_of dst s)))
          λ ok.
            Leads-bind (Before ctx st) (Keeps-or_fail (Before ctx st) frame fs ok)
              λ _. attributes-Leads before dst s

  sync_dir_body-Leads :
      (before : Replica) (dst : Side) (s : FileStat)
      → Leads (Before ctx st) (λ _. After ctx st) (sync_dir_body fs dst s before)
  unfolding sync_dir_body
  sync_dir_body-Leads before dst s =
      Leads-bind (Before ctx st) (Keeps-set_replica (Before ctx st) frame dst.type)
        λ _. attributes-Leads before dst s

  begun : (w : W) → Before ctx st (begin ctx st w)
  unfolding Before
  begun w = (refl, (refl, refl, refl))

  pub backup_file-Marked : (name : Str) (w : W) → Marked Final ctx st (backup_file fs name ctx st w)
  unfolding backup_file
  backup_file-Marked name w =
      finish-Marked ctx st error (λ c. record c { replica = ctx.replica })
        (backup_body fs name (begin ctx st w)) refl (λ c h. h)
        ((backup_body-Leads name).leads (begin ctx st w) (begun w))

  pub remove_file-Marked : (w : W) → Marked Final ctx st (remove_file fs ctx st w)
  unfolding remove_file
  remove_file-Marked w =
      finish-Marked ctx st Instruction.none unchanged (remove_file_body fs (begin ctx st w)) refl
        (λ c h. h) (remove_file_body-Leads.leads (begin ctx st w) (begun w))

  pub new_dir-Marked : (w : W) → Marked Final ctx st (new_dir fs ctx st w)
  unfolding new_dir
  new_dir-Marked w =
      finish-Marked ctx st error unchanged
        (new_dir_body fs (other_side ctx) st ctx.replica (begin ctx st w)) refl (λ c h. h)
        ((new_dir_body-Leads ctx.replica (other_side ctx) st).leads (begin ctx st w) (begun w))

  pub sync_dir-Marked : (w : W) → Marked Final ctx st (sync_dir fs ctx st w)
  unfolding sync_dir
  sync_dir-Marked w =
      finish-Marked ctx st error unchanged
        (sync_dir_body fs (other_side ctx) st ctx.replica (begin ctx st w)) refl (λ c h. h)
        ((sync_dir_body-Leads ctx.replica (other_side ctx) st).leads (begin ctx st w) (begun w))

  pub push_file-Marked : (fuel : ℕ) (w : W) → Marked Final ctx st (push_file fs fuel ctx st w)
  push_file-Marked fuel w = Pushed-Marked ctx st _ (push_file-Pushed fs fuel ctx st w)
