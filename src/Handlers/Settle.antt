-- ===== src/Handlers/Settle.antt =====
-- src/csync_propagate.c: the entries that the handlers leave to be done.
use ocsync.Base.{
  ℕ, ◌≡◌, refl, sym, ◌∙◌, ap, Bool, true, false, Option, none, some, ℤ, pos, if◌then◌else◌, inl,
  inr, Bool-cases, minus_one,
}
use ocsync.Misc.{is_enomem, is_enotempty, csync_errno_to_status}
use ocsync.Types.{
  Instruction, eval, rename, ignore, stat_error, sync, conflict, remove, new, updated, error,
  deleted, FtwType, file, slink, dir, FileStat, Ctx, propagate_error,
}
use ocsync.Update.Detect.{Replica-cases}
use ocsync.Update.{current_side}
use ocsync.FileSystem.{FileSystem, exit, modify, ◌>>◌}
use ocsync.Transfer.{uri_of, mark, begin}
use ocsync.Push.{push_file}
use ocsync.Handlers.{
  remove_file, new_dir, sync_dir, remove_dir, conflict_file, file_action, dir_action, postpone,
  finish, unchanged,
}
use ocsync.Handlers.Effect.{
  SameTrees, Marked, Final, remove_file-Marked, new_dir-Marked, sync_dir-Marked, push_file-Marked,
}
use ocsync.Handlers.Conflict.{conflict_file-Marked}

-- the file visitor would act on an entry of this type with this instruction
abbrev pub pending : FtwType → Instruction → Bool
pending file new = true
pending file sync = true
pending file remove = true
pending file conflict = true
pending _ _ = false

Final-pending : (t : FtwType) (i : Instruction) → Final i → pending t i ≡ false
Final-pending file Instruction.none h = refl
Final-pending file error h = refl
Final-pending file deleted h = refl
Final-pending file updated h = refl
Final-pending file new h = cc
Final-pending file sync h = cc
Final-pending file remove h = cc
Final-pending file conflict h = cc
Final-pending file _ h = refl
Final-pending slink i h = refl
Final-pending dir i h = refl

Marked-imp :
    {W : Type 0} (P Q : Instruction → Type 0) (ctx : Ctx) (st : FileStat)
    (o : Option (ℤ × Ctx × FileStat × W))
    → ((i : Instruction) → P i → Q i)
    → Marked P ctx st o
    → Marked Q ctx st o
Marked-imp P Q ctx st none f h = tt
Marked-imp P Q ctx st (some (rc, ctx', st', w)) f h = ((h.0.0, h.0.1, f (h.0.0) (h.0.2)), h.1)

abbrev pub Settles : FileStat → Instruction → Type 0
Settles st i = pending st.type i ≡ false

postpone-SameTrees : (st : FileStat) (ctx : Ctx) → SameTrees ctx (postpone st ctx)
postpone-SameTrees st ctx = elim (Replica-cases ctx.current) [
  | inl e ↦ rw (e) (refl, refl, refl)
  | inr e ↦ rw (e) (refl, refl, refl)
]

module _ {W : Type 0} (fs : FileSystem W) (ctx : Ctx) (st : FileStat) (w : W) where
  settled :
      (o : Option (ℤ × Ctx × FileStat × W)) → Marked Final ctx st o → Marked (Settles st) ctx st o
  settled o h = Marked-imp Final (Settles st) ctx st o (Final-pending st.type) h

  left :
      (t : FtwType) (i : Instruction)
      → t ≡ st.type
      → i ≡ st.instruction
      → pending t i ≡ false
      → Marked (Settles st) ctx st (some (pos 0, ctx, st, w))
  left t i e f h = (
    (st.instruction, refl, ap (λ u. pending u st.instruction) (sym e) ∙ ap (pending t) (sym f) ∙ h),
    (refl, refl, refl),
  )

  -- whatever the handler of a file answers, its entry is then settled, and is the same but for its
  -- instruction
  pub file_action-Marked : (fuel : ℕ) → Marked (Settles st) ctx st (file_action fs fuel ctx st w)
  unfolding file_action
  file_action-Marked fuel = step st.type st.instruction refl refl
    where
      push : Marked (Settles st) ctx st (push_file fs fuel ctx st w)
      push = settled _ (push_file-Marked fs ctx st fuel w)

      step :
          (t : FtwType) (i : Instruction)
          → t ≡ st.type
          → i ≡ st.instruction
          → Marked (Settles st) ctx st (elim t [
            | file ↦ elim i [
              | new ↦ push_file fs fuel ctx st w
              | sync ↦ push_file fs fuel ctx st w
              | remove ↦ remove_file fs ctx st w
              | conflict ↦ conflict_file fs fuel ctx st w
              | _ ↦ some (pos 0, ctx, st, w)
            ]
            | slink ↦ some (pos 0, ctx, st, w)
            | dir ↦ some (pos 0, ctx, st, w)
          ])
      step file new e f = push
      step file sync e f = push
      step file remove e f = settled _ (remove_file-Marked fs ctx st w)
      step file conflict e f = settled _ (conflict_file-Marked fs fuel ctx st w)
      step file Instruction.none e f = left file Instruction.none e f refl
      step file eval e f = left file eval e f refl
      step file rename e f = left file rename e f refl
      step file ignore e f = left file ignore e f refl
      step file stat_error e f = left file stat_error e f refl
      step file error e f = left file error e f refl
      step file deleted e f = left file deleted e f refl
      step file updated e f = left file updated e f refl
      step slink i e f = left slink i e f refl
      step dir i e f = left dir i e f refl

abbrev Any : Instruction → Type 0
Any i = Unit

-- an entry that the file visitor has done with stays done with
abbrev pub Stays : FileStat → Instruction → Type 0
Stays st i = pending st.type st.instruction ≡ false → pending st.type i ≡ false

module _ {W : Type 0} (fs : FileSystem W) (ctx : Ctx) (st : FileStat) (w : W) where
  marked :
      (P : Instruction → Type 0) (o : Option (ℤ × Ctx × FileStat × W))
      → dir ≡ st.type
      → Marked P ctx st o
      → Marked (Stays st) ctx st o
  marked P o e h = Marked-imp P (Stays st) ctx st o (λ i f settled. ap (λ u. pending u i) (sym e)) h

  as_it_is : Marked (Stays st) ctx st (some (pos 0, ctx, st, w))
  as_it_is = ((st.instruction, refl, λ settled. settled), (refl, refl, refl))

  unremoved :
      (ok nomem notempty : Bool) (ctx' : Ctx) (w' : W)
      → SameTrees ctx ctx'
      → Marked Any ctx st (
          finish Instruction.none unchanged (
            (if ok then mark deleted else (λ r.
                (if nomem
                    then exit minus_one
                    else if notempty
                    then (do modify (λ r. record r { ctx = postpone st r.ctx }); exit (pos 0))
                    else exit (pos 1))
                  r))
              (begin ctx' st w')))
  unremoved true nomem notempty ctx' w' same = ((deleted, refl, tt), same)
  unremoved false true notempty ctx' w' same = ((Instruction.none, refl, tt), same)
  unremoved false false true ctx' w' same =
      let p = postpone-SameTrees st ctx' in
      ((st.instruction, refl, tt), (p.0 ∙ same.0, p.1 ∙ same.1, p.2 ∙ same.2))
  unremoved false false false ctx' w' same = ((Instruction.none, refl, tt), same)

  remove_dir-Marked : Marked Any ctx st (remove_dir fs ctx st w)
  unfolding remove_dir
  remove_dir-Marked =
      let o = fs.rmdir ctx.replica (uri_of (current_side ctx) st) w in
      let e = fs.errno o.1 in
      let code = csync_errno_to_status e propagate_error in
      elim (Bool-cases o.0) [
        | inl gone ↦ rw (gone) (unremoved true false false ctx o.1 (refl, refl, refl))
        | inr kept ↦ rw (kept) (
            unremoved false (is_enomem e) (is_enotempty e) (record ctx { status_code = code }) o.1
              (refl, refl, refl))
      ]

  -- whatever the handler of a directory answers, its entry is the same but for its instruction, and
  -- no file is left to be done that was not
  pub dir_action-Marked : Marked (Stays st) ctx st (dir_action fs ctx st w)
  unfolding dir_action
  dir_action-Marked = step st.type st.instruction refl
    where
      step :
          (t : FtwType) (i : Instruction)
          → t ≡ st.type
          → Marked (Stays st) ctx st (elim t [
            | dir ↦ elim i [
              | new ↦ new_dir fs ctx st w
              | sync ↦ sync_dir fs ctx st w
              | conflict ↦ sync_dir fs ctx st w
              | remove ↦ remove_dir fs ctx st w
              | _ ↦ some (pos 0, ctx, st, w)
            ]
            | slink ↦ some (pos 0, ctx, st, w)
            | file ↦ some (pos 0, ctx, st, w)
          ])
      step dir new e = marked Final _ e (new_dir-Marked fs ctx st w)
      step dir sync e = marked Final _ e (sync_dir-Marked fs ctx st w)
      step dir conflict e = marked Final _ e (sync_dir-Marked fs ctx st w)
      step dir remove e = marked Any _ e (remove_dir-Marked)
      step dir _ e = as_it_is
      step slink i e = as_it_is
      step file i e = as_it_is
