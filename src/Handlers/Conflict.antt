-- ===== src/Handlers/Conflict.antt =====
-- src/csync_propagate.c, `_csync_conflict_file`: what it changes of the entry and of the context.
use ocsync.Base.{
  ℕ, ◌≡◌, ◌∙◌, ap, Option, none, some, ℤ, if◌then◌else◌, is_negative, inl, inr, Bool-cases,
}
use ocsync.Types.{Str, Instruction, FileStat, Ctx}
use ocsync.Reconcile.{set_instruction}
use ocsync.FileSystem.{FileSystem}
use ocsync.Push.{push_file}
use ocsync.Handlers.{conflict_file, drop_copy}
use ocsync.Handlers.Effect.{SameTrees, Marked, Final, backup_file-Marked, push_file-Marked}

Marked-then :
    {W : Type 0} {P : Instruction → Type 0} (ctx ctx₁ : Ctx) (st st₁ : FileStat)
    (o : Option (ℤ × Ctx × FileStat × W))
    → ((i : Instruction) × (st₁ ≡ set_instruction i st) × P i) × SameTrees ctx ctx₁
    → Marked Final ctx₁ st₁ o
    → Marked Final ctx st o
Marked-then ctx ctx₁ st st₁ none h k = tt
Marked-then ctx ctx₁ st st₁ (some (rc, ctx₂, st₂, w)) h k = (
  (k.0.0, k.0.1 ∙ ap (set_instruction (k.0.0)) (h.0.1), k.0.2),
  (k.1.0 ∙ h.1.0, k.1.1 ∙ h.1.1, k.1.2 ∙ h.1.2),
)

module _ {W : Type 0} (fs : FileSystem W) (fuel : ℕ) where
  after_push :
      (name : Str) (ctx : Ctx) (st : FileStat) (o : Option (ℤ × Ctx × FileStat × W))
      → Marked Final ctx st o
      → Marked Final ctx st (elim o [
        | none ↦ none
        | some (rc', ctx₂, st₂, w₂) ↦
            if is_negative rc'
            then some (rc', ctx₂, st₂, w₂)
            else some (rc', ctx₂, st₂, drop_copy fs name ctx₂ st₂ w₂)
      ])
  after_push name ctx st none h = tt
  after_push name ctx st (some (rc, ctx₂, st₂, w₂)) h = elim (Bool-cases (is_negative rc)) [
    | inl e ↦ rw (e) h
    | inr e ↦ rw (e) h
  ]

  after_backup :
      (name : Str) (ctx : Ctx) (st : FileStat) (o : Option (ℤ × Ctx × FileStat × W))
      → Marked Final ctx st o
      → Marked Final ctx st (elim o [
        | none ↦ none
        | some (rc, ctx₁, st₁, w₁) ↦
            if is_negative rc
            then some (rc, ctx₁, st₁, w₁)
            else elim (push_file fs fuel ctx₁ st₁ w₁) [
              | none ↦ none
              | some (rc', ctx₂, st₂, w₂) ↦
                  if is_negative rc'
                  then some (rc', ctx₂, st₂, w₂)
                  else some (rc', ctx₂, st₂, drop_copy fs name ctx₂ st₂ w₂)
            ]
      ])
  after_backup name ctx st none h = tt
  after_backup name ctx st (some (rc, ctx₁, st₁, w₁)) h = elim (Bool-cases (is_negative rc)) [
    | inl e ↦ rw (e) h
    | inr e ↦ rw (e) (
        Marked-then ctx ctx₁ st st₁ _ h (
          after_push name ctx₁ st₁ (push_file fs fuel ctx₁ st₁ w₁)
            (push_file-Marked fs ctx₁ st₁ fuel w₁)))
  ]

  pub conflict_file-Marked :
      (ctx : Ctx) (st : FileStat) (w : W) → Marked Final ctx st (conflict_file fs fuel ctx st w)
  unfolding conflict_file
  conflict_file-Marked ctx st w = after_backup _ ctx st _ (backup_file-Marked fs ctx st _ w)
