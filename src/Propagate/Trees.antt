-- ===== src/Propagate/Trees.antt =====
-- src/csync_propagate.c: the trees after `csync_propagate_files`.
use ocsync.Base.{
  ℕ, ◌≡◌, refl, ◌∙◌, Bool, true, false, Option, none, some, List, [], ◌∷◌, ◌++◌, ℤ, pos, negsuc,
  minus_one, is_negative, if◌then◌else◌, All, inl, inr, Bool-cases,
}
use ocsync.RbTree.{modify_found}
use ocsync.RbTree.InOrder.{to_list}
use ocsync.RbTree.Relabel.{modify_found-IsValid}
use ocsync.RbTree.Visit.{All-modify}
use ocsync.Types.{
  Str, Instruction, deleted, FtwType, file, slink, dir, Replica, FileStat, Ctx, memory_error,
}
use ocsync.Reconcile.{Files, set_instruction}
use ocsync.Reconcile.Trees.{IsFiles}
use ocsync.Update.{current_side, set_current_side}
use ocsync.FileSystem.{FileSystem}
use ocsync.Handlers.Settle.{pending}
use ocsync.PathName.{slash}
use ocsync.CList.{c_list_sort}
use ocsync.Propagate.{
  cleanup_cmp, propagation_file_visitor, propagation_dir_visitor, cleanup_walk, listed,
  propagation_cleanup, walk_with, propagate_dirs, csync_propagate_files,
}
use ocsync.Propagate.Visits.{
  IsDone, hash, file_visit, dir_visit, Walked, walk_out, walk_with-Walked,
}

no_sign :
    (rc : ℤ)
    → is_negative (if is_negative rc then minus_one else pos 0) ≡ false
    → is_negative rc ≡ false
no_sign (pos n) e = refl
no_sign (negsuc n) e = cc

everything : (xs : List FileStat) → All (λ _. Unit {0}) xs
everything [] = tt
everything (x ∷ xs) = (tt, everything xs)

valid_after :
    {W : Type 0} (ctx ctx' : Ctx) (rc : ℤ) (w : W)
    → Walked ctx (some (rc, ctx', w))
    → IsFiles (current_side ctx').tree
unfolding Walked
valid_after ctx ctx' rc w k = k.1.1

IsDone-after :
    {W : Type 0} (ctx ctx' : Ctx) (rc : ℤ) (w : W)
    → Walked ctx (some (rc, ctx', w))
    → is_negative rc ≡ false
    → All IsDone (to_list (current_side ctx').tree.root)
unfolding Walked
IsDone-after ctx ctx' rc w k = k.1.2

final-IsDone :
    (ok : Bool) (st : FileStat)
    → IsDone (set_instruction (if ok then deleted else Instruction.none) st)
final-IsDone ok st = step ok st.type
  where
    step : (b : Bool) (t : FtwType) → pending t (if b then deleted else Instruction.none) ≡ false
    step true file = refl
    step true slink = refl
    step true dir = refl
    step false file = refl
    step false slink = refl
    step false dir = refl

module _ {W : Type 0} (fs : FileSystem W) where
  cleanup_walk-IsFiles :
      (q : Replica) (uri : Str) (sts : List FileStat) (tree : Files) (w : W)
      → IsFiles tree
      → All IsDone (to_list tree.root)
      → let o = cleanup_walk fs q uri sts tree w in IsFiles o.0 × All IsDone (to_list o.0.root)
  unfolding cleanup_walk modify_found
  cleanup_walk-IsFiles q uri [] tree w v d = (v, d)
  cleanup_walk-IsFiles q uri (st ∷ sts) tree w v d =
      let rest = cleanup_walk-IsFiles q uri sts tree w v d in
      let o = cleanup_walk fs q uri sts tree w in
      let ok = (fs.rmdir q (uri ++ slash ∷ st.path) o.1).0 in
      let f = set_instruction (if ok then deleted else Instruction.none) in
      (
        modify_found-IsValid hash o.0 st.phash f (λ s. refl) (rest.0),
        All-modify IsDone o.0.key_compare st.phash f (λ s h. final-IsDone ok s) o.0.root (rest.1),
      )

  -- the cleanup of a tree in which all is done
  cleanup-Passed :
      (ctx : Ctx) (w : W)
      → IsFiles (current_side ctx).tree
      → All IsDone (to_list (current_side ctx).tree.root)
      → Walked ctx (some (propagation_cleanup fs ctx w))
  unfolding propagation_cleanup Walked
  cleanup-Passed ctx w v d = step ((current_side ctx).list)
    where
      outcome : List ℕ → ℤ × Ctx × W
      outcome ks = elim ks [
        | [] ↦ (pos 0, record ctx { status_code = memory_error }, w)
        | k ∷ ks ↦
            let sorted = c_list_sort cleanup_cmp (listed (current_side ctx).tree (k ∷ ks)) in
            let (tree, w') =
              cleanup_walk fs ctx.replica (current_side ctx).uri sorted (current_side ctx).tree w in
            (pos 0, set_current_side ctx (record (current_side ctx) { tree = tree }), w')
      ]

      step : (ks : List ℕ) → Walked ctx (some (outcome ks))
      step [] = (refl, (refl, v, λ e. d))
      step (k ∷ ks) =
          let sorted = c_list_sort cleanup_cmp (listed (current_side ctx).tree (k ∷ ks)) in
          let o =
            cleanup_walk fs ctx.replica (current_side ctx).uri sorted (current_side ctx).tree w in
          let cleaned =
            cleanup_walk-IsFiles ctx.replica (current_side ctx).uri sorted (current_side ctx).tree w
              v d in
          walk_out ctx (pos 0) o.0 (some (ctx, o.1)) (refl, refl, refl) (cleaned.0) (λ e. cleaned.1)

  -- the passes up to `ctx₁`, seen from the start
  both :
      (ctx ctx₁ : Ctx) (w₁ : W) (o : Option (ℤ × Ctx × W))
      → Walked ctx (some (pos 0, ctx₁, w₁))
      → Walked ctx₁ o
      → Walked ctx o
  unfolding Walked
  both ctx ctx₁ w₁ none h k = tt
  both ctx ctx₁ w₁ (some (rc, ctx₂, w₂)) h k = (k.0 ∙ h.0, (k.1.0 ∙ h.1.0, k.1.1, k.1.2))

  signed :
      (ctx : Ctx) (o : ℤ × Ctx × W)
      → Walked ctx (some o)
      → Walked ctx (some (if is_negative o.0 then minus_one else pos 0, o.1, o.2))
  unfolding Walked
  signed ctx o k = (k.0, (k.1.0, k.1.1, λ g. k.1.2 (no_sign o.0 g)))

  failed :
      (ctx ctx' : Ctx) (rc : ℤ) (w : W)
      → Walked ctx (some (rc, ctx', w))
      → Walked ctx (some (minus_one, ctx', w))
  unfolding Walked
  failed ctx ctx' rc w k = (k.0, (k.1.0, k.1.1, λ g. absurd cc))

  succeeded :
      (ctx ctx' : Ctx) (rc : ℤ) (w : W)
      → is_negative rc ≡ false
      → Walked ctx (some (rc, ctx', w))
      → Walked ctx (some (pos 0, ctx', w))
  unfolding Walked
  succeeded ctx ctx' rc w e k = (k.0, (k.1.0, k.1.1, λ g. k.1.2 e))

  propagate_dirs-Walked :
      (ctx : Ctx) (w : W)
      → IsFiles (current_side ctx).tree
      → All IsDone (to_list (current_side ctx).tree.root)
      → Walked ctx (propagate_dirs fs ctx w)
  unfolding propagate_dirs
  propagate_dirs-Walked ctx w v d =
      step (walk_with (propagation_dir_visitor fs) ctx w)
        (walk_with-Walked (propagation_dir_visitor fs) IsDone ctx w (dir_visit fs ctx) d v)
    where
      step :
          (o : Option (ℤ × Ctx × W))
          → Walked ctx o
          → Walked ctx (elim o [
            | none ↦ none
            | some (rc, ctx₁, w₁) ↦
                if is_negative rc
                then some (minus_one, ctx₁, w₁)
                else (let (rc', ctx₂, w₂) = propagation_cleanup fs ctx₁ w₁ in
                    some (if is_negative rc' then minus_one else pos 0, ctx₂, w₂))
          ])
      step none k = k
      step (some (rc, ctx₁, w₁)) k = elim (Bool-cases (is_negative rc)) [
        | inl e ↦ rw (e) (failed ctx ctx₁ rc w₁ k)
        | inr e ↦ rw (e) (
            both ctx ctx₁ w₁ _ (succeeded ctx ctx₁ rc w₁ e k) (
              signed ctx₁ (propagation_cleanup fs ctx₁ w₁) (
                cleanup-Passed ctx₁ w₁ (valid_after ctx ctx₁ rc w₁ k)
                  (IsDone-after ctx ctx₁ rc w₁ k e))))
      ]

  pub csync_propagate_files-Walked :
      (fuel : ℕ) (ctx : Ctx) (w : W)
      → IsFiles (current_side ctx).tree
      → Walked ctx (csync_propagate_files fs fuel ctx w)
  unfolding csync_propagate_files
  csync_propagate_files-Walked fuel ctx w v =
      first (walk_with (propagation_file_visitor fs fuel) ctx w) (
        walk_with-Walked (propagation_file_visitor fs fuel) (λ _. Unit {0}) ctx w
          (file_visit fs fuel ctx) (everything _) v)
    where
      first :
          (o : Option (ℤ × Ctx × W))
          → Walked ctx o
          → Walked ctx (elim o [
            | none ↦ none
            | some (rc, ctx₁, w₁) ↦
                if is_negative rc then some (minus_one, ctx₁, w₁) else propagate_dirs fs ctx₁ w₁
          ])
      first none k = k
      first (some (rc, ctx₁, w₁)) k = elim (Bool-cases (is_negative rc)) [
        | inl e ↦ rw (e) (failed ctx ctx₁ rc w₁ k)
        | inr e ↦ rw (e) (
            both ctx ctx₁ w₁ _ (succeeded ctx ctx₁ rc w₁ e k) (
              propagate_dirs-Walked ctx₁ w₁ (valid_after ctx ctx₁ rc w₁ k)
                (IsDone-after ctx ctx₁ rc w₁ k e)))
      ]
