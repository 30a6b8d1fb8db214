-- ===== src/Propagate/Visits.antt =====
-- src/csync_propagate.c: the two walks over a tree.
use ocsync.Base.{
  ℕ, ◌≡◌, refl, sym, ◌∙◌, ap, Bool, false, Option, none, some, ℤ, is_negative, All, inl, inr,
}
use mathlib.Core.Path.{subst}
use ocsync.RbTree.{c_rbtree_walk}
use ocsync.RbTree.InOrder.{to_list}
use ocsync.RbTree.Relabel.{IsValid-relabel}
use ocsync.RbTree.Visit.{Visits, c_rbtree_walk-Walks}
use ocsync.Types.{Instruction, FileStat, Ctx}
use ocsync.Reconcile.{Files}
use ocsync.Reconcile.Trees.{IsFiles}
use ocsync.Update.{current_side}
use ocsync.Update.Detect.{Replica-cases}
use ocsync.FileSystem.{FileSystem}
use ocsync.Transfer.{other_side}
use ocsync.Handlers.{file_action, dir_action}
use ocsync.Handlers.Effect.{SameTrees, Marked}
use ocsync.Handlers.Settle.{pending, Settles, Stays, file_action-Marked, dir_action-Marked}
use ocsync.Propagate.{
  conclude, propagation_file_visitor, propagation_dir_visitor, set_tree, walk_with,
}

-- the file visitor has done with the entry
abbrev pub IsDone : FileStat → Type 0
IsDone st = pending st.type st.instruction ≡ false

abbrev pub hash : FileStat → ℕ
hash st = st.phash

module _ {W : Type 0} where
  -- the state of a walk that started at `ctx`
  abbrev pub From : Ctx → Option (Ctx × W) → Type 0
  From ctx none = Unit
  From ctx (some (c, w)) = SameTrees ctx c

  conclude_visit :
      (V : FileStat → Option (Ctx × W) → ℤ × FileStat × Option (Ctx × W)) (Pre : FileStat → Type 0)
      (P : Instruction → Type 0) (ctx₀ ctx : Ctx) (st : FileStat)
      (o : Option (ℤ × Ctx × FileStat × W))
      → SameTrees ctx₀ ctx
      → ((i : Instruction) → P i → pending st.type i ≡ false)
      → Marked P ctx st o
      → Visits hash V Pre IsDone (From ctx₀) (conclude st o) st
  conclude_visit V Pre P ctx₀ ctx st none same f h = (tt, refl, λ e. absurd cc)
  conclude_visit V Pre P ctx₀ ctx st (some (rc, ctx', st', w)) same f h = (
    (h.1.0 ∙ same.0, h.1.1 ∙ same.1, h.1.2 ∙ same.2),
    ap hash (h.0.1),
    λ e. ap IsPending (h.0.1) ∙ f (h.0.0) (h.0.2),
  )
    where
      IsPending : FileStat → Bool
      IsPending s = pending s.type s.instruction

  pub file_visit :
      (fs : FileSystem W) (fuel : ℕ) (ctx₀ : Ctx) (st : FileStat) (s : Option (Ctx × W))
      → Unit {0}
      → From ctx₀ s
      → Visits hash
          (propagation_file_visitor fs fuel)
          (λ _. Unit {0})
          IsDone
          (From ctx₀)
          (propagation_file_visitor fs fuel st s)
          st
  unfolding propagation_file_visitor
  file_visit fs fuel ctx₀ st none u same = (tt, refl, λ e. absurd cc)
  file_visit fs fuel ctx₀ st (some (ctx, w)) u same =
      conclude_visit (propagation_file_visitor fs fuel) (λ _. Unit {0}) (Settles st) ctx₀ ctx st
        (file_action fs fuel ctx st w) same (λ i h. h) (file_action-Marked fs ctx st w fuel)

  pub dir_visit :
      (fs : FileSystem W) (ctx₀ : Ctx) (st : FileStat) (s : Option (Ctx × W))
      → IsDone st
      → From ctx₀ s
      → Visits hash
          (propagation_dir_visitor fs)
          IsDone
          IsDone
          (From ctx₀)
          (propagation_dir_visitor fs st s)
          st
  unfolding propagation_dir_visitor
  dir_visit fs ctx₀ st none d same = (tt, refl, λ e. absurd cc)
  dir_visit fs ctx₀ st (some (ctx, w)) d same =
      conclude_visit (propagation_dir_visitor fs) IsDone (Stays st) ctx₀ ctx st
        (dir_action fs ctx st w) same (λ i h. h d) (dir_action-Marked fs ctx st w)

set_tree-current : (t : Files) (c : Ctx) → (current_side (set_tree t c)).tree ≡ t
set_tree-current t c = elim (Replica-cases c.current) [ inl e ↦ rw (e) refl | inr e ↦ rw (e) refl ]

set_tree-other : (t : Files) (c : Ctx) → (other_side (set_tree t c)).tree ≡ (other_side c).tree
set_tree-other t c = elim (Replica-cases c.current) [ inl e ↦ rw (e) refl | inr e ↦ rw (e) refl ]

set_tree-stays : (t : Files) (c : Ctx) → (set_tree t c).current ≡ c.current
set_tree-stays t c = elim (Replica-cases c.current) [ inl e ↦ rw (e) refl | inr e ↦ rw (e) refl ]

SameTrees-other : (ctx c : Ctx) → SameTrees ctx c → (other_side c).tree ≡ (other_side ctx).tree
SameTrees-other ctx c same = elim (Replica-cases ctx.current) [
  | inl e ↦ rw (same.2, e) (same.1)
  | inr e ↦ rw (same.2, e) (same.0)
]

-- what a pass leaves: the visited tree valid, the other one as it was, and if it did not fail no file
-- to be done
abbrev pub Passed : {W : Type 0} → Ctx → Option (ℤ × Ctx × W) → Type 0
Passed ctx none = Unit
Passed ctx (some (rc, ctx', w)) =
    ((other_side ctx').tree ≡ (other_side ctx).tree)
    × IsFiles (current_side ctx').tree
    × (is_negative rc ≡ false → All IsDone (to_list (current_side ctx').tree.root))

-- the same, with a fact that the current replica stays
unfoldable pub Walked : {W : Type 0} → Ctx → Option (ℤ × Ctx × W) → Type 0
Walked ctx none = Unit
Walked ctx (some (rc, ctx', w)) = (ctx'.current ≡ ctx.current) × Passed ctx (some (rc, ctx', w))

module _ {W : Type 0} where
  pub walk_out :
      (ctx : Ctx) (rc : ℤ) (tree : Files) (s : Option (Ctx × W))
      → From ctx s
      → IsFiles tree
      → (is_negative rc ≡ false → All IsDone (to_list tree.root))
      → Walked ctx (elim s [ none ↦ none | some (c, w') ↦ some (rc, set_tree tree c, w') ])
  unfolding Walked
  walk_out ctx rc tree none same v d = tt
  walk_out ctx rc tree (some (c, w')) same v d = (
    set_tree-stays tree c ∙ same.2,
    (
      set_tree-other tree c ∙ SameTrees-other ctx c same,
      subst IsFiles (sym (set_tree-current tree c)) v,
      λ e. subst (λ t. All IsDone (to_list t.root)) (sym (set_tree-current tree c)) (d e),
    ),
  )

  pub walk_with-Walked :
      (V : FileStat → Option (Ctx × W) → ℤ × FileStat × Option (Ctx × W)) (Pre : FileStat → Type 0)
      (ctx : Ctx) (w : W)
      → ((st : FileStat) (s : Option (Ctx × W))
          → Pre st
          → From ctx s
          → Visits hash V Pre IsDone (From ctx) (V st s) st)
      → All Pre (to_list (current_side ctx).tree.root)
      → IsFiles (current_side ctx).tree
      → Walked ctx (walk_with V ctx w)
  unfolding walk_with c_rbtree_walk
  walk_with-Walked V Pre ctx w visits pre valid =
      let t = (current_side ctx).tree in
      let o = c_rbtree_walk V t (some (ctx, w)) in
      let walks =
        c_rbtree_walk-Walks hash V Pre IsDone (From ctx) visits t (some (ctx, w)) pre
          (refl, refl, refl) in
      walk_out ctx o.0 o.1 o.2 (walks.0) (IsValid-relabel hash t o.1.root valid (walks.1) (walks.2))
        (walks.3)
