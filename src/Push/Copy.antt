-- ===== src/Push/Copy.antt =====
-- src/csync_propagate.c, `_csync_push_file`: the handles of the source and the target.
use ocsync.Base.{
  ℕ, zero, suc, ◌+◌, ◌==◌, ◌≤◌, Bool, true, false, none, some, [], ◌++◌, pos, minus_one,
  if◌then◌else◌, ◌≡◌, ◌≢◌, refl, sym, ◌∙◌, ap, arith, ltb,
}
use ocsync.Misc.{Errno}
use ocsync.Types.{Str, Replica, param_error, open_error}
use ocsync.PathName.{is_template, fill_template}
use ocsync.Exclude.{bytes}
use ocsync.FileSystem.{FileSystem, Run, Action, ◌>>◌, rands}
use ocsync.Push.Store.{
  IsStore, Runs, Runs-bind, Runs-exit, Runs-if, Runs-option, Runs-fail_errno, Runs-call, Runs-gets,
  Runs-modify, Runs-set_replica, Runs-pure, Runs-given, Runs-status_of_errno, Runs-refuse,
}
use ocsync.Transfer.{
  draw_name, open_source, name_target, make_parent, next_name, create_target, push_to_tmp_first,
}

not_both : (b : Bool) {t u : Str} → b ≡ true → b ≡ false → t ≡ u
not_both b e e' = cc

Runs-errno :
    {W A : Type 0} {P : Run W → Type 0} {Q : A → Run W → Type 0} {m₁ m₂ m₃ m₄ : Action W A}
    (e : Errno)
    → Runs P m₁ Q
    → (e ≡ Errno.enoent → Runs P m₂ Q)
    → Runs P m₃ Q
    → Runs P m₄ Q
    → Runs P (elim e [ Errno.eexist ↦ m₁ | Errno.enoent ↦ m₂ | Errno.enomem ↦ m₃ | _ ↦ m₄ ]) Q
Runs-errno Errno.eexist h₁ h₂ h₃ h₄ = h₁
Runs-errno Errno.enoent h₁ h₂ h₃ h₄ = h₂ refl
Runs-errno Errno.enomem h₁ h₂ h₃ h₄ = h₃
Runs-errno _ h₁ h₂ h₃ h₄ = h₄

Runs-absurd :
    {W A : Type 0} {P : Run W → Type 0} {Q : A → Run W → Type 0} {e e' : Errno} (m : Action W A)
    → e ≢ e'
    → e ≡ e'
    → Runs P m Q
Runs-absurd m n e = absurd (n e)

module _ {W : Type 0} (fs : FileSystem W) (store : IsStore fs) (srep drep : Replica)
    (apart : srep ≢ drep) (b : Bool) (suri duri all : Str) where
  -- `b` tells whether a temporary file is written first
  unfoldable pub Before : Run W → Type 0
  Before r = (push_to_tmp_first r.ctx ≡ b) × (store.content srep suri r.world ≡ all)

  unfoldable pub Opened : ℕ → Run W → Type 0
  Opened hs r = (push_to_tmp_first r.ctx ≡ b) × (store.unread srep hs r.world ≡ all)

  unfoldable pub Named : ℕ → Str → Run W → Type 0
  Named hs turi r = Opened hs r × (b ≡ false → turi ≡ duri)

  -- what has been written, and what is still to be read
  unfoldable pub Partial : ℕ → ℕ → Str → Run W → Type 0
  Partial hs hd turi r =
      (push_to_tmp_first r.ctx ≡ b)
      × (b ≡ false → turi ≡ duri)
      × (store.target_of drep hd r.world ≡ turi)
      × (store.content drep turi r.world ++ store.unread srep hs r.world ≡ all)

  unread-rands : (n h : ℕ) (w : W) → store.unread srep h ((rands fs n w).1) ≡ store.unread srep h w
  unread-rands zero h w = refl
  unread-rands (suc n) h w = unread-rands n h (fs.rand w).1 ∙ store.rand_unread srep h w

  pub open_source-Runs : Runs Before (open_source fs srep suri) Opened
  unfolding open_source Before Opened push_to_tmp_first
  open_source-Runs =
      Runs-bind (λ _. Before) (Runs-set_replica srep Before (λ r p. p))
        λ _.
          Runs-bind (λ _. Before)
            (Runs-gets (λ r. if r.st.uid == r.ctx.uid then true else r.ctx.euid == 0) _ (λ r p. p))
            λ noatime.
              Runs-bind
                (λ o r.
                  (push_to_tmp_first r.ctx ≡ b)
                  × ((h : ℕ) → o ≡ some h → store.unread srep h r.world ≡ all))
                (Runs-call (fs.open_read srep suri noatime) _
                  (λ r p. (p.0, λ h e. store.open_read_some srep suri noatime r.world h e ∙ p.1)))
                λ o.
                  Runs-option o (λ e. Runs-fail_errno fs)
                    λ h e.
                      Runs-bind (λ _. Opened h)
                        (Runs-modify (λ r. record r { source = some h }) (Opened h)
                          (λ r p. (p.0, p.1 h e)))
                        λ _. Runs-pure h Opened (λ r p. p)

  draw_name-Runs : (hs : ℕ) (t : Str) → b ≡ true → Runs (Opened hs) (draw_name fs t) (Named hs)
  unfolding draw_name Opened Named push_to_tmp_first
  draw_name-Runs hs t e =
      Runs-if (is_template t)
        (λ _.
          Runs-bind (λ _. Opened hs)
            (Runs-call (rands fs 6) _ (λ r p. (p.0, unread-rands 6 hs r.world ∙ p.1)))
            λ rs.
              Runs-bind (λ _. Opened hs)
                (Runs-modify (λ r. record r { temporary = some (fill_template rs t) }) _ (λ r p. p))
                λ _. Runs-pure (fill_template rs t) _ (λ r p. (p, λ e'. not_both b e e')))
        (λ _. Runs-refuse param_error minus_one refl)

  pub name_target-Runs : (hs : ℕ) → Runs (Opened hs) (name_target fs duri) (Named hs)
  unfolding name_target Opened Named
  name_target-Runs hs =
      Runs-bind (λ tmp r. Opened hs r × (tmp ≡ b))
        (Runs-gets (λ r. push_to_tmp_first r.ctx) _ (λ r p. (p, p.0)))
        λ tmp.
          Runs-bind (λ _ r. Opened hs r × (tmp ≡ b))
            (Runs-modify
              (λ r. record r { temporary = some (if tmp then duri ++ bytes ".XXXXXX" else duri) }) _
              (λ r p. p))
            λ _. Runs-given λ e.
              Runs-if tmp (λ e'. draw_name-Runs hs (duri ++ bytes ".XXXXXX") (sym e ∙ e'))
                (λ e'. Runs-pure duri _ (λ r p. (p, λ _. refl)))

  next_name-Runs : (hs : ℕ) (t : Str) → Runs (Named hs t) (next_name fs t) (Named hs)
  unfolding next_name Opened Named
  next_name-Runs hs t =
      Runs-bind (λ tmp r. Named hs t r × (tmp ≡ b))
        (Runs-gets (λ r. push_to_tmp_first r.ctx) _ (λ r p. (p, p.0.0)))
        λ tmp. Runs-given λ e.
          Runs-if tmp (λ e'. record { runs = λ r p. (draw_name-Runs hs t (sym e ∙ e')).runs r p.0 })
            (λ e'. Runs-pure t _ (λ r p. p))

  module _
      -- the directory of the target exists
      (parent : (uri : Str) (w : W)
        → (fs.open_create drep uri w).0 ≡ none
        → fs.errno (fs.open_create drep uri w).1 ≢ Errno.enoent) where
    Failed : ℕ → Str → Run W → Type 0
    Failed hs t r = Named hs t r × (fs.errno r.world ≢ Errno.enoent)

    -- the tries that are left are at least as many as the loop makes
    pub create_target-Runs :
        (fuel count hs : ℕ) (t : Str)
        → count ≤ 11
        → 12 ≤ fuel + count
        → Runs (Named hs t) (create_target fs fuel count drep t) (λ made. Partial hs made.0 made.1)
    unfolding create_target Opened Named Failed Partial push_to_tmp_first
    create_target-Runs zero count hs t le enough = record {
      runs = λ r p. omega (arith, le, enough);
    }
    create_target-Runs (suc fuel) count hs t le enough =
        Runs-bind
          (λ o r.
            (push_to_tmp_first r.ctx ≡ b)
            × (store.unread srep hs r.world ≡ all)
            × (b ≡ false → t ≡ duri)
            × ((h : ℕ)
                → o ≡ some h
                → (store.content drep t r.world ≡ []) × (store.target_of drep h r.world ≡ t))
            × (o ≡ none → fs.errno r.world ≢ Errno.enoent))
          (Runs-call (fs.open_create drep t) _ (λ r p. (
            p.0.0,
            store.create_unread srep drep t hs r.world apart ∙ p.0.1,
            p.1,
            (λ h e. store.create_some drep t r.world h e),
            (λ e. parent t r.world e),
          )))
          λ o.
            Runs-option o
              (λ failed.
                Runs-bind (λ _. Failed hs t)
                  (Runs-status_of_errno fs _ (λ r code p. (((p.0, p.1), p.2), p.4 failed)))
                  λ _.
                    Runs-bind (λ e r. Named hs t r × (e ≢ Errno.enoent))
                      (Runs-gets (λ r. fs.errno r.world) _ (λ r p. p))
                      λ e. Runs-given λ other.
                        Runs-errno e
                          (Runs-if (ltb 10 count) (λ more. Runs-refuse open_error (pos 1) refl)
                            (λ less. Runs-bind (Named hs) (next_name-Runs hs t) λ t'.
                              create_target-Runs fuel (count + 1) hs t' (few less)
                                (omega (arith, enough))))
                          (λ same.
                            Runs-absurd
                              (do make_parent fs drep t; create_target fs fuel count drep t) other
                              same)
                          (Runs-exit minus_one refl) (Runs-exit (pos 1) refl))
              (λ h e.
                Runs-bind (λ _. Partial hs h t)
                  (Runs-modify (λ r. record r { target = some h }) _
                    (λ r p.
                      let made = p.3 h e in
                      (
                        p.0,
                        p.2,
                        made.1,
                        ap (λ x. x ++ store.unread srep hs r.world) (made.0) ∙ p.1,
                      )))
                  λ _. Runs-pure (h, t) _ (λ r p. p))
      where
        few : ltb 10 count ≡ false → count + 1 ≤ 11
        few less = ground arith
