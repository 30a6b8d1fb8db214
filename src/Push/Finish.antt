-- ===== src/Push/Finish.antt =====
-- src/csync_propagate.c, `_csync_push_file`: the steps after the transfer.
use ocsync.Base.{
  ℕ, ◌==◌, ◌<◌, Bool, true, none, pos, minus_one, ◌≡◌, ◌≢◌, refl, sym, ◌∙◌, ap, arith, length,
  length-append,
}
use ocsync.Types.{Str, Replica, file_size_error}
use ocsync.FileSystem.{FileSystem, Run, set_replica, or_fail}
use ocsync.Push.Store.{
  IsStore, Runs, Runs-bind, Runs-exit, Runs-if, Runs-option, Runs-fail_errno, Runs-call, Runs-gets,
  Runs-modify, Runs-set_replica, Runs-pure, Runs-given, Runs-status_of_errno, Runs-refuse,
  Runs-run_on,
}
use ocsync.Push.Copy.{Opened, Named, Partial}
use ocsync.Transfer.{
  copy_loop, close_both, check_size, put_in_place, set_mode, set_owner_and_time, push_to_tmp_first,
  no_space, permissions,
}
use ocsync.Push.Loop.{Written, Left, copy_loop-Runs}

module _ {W : Type 0} (fs : FileSystem W) (store : IsStore fs) (srep drep : Replica)
    (apart : srep ≢ drep) (b : Bool) (suri duri all : Str) where
  unfoldable pub Placed : Run W → Type 0
  Placed r = store.content drep duri r.world ≡ all

  unfoldable pub Kept : Str → Run W → Type 0
  Kept t = Written fs store srep drep apart b suri duri all t

  pub on_target-Runs :
      (hs : ℕ) (t : Str)
      → Runs
          (Named fs store srep drep apart b suri duri all hs t)
          (set_replica drep)
          (λ _. Named fs store srep drep apart b suri duri all hs t)
  unfolding Named Opened push_to_tmp_first
  on_target-Runs hs t = Runs-set_replica drep _ (λ r p. p)

  pub close_both-Runs :
      (hs hd : ℕ) (t : Str) → Runs (Kept t) (close_both fs srep drep hs hd) (λ _. Kept t)
  unfolding close_both Kept Written push_to_tmp_first
  close_both-Runs hs hd t =
      Runs-bind (λ _. Kept t) (Runs-set_replica srep _ (λ r p. p))
        λ _.
          Runs-bind (λ _. Kept t)
            (Runs-call (fs.close srep hs) _
              (λ r p. (p.0, p.1, store.close_content drep srep t hs r.world ∙ p.2)))
            λ ok.
              Runs-bind (λ _. Kept t)
                (Runs-if ok (λ _. Runs-pure tt _ (λ r p. p))
                  (λ _. Runs-status_of_errno fs _ (λ r code p. p)))
                λ _.
                  Runs-bind (λ _. Kept t)
                    (Runs-modify (λ r. record r { source = none }) _ (λ r p. p))
                    λ _.
                      Runs-bind (λ _. Kept t) (Runs-set_replica drep _ (λ r p. p))
                        λ _.
                          Runs-bind (λ _. Kept t)
                            (Runs-call (fs.close drep hd) _
                              (λ r p. (p.0, p.1, store.close_content drep drep t hd r.world ∙ p.2)))
                            λ ok'.
                              Runs-bind (λ _. Kept t)
                                (Runs-modify (λ r. record r { target = none }) _ (λ r p. p))
                                λ _.
                                  Runs-if ok' (λ _. Runs-pure tt _ (λ r p. p))
                                    (λ _.
                                      Runs-bind (λ _. Kept t)
                                        (Runs-status_of_errno fs _ (λ r code p. p))
                                        λ _.
                                          Runs-bind (λ _. Kept t)
                                            (Runs-gets (λ r. fs.errno r.world) _ (λ r p. p))
                                            λ e.
                                              Runs-if (no_space e) (λ _. Runs-exit minus_one refl)
                                                (λ _. Runs-pure tt _ (λ r p. p)))

  pub check_size-Runs : (t : Str) → Runs (Kept t) (check_size fs drep t) (λ _. Kept t)
  unfolding check_size Kept Written push_to_tmp_first
  check_size-Runs t =
      Runs-bind (λ _. Kept t) (Runs-set_replica drep _ (λ r p. p))
        λ _.
          Runs-bind (λ _. Kept t)
            (Runs-call (fs.stat_size drep t) _
              (λ r p. (p.0, p.1, store.stat_content drep t t r.world ∙ p.2)))
            λ size.
              Runs-bind (λ _. Kept t) (Runs-gets (λ r. r.st) _ (λ r p. p))
                λ st.
                  Runs-option size (λ _. Runs-fail_errno fs)
                    λ n _.
                      Runs-if (st.size == n) (λ _. Runs-pure tt _ (λ r p. p))
                        (λ _. Runs-refuse file_size_error (pos 1) refl)

  pub or_fail-Runs : (ok : Bool) → Runs (λ r. ok ≡ true → Placed r) (or_fail fs ok) (λ _. Placed)
  or_fail-Runs ok = Runs-if ok (λ e. Runs-pure tt _ (λ r p. p e)) (λ _. Runs-fail_errno fs)

  pub put_in_place-Runs : (t : Str) → Runs (Kept t) (put_in_place fs drep t duri) (λ _. Placed)
  unfolding put_in_place Kept Written Placed push_to_tmp_first
  put_in_place-Runs t =
      Runs-bind (λ tmp r. Kept t r × (tmp ≡ b))
        (Runs-gets (λ r. push_to_tmp_first r.ctx) _ (λ r p. (p, p.0)))
        λ tmp. Runs-given λ e.
          Runs-if tmp
            (λ _.
              Runs-bind (λ _. Kept t) (Runs-set_replica drep _ (λ r p. p))
                λ _.
                  Runs-bind (λ ok r. ok ≡ true → Placed r)
                    (Runs-call (fs.rename drep t duri) _
                      (λ r p e'. store.rename_true drep t duri r.world e' ∙ p.2))
                    λ ok. or_fail-Runs ok)
            (λ e'.
              Runs-pure tt _
                (λ r p. ap (λ u. store.content drep u r.world) (sym (p.1 (sym e ∙ e'))) ∙ p.2))

  pub set_mode-Runs : (mode : ℕ) → Runs Placed (set_mode fs drep mode duri) (λ _. Placed)
  unfolding set_mode Placed
  set_mode-Runs mode =
      Runs-bind (λ _. Placed) (Runs-gets (λ r. r.st) _ (λ r p. p))
        λ st.
          Runs-if (permissions st == mode) (λ _. Runs-pure tt _ (λ r p. p))
            (λ _.
              Runs-bind (λ ok r. ok ≡ true → Placed r)
                (Runs-call (fs.chmod drep duri st.mode) _
                  (λ r p _. store.chmod_content drep duri duri st.mode r.world ∙ p))
                λ ok. or_fail-Runs ok)

  pub set_owner_and_time-Runs : Runs Placed (set_owner_and_time fs drep duri) (λ _. Placed)
  unfolding set_owner_and_time Placed
  set_owner_and_time-Runs =
      Runs-bind (λ _. Placed) (Runs-gets (λ r. r.st) _ (λ r p. p))
        λ st.
          Runs-bind (λ _. Placed) (Runs-gets (λ r. r.ctx.euid == 0) _ (λ r p. p))
            λ root.
              Runs-bind (λ _. Placed)
                (Runs-if root
                  (λ _.
                    Runs-run_on (fs.chown drep duri st.uid st.gid) _
                      (λ r p. store.chown_content drep duri duri st.uid st.gid r.world ∙ p))
                  (λ _. Runs-pure tt _ (λ r p. p)))
                λ _.
                  Runs-run_on (fs.utimes drep duri st.modtime) _
                    (λ r p. store.utimes_content drep duri duri st.modtime r.world ∙ p)

  -- the steps from the source's handle to the target's bytes
  pub transfer-Runs :
      (fuel hs hd : ℕ) (t : Str)
      → length all < fuel
      → Runs
          (Partial fs store srep drep apart b suri duri all hs hd t)
          (copy_loop fs fuel srep drep hs hd)
          (λ _. Kept t)
  unfolding Left Partial Kept
  transfer-Runs fuel hs hd t short = record {
    runs = λ r p.
        let copied = copy_loop-Runs fs store srep drep apart b suri duri all fuel hs hd t in
        let whole = length-append (store.content drep t r.world) (store.unread srep hs r.world) in
        copied.runs r (p, omega (arith, short, whole, ap length p.3));
  }
