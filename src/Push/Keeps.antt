-- ===== src/Push/Keeps.antt =====
-- src/csync_propagate.c, `_csync_push_file`: what its steps leave alone.
use ocsync.Base.{
  ℕ, zero, suc, ◌+◌, ◌==◌, true, false, Option, none, some, [], ◌∷◌, ◌++◌, ℤ, pos, minus_one,
  if◌then◌else◌, ◌≡◌, refl, ltb,
}
use ocsync.Misc.{Errno}
use ocsync.Types.{
  Str, StatusCode, updated, Replica, param_error, open_error, file_size_error, FileStat, Side,
}
use ocsync.PathName.{is_template, c_dirname}
use ocsync.Exclude.{bytes}
use ocsync.FileSystem.{
  FileSystem, Run, Action, ◌>>◌, exit, modify, call, set_status, set_replica, is_zero,
  status_of_errno, rands,
}
use ocsync.FileSystem.Keeps.{
  IsFrame, Leads, Keeps, Leads-bind, Keeps-if, Keeps-gets, Keeps-option, Keeps-pure, Keeps-exit,
  Keeps-call, Keeps-run_on, Keeps-set_replica, Keeps-status_of_errno, Keeps-fail_errno,
  Keeps-or_fail,
}
use ocsync.Transfer.{
  draw_name, open_source, name_target, make_parent, next_name, create_target, copy_loop, close_both,
  check_size, put_in_place, set_mode, set_owner_and_time, mark, push_to_tmp_first, wrote_all,
  no_space, uri_of, permissions, max_xfer_buf_size, c_file_mode,
}
use ocsync.Push.{push_between}

module _ {W : Type 0} (fs : FileSystem W) (I : Run W → Type 0) (frame : IsFrame I) where
  Keeps-errno :
      {A : Type 0} (m₁ m₂ m₃ m₄ : Action W A)
      → Keeps I m₁
      → Keeps I m₂
      → Keeps I m₃
      → Keeps I m₄
      → (e : Errno)
      → Keeps I (elim e [ Errno.eexist ↦ m₁ | Errno.enoent ↦ m₂ | Errno.enomem ↦ m₃ | _ ↦ m₄ ])
  Keeps-errno m₁ m₂ m₃ m₄ h₁ h₂ h₃ h₄ Errno.eexist = h₁
  Keeps-errno m₁ m₂ m₃ m₄ h₁ h₂ h₃ h₄ Errno.enoent = h₂
  Keeps-errno m₁ m₂ m₃ m₄ h₁ h₂ h₃ h₄ Errno.enomem = h₃
  Keeps-errno m₁ m₂ m₃ m₄ h₁ h₂ h₃ h₄ _ = h₄

  Keeps-chunk :
      {m n : Action W Unit} {f : ℕ → Str → Action W Unit} (buf : Option Str)
      → Keeps I m
      → Keeps I n
      → ((c : ℕ) (cs : Str) → Keeps I (f c cs))
      → Keeps I (elim buf [ none ↦ m | some [] ↦ n | some (c ∷ cs) ↦ f c cs ])
  Keeps-chunk none h k l = h
  Keeps-chunk (some []) h k l = k
  Keeps-chunk (some (c ∷ cs)) h k l = l c cs

  Keeps-source : (h : Option ℕ) → Keeps I (modify (λ r. record r { source = h }))
  Keeps-source h = record { leads = λ r i. frame.by_source r h i }

  Keeps-target : (h : Option ℕ) → Keeps I (modify (λ r. record r { target = h }))
  Keeps-target h = record { leads = λ r i. frame.by_target r h i }

  Keeps-fail :
      {A : Type 0} (rc : ℤ) → is_zero rc ≡ false → Keeps I {A = A} (do status_of_errno fs; exit rc)
  Keeps-fail rc e = record { leads = λ r i. (frame.by_status r _ i, e) }

  Keeps-refuse :
      {A : Type 0} (code : StatusCode) (rc : ℤ)
      → is_zero rc ≡ false
      → Keeps I {A = A} (do set_status code; exit rc)
  Keeps-refuse code rc e = record { leads = λ r i. (frame.by_status r code i, e) }

  Keeps-draw_name : (template : Str) → Keeps I (draw_name fs template)
  unfolding draw_name
  Keeps-draw_name template =
      Keeps-if I (is_template template)
        (record {
          leads = λ r i. frame.by_temporary _ _ (frame.by_world r (rands fs 6 r.world).1 i);
        })
        (Keeps-refuse param_error minus_one refl)

  Keeps-temporary : (f : Run W → Option Str) → Keeps I (modify (λ r. record r { temporary = f r }))
  Keeps-temporary f = record { leads = λ r i. frame.by_temporary r (f r) i }

  Keeps-open_source : (srep : Replica) (suri : Str) → Keeps I (open_source fs srep suri)
  unfolding open_source
  Keeps-open_source srep suri = Leads-bind I (Keeps-set_replica I frame srep) λ _.
      Leads-bind I (Keeps-gets I (λ r. if r.st.uid == r.ctx.uid then true else r.ctx.euid == 0))
        λ noatime. Leads-bind I (Keeps-call I frame (fs.open_read srep suri noatime)) λ h.
          Keeps-option I h (Keeps-fail_errno I frame fs)
            λ h. Leads-bind I (Keeps-source (some h)) λ _. Keeps-pure I h

  Keeps-name_target : (duri : Str) → Keeps I (name_target fs duri)
  unfolding name_target
  Keeps-name_target duri = Leads-bind I (Keeps-gets I (λ r. push_to_tmp_first r.ctx)) λ tmp.
      Leads-bind I (Keeps-temporary (λ _. some (if tmp then duri ++ bytes ".XXXXXX" else duri)))
        λ _. Keeps-if I tmp (Keeps-draw_name (duri ++ bytes ".XXXXXX")) (Keeps-pure I duri)

  Keeps-make_parent : (drep : Replica) (turi : Str) → Keeps I (make_parent fs drep turi)
  unfolding make_parent
  Keeps-make_parent drep turi =
      Leads-bind I (Keeps-call I frame (fs.mkdirs drep (c_dirname turi)))
        λ ok. Keeps-if I ok (Keeps-pure I tt) (Keeps-status_of_errno I frame fs)

  Keeps-next_name : (turi : Str) → Keeps I (next_name fs turi)
  unfolding next_name
  Keeps-next_name turi =
      Leads-bind I (Keeps-gets I (λ r. push_to_tmp_first r.ctx))
        λ tmp. Keeps-if I tmp (Keeps-draw_name turi) (Keeps-pure I turi)

  Keeps-create_target :
      (fuel count : ℕ) (drep : Replica) (turi : Str)
      → Keeps I (create_target fs fuel count drep turi)
  unfolding create_target
  Keeps-create_target zero count drep turi = record { leads = λ r i. tt }
  Keeps-create_target (suc fuel) count drep turi =
      let again = Keeps-create_target fuel in
      Leads-bind I (Keeps-call I frame (fs.open_create drep turi)) λ h.
        Keeps-option I h
          (Leads-bind I (Keeps-status_of_errno I frame fs) λ _.
            Leads-bind I (Keeps-gets I (λ r. fs.errno r.world)) λ e.
              Keeps-errno _ _ _ _
                (Keeps-if I (ltb 10 count) (Keeps-refuse open_error (pos 1) refl)
                  (Leads-bind I (Keeps-next_name turi) λ t. again (count + 1) drep t))
                (Leads-bind I (Keeps-make_parent drep turi) λ _. again count drep turi)
                (Keeps-exit I minus_one refl) (Keeps-exit I (pos 1) refl) e)
          (λ h. Leads-bind I (Keeps-target (some h)) λ _. Keeps-pure I (h, turi))

  Keeps-read :
      (srep : Replica) (hs : ℕ)
      → Keeps I (set_replica srep >> call (fs.read srep hs max_xfer_buf_size))
  Keeps-read srep hs =
      Leads-bind I (Keeps-set_replica I frame srep)
        λ _. Keeps-call I frame (fs.read srep hs max_xfer_buf_size)

  Keeps-copy_loop :
      (fuel : ℕ) (srep drep : Replica) (hs hd : ℕ) → Keeps I (copy_loop fs fuel srep drep hs hd)
  unfolding copy_loop
  Keeps-copy_loop zero srep drep hs hd = record { leads = λ r i. tt }
  Keeps-copy_loop (suc fuel) srep drep hs hd =
      let again = Keeps-copy_loop fuel srep drep hs hd in
      Leads-bind I (Keeps-read srep hs) λ buf.
        Keeps-chunk buf (Keeps-fail (pos 1) refl) (Keeps-pure I tt) λ c cs.
          Leads-bind I (Keeps-set_replica I frame drep) λ _.
            Leads-bind I (Keeps-call I frame (fs.write drep hd (c ∷ cs)))
              λ n. Keeps-if I (wrote_all n (c ∷ cs)) again (Keeps-fail (pos 1) refl)

  Keeps-close_both : (srep drep : Replica) (hs hd : ℕ) → Keeps I (close_both fs srep drep hs hd)
  unfolding close_both
  Keeps-close_both srep drep hs hd = Leads-bind I (Keeps-set_replica I frame srep) λ _.
      Leads-bind I (Keeps-call I frame (fs.close srep hs)) λ ok.
        Leads-bind I (Keeps-if I ok (Keeps-pure I tt) (Keeps-status_of_errno I frame fs)) λ _.
          Leads-bind I (Keeps-source none) λ _. Leads-bind I (Keeps-set_replica I frame drep) λ _.
            Leads-bind I (Keeps-call I frame (fs.close drep hd)) λ ok'.
              Leads-bind I (Keeps-target none) λ _. Keeps-if I ok' (Keeps-pure I tt) (
                Leads-bind I (Keeps-status_of_errno I frame fs) λ _.
                  Leads-bind I (Keeps-gets I (λ r. fs.errno r.world))
                    λ e. Keeps-if I (no_space e) (Keeps-exit I minus_one refl) (Keeps-pure I tt))

  Keeps-check_size : (drep : Replica) (turi : Str) → Keeps I (check_size fs drep turi)
  unfolding check_size
  Keeps-check_size drep turi = Leads-bind I (Keeps-set_replica I frame drep) λ _.
      Leads-bind I (Keeps-call I frame (fs.stat_size drep turi)) λ size.
        Leads-bind I (Keeps-gets I (λ r. r.st)) λ st.
          Keeps-option I size (Keeps-fail_errno I frame fs) λ n.
            Keeps-if I (st.size == n) (Keeps-pure I tt) (Keeps-refuse file_size_error (pos 1) refl)

  Keeps-put_in_place : (drep : Replica) (turi duri : Str) → Keeps I (put_in_place fs drep turi duri)
  unfolding put_in_place
  Keeps-put_in_place drep turi duri =
      Leads-bind I (Keeps-gets I (λ r. push_to_tmp_first r.ctx)) λ tmp.
        Keeps-if I tmp
          (Leads-bind I (Keeps-set_replica I frame drep) λ _.
            Leads-bind I (Keeps-call I frame (fs.rename drep turi duri))
              λ ok. Keeps-or_fail I frame fs ok)
          (Keeps-pure I tt)

  pub Keeps-set_mode :
      (drep : Replica) (default : ℕ) (uri : Str) → Keeps I (set_mode fs drep default uri)
  unfolding set_mode
  Keeps-set_mode drep default uri = Leads-bind I (Keeps-gets I (λ r. r.st)) λ st.
      Keeps-if I (permissions st == default) (Keeps-pure I tt) (
        Leads-bind I (Keeps-call I frame (fs.chmod drep uri st.mode))
          λ ok. Keeps-or_fail I frame fs ok)

  pub Keeps-set_owner_and_time :
      (drep : Replica) (uri : Str) → Keeps I (set_owner_and_time fs drep uri)
  unfolding set_owner_and_time
  Keeps-set_owner_and_time drep uri = Leads-bind I (Keeps-gets I (λ r. r.st)) λ st.
      Leads-bind I (Keeps-gets I (λ r. r.ctx.euid == 0)) λ root.
        Leads-bind I
          (Keeps-if I root (Keeps-run_on I frame (fs.chown drep uri st.uid st.gid))
            (Keeps-pure I tt))
          λ _. Keeps-run_on I frame (fs.utimes drep uri st.modtime)

  pub push_between-Leads :
      (Q : Unit → Run W → Type 0)
      → Leads I Q (mark updated)
      → (fuel : ℕ) (src dst : Side) (st : FileStat) → Leads I Q (push_between fs fuel src dst st)
  unfolding push_between
  push_between-Leads Q done fuel src dst st =
      let duri = uri_of dst st in
      Leads-bind I (Keeps-open_source src.type (uri_of src st)) λ hs.
        Leads-bind I (Keeps-name_target duri) λ named.
          Leads-bind I (Keeps-set_replica I frame dst.type) λ _.
            Leads-bind I (Keeps-create_target fuel 0 dst.type named) λ made.
              Leads-bind I (Keeps-copy_loop fuel src.type dst.type hs made.0) λ _.
                Leads-bind I (Keeps-close_both src.type dst.type hs made.0) λ _.
                  Leads-bind I (Keeps-check_size dst.type made.1) λ _.
                    Leads-bind I (Keeps-put_in_place dst.type made.1 duri) λ _.
                      Leads-bind I (Keeps-set_mode dst.type c_file_mode duri)
                        λ _. Leads-bind I (Keeps-set_owner_and_time dst.type duri) λ _. done
