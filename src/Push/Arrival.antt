-- ===== src/Push/Arrival.antt =====
-- src/csync_propagate.c, `_csync_push_file`: what stands at the target when a push has returned.
use ocsync.Base.{
  ℕ, ◌≤◌, ◌<◌, Bool, true, false, Option, none, some, ℤ, pos, ◌≡◌, ◌≢◌, refl, ◌∙◌, arith, length,
}
use ocsync.Misc.{Errno}
use ocsync.Types.{Str, updated, Replica, FileStat, Side, Ctx}
use ocsync.Reconcile.{set_instruction}
use ocsync.Update.{current_side}
use ocsync.FileSystem.{FileSystem, Run, Outcome, next, out, hang, is_zero}
use ocsync.Push.Store.{IsStore, Total, Runs, Runs-bind, Runs-modify}
use ocsync.Push.Copy.{
  Before, Opened, Named, Partial, open_source-Runs, name_target-Runs, create_target-Runs,
}
use ocsync.Transfer.{begin, push_to_tmp_first, other_side, uri_of, c_file_mode}
use ocsync.Push.{push_between, push_body, push_out, push_file, close_handle}
use ocsync.Push.Finish.{
  Placed, Kept, on_target-Runs, close_both-Runs, check_size-Runs, put_in_place-Runs, set_mode-Runs,
  set_owner_and_time-Runs, transfer-Runs,
}

apart_at_once : {x y : Str} → false ≡ true → x ≡ y
apart_at_once e = cc

-- creating a file on this replica never fails for want of its directory
abbrev pub HasParents : {W : Type 0} → FileSystem W → Replica → Type 0
HasParents {W} fs drep =
    (uri : Str) (w : W)
    → (fs.open_create drep uri w).0 ≡ none
    → fs.errno (fs.open_create drep uri w).1 ≢ Errno.enoent

module _ {W : Type 0} (fs : FileSystem W) (store : IsStore fs) where
  push_between-Runs :
      (fuel : ℕ) (src dst : Side) (st : FileStat) (b : Bool) (all : Str)
      (apart : src.type ≢ dst.type)
      → HasParents fs dst.type
      → 12 ≤ fuel
      → length all < fuel
      → Runs
          (Before fs store src.type dst.type apart b (uri_of src st) (uri_of dst st) all)
          (push_between fs fuel src dst st)
          (λ _. Placed fs store src.type dst.type apart b (uri_of src st) (uri_of dst st) all)
  unfolding push_between Kept Placed
  push_between-Runs fuel src dst st b all apart parent enough short =
      let srep = src.type in
      let drep = dst.type in
      let suri = uri_of src st in
      let duri = uri_of dst st in
      Runs-bind (Opened fs store srep drep apart b suri duri all)
        (open_source-Runs fs store srep drep apart b suri duri all)
        λ hs.
          Runs-bind (Named fs store srep drep apart b suri duri all hs)
            (name_target-Runs fs store srep drep apart b suri duri all hs)
            λ named.
              Runs-bind (λ _. Named fs store srep drep apart b suri duri all hs named)
                (on_target-Runs fs store srep drep apart b suri duri all hs named)
                λ _.
                  Runs-bind
                    (λ made. Partial fs store srep drep apart b suri duri all hs made.0 made.1)
                    (create_target-Runs fs store srep drep apart b suri duri all parent fuel 0 hs
                      named (omega arith) (omega (arith, enough)))
                    λ made.
                      Runs-bind (λ _. Kept fs store srep drep apart b suri duri all made.1)
                        (transfer-Runs fs store srep drep apart b suri duri all fuel hs made.0
                          made.1 short)
                        λ _.
                          Runs-bind (λ _. Kept fs store srep drep apart b suri duri all made.1)
                            (close_both-Runs fs store srep drep apart b suri duri all hs made.0
                              made.1)
                            λ _.
                              Runs-bind (λ _. Kept fs store srep drep apart b suri duri all made.1)
                                (check_size-Runs fs store srep drep apart b suri duri all made.1)
                                λ _.
                                  Runs-bind (λ _. Placed fs store srep drep apart b suri duri all)
                                    (put_in_place-Runs fs store srep drep apart b suri duri all
                                      made.1)
                                    λ _.
                                      Runs-bind
                                        (λ _. Placed fs store srep drep apart b suri duri all)
                                        (set_mode-Runs fs store srep drep apart b suri duri all
                                          c_file_mode)
                                        λ _.
                                          Runs-bind
                                            (λ _. Placed fs store srep drep apart b suri duri all)
                                            (set_owner_and_time-Runs fs store srep drep apart b suri
                                              duri all)
                                            λ _.
                                              Runs-modify
                                                (λ r. record r {
                                                  st = set_instruction updated r.st;
                                                })
                                                _ (λ r p. p)

  -- a push that came back, and with 0 only if the bytes arrived
  abbrev pub Arrived : Side → Side → FileStat → W → Option (ℤ × Ctx × FileStat × W) → Type 0
  Arrived src dst st w none = ⊥
  Arrived src dst st w (some (rc, ctx', st', w')) =
      is_zero rc ≡ true
      → store.content dst.type (uri_of dst st) w' ≡ store.content src.type (uri_of src st) w

  close_handle-content :
      (p q : Replica) (uri : Str) (h : Option ℕ) (w : W)
      → store.content p uri (close_handle fs q h w) ≡ store.content p uri w
  close_handle-content p q uri none w = refl
  close_handle-content p q uri (some h) w = store.close_content p q uri h w

  out-Arrived :
      (src dst : Side) (st : FileStat) (w : W) (before : Replica) (o : Outcome W Unit)
      → Total
          (λ _ r.
            store.content dst.type (uri_of dst st) r.world
            ≡ store.content src.type (uri_of src st) w)
          o
      → Arrived src dst st w (elim o [
        | next _ r ↦ some (push_out fs src.type dst.type before (pos 0) r)
        | out rc r ↦ some (push_out fs src.type dst.type before rc r)
        | hang ↦ none
      ])
  unfolding push_out
  out-Arrived src dst st w before (next a r) h = λ e.
      close_handle-content dst.type dst.type (uri_of dst st) r.target _
      ∙ close_handle-content dst.type src.type (uri_of dst st) r.source r.world
      ∙ h
  out-Arrived src dst st w before (out rc r) h = rw (h, h) (λ e. apart_at_once e)
  out-Arrived src dst st w before hang h = h

  -- On file systems that read, create, write, close and rename as `IsStore` says, where the two
  -- replicas are different and creating a file on the target's never fails for want of its directory:
  -- a push comes back, on fuel for the creation's twelve tries and for one more than the bytes of the
  -- source, and when it returns 0 the file at the target has the bytes that the source had at the
  -- start.
  pub push_file-Arrived :
      (fuel : ℕ) (ctx : Ctx) (st : FileStat) (w : W)
      → (current_side ctx).type ≢ (other_side ctx).type
      → HasParents fs (other_side ctx).type
      → 12 ≤ fuel
      → length (store.content (current_side ctx).type (uri_of (current_side ctx) st) w) < fuel
      → Arrived (current_side ctx) (other_side ctx) st w (push_file fs fuel ctx st w)
  unfolding push_file push_body Before Placed
  push_file-Arrived fuel ctx st w apart parent enough short =
      let src = current_side ctx in
      let dst = other_side ctx in
      let all = store.content src.type (uri_of src st) w in
      let r : Run W = begin ctx st w in
      let b = push_to_tmp_first ctx in
      let runs = push_between-Runs fuel src dst st b all apart parent enough short in
      out-Arrived src dst st w ctx.replica (push_body fs fuel r) (runs.runs r (refl, refl))
