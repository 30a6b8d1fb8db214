-- ===== src/Push/Divergence.antt =====
-- src/csync_propagate.c, `_csync_push_file`: the loop that creates the target.
use ocsync.Base.{ℕ, zero, suc, ◌≡◌, refl, none, inl, inr, Bool-cases}
use ocsync.Misc.{Errno}
use ocsync.Types.{Str, Replica}
use ocsync.PathName.{c_dirname}
use ocsync.FileSystem.{FileSystem, Run, hang}
use ocsync.Transfer.{create_target, make_parent}

-- Where creating a file always fails for want of its directory, the loop that creates the target
-- never ends: it asks for the directory again and again, whether making that works or not.
pub create_target_endless :
    {W : Type 0} (fs : FileSystem W) (drep : Replica)
    → ((uri : Str) (w : W)
        → ((fs.open_create drep uri w).0 ≡ none)
          × (fs.errno (fs.open_create drep uri w).1 ≡ Errno.enoent))
    → (fuel count : ℕ) (turi : Str) (r : Run W) → create_target fs fuel count drep turi r ≡ hang
unfolding create_target make_parent
create_target_endless fs drep fails zero count turi r = refl
create_target_endless fs drep fails (suc fuel) count turi r =
    let failed = fails turi r.world in
    rw (failed.0, failed.1)
      (elim (Bool-cases (fs.mkdirs drep (c_dirname turi) (fs.open_create drep turi r.world).1).0) [
        | inl e ↦ rw (e) (create_target_endless fs drep fails fuel count turi _)
        | inr e ↦ rw (e) (create_target_endless fs drep fails fuel count turi _)
      ])
