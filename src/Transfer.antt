-- ===== src/Transfer.antt =====
-- src/csync_propagate.c, `_csync_push_file`: its steps, up to the label `out`.
--
-- Both loops run on fuel, and `hang` is a loop that has none left. `asprintf` and
-- `csync_vio_file_stat_new` are taken to return memory.
use ocsync.Base.{
  ℕ, zero, suc, ◌+◌, ◌*◌, ◌%◌, ◌==◌, Bool, true, false, not, Option, none, some, [], ◌∷◌, ◌++◌, pos,
  minus_one, if◌then◌else◌, length, ltb,
}
use ocsync.Misc.{Errno}
use ocsync.PathName.{slash, c_dirname, is_template, fill_template}
use ocsync.Exclude.{bytes}
use ocsync.Types.{
  Str, Instruction, Replica, local_replica, remote_replica, param_error, open_error,
  file_size_error, FileStat, Side, Ctx,
}
use ocsync.Reconcile.{set_instruction}
use ocsync.FileSystem.{
  FileSystem, Run, hang, Action, after, ◌>>=◌, ◌>>◌, pure, exit, gets, modify, call, run_on,
  set_status, set_replica, status_of_errno, fail_errno, or_fail, rands,
}

-- the replica that a change is propagated to
abbrev pub other_side : Ctx → Side
other_side ctx = elim (ctx.current) [ local_replica ↦ ctx.remote | remote_replica ↦ ctx.local ]

-- `"%s/%s"` of a replica's root and a path
abbrev pub uri_of : Side → FileStat → Str
uri_of side st = side.uri ++ slash ∷ st.path

-- `MAX_XFER_BUF_SIZE`
abbrev pub max_xfer_buf_size : ℕ
max_xfer_buf_size = 16 * 1024

-- `C_FILE_MODE` and `C_DIR_MODE`: 0644 and 0755
abbrev pub c_file_mode : ℕ
c_file_mode = 420

abbrev pub c_dir_mode : ℕ
c_dir_mode = 493

-- `st->mode & 07777`
abbrev pub permissions : FileStat → ℕ
permissions st = st.mode % 4096

unfoldable pub push_to_tmp_first : Ctx → Bool
push_to_tmp_first ctx = elim (ctx.current) [
  | remote_replica ↦ true
  | local_replica ↦ not ctx.atomar_copy_support
]

-- `bwritten < 0 || bread != bwritten` does not hold
abbrev pub wrote_all : Option ℕ → Str → Bool
wrote_all none buf = false
wrote_all (some n) buf = n == length buf

abbrev pub no_space : Errno → Bool
no_space Errno.enospc = true
no_space Errno.edquot = true
no_space _ = false

module _ {W : Type 0} where
  abbrev pub mark : Instruction → Action W Unit
  mark i = modify (λ r. record r { st = set_instruction i r.st })

  abbrev pub begin : Ctx → FileStat → W → Run W
  begin ctx st w = record {
    ctx = ctx;
    st = st;
    world = w;
    source = none;
    target = none;
    temporary = none;
  }

module _ {W : Type 0} (fs : FileSystem W) where
  abbrev pub errno_of : Action W Errno
  errno_of = gets (λ r. fs.errno r.world)

  -- `c_tmpname` on the temporary name, which stays for the cleanup
  unfoldable pub draw_name : Str → Action W Str
  draw_name template =
      if is_template template
      then (do
        rs ← call (rands fs 6)
        modify (λ r. record r { temporary = some (fill_template rs template) })
        pure (fill_template rs template))
      else (do set_status param_error; exit minus_one)

  unfoldable pub open_source : (srep : Replica) → (suri : Str) → Action W ℕ
  open_source srep suri = do
    set_replica srep
    noatime ← gets (λ r. if r.st.uid == r.ctx.uid then true else r.ctx.euid == 0)
    h ← call (fs.open_read srep suri noatime)
    elim h [ none ↦ fail_errno fs | some h ↦ do modify (λ r. record r { source = some h }); pure h ]

  unfoldable pub name_target : (duri : Str) → Action W Str
  unfolding draw_name
  name_target duri = do
    tmp ← gets (λ r. push_to_tmp_first r.ctx)
    modify (λ r. record r { temporary = some (if tmp then duri ++ bytes ".XXXXXX" else duri) })
    (if tmp then draw_name (duri ++ bytes ".XXXXXX") else pure duri)

  -- the directory of a target that could not be created for want of it
  unfoldable pub make_parent : (drep : Replica) → Str → Action W Unit
  make_parent drep turi = do
    ok ← call (fs.mkdirs drep (c_dirname turi))
    (if ok then pure tt else status_of_errno fs)

  -- the name for the next try
  unfoldable pub next_name : Str → Action W Str
  unfolding draw_name
  next_name turi = do
    tmp ← gets (λ r. push_to_tmp_first r.ctx)
    (if tmp then draw_name turi else pure turi)

  -- the loop that creates the target: its handle and its name
  unfoldable pub create_target :
      (fuel count : ℕ) → (drep : Replica) → (turi : Str) → Action W (ℕ × Str)
  unfolding make_parent next_name
  create_target zero count drep turi r = hang
  create_target (suc fuel) count drep turi r =
      let again = create_target fuel in
      after
        (λ h. elim h [
          | some h ↦ (do modify (λ r. record r { target = some h }); pure (h, turi))
          | none ↦ (do
            status_of_errno fs
            e ← errno_of
            elim e [
              | Errno.eexist ↦
                  if ltb 10 count
                  then (do set_status open_error; exit (pos 1))
                  else (do turi' ← next_name turi; again (count + 1) drep turi')
              | Errno.enoent ↦ (do make_parent drep turi; again count drep turi)
              | Errno.enomem ↦ exit minus_one
              | _ ↦ exit (pos 1)
            ])
        ])
        (call (fs.open_create drep turi) r)

  -- the transfer, up to the read that returns nothing
  unfoldable pub copy_loop :
      (fuel : ℕ) → (srep drep : Replica) → (source target : ℕ) → Action W Unit
  copy_loop zero srep drep hs hd r = hang
  copy_loop (suc fuel) srep drep hs hd r =
      let again = copy_loop fuel srep drep hs hd in
      after
        (λ buf. elim buf [
          | none ↦ (do status_of_errno fs; exit (pos 1))
          | some [] ↦ pure tt
          | some (c ∷ cs) ↦ (do
            set_replica drep
            n ← call (fs.write drep hd (c ∷ cs))
            (if wrote_all n (c ∷ cs) then again else (do status_of_errno fs; exit (pos 1))))
        ])
        ((set_replica srep >> call (fs.read srep hs max_xfer_buf_size)) r)

  unfoldable pub close_both : (srep drep : Replica) → (source target : ℕ) → Action W Unit
  close_both srep drep hs hd = do
    set_replica srep
    ok ← call (fs.close srep hs)
    (if ok then pure tt else status_of_errno fs)
    modify (λ r. record r { source = none })
    set_replica drep
    ok' ← call (fs.close drep hd)
    modify (λ r. record r { target = none })
    (if ok' then pure tt else (do
      status_of_errno fs
      e ← errno_of
      (if no_space e then exit minus_one else pure tt)))

  unfoldable pub check_size : (drep : Replica) → (turi : Str) → Action W Unit
  check_size drep turi = do
    set_replica drep
    size ← call (fs.stat_size drep turi)
    st ← gets (λ r. r.st)
    elim size [
      | none ↦ fail_errno fs
      | some n ↦ if st.size == n then pure tt else (do set_status file_size_error; exit (pos 1))
    ]

  -- the rename over the target, where a temporary file was written
  unfoldable pub put_in_place : (drep : Replica) → (turi duri : Str) → Action W Unit
  put_in_place drep turi duri = do
    tmp ← gets (λ r. push_to_tmp_first r.ctx)
    (if tmp
        then (do set_replica drep; ok ← call (fs.rename drep turi duri); or_fail fs ok)
        else pure tt)

  unfoldable pub set_mode : (drep : Replica) → (default : ℕ) → (uri : Str) → Action W Unit
  set_mode drep default uri = do
    st ← gets (λ r. r.st)
    (if permissions st == default
        then pure tt
        else (do ok ← call (fs.chmod drep uri st.mode); or_fail fs ok))

  -- owner, group and time, of which the results are ignored
  unfoldable pub set_owner_and_time : (drep : Replica) → (uri : Str) → Action W Unit
  set_owner_and_time drep uri = do
    st ← gets (λ r. r.st)
    root ← gets (λ r. r.ctx.euid == 0)
    (if root then run_on (fs.chown drep uri st.uid st.gid) else pure tt)
    run_on (fs.utimes drep uri st.modtime)
