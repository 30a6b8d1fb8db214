-- ===== src/Update.antt =====
-- src/csync_update.c: the update detection of a replica, a walk over its files that enters each in
-- the tree of the replica, with what happened to it since the last synchronisation.
--
-- Parameters: the file system of the replica (`csync_vio_opendir` with `csync_vio_readdir`, and
-- `csync_vio_stat`), the two queries of the journal, and `fnmatch`. `malloc` and `asprintf` are taken
-- to return memory.
pub mod Walk
pub mod Reached
pub mod Follows
pub mod Gives
pub mod Pair
pub mod Scan
pub mod Detect
use ocsync.Base.{
  ℕ, zero, suc, ◌+◌, ◌==◌, Bool, true, false, ◌&&◌, Option, none, some, List, [], ◌∷◌, ◌++◌, ℤ, pos,
  minus_one, is_negative, if◌then◌else◌, ltb, leb, length, drop,
}
use ocsync.RbTree.{c_rbtree_insert}
use ocsync.Hash.{c_jhash64}
use ocsync.PathName.{slash}
use ocsync.Exclude.{csync_excluded}
use ocsync.Misc.{Errno, csync_errno_to_status, is_eacces}
use ocsync.Types.{
  Str, Instruction, eval, rename, new, ignore, FtwType, file, dir, opendir_error, Replica,
  local_replica, remote_replica, status_is_ok, param_error, tree_error, update_error, readdir_error,
  FileStat, Side, Ctx,
}

-- `enum csync_vio_file_type_e`
pub data VioFileType : Type 0 where
  unknown regular directory fifo socket character_device block_device : VioFileType
  symbolic_link : VioFileType

-- `struct csync_vio_file_stat_s`, the fields that the detection reads
pub record VioStat : Type 0 where
  pub inode : ℕ
  pub mode : ℕ
  pub size : ℕ
  pub mtime : ℕ
  pub uid : ℕ
  pub gid : ℕ
  pub nlink : ℕ
  pub type : VioFileType

-- `enum csync_ftw_flags_e`
pub data FtwFlag : Type 0 where
  flag_file flag_dir flag_dnr flag_nstat flag_slink flag_spec flag_dp flag_sln : FtwFlag

-- The two queries of the journal. What the lookup of a path's hash answers may depend on the replica
-- that is walked: a database that is busy, or that fails, answers as if it did not have the path.
-- Only the walk of the local replica asks for an inode.
pub record Journal : Type 0 where
  pub get_stat_by_hash : Replica → ℕ → Option FileStat
  pub get_stat_by_inode : ℕ → Option FileStat

-- What `opendir` and the `readdir`s after it return: the names, `none` for a null name; or the
-- `errno` of a directory that cannot be opened.
pub data Opened : Type 0 where
  entries : List (Option Str) → Opened
  refused : Errno → Opened

pub record Vio : Type 0 where
  pub opendir : Str → Opened
  pub stat : Str → Option VioStat

-- `ctx->local` or `ctx->remote`, by `ctx->current`
abbrev pub current_side : Ctx → Side
current_side ctx = elim (ctx.current) [ local_replica ↦ ctx.local | remote_replica ↦ ctx.remote ]

abbrev pub set_current_side : Ctx → Side → Ctx
set_current_side ctx s = elim (ctx.current) [
  | local_replica ↦ record ctx { local = s }
  | remote_replica ↦ record ctx { remote = s }
]

-- the lookup in the journal found an entry of this key
abbrev pub found_by : (FileStat → ℕ) → ℕ → Option FileStat → Bool
found_by key k none = false
found_by key k (some st) = key st == k

-- the instruction of a file that the journal does not know by its path
abbrev pub missing_instruction : Journal → Replica → VioStat → Instruction
missing_instruction journal remote_replica fs = new
missing_instruction journal local_replica fs =
    if found_by (λ st. st.inode) fs.inode (journal.get_stat_by_inode fs.inode) then rename else new

-- the update detection for a file that is no hard link, with a journal
abbrev pub known_instruction : (missing : Instruction) → VioStat → ℕ → Option FileStat → Instruction
known_instruction missing fs h none = missing
known_instruction missing fs h (some tmp) =
    if tmp.phash == h
    then (if ltb tmp.modtime fs.mtime then eval else Instruction.none)
    else missing

abbrev pub is_file : FtwType → Bool
is_file file = true
is_file _ = false

-- The part of `_csync_detect_update` that chooses the instruction, up to the label `out`.
unfoldable pub detect_instruction :
    Journal → (exists : Bool) → Replica → VioStat → FtwType → (hash : ℕ) → Instruction
detect_instruction journal exists current fs type h =
    if is_file type && ltb 1 fs.nlink
    then ignore
    else if exists
    then known_instruction (missing_instruction journal current fs) fs h
        (journal.get_stat_by_hash current h)
    else new

-- the new entry of the tree
abbrev pub detected_stat : Instruction → VioStat → FtwType → (path : Str) → FileStat
detected_stat i fs type path = record {
  phash = c_jhash64 path 0;
  modtime = fs.mtime;
  size = fs.size;
  pathlen = length path;
  inode = fs.inode;
  uid = fs.uid;
  gid = fs.gid;
  mode = fs.mode;
  nlink = fs.nlink;
  type = type;
  instruction = i;
  path = path;
}

-- the path below the root of the replica
abbrev pub relative_path : Ctx → Str → Str
relative_path ctx name = drop (length (current_side ctx).uri + 1) name

unfoldable pub detect_update : Journal → Ctx → (name : Str) → VioStat → FtwType → Option (ℤ × Ctx)
unfolding detect_instruction
detect_update journal ctx name fs type =
    let side = current_side ctx in
    let path = relative_path ctx name in
    let i = detect_instruction journal ctx.statedb_exists ctx.current fs type (c_jhash64 path 0) in
    if leb (length name) (length side.uri)
    then some (minus_one, record ctx { status_code = param_error })
    else elim (c_rbtree_insert true side.tree (detected_stat i fs type path)) [
      | none ↦ none
      | some (rc, tree) ↦
          if is_negative rc
          then some (minus_one, record ctx { status_code = tree_error })
          else some (pos 0, set_current_side ctx (record side { tree = tree }))
    ]

-- a function that the tree walk calls on every entry; the entry's data where it could be read
abbrev pub Walker : Type 0
Walker = Ctx → Str → Option VioStat → FtwFlag → Option (ℤ × Ctx)

unfoldable pub csync_walker : Journal → Walker
unfolding detect_update
csync_walker journal ctx name (some fs) flag_file = detect_update journal ctx name fs file
csync_walker journal ctx name (some fs) flag_dir = detect_update journal ctx name fs dir
csync_walker journal ctx name fs flag = some (pos 0, ctx)

abbrev pub flag_of : VioFileType → FtwFlag
flag_of symbolic_link = flag_slink
flag_of directory = flag_dir
flag_of block_device = flag_spec
flag_of character_device = flag_spec
flag_of socket = flag_spec
flag_of fifo = flag_spec
flag_of _ = flag_file

abbrev pub flag_of_stat : Option VioStat → FtwFlag
flag_of_stat none = flag_nstat
flag_of_stat (some fs) = flag_of fs.type

abbrev pub is_flag_dir : FtwFlag → Bool
is_flag_dir flag_dir = true
is_flag_dir _ = false

-- "." and ".."
abbrev pub is_dots : Str → Bool
is_dots (c ∷ []) = c == b'.'
is_dots (c ∷ d ∷ []) = c == b'.' && d == b'.'
is_dots _ = false

-- the exclusion test on the path below the root of the replica
abbrev pub excluded_here : (matches : (pattern name : Str) → Bool) → Ctx → Str → Bool
excluded_here matches ctx name =
    csync_excluded matches ctx.options.unix_extensions ctx.excludes (relative_path ctx name)

module _ (matches : (pattern name : Str) → Bool) (vio : Vio) (fn : Walker) where
  -- One entry that is not excluded: the walker, and the recursive call on a directory. `descend`
  -- is that call, or at the greatest depth what leaves `rc` as it is.
  pub ftw_visit :
      (descend : ℤ → Ctx → Str → Option (ℤ × Ctx)) → Ctx → (filename : Str) → Option (ℤ × Ctx)
  ftw_visit descend ctx filename =
      let fs = vio.stat filename in
      let flag = flag_of_stat fs in
      elim (fn ctx filename fs flag) [
        | none ↦ none
        | some (rc, ctx') ↦
            if is_negative rc
            then some (
              rc,
              (if status_is_ok ctx'.status_code
                  then ctx'
                  else record ctx' { status_code = update_error }),
            )
            else (if is_flag_dir flag then descend rc ctx' filename else some (rc, ctx'))
      ]

  -- The loop over the entries of the directory `uri`; `rc` is the variable of that name.
  pub ftw_loop :
      (descend : ℤ → Ctx → Str → Option (ℤ × Ctx))
      → (uri : Str) → ℤ
      → Ctx
      → List (Option Str)
      → Option (ℤ × Ctx)
  unfolding ftw_visit
  ftw_loop descend uri rc ctx [] = some (rc, ctx)
  ftw_loop descend uri rc ctx (none ∷ rest) =
      some (minus_one, record ctx { status_code = readdir_error })
  ftw_loop descend uri rc ctx (some d_name ∷ rest) =
      let filename = uri ++ slash ∷ d_name in
      let skipped = ftw_loop descend uri rc ctx rest in
      if is_dots d_name
      then skipped
      else if excluded_here matches ctx filename
      then skipped
      else elim (ftw_visit descend ctx filename) [
        | none ↦ none
        | some (rc', ctx') ↦
            if is_negative rc' then some (rc', ctx') else ftw_loop descend uri rc' ctx' rest
      ]

  -- after the attempt to open the directory
  pub ftw_opened :
      (descend : ℤ → Ctx → Str → Option (ℤ × Ctx)) → Ctx → (uri : Str) → Opened → Option (ℤ × Ctx)
  unfolding ftw_loop
  ftw_opened descend ctx uri (entries names) = ftw_loop descend uri (pos 0) ctx names
  ftw_opened descend ctx uri (refused errno) = some (
    if is_eacces errno then pos 0 else minus_one,
    record ctx { status_code = csync_errno_to_status errno opendir_error },
  )

  pub ftw_dir : (descend : ℤ → Ctx → Str → Option (ℤ × Ctx)) → Ctx → Str → Option (ℤ × Ctx)
  unfolding ftw_opened
  ftw_dir descend ctx [] = some (minus_one, record ctx { status_code = param_error })
  ftw_dir descend ctx (c ∷ cs) = ftw_opened descend ctx (c ∷ cs) (vio.opendir (c ∷ cs))

  unfoldable pub csync_ftw : (depth : ℕ) → Ctx → (uri : Str) → Option (ℤ × Ctx)
  unfolding ftw_dir
  csync_ftw zero ctx uri = ftw_dir (λ rc c f. some (rc, c)) ctx uri
  csync_ftw (suc depth) ctx uri = ftw_dir (λ rc c f. csync_ftw depth c f) ctx uri
