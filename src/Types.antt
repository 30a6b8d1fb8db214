-- ===== src/Types.antt =====
-- The data that the phases of a synchronisation share (src/csync.h, src/csync_private.h): the
-- instructions, the entry of a file, the status codes and the context `CSYNC`.
--
-- A C string is its bytes before the terminating zero. `time_t` and `off_t` values are taken as
-- numbers, since the program stores no negative one.
use ocsync.Base.{ℕ, Bool, Option, List, compare, Ordering}
use ocsync.RbTree.{RbTree}

abbrev pub Str : Type 0
Str = List ℕ

-- `enum csync_instructions_e`
pub data Instruction : Type 0 where
  none eval remove rename new conflict ignore sync stat_error error deleted updated : Instruction

-- The numbers of the enumeration: each instruction is a bit of its own.
unfoldable pub instruction_code : Instruction → ℕ
instruction_code Instruction.none = 0x0
instruction_code Instruction.eval = 0x1
instruction_code Instruction.remove = 0x2
instruction_code Instruction.rename = 0x4
instruction_code Instruction.new = 0x8
instruction_code Instruction.conflict = 0x10
instruction_code Instruction.ignore = 0x20
instruction_code Instruction.sync = 0x40
instruction_code Instruction.stat_error = 0x80
instruction_code Instruction.error = 0x100
instruction_code Instruction.deleted = 0x200
instruction_code Instruction.updated = 0x400

-- `enum csync_ftw_type_e`
pub data FtwType : Type 0 where
  file slink dir : FtwType

-- `enum csync_replica_e`
pub data Replica : Type 0 where
  local_replica remote_replica : Replica

-- `enum csync_status_codes_e`
pub data StatusCode : Type 0 where
  ok status_error unsuccessful no_lock statedb_load_error statedb_write_error no_module : StatusCode
  timeskew filesystem_unknown tree_error memory_error param_error update_error : StatusCode
  reconcile_error propagate_error remote_access_error remote_create_error : StatusCode
  remote_stat_error local_create_error local_stat_error proxy_error lookup_error : StatusCode
  server_auth_error proxy_auth_error connect_error timeout http_error : StatusCode
  permission_denied not_found file_exists out_of_space quota_exceeded : StatusCode
  service_unavailable file_size_error context_lost merge_filetree_error : StatusCode
  csync_status_error opendir_error readdir_error open_error : StatusCode

-- `CSYNC_STATUS_IS_OK`
abbrev pub status_is_ok : StatusCode → Bool
status_is_ok ok = Bool.true
status_is_ok _ = Bool.false

-- `struct csync_file_stat_s`
pub record FileStat : Type 0 where
  pub phash : ℕ
  pub modtime : ℕ
  pub size : ℕ
  pub pathlen : ℕ
  pub inode : ℕ
  pub uid : ℕ
  pub gid : ℕ
  pub mode : ℕ
  pub nlink : ℕ
  pub type : FtwType
  pub instruction : Instruction
  pub path : Str

-- The tree of a replica is ordered by `phash`: `_key_cmp` and `_data_cmp` of csync.c.
unfoldable pub key_cmp : ℕ → FileStat → Ordering
key_cmp a b = compare a b.phash

unfoldable pub data_cmp : FileStat → FileStat → Ordering
data_cmp a b = compare a.phash b.phash

-- `struct c_strlist_s`: the strings that are there, and the capacity
pub record StrList : Type 0 where
  pub vector : List Str
  pub count : ℕ
  pub size : ℕ

-- The `local` and the `remote` part of the context. `list` holds the entries of directories whose
-- removal is tried again, by their `phash`, since they are pointers into the tree.
pub record Side : Type 0 where
  pub uri : Str
  pub tree : RbTree ℕ FileStat
  pub list : List ℕ
  pub type : Replica

pub record Options : Type 0 where
  pub max_depth : ℕ
  pub max_time_difference : ℕ
  pub unix_extensions : Bool
  pub with_conflict_copys : Bool
  pub local_only_mode : Bool

-- `struct csync_s`, less the handles and callbacks that are parameters of the model
pub record Ctx : Type 0 where
  pub excludes : Option StrList
  pub statedb_exists : Bool
  pub statedb_disabled : Bool
  pub local : Side
  pub remote : Side
  pub atomar_copy_support : Bool
  pub options : Options
  pub uid : ℕ
  pub euid : ℕ
  pub current : Replica
  pub replica : Replica
  pub status_code : StatusCode
  pub status : ℕ
