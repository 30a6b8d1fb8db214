-- ===== src/Tests/SessionRuns.antt =====
-- The update detection and the reconciliation of two small replicas.
use ocsync.Base.{
  ℕ, ◌<◌, ◌≤◌, ◌==◌, ◌≡◌, refl, Bool, true, false, none, some, [], ◌∷◌, ℤ, pos, arith,
  if◌then◌else◌, is_negative, inl, inr,
}
use ocsync.RbTree.{black, nil, node, RbTree, c_rbtree_create, c_rbtree_find}
use ocsync.Types.{
  Str, Instruction, eval, sync, conflict, file, Replica, local_replica, remote_replica, ok,
  FileStat, key_cmp, data_cmp, Side, Ctx,
}
use ocsync.Exclude.{bytes, csync_excluded}
use ocsync.Reconcile.Pair.{settle, acts, detected_pair, settle_newest}
use ocsync.Reconcile.Trees.{IsFiles, create-IsFiles}
use ocsync.Update.{
  regular, VioStat, Journal, entries, Vio, detect_update, detect_instruction, csync_ftw,
  csync_walker, current_side, relative_path,
}
use ocsync.Update.Reached.{Reaches, csync_ftw-Reaches}
use ocsync.Update.Follows.{is_found}
use ocsync.Hash.{c_jhash64}
use ocsync.Update.Walk.{Ends}
use ocsync.Update.Scan.{Rules, rules_of, IsScanned, IsScan}
use ocsync.Update.Detect.{Entered, entry_of, detect_update-Entered}
use ocsync.Update.Pair.{detect_instruction-detected_pair, detect_settle_changed}
use ocsync.Reconcile.{merged}
use ocsync.Session.{csync_update, csync_reconcile}
use ocsync.Session.Reconcile.{Reconciled, csync_reconcile-decide}
use ocsync.Session.Detection.{csync_update-IsScanned}
use ocsync.Session.Whole.{one_acts, csync_update-csync_reconcile-one_acts}

-- no pattern matches
abbrev nothing_matches : (pattern name : Str) → Bool
nothing_matches p n = false

abbrev empty_side : Str → Replica → Side
empty_side uri r = record {
  uri = uri;
  tree = c_rbtree_create key_cmp data_cmp;
  list = [];
  type = r;
}

-- two replicas before the detection
abbrev pub start : Ctx
start = record {
  excludes = none;
  statedb_exists = true;
  statedb_disabled = false;
  local = empty_side (bytes "/l") local_replica;
  remote = empty_side (bytes "/r") remote_replica;
  atomar_copy_support = false;
  options = record {
    max_depth = 50;
    max_time_difference = 10;
    unix_extensions = true;
    with_conflict_copys = false;
    local_only_mode = false;
  };
  uid = 0;
  euid = 0;
  current = local_replica;
  replica = local_replica;
  status_code = ok;
  status = 1;
}

abbrev pub stat_at : (time : ℕ) → VioStat
stat_at time = record {
  inode = 7;
  mode = 0;
  size = 1;
  mtime = time;
  uid = 0;
  gid = 0;
  nlink = 1;
  type = regular;
}

-- one file, "a", in the root of each replica
abbrev one_file : (time : ℕ) → Vio
one_file time = record {
  opendir = λ uri. entries (some (bytes ".") ∷ some (bytes "a") ∷ []);
  stat = λ name. some (stat_at time);
}

abbrev both_vio : Replica → Vio
both_vio local_replica = one_file 9
both_vio remote_replica = one_file 4

-- the journal's entry of "a"
abbrev pub journal_entry : FileStat
journal_entry = record {
  phash = 5;
  modtime = 4;
  size = 1;
  pathlen = 1;
  inode = 7;
  uid = 0;
  gid = 0;
  mode = 0;
  nlink = 1;
  type = file;
  instruction = Instruction.none;
  path = bytes "a";
}

abbrev sample_journal : Journal
sample_journal = record {
  get_stat_by_hash = λ r h. if h == 5 then some journal_entry else none;
  get_stat_by_inode = λ i. none;
}

empty_find : (k : ℕ) → c_rbtree_find (c_rbtree_create key_cmp data_cmp) k ≡ none
unfolding c_rbtree_find c_rbtree_create
empty_find k = refl

abbrev start_rules : Rules
start_rules = rules_of nothing_matches sample_journal start

empty-IsScan : (r : Replica) → IsScan start_rules r (c_rbtree_create key_cmp data_cmp)
empty-IsScan r = record { valid = create-IsFiles; detected = λ k. rw (empty_find k) tt }

start-IsScanned : IsScanned nothing_matches sample_journal start
start-IsScanned = record {
  local_scan = empty-IsScan local_replica;
  remote_scan = empty-IsScan remote_replica;
}

-- a tree of one entry
abbrev pub one_entry : FileStat → RbTree ℕ FileStat
one_entry st = record {
  root = node black nil st nil;
  key_compare = key_cmp;
  data_compare = data_cmp;
  size = 1;
}

pub one_entry-IsFiles : (st : FileStat) → IsFiles (one_entry st)
unfolding key_cmp data_cmp
one_entry-IsFiles st = record {
  keyed = record { by_key = λ k d. refl; by_data = λ d e. refl };
  ascends = (tt, tt);
  balanced = (1, (refl, refl));
  root_black = refl;
  counted = refl;
}

-- "a" is modified in the local replica
abbrev detected : Ctx
detected = record start {
  local = record (start.local) {
    tree = one_entry (record journal_entry { instruction = eval; modtime = 9 });
  };
  remote = record (start.remote) { tree = one_entry journal_entry };
}

csync_update-csync_reconcile-one_acts_example :
    (rc : ℤ) × (ctx₁ : Ctx) × (ctx₂ : Ctx) × (csync_update nothing_matches both_vio sample_journal
        start
      ≡ some (rc, ctx₁))
    × (csync_reconcile ctx₁ ≡ (pos 0, ctx₂))
    × ((k : ℕ)
        → one_acts (c_rbtree_find ctx₂.local.tree k) (c_rbtree_find ctx₂.remote.tree k) ≡ true)
csync_update-csync_reconcile-one_acts_example =
    csync_update-csync_reconcile-one_acts nothing_matches both_vio sample_journal start
      start-IsScanned (λ h. refl)

csync_reconcile-decide_example :
    (ctx' : Ctx) × (csync_reconcile detected ≡ (pos 0, ctx')) × Reconciled detected ctx'
csync_reconcile-decide_example =
    csync_reconcile-decide detected
      (record { local_valid = one_entry-IsFiles _; remote_valid = one_entry-IsFiles _ })

csync_update-IsScanned_example :
    Ends
      (IsScanned nothing_matches sample_journal)
      (csync_update nothing_matches both_vio sample_journal start)
csync_update-IsScanned_example =
    csync_update-IsScanned nothing_matches both_vio sample_journal start start-IsScanned

detect_update-Entered_example :
    (ctx' : Ctx) × (detect_update sample_journal start (bytes "/l/a") (stat_at 9) file
      ≡ some (pos 0, ctx'))
    × Entered (entry_of sample_journal start (bytes "/l/a") (stat_at 9) file) start ctx'
detect_update-Entered_example =
    detect_update-Entered sample_journal start (bytes "/l/a") (stat_at 9) file create-IsFiles
      (omega arith)

detect_instruction-detected_pair_example :
    detected_pair
      (detect_instruction sample_journal true local_replica (stat_at 9) file 5)
      (detect_instruction sample_journal true remote_replica (stat_at 4) file 5)
    ≡ true
detect_instruction-detected_pair_example =
    detect_instruction-detected_pair sample_journal true 5 (stat_at 9) (stat_at 4) file file refl

detect_settle_changed_example :
    let both =
      settle false 9 4
        (detect_instruction sample_journal true local_replica (stat_at 9) file 5)
        (detect_instruction sample_journal true remote_replica (stat_at 4) file 5) in
    (4 < 9 → 4 ≤ 4 → both ≡ (sync, Instruction.none))
    × (9 ≤ 4 → 4 < 4 → both ≡ (Instruction.none, sync))
detect_settle_changed_example =
    detect_settle_changed sample_journal false 5 (stat_at 9) (stat_at 4) file file journal_entry
      (λ e. omega arith) (λ e. omega arith) (λ r. refl) refl

settle_newest_example :
    (2 < 3
      → ((settle true 3 2 eval eval).0 ≡ (if true then conflict else sync))
        × (acts (settle true 3 2 eval eval).1 ≡ false))
    × (3 < 2
        → ((settle true 3 2 eval eval).1 ≡ (if true then conflict else sync))
          × ((settle true 3 2 eval eval).0 ≡ Instruction.none))
settle_newest_example = settle_newest true 3 2 eval eval refl refl refl

-- a journal that does not answer in the walk of the remote replica
abbrev unanswered : Journal
unanswered = record sample_journal {
  get_stat_by_hash = λ r h. elim r [
    | local_replica ↦ sample_journal.get_stat_by_hash local_replica h
    | remote_replica ↦ none
  ];
}

-- A local file that changed is propagated, and so is the older remote one of the same path.
both_propagated :
    let both =
      settle false 9 4
        (detect_instruction unanswered true local_replica (stat_at 9) file 5)
        (detect_instruction unanswered true remote_replica (stat_at 4) file 5) in
    (acts both.0 ≡ true) × (acts both.1 ≡ true)
unfolding detect_instruction merged
both_propagated = (refl, refl)

-- "a" in the root of the local replica is reached by a walk of depth 0
a_is_reached : Reaches nothing_matches (one_file 9) start 0 (bytes "/l") (bytes "/l/a")
unfolding csync_excluded
a_is_reached =
    Reaches.here 0 (bytes "/l") (some (bytes ".") ∷ some (bytes "a") ∷ []) (bytes "a") (stat_at 9)
      refl (inr (inl refl)) refl refl refl (inl refl)

csync_ftw-Reaches_example :
    (rc : ℤ) × (ctx' : Ctx) × (csync_ftw nothing_matches
        (one_file 9)
        (csync_walker sample_journal)
        0
        start
        (bytes "/l")
      ≡ some (rc, ctx'))
    × (is_negative rc ≡ false
        → is_found (
            c_rbtree_find
              (current_side ctx').tree
              (c_jhash64 (relative_path start (bytes "/l/a")) 0))
          ≡ true)
csync_ftw-Reaches_example =
    csync_ftw-Reaches nothing_matches (one_file 9) sample_journal start 0 (bytes "/l")
      (bytes "/l/a") create-IsFiles a_is_reached (omega arith)
