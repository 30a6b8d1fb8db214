-- ===== src/Tests/StatedbRuns.antt =====
-- The journal of a tree of one entry, written to a small database and read again.
use ocsync.Base.{ℕ, ◌≡◌, refl, arith, true, false, none, some, [], ◌∷◌, pos, inl}
use ocsync.RbTree.{c_rbtree_find}
use ocsync.Types.{eval, file, remote_replica, key_cmp}
use ocsync.Reconcile.{Files}
use ocsync.Sqlite.{error, Sqlite}
use ocsync.Sqlite.Laws.{Row}
use ocsync.Statedb.Failures.{csync_statedb_drop_tables-failed}
use ocsync.Statedb.Lookup.{IsSmall}
use ocsync.Statedb.Metadata.{
  csync_statedb_write, csync_statedb_drop_tables, csync_statedb_get_stat_by_hash,
}
use ocsync.Statedb.RoundTrip.{answer, csync_statedb_get_stat_by_hash-write}
use ocsync.Statedb.Detection.{journal, detect_instruction-write}
use ocsync.Statedb.Rowset.{rows_of}
use ocsync.Statedb.Write.{csync_statedb_write-rows_of}
use ocsync.Update.{detect_instruction}
use ocsync.Tests.Database.{Disk, disk, disk-IsDatabase}
use ocsync.Tests.SessionRuns.{journal_entry, one_entry, one_entry-IsFiles, stat_at}

abbrev no_row : Row
no_row = record {
  phash = pos 0;
  pathlen = pos 0;
  path = [];
  inode = pos 0;
  uid = pos 0;
  gid = pos 0;
  mode = pos 0;
  modtime = pos 0;
}

abbrev fresh : Disk
fresh = record {
  tables = record { metadata = none; temp = none; wait = none };
  inserting = false;
  bound = no_row;
  effect = λ t. t;
  rest = none;
  at = none;
}

abbrev tree : Files
tree = one_entry journal_entry

journal_entry-IsSmall : IsSmall journal_entry
journal_entry-IsSmall = omega arith

csync_statedb_write-rows_of_example :
    (w' : Disk) × (csync_statedb_write disk 3 (some 0) tree fresh ≡ some (pos 0, tree, w'))
    × (w'.tables
        ≡ record { metadata = some (rows_of (journal_entry ∷ [])); temp = none; wait = none })
unfolding disk-IsDatabase
csync_statedb_write-rows_of_example =
    csync_statedb_write-rows_of disk 2 (some 0) disk-IsDatabase tree fresh
      (one_entry-IsFiles journal_entry) (omega arith, tt) refl refl

csync_statedb_get_stat_by_hash-write_example :
    (w' : Disk) × (csync_statedb_write disk 3 (some 0) tree fresh ≡ some (pos 0, tree, w'))
    × ((h : ℕ)
        → (w'' : Disk) × (csync_statedb_get_stat_by_hash disk 4 (some 0) h w'
            ≡ some (answer h (c_rbtree_find tree h), w'')))
unfolding disk-IsDatabase
csync_statedb_get_stat_by_hash-write_example =
    csync_statedb_get_stat_by_hash-write disk (some 0) disk-IsDatabase 2 tree fresh
      (one_entry-IsFiles journal_entry) (omega arith, tt) (journal_entry-IsSmall, tt) refl refl

detect_instruction-write_example :
    (w' : Disk) × (csync_statedb_write disk 3 (some 0) tree fresh ≡ some (pos 0, tree, w'))
    × (detect_instruction (journal disk 4 (some 0) w') true remote_replica (stat_at 9) file 5
        ≡ eval)
unfolding disk-IsDatabase c_rbtree_find key_cmp
detect_instruction-write_example =
    detect_instruction-write disk (some 0) disk-IsDatabase 2 tree fresh remote_replica (stat_at 9)
      file 5 journal_entry (one_entry-IsFiles journal_entry) (omega arith, tt)
      (journal_entry-IsSmall, tt) refl refl refl refl refl

-- a database whose statements fail
unfoldable pub broken : Sqlite Disk
unfolding disk
broken = record disk { step = λ stmt w. (error, w) }

csync_statedb_drop_tables-failed_example :
    (w' : Disk) × (csync_statedb_drop_tables broken 122 (some 0) fresh ≡ some (pos 0, w'))
unfolding broken
csync_statedb_drop_tables-failed_example =
    csync_statedb_drop_tables-failed broken (some 0) 122 (some 0) fresh _ (omega arith) refl
      (λ w. refl) (inl (_, refl))
