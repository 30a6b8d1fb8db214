-- ===== src/Lib.antt =====
-- A model of ocsync, the client library that keeps a local directory and a remote one in step.
--
-- A synchronisation is a sequence of phases over a context `CSYNC` (src/csync.c). The update
-- detection walks the files of each replica (src/csync_update.c), leaves out those that a list of
-- patterns excludes (src/csync_exclude.c), and enters each in a red-black tree of the replica
-- (src/std/c_rbtree.c) under the hash of its path (src/std/c_jhash.h), with an instruction that
-- says what happened to it since the last synchronisation, by a journal in a database. The
-- reconciliation (src/csync_reconcile.c) walks both trees and decides by the instructions and the
-- modification times which version of each file wins. The propagation (src/csync_propagate.c) then
-- copies and removes the files of each replica's tree on the other replica, and writes to each entry
-- what became of it.
--
-- The files of this library:
--   * Base: shared names, Boolean tests, lists and return codes.
--   * RbTree: src/std/c_rbtree.c. A node is reached from its parent, so parent pointers are frames
--     of a path; `c_rbtree_insert` descends to a leaf and repairs along that path. `none` is a null
--     pointer that the code follows. Its children: InOrder and Order on the sequence
--     of the data and searching it, Balance on the red-black properties, Insert on the insertion,
--     Walk, Pointwise, Relabel, Visit and Collect on walks, Depth and Build on trees built by insertions,
--     Ends on the head and tail, Iterate with Steps on going from node to node, Sanity with
--     Places and Valid, and BlackHeight, on the self check.
--   * Types: the structures of src/csync.h and src/csync_private.h.
--   * Hash: `c_jhash64`; a 64-bit word wraps at 2 ^ 64. PathName: `c_dirname`, `c_basename`,
--     `c_tmpname` (child Template), `c_split_path` (child Split) and `c_parse_uri` (child Uri, whose
--     `strtoul` is a parameter) of src/std/c_path.c. StrList: the string lists of src/std/c_string.c.
--     Misc: `csync_errno_to_status` of src/csync_misc.c. CList: the linked list of src/std/c_list.c
--     by the data of its elements, with its merge sort.
--   * Exclude: src/csync_exclude.c. `fnmatch` is a parameter.
--   * Update: src/csync_update.c. The file system of each replica and the two lookups in the
--     journal are parameters; a lookup may answer otherwise in the walk of each replica. Walk has what every walker function keeps, Detect, Scan
--     and Follows what `csync_walker` does to the trees, Reached the files that a walk enters, Gives
--     predicates on results, and Pair the instructions of a path's two files.
--   * Reconcile: src/csync_reconcile.c. Pair is the decision on one path, Trees that on two trees.
--   * FileSystem: the calls of src/vio that the propagation makes, as a record of functions on a world
--     `W` that also holds `errno`, the clock and the state of `rand`, and a monad whose steps go on,
--     go to the label `out`, or never come back. Its child Keeps is on properties that all steps keep.
--   * Transfer: the steps of `_csync_push_file`. Push: the whole function. Its children: Store states
--     what is relied on of the calls, Copy and Loop and Finish follow the bytes through the steps, Arrival
--     the whole function, Keeps and Frame what it leaves alone, Divergence a loop that does not end.
--   * Handlers: what is done for one entry, from `_csync_conflict_file` to `_csync_remove_dir`; its
--     children Effect, Conflict and Settle are on what a handler does to its entry.
--   * Propagate: the visitors, the cleanup and `csync_propagate_files`; Visits and Trees on the walks,
--     Cleanup on the order in which directories are removed.
--   * Session: `csync_update`, `csync_reconcile` and, in the children Propagate and Commit,
--     `csync_propagate` and `csync_commit` of src/csync.c; Commit/Closing on the journal's file.
--   * Merge: `csync_merge_file_trees` of src/csync_util.c, which brings the remote tree's changes into
--     the local one before that is written to the journal; Trees on what a visit leaves.
--   * TreeWalk: the walks over a tree for the library's user of src/csync.c; child Filtered.
--   * Sqlite: the calls of SQLite and of the C library's readers of numbers, as a record on a world `W`;
--     children Statements, the texts of src/csync_statedb.c, and Laws, what they do to the tables.
--   * Statedb: src/csync_statedb.c. Rows is `csync_statedb_query`, Metadata the table, Files the journal's
--     file. On these: Query where the database answers at once, Failures where it does not, Rowset
--     and Write on the rows that are written, Lookup and RoundTrip on reading them, Detection on the next
--     update detection.
--   * FileCopy: `c_copy` of src/std/c_file.c; children Laws and Whole.
--   * FileCompare: `c_compare_file` of the same file, by which a conflict copy that equals the local file
--     is recognised; children Laws, Chunks and Same.
--   * Tests: runs on small inputs.
--
-- Loops are structural: the tree walk recurses on the depth that it is given (`MAX_DEPTH` is 50) and
-- over the entries of a directory, the hash over the number of its blocks of 24 bytes, and the
-- repair of the tree along the path to the root, so no fuel is needed. The two loops of a push run on
-- fuel: the one that creates the target tries at most twelve times where the directory exists, and
-- the one that copies reads at least one byte each time, so twelve and one more than the source has
-- bytes are enough. A query runs on fuel for the steps of its statement, at most 122 of which find the
-- database busy; two are enough for a lookup that is answered at once. `c_copy` and `c_compare_file`
-- need one more than the file has bytes, and the self check of a tree as much as it has nodes. The
-- merge sort has as much fuel as the list has elements, and each half needs less. A replica's tree
-- that holds 2 ^ 64 entries has a `size` that wrapped. Memory allocation succeeds, except where
-- `c_rbtree_insert` is given that it does not; times, sizes and inodes are numbers.
--
-- Not modelled: SQLite, and the input and output below src/vio and in the modules, which are
-- parameters; locks, configuration and logging; `csync_statedb_insert`, which nothing calls; and of the
-- red-black tree the removal of a node and the copy of a tree, which nothing calls either. The lookups in the journal are parameters of
-- Update, and Statedb/Detection puts those of Statedb in their place.
pub mod Base
pub mod CList
pub mod Exclude
pub mod FileCompare
pub mod FileCopy
pub mod FileSystem
pub mod Handlers
pub mod Hash
pub mod Merge
pub mod Misc
pub mod PathName
pub mod Propagate
pub mod Push
pub mod RbTree
pub mod Reconcile
pub mod Session
pub mod Sqlite
pub mod Statedb
pub mod StrList
pub mod Tests
pub mod Transfer
pub mod TreeWalk
pub mod Types
pub mod Update
