-- ===== src/Statedb/Detection.antt =====
-- src/csync_statedb.c with src/csync_update.c: the update detection of a file that the synchronisation
-- before has written to the journal.
use ocsync.Base.{
  ℕ, suc, ==_iff, ltb, ◌≡◌, refl, sym, ◌∙◌, true, false, ◌&&◌, Option, none, some, pos,
  if◌then◌else◌, All, inl, inr, Bool-cases,
}
use ocsync.RbTree.{c_rbtree_find}
use ocsync.RbTree.InOrder.{to_list}
use ocsync.RbTree.Order.{find-search_list}
use ocsync.Sqlite.{Handle, Sqlite}
use ocsync.Sqlite.Laws.{IsDatabase}
use ocsync.Statedb.Rowset.{is_kept, hash_of, IsHashed}
use ocsync.Statedb.Lookup.{IsSmall, half, stored}
use ocsync.Statedb.Metadata.{
  csync_statedb_get_stat_by_hash, csync_statedb_get_stat_by_inode, csync_statedb_write,
}
use ocsync.Statedb.RoundTrip.{search_list-All, csync_statedb_get_stat_by_hash-write}
use ocsync.Types.{Instruction, eval, FtwType, Replica, FileStat}
use ocsync.Reconcile.{Files}
use ocsync.Reconcile.Trees.{IsFiles}
use ocsync.Update.{
  Journal, VioStat, is_file, missing_instruction, known_instruction, detect_instruction,
}

find_hash :
    (t : Files) (h : ℕ) (st : FileStat)
    → IsFiles t
    → All IsHashed (to_list t.root)
    → c_rbtree_find t h ≡ some st
    → h ≡ st.phash
unfolding c_rbtree_find
find_hash t h st v hs e =
    (search_list-All IsHashed h (to_list t.root) st hs
      (sym (find-search_list hash_of t.key_compare v.keyed.by_key h t.root v.ascends) ∙ e)).1

-- a lookup that found nothing, for one whose answer does not come back
abbrev pub looked_up : {W : Type 0} → Option (Option FileStat × W) → Option FileStat
looked_up none = none
looked_up (some (st, w)) = st

-- the two queries of the journal, in one world for both walks
abbrev pub journal : {W : Type 0} → Sqlite W → (fuel : ℕ) → (db : Handle) → W → Journal
journal sql fuel db w = record {
  get_stat_by_hash = λ r h. looked_up (csync_statedb_get_stat_by_hash sql fuel db h w);
  get_stat_by_inode = λ inode. looked_up (csync_statedb_get_stat_by_inode sql fuel db inode w);
}

known_stored :
    (missing : Instruction) (vs : VioStat) (h : ℕ) (st : FileStat)
    → h ≡ st.phash
    → known_instruction missing vs h (some (stored st))
      ≡ (if ltb st.modtime vs.mtime then eval else Instruction.none)
known_stored missing vs h st e = rw ((==_iff st.phash h).1 (sym e)) refl

module _ {W : Type 0} (sql : Sqlite W) (db : Handle) (law : IsDatabase sql db) (fuel : ℕ) where
  -- Into a database without the temporary tables, and from a valid tree of 64-bit hashes whose entries'
  -- inodes and path lengths are below 2 ^ 31, the journal is written. A later detection, on either
  -- replica, of a file that is no hard link and has the hash of an entry that was written gives it the
  -- instruction `eval` if it is newer than the entry and otherwise none, where the hash is below
  -- 2 ^ 63; a file with a hash from 2 ^ 63 on is taken for one that the journal does not have.
  pub detect_instruction-write :
      (t : Files) (w : W) (current : Replica) (vs : VioStat) (type : FtwType) (h : ℕ)
      (st : FileStat)
      → IsFiles t
      → All IsHashed (to_list t.root)
      → All IsSmall (to_list t.root)
      → (law.tables w).temp ≡ none
      → (law.tables w).wait ≡ none
      → (is_file type && ltb 1 vs.nlink) ≡ false
      → c_rbtree_find t h ≡ some st
      → is_kept st.instruction ≡ true
      → (w' : W) × (csync_statedb_write sql (suc fuel) db t w ≡ some (pos 0, t, w'))
        × (let j = journal sql (suc (suc fuel)) db w' in
            detect_instruction j true current vs type h ≡ (
              if ltb h half
              then (if ltb st.modtime vs.mtime then eval else Instruction.none)
              else missing_instruction j current vs))
  unfolding detect_instruction
  detect_instruction-write t w current vs type h st v hs small no_temp no_wait single found kept =
      let (w', writes, answers) =
        csync_statedb_get_stat_by_hash-write sql db law fuel t w v hs small no_temp no_wait in
      (
        w',
        writes,
        elim (Bool-cases (ltb h half)) [
          | inl low ↦
              rw (single, (answers h).1, found, low, kept)
                (known_stored _ vs h st (find_hash t h st v hs found))
          | inr high ↦ rw (single, (answers h).1, found, high) refl
        ],
      )
