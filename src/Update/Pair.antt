-- ===== src/Update/Pair.antt =====
-- The instructions that the update detection gives to the two versions of one path.
use ocsync.Base.{
  ℕ, ◌==◌, ◌≤◌, ◌<◌, ==_iff, Bool, true, false, ◌&&◌, ◌≡◌, refl, some, ltb, arith, if◌then◌else◌,
}
use ocsync.Types.{
  FtwType, file, Replica, local_replica, remote_replica, FileStat, Instruction, eval, sync,
}
use ocsync.Reconcile.Pair.{detected_pair, settle, settle-changed}
use ocsync.Update.{VioStat, Journal, is_file, detect_instruction}

-- The lookup of a hash answers alike in both walks.
abbrev pub Agrees : Journal → ℕ → Type 0
Agrees journal h =
    journal.get_stat_by_hash local_replica h ≡ journal.get_stat_by_hash remote_replica h

-- Two files of the same path, one on each replica, of any data and types, looked up in the same
-- journal, which answers alike in both walks, or without one: the instructions are a pair that
-- `detected_pair` lists.
pub detect_instruction-detected_pair :
    (journal : Journal) (exists : Bool) (h : ℕ) (fs fs' : VioStat) (type type' : FtwType)
    → Agrees journal h
    → detected_pair
        (detect_instruction journal exists local_replica fs type h)
        (detect_instruction journal exists remote_replica fs' type' h)
      ≡ true
unfolding detect_instruction
detect_instruction-detected_pair journal exists h fs fs' type type' agrees =
    rw (agrees) (ground arith)

not_linked :
    (fs : VioStat) (type : FtwType)
    → (type ≡ file → fs.nlink ≤ 1)
    → (is_file type && ltb 1 fs.nlink) ≡ false
not_linked fs file h = let small : fs.nlink ≤ 1 = h refl in ground arith
not_linked fs FtwType.slink h = refl
not_linked fs FtwType.dir h = refl

-- A file that is no hard link and that the journal has under its path's hash gets `eval` exactly if
-- its time is later than the journal's, on both replicas, and no instruction else.
pub detect_instruction-known :
    (journal : Journal) (r : Replica) (fs : VioStat) (type : FtwType) (h : ℕ) (st : FileStat)
    → (type ≡ file → fs.nlink ≤ 1)
    → journal.get_stat_by_hash r h ≡ some st
    → st.phash ≡ h
    → detect_instruction journal true r fs type h
      ≡ (if ltb st.modtime fs.mtime then eval else Instruction.none)
unfolding detect_instruction
detect_instruction-known journal r fs type h st links found same =
    let b : (st.phash == h) ≡ true = (==_iff st.phash h).1 same in
    rw (not_linked fs type links, found, b) refl

-- Where the journal has the path, and answers so in both walks, one replica's file is later than the journal's entry and the other
-- replica's is not, and neither is a hard link, the changed file is the one that is propagated.
pub detect_settle_changed :
    (journal : Journal) (keep : Bool) (h : ℕ) (fs fs' : VioStat) (type type' : FtwType)
    (st : FileStat)
    → (type ≡ file → fs.nlink ≤ 1)
    → (type' ≡ file → fs'.nlink ≤ 1)
    → ((r : Replica) → journal.get_stat_by_hash r h ≡ some st)
    → st.phash ≡ h
    → let both =
        settle keep fs.mtime fs'.mtime
          (detect_instruction journal true local_replica fs type h)
          (detect_instruction journal true remote_replica fs' type' h) in
      (st.modtime < fs.mtime → fs'.mtime ≤ st.modtime → both ≡ (sync, Instruction.none))
      × (fs.mtime ≤ st.modtime → st.modtime < fs'.mtime → both ≡ (Instruction.none, sync))
detect_settle_changed journal keep h fs fs' type type' st links links' found same =
    let i =
      detect_instruction-known journal local_replica fs type h st links (found local_replica)
        same in
    let j =
      detect_instruction-known journal remote_replica fs' type' h st links' (found remote_replica)
        same in
    let s = settle-changed keep fs.mtime fs'.mtime eval refl in
    (
      λ late early.
          let a : ltb st.modtime fs.mtime ≡ true = ground arith in
          let b : ltb st.modtime fs'.mtime ≡ false = ground arith in rw (i, j, a, b) s.0,
      λ early late.
          let a : ltb st.modtime fs.mtime ≡ false = ground arith in
          let b : ltb st.modtime fs'.mtime ≡ true = ground arith in rw (i, j, a, b) s.1,
    )
