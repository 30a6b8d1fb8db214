-- ===== src/Statedb/Rowset.antt =====
-- src/csync_statedb.c: the rows that the entries of a tree become.
use ocsync.Base.{
  ℕ, ◌<◌, arith, ◌≡◌, refl, sym, ap, ◌∙◌, ◌≢◌, Bool, true, false, some, List, [], ◌∷◌, ◌++◌,
  append-nil, pos, minus_one, is_negative, if◌then◌else◌, All, take, inl, inr, Bool-cases,
}
use ocsync.Base.Words.{to_int32, to_int64, to_uint64, to_uint64-to_int64}
use ocsync.RbTree.{c_rbtree_walk}
use ocsync.RbTree.InOrder.{to_list}
use ocsync.RbTree.Order.{Ascends, Ascends-split, AllBelow}
use ocsync.RbTree.Visit.{All-parts}
use ocsync.RbTree.Collect.{Collects, c_rbtree_walk-Collects}
use ocsync.Sqlite.{Handle, Sqlite}
use ocsync.Sqlite.Laws.{Row, Tables, IsDatabase}
use ocsync.Statedb.Rows.{is_done}
use ocsync.Statedb.Metadata.{insert_metadata_visitor, write_row}
use ocsync.Types.{Instruction, updated, conflict, FileStat}
use ocsync.Reconcile.{Files}

-- the instructions of the entries that are written
abbrev pub is_kept : Instruction → Bool
is_kept Instruction.none = true
is_kept updated = true
is_kept conflict = true
is_kept _ = false

abbrev pub row_of : FileStat → Row
row_of fs = record {
  phash = to_int64 fs.phash;
  pathlen = to_int64 fs.pathlen;
  path = take fs.pathlen fs.path;
  inode = to_int64 fs.inode;
  uid = to_int32 fs.uid;
  gid = to_int32 fs.gid;
  mode = to_int32 fs.mode;
  modtime = to_int64 fs.modtime;
}

abbrev pub rows_of : List FileStat → List Row
rows_of [] = []
rows_of (fs ∷ rest) =
    let rows = rows_of rest in if is_kept fs.instruction then row_of fs ∷ rows else rows

-- a 64-bit hash
abbrev pub IsHashed : FileStat → Type 0
IsHashed fs = fs.phash < 0x10000000000000000

abbrev pub hash_of : FileStat → ℕ
hash_of fs = fs.phash

rows_of-append : (xs ys : List FileStat) → rows_of (xs ++ ys) ≡ rows_of xs ++ rows_of ys
rows_of-append [] ys = refl
rows_of-append (x ∷ xs) ys = elim (Bool-cases (is_kept x.instruction)) [
  | inl e ↦ rw (e, rows_of-append xs ys) refl
  | inr e ↦ rw (e) (rows_of-append xs ys)
]

rows_of-kept :
    (seen : List FileStat) (fs : FileStat)
    → is_kept fs.instruction ≡ true
    → rows_of (seen ++ fs ∷ []) ≡ rows_of seen ++ row_of fs ∷ []
rows_of-kept seen fs k = rw (rows_of-append seen (fs ∷ []), k) refl

rows_of-skipped :
    (seen : List FileStat) (fs : FileStat)
    → is_kept fs.instruction ≡ false
    → rows_of (seen ++ fs ∷ []) ≡ rows_of seen
rows_of-skipped seen fs k = rw (rows_of-append seen (fs ∷ []), k) (append-nil (rows_of seen))

to_int64-ne :
    (a b : ℕ) → a < 0x10000000000000000 → b < 0x10000000000000000 → b < a → to_int64 a ≢ to_int64 b
to_int64-ne a b p q h e =
    let same = sym (to_uint64-to_int64 a p) ∙ ap to_uint64 e ∙ to_uint64-to_int64 b q in
    absurd (omega (arith, same))

-- the rows of entries with smaller hashes are rows of other keys
rows_of-other :
    (fs : FileStat) (seen : List FileStat)
    → IsHashed fs
    → All IsHashed seen
    → AllBelow hash_of fs.phash seen
    → All (λ r. to_int64 fs.phash ≢ r.phash) (rows_of seen)
rows_of-other fs [] h hs below = tt
rows_of-other fs (x ∷ xs) h hs below =
    let rest = rows_of-other fs xs h hs.1 below.1 in
    elim (Bool-cases (is_kept x.instruction)) [
      | inl e ↦ rw (e) (to_int64-ne fs.phash x.phash h hs.0 below.0, rest)
      | inr e ↦ rw (e) rest
    ]

module _ {W : Type 0} (sql : Sqlite W) (db : Handle) (law : IsDatabase sql db) (stmt : ℕ) where
  insert_kept :
      (fs : FileStat) (w : W)
      → is_kept fs.instruction ≡ true
      → insert_metadata_visitor sql (some stmt) fs w
        ≡ (let o = write_row sql (some stmt) fs w in (o.0, fs, o.1))
  unfolding insert_metadata_visitor
  insert_kept fs w = by_instruction (fs.instruction) refl
    where
      by_instruction :
          (i : Instruction)
          → fs.instruction ≡ i
          → is_kept i ≡ true
          → insert_metadata_visitor sql (some stmt) fs w
            ≡ (let o = write_row sql (some stmt) fs w in (o.0, fs, o.1))
      by_instruction Instruction.none e k = rw (e) refl
      by_instruction Instruction.eval e k = cc
      by_instruction Instruction.remove e k = cc
      by_instruction Instruction.rename e k = cc
      by_instruction Instruction.new e k = cc
      by_instruction Instruction.conflict e k = rw (e) refl
      by_instruction Instruction.ignore e k = cc
      by_instruction Instruction.sync e k = cc
      by_instruction Instruction.stat_error e k = cc
      by_instruction Instruction.error e k = cc
      by_instruction Instruction.deleted e k = cc
      by_instruction Instruction.updated e k = rw (e) refl

  insert_skipped :
      (fs : FileStat) (w : W)
      → is_kept fs.instruction ≡ false
      → let o = insert_metadata_visitor sql (some stmt) fs w in
        (is_negative o.0 ≡ false) × (o.1 ≡ fs) × (o.2 ≡ w)
  unfolding insert_metadata_visitor
  insert_skipped fs w = by_instruction (fs.instruction) refl
    where
      by_instruction :
          (i : Instruction)
          → fs.instruction ≡ i
          → is_kept i ≡ false
          → let o = insert_metadata_visitor sql (some stmt) fs w in
            (is_negative o.0 ≡ false) × (o.1 ≡ fs) × (o.2 ≡ w)
      by_instruction Instruction.none e k = cc
      by_instruction Instruction.conflict e k = cc
      by_instruction Instruction.updated e k = cc
      by_instruction Instruction.eval e k = rw (e) (refl, refl, refl)
      by_instruction Instruction.remove e k = rw (e) (refl, refl, refl)
      by_instruction Instruction.rename e k = rw (e) (refl, refl, refl)
      by_instruction Instruction.new e k = rw (e) (refl, refl, refl)
      by_instruction Instruction.ignore e k = rw (e) (refl, refl, refl)
      by_instruction Instruction.sync e k = rw (e) (refl, refl, refl)
      by_instruction Instruction.stat_error e k = rw (e) (refl, refl, refl)
      by_instruction Instruction.error e k = rw (e) (refl, refl, refl)
      by_instruction Instruction.deleted e k = rw (e) (refl, refl, refl)

  module _ (before : Tables) where
    -- the table holds the rows of the entries that were visited
    abbrev pub Holds : List FileStat → W → Type 0
    Holds seen w =
        (law.ready (some stmt) w ≡ true)
        × (law.tables w ≡ record before { temp = some (rows_of seen) })

    visits :
        (whole : List FileStat)
        → Ascends hash_of whole
        → All IsHashed whole
        → Collects (insert_metadata_visitor sql (some stmt)) Holds whole
    visits whole asc hs seen rest fs w e (r, t) =
        let parts = Ascends-split hash_of seen fs rest (rw (e) asc) in
        let hashed = All-parts IsHashed seen (fs ∷ rest) (rw (e) hs) in
        elim (Bool-cases (is_kept fs.instruction)) [
          | inl k ↦
              let i =
                law.inserts (some stmt) (record (row_of fs) { path = fs.path }) fs.pathlen
                  (rows_of seen) w r (ap (λ ts. ts.temp) t)
                  (rows_of-other fs seen hashed.1.0 hashed.0 parts.1) in
              rw (insert_kept fs w k) (
                ap (λ code. is_negative (if is_done code then pos 0 else minus_one)) i.0,
                refl,
                (
                  i.2,
                  i.1
                      ∙ ap {A = Tables}
                          (λ ts. record ts { temp = some (rows_of seen ++ row_of fs ∷ []) }) t
                      ∙ ap (λ rows. record before { temp = some rows })
                          (sym (rows_of-kept seen fs k)),
                ),
              )
          | inr k ↦
              let o = insert_skipped fs w k in
              (o.0, o.1, rw (o.2, rows_of-skipped seen fs k) (r, t))
        ]

    -- The walk of the insertion succeeds and leaves the rows of the entries that are written.
    pub insertion_walk :
        (t : Files) (w : W)
        → Ascends hash_of (to_list t.root)
        → All IsHashed (to_list t.root)
        → Holds [] w
        → (w' : W) × (c_rbtree_walk (insert_metadata_visitor sql (some stmt)) t w ≡ (pos 0, t, w'))
          × Holds (to_list t.root) w'
    insertion_walk t w asc hs h =
        c_rbtree_walk-Collects (insert_metadata_visitor sql (some stmt)) Holds (to_list t.root)
          (visits (to_list t.root) asc hs) t w refl h
