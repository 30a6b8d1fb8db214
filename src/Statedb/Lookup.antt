-- ===== src/Statedb/Lookup.antt =====
-- src/csync_statedb.c: what the lookup by hash finds in a journal that was written.
use mathlib.Core.Option
use mathlib.Core.Path.{subst}
use ocsync.Base.{
  ℕ, suc, ◌<◌, ◌≤◌, ◌==◌, ==_iff, arith, ◌≡◌, refl, sym, ap, ◌∙◌, false, Option, none, some, List,
  [], ◌∷◌, pos, if◌then◌else◌, All, take, inl, inr, Bool-cases,
}
use ocsync.Base.Words.{
  to_int32, to_int64, to_uint32, to_uint64, to_int64_small, to_uint64_small, to_int32-IsInt32,
  to_uint32-to_int32,
}
use ocsync.RbTree.Order.{Ascends, search_list}
use ocsync.Sqlite.{Handle, Sqlite}
use ocsync.Sqlite.Laws.{Row, IsDatabase, row_of_key, same}
use ocsync.Statedb.Query.{query-Executes, query-Selects}
use ocsync.Statedb.Rowset.{is_kept, row_of, rows_of, hash_of, IsHashed}
use ocsync.Statedb.Metadata.{stat_of_row, get_stat, csync_statedb_get_stat_by_hash}
use ocsync.Types.{Str, Instruction, file, FileStat}

-- the numbers of an entry that come back as they were: the path's length and the inode go through
-- `atoi`
pub record IsSmall (st : FileStat) : Type 0 where
  pub pathlen : st.pathlen < 0x80000000
  pub inode : st.inode < 0x80000000
  pub modtime : st.modtime < 0x8000000000000000
  pub uid : st.uid < 0x100000000
  pub gid : st.gid < 0x100000000
  pub mode : st.mode < 0x100000000

-- the entry as the journal gives it back
abbrev pub stored : FileStat → FileStat
stored st = record st {
  size = 0;
  nlink = 0;
  type = file;
  instruction = Instruction.none;
  path = take st.pathlen st.path;
}

abbrev pub if_kept : Option FileStat → Option FileStat
if_kept none = none
if_kept (some st) = if is_kept st.instruction then some st else none

-- the entry with a hash, if it is one that is written
abbrev pub written : ℕ → List FileStat → Option FileStat
written h sts = if_kept (search_list hash_of h sts)

-- half of the hashes
abbrev pub half : ℕ
half = 0x8000000000000000

same_low : (h n : ℕ) → h < half → n < 0x10000000000000000 → same (pos h) (to_int64 n) ≡ (h == n)
unfolding to_int64
same_low h n p q = ground arith

same_high : (h n : ℕ) → half ≤ h → same (pos h) (to_int64 n) ≡ false
unfolding to_int64
same_high h n p = ground arith

==-lt : (a b : ℕ) → a < b → (a == b) ≡ false
==-lt a b h = ground arith

no_row_above :
    (h : ℕ) (sts : List FileStat)
    → h < half
    → All IsHashed sts
    → All (λ y. h < y.phash) sts
    → row_of_key (pos h) (rows_of sts) ≡ none
no_row_above h [] p hs above = refl
no_row_above h (x ∷ xs) p hs above = elim (Bool-cases (is_kept x.instruction)) [
  | inl k ↦
      rw (k, same_low h x.phash p hs.0, ==-lt h x.phash above.0) (no_row_above h xs p hs.1 above.1)
  | inr k ↦ rw (k) (no_row_above h xs p hs.1 above.1)
]

-- the row of a low hash is that of its entry
pub row_of_key-low :
    (h : ℕ) (sts : List FileStat)
    → h < half
    → All IsHashed sts
    → Ascends hash_of sts
    → row_of_key (pos h) (rows_of sts) ≡ Option.map row_of (written h sts)
row_of_key-low h [] p hs asc = refl
row_of_key-low h (x ∷ xs) p hs asc = elim (Bool-cases (h == x.phash)) [
  | inl e ↦ elim (Bool-cases (is_kept x.instruction)) [
    | inl k ↦ rw (k, same_low h x.phash p hs.0, e, k) refl
    | inr k ↦
        rw (k, e, k)
          (no_row_above h xs p hs.1
            (subst (λ n. All (λ y. n < y.phash) xs) (sym ((==_iff h x.phash).0 e)) asc.0))
  ]
  | inr e ↦ elim (Bool-cases (is_kept x.instruction)) [
    | inl k ↦ rw (k, same_low h x.phash p hs.0, e) (row_of_key-low h xs p hs.1 asc.1)
    | inr k ↦ rw (k, e) (row_of_key-low h xs p hs.1 asc.1)
  ]
]

-- no row has a high hash
pub row_of_key-high :
    (h : ℕ) (sts : List FileStat) → half ≤ h → row_of_key (pos h) (rows_of sts) ≡ none
row_of_key-high h [] p = refl
row_of_key-high h (x ∷ xs) p = elim (Bool-cases (is_kept x.instruction)) [
  | inl k ↦ rw (k, same_high h x.phash p) (row_of_key-high h xs p)
  | inr k ↦ rw (k) (row_of_key-high h xs p)
]

module _ {W : Type 0} (sql : Sqlite W) (db : Handle) (law : IsDatabase sql db) where
  -- the columns of an entry's row, as texts
  abbrev texts : FileStat → List Str
  texts st =
      let r = row_of st in
      law.decimal r.phash
      ∷ law.decimal r.pathlen
      ∷ r.path
      ∷ law.decimal r.inode
      ∷ law.decimal r.uid
      ∷ law.decimal r.gid
      ∷ law.decimal r.mode
      ∷ law.decimal r.modtime
      ∷ []

  atoi_uint32 : (n : ℕ) → n < 0x100000000 → to_uint32 (sql.atoi (law.decimal (to_int32 n))) ≡ n
  atoi_uint32 n h =
      ap to_uint32 (law.atoi-decimal (to_int32 n) (to_int32-IsInt32 n)) ∙ to_uint32-to_int32 n h

  atoi_uint64 : (n : ℕ) → n < 0x80000000 → to_uint64 (sql.atoi (law.decimal (to_int64 n))) ≡ n
  atoi_uint64 n h =
      ap (λ z. to_uint64 (sql.atoi (law.decimal z))) (to_int64_small n (omega arith))
      ∙ ap to_uint64 (law.atoi-decimal (pos n) h)
      ∙ to_uint64_small n (omega arith)

  strtoul_time : (n : ℕ) → n < half → sql.strtoul (law.decimal (to_int64 n)) ≡ n
  strtoul_time n h =
      ap (λ z. sql.strtoul (law.decimal z)) (to_int64_small n h)
      ∙ law.strtoul-decimal n (omega arith)

  read_back :
      (st : FileStat) (h : ℕ)
      → IsSmall st
      → h ≡ st.phash
      → stat_of_row sql (λ text. h) (texts st) ≡ some (stored st)
  unfolding stat_of_row
  read_back st h s e =
      rw
        (
          e,
          atoi_uint64 st.pathlen s.pathlen,
          atoi_uint64 st.inode s.inode,
          atoi_uint32 st.uid s.uid,
          atoi_uint32 st.gid s.gid,
          atoi_uint32 st.mode s.mode,
          strtoul_time st.modtime s.modtime,
        )
        refl

  module _ (fuel : ℕ) where
    pub get_nothing :
        (h : ℕ) (rows : List Row) (w : W)
        → (law.tables w).metadata ≡ some rows
        → row_of_key (pos h) rows ≡ none
        → (w' : W) × (csync_statedb_get_stat_by_hash sql (suc (suc fuel)) db h w ≡ some (none, w'))
    unfolding csync_statedb_get_stat_by_hash
    get_nothing h rows w t e =
        let (w', runs) = law.selects_nothing h rows w t e in
        (
          w',
          ap (λ s. get_stat sql (suc (suc fuel)) db (λ text. h) s w) (law.prints h)
              ∙ rw (query-Executes sql db (suc fuel) (law.selection h) w w' runs, get_stat) refl,
        )

    pub get_row :
        (h : ℕ) (st : FileStat) (rows : List Row) (w : W)
        → (law.tables w).metadata ≡ some rows
        → row_of_key (pos h) rows ≡ some (row_of st)
        → IsSmall st
        → h ≡ st.phash
        → (w' : W) × (csync_statedb_get_stat_by_hash sql (suc (suc fuel)) db h w
            ≡ some (some (stored st), w'))
    unfolding csync_statedb_get_stat_by_hash
    get_row h st rows w t e s same_hash =
        let found = law.selects_row h rows (row_of st) w t e in
        (
          found.after,
          ap (λ q. get_stat sql (suc (suc fuel)) db (λ text. h) q w) (law.prints h)
              ∙ rw
                  (
                    query-Selects sql db fuel (law.selection h) w _ _ _ _ _ _ _ _ found,
                    get_stat,
                    read_back st h s same_hash,
                  )
                  refl,
        )
