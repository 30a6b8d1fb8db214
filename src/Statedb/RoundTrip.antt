-- ===== src/Statedb/RoundTrip.antt =====
-- src/csync_statedb.c: a journal that was written and is then read, by the next update detection.
use mathlib.Core.Option
use mathlib.Core.Path.{subst}
use ocsync.Base.{
  ℕ, suc, ◌==◌, ==_iff, ltb, ltb→lt, arith, ◌≡◌, refl, sym, ap, ◌∙◌, Option, none, some, List, [],
  ◌∷◌, pos, if◌then◌else◌, All, inl, inr, Bool-cases, Option-cases,
}
use ocsync.RbTree.{c_rbtree_find}
use ocsync.RbTree.InOrder.{to_list}
use ocsync.RbTree.Order.{Ascends, search_list, find-search_list}
use ocsync.Sqlite.{Handle, Sqlite}
use ocsync.Sqlite.Laws.{IsDatabase}
use ocsync.Statedb.Rowset.{is_kept, row_of, rows_of, hash_of, IsHashed}
use ocsync.Statedb.Lookup.{
  IsSmall, stored, if_kept, written, half, row_of_key-low, row_of_key-high, get_nothing, get_row,
}
use ocsync.Statedb.Metadata.{csync_statedb_get_stat_by_hash, csync_statedb_write}
use ocsync.Statedb.Write.{csync_statedb_write-rows_of}
use ocsync.Types.{FileStat}
use ocsync.Reconcile.{Files}
use ocsync.Reconcile.Trees.{IsFiles}

-- what the lookup of a hash answers after the entries were written
abbrev pub answer : ℕ → Option FileStat → Option FileStat
answer h st = if ltb h half then Option.map stored (if_kept st) else none

pub search_list-All :
    (P : FileStat → Type 0) (h : ℕ) (sts : List FileStat) (st : FileStat)
    → All P sts
    → search_list hash_of h sts ≡ some st
    → P st × (h ≡ st.phash)
search_list-All P h [] st ps e = cc
search_list-All P h (x ∷ xs) st ps e = elim (Bool-cases (h == x.phash)) [
  | inl same ↦
      let is_x : some x ≡ some st = sym (rw (same) refl) ∙ e in
      let same_entry : x ≡ st = cc in
      subst (λ y. P y × (h ≡ y.phash)) same_entry (ps.0, (==_iff h x.phash).0 same)
  | inr other ↦ search_list-All P h xs st ps.1 (sym (rw (other) refl) ∙ e)
]

if_kept-some : (o : Option FileStat) (st : FileStat) → if_kept o ≡ some st → o ≡ some st
if_kept-some none st e = cc
if_kept-some (some x) st e = elim (Bool-cases (is_kept x.instruction)) [
  | inl k ↦ rw (k) at e
  | inr k ↦ cc (rw (k) at e)
]

module _ {W : Type 0} (sql : Sqlite W) (db : Handle) (law : IsDatabase sql db) (fuel : ℕ) where
  get_answer :
      (h : ℕ) (sts : List FileStat) (w : W)
      → (law.tables w).metadata ≡ some (rows_of sts)
      → Ascends hash_of sts
      → All IsHashed sts
      → All IsSmall sts
      → (w' : W) × (csync_statedb_get_stat_by_hash sql (suc (suc fuel)) db h w
          ≡ some (answer h (search_list hash_of h sts), w'))
  get_answer h sts w t asc hs small = elim (Bool-cases (ltb h half)) [
    | inr high ↦
        rw (high)
          (get_nothing sql db law fuel h (rows_of sts) w t (row_of_key-high h sts (ground arith)))
    | inl low ↦ elim (Option-cases (written h sts)) [
      | inl e ↦
          rw (low, e)
            (get_nothing sql db law fuel h (rows_of sts) w t
              (row_of_key-low h sts (ltb→lt h half low) hs asc ∙ ap (Option.map row_of) e))
      | inr (st, e) ↦
          let known = if_kept-some (search_list hash_of h sts) st e in
          let found = search_list-All IsSmall h sts st small known in
          rw (low, e)
            (get_row sql db law fuel h st (rows_of sts) w t
              (row_of_key-low h sts (ltb→lt h half low) hs asc ∙ ap (Option.map row_of) e) found.0
              found.1)
    ]
  ]

  -- Into a database without the temporary tables, and from a valid tree of 64-bit hashes whose
  -- entries' inodes and path lengths are below 2 ^ 31, the journal is written, and a lookup by any hash
  -- below 2 ^ 63 then answers the tree's entry of that hash if it is one that is written, with its
  -- path, times, owner, mode and inode, and otherwise none; a lookup of a hash from 2 ^ 63 on
  -- answers none.
  pub csync_statedb_get_stat_by_hash-write :
      (t : Files) (w : W)
      → IsFiles t
      → All IsHashed (to_list t.root)
      → All IsSmall (to_list t.root)
      → (law.tables w).temp ≡ none
      → (law.tables w).wait ≡ none
      → (w' : W) × (csync_statedb_write sql (suc fuel) db t w ≡ some (pos 0, t, w'))
        × ((h : ℕ)
            → (w'' : W) × (csync_statedb_get_stat_by_hash sql (suc (suc fuel)) db h w'
                ≡ some (answer h (c_rbtree_find t h), w'')))
  unfolding c_rbtree_find
  csync_statedb_get_stat_by_hash-write t w v hs small no_temp no_wait =
      let (w', writes, tables) =
        csync_statedb_write-rows_of sql fuel db law t w v hs no_temp no_wait in
      (
        w',
        writes,
        λ h.
            subst
              (λ o.
                (w'' : W) × (csync_statedb_get_stat_by_hash sql (suc (suc fuel)) db h w'
                  ≡ some (answer h o, w'')))
              (sym (find-search_list hash_of t.key_compare v.keyed.by_key h t.root v.ascends))
              (get_answer h (to_list t.root) w' (ap (λ ts. ts.metadata) tables) v.ascends hs small),
      )
