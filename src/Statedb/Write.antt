-- ===== src/Statedb/Write.antt =====
-- src/csync_statedb.c: what `csync_statedb_write` makes of the journal's tables.
use Prim.Native.String.{String}
use ocsync.Base.{ℕ, suc, ◌≡◌, refl, ap, ◌∙◌, ne_none, none, some, List, [], ◌∷◌, pos, All}
use ocsync.RbTree.InOrder.{to_list}
use ocsync.RbTree.Order.{Ascends}
use ocsync.Sqlite.{Handle, Sqlite}
use ocsync.Sqlite.Laws.{Row, Tables, Executes, IsDatabase}
use ocsync.Sqlite.Statements.{
  commit_transaction, drop_metadata, create_metadata_temp, create_metadata, index_phash,
  index_inode, rename_metadata, rename_metadata_temp, drop_metadata_wait,
}
use ocsync.Statedb.Query.{query-Executes}
use ocsync.Statedb.Rowset.{rows_of, hash_of, IsHashed, insertion_walk}
use ocsync.Statedb.Metadata.{
  execute, execute_all, execute_each, after_walk, after_prepare_v2, csync_statedb_create_tables,
  csync_statedb_drop_tables, csync_statedb_insert_metadata, csync_statedb_write, rename_tables,
}
use ocsync.Reconcile.{Files}
use ocsync.Reconcile.Trees.{IsFiles}

module _ {W : Type 0} (sql : Sqlite W) (fuel : ℕ) (db : Handle) where
  execute-Executes :
      (statement : String) (w w' : W)
      → Executes sql db statement w w'
      → execute sql (suc fuel) db statement w ≡ some (pos 0, w')
  unfolding execute
  execute-Executes statement w w' e = rw (query-Executes sql db fuel statement w w' e, execute) refl

  execute_next :
      (statement : String) (rest : List String) (w w' : W)
      → Executes sql db statement w w'
      → execute_all sql (suc fuel) db (statement ∷ rest) w ≡ execute_all sql (suc fuel) db rest w'
  execute_next statement rest w w' e = rw (execute-Executes statement w w' e, execute_all) refl

  module _ (law : IsDatabase sql db) where
    drops :
        (w : W)
        → (w' : W) × (csync_statedb_drop_tables sql (suc fuel) db w ≡ some (pos 0, w'))
          × (law.tables w' ≡ record (law.tables w) { metadata = none })
    unfolding csync_statedb_drop_tables
    drops w = let (w₁, e, t) = law.drop w tt in (w₁, execute_next drop_metadata [] w w₁ e, t)

    -- the tables that the creation makes of none
    abbrev created : Tables
    created = record { metadata = some []; temp = some []; wait = none }

    creates :
        (w : W)
        → law.tables w ≡ record { metadata = none; temp = none; wait = none }
        → (w' : W) × (csync_statedb_create_tables sql (suc fuel) db w ≡ some (pos 0, w'))
          × (law.tables w' ≡ created)
    unfolding csync_statedb_create_tables
    creates w t =
        let (w₁, e₁, t₁) = law.create_temp w tt in
        let (w₂, e₂, t₂) = law.create w₁ tt in
        let now : law.tables w₂ ≡ created = rw (t₂, t₁, t) refl in
        let (w₃, e₃, t₃) = law.index_by_phash w₂ (ne_none (ap (λ ts. ts.metadata) now)) in
        let (w₄, e₄, t₄) = law.index_by_inode w₃ (ne_none (ap (λ ts. ts.metadata) (t₃ ∙ now))) in
        (
          w₄,
          execute_next create_metadata_temp (create_metadata ∷ index_phash ∷ index_inode ∷ []) w w₁
                e₁
              ∙ execute_next create_metadata (index_phash ∷ index_inode ∷ []) w₁ w₂ e₂
              ∙ execute_next index_phash (index_inode ∷ []) w₂ w₃ e₃
              ∙ execute_next index_inode [] w₃ w₄ e₄,
          t₄ ∙ t₃ ∙ now,
        )

    -- the renaming of the tables
    puts :
        (rows old : List Row) (w : W)
        → law.tables w ≡ record { metadata = some old; temp = some rows; wait = none }
        → (w' : W) × (rename_tables sql (suc fuel) db w ≡ some (pos 0, w'))
          × (law.tables w' ≡ record { metadata = some rows; temp = none; wait = none })
    puts rows old w t =
        let (w₁, e₁, t₁) =
          law.rename w (ne_none (ap (λ ts. ts.metadata) t), ap (λ ts. ts.wait) t) in
        let first : law.tables w₁ ≡ record { metadata = none; temp = some rows; wait = some old } =
          rw (t₁, t) refl in
        let (w₂, e₂, t₂) =
          law.rename_temp w₁ (ne_none (ap (λ ts. ts.temp) first), ap (λ ts. ts.metadata) first) in
        let second : law.tables w₂ ≡ record { metadata = some rows; temp = none; wait = some old } =
          rw (t₂, first) refl in
        let (w₃, e₃, t₃) = law.drop_wait w₂ (ne_none (ap (λ ts. ts.wait) second)) in
        (
          w₃,
          rw
              (
                execute-Executes rename_metadata w w₁ e₁,
                execute-Executes rename_metadata_temp w₁ w₂ e₂,
                execute-Executes drop_metadata_wait w₂ w₃ e₃,
                rename_tables,
                execute_each,
              )
              refl,
          rw (t₃, second) refl,
        )

    walked :
        (stmt : Handle) (t : Files) (w w' : W)
        → rename_tables sql (suc fuel) db (sql.finalize stmt (sql.exec db commit_transaction w)).1
          ≡ some (pos 0, w')
        → after_walk sql (suc fuel) db stmt (pos 0, t, w) ≡ some (pos 0, t, w')
    walked stmt t w w' e = rw (e, after_walk) refl

    inserts :
        (t : Files) (w : W)
        → Ascends hash_of (to_list t.root)
        → All IsHashed (to_list t.root)
        → law.tables w ≡ created
        → (w' : W) × (csync_statedb_insert_metadata sql (suc fuel) db t w ≡ some (pos 0, t, w'))
          × (law.tables w'
              ≡ record { metadata = some (rows_of (to_list t.root)); temp = none; wait = none })
    unfolding csync_statedb_insert_metadata
    inserts t w asc hs e =
        let begun = law.begins w ∙ e in
        let (stmt, w₁, prepares, kept, ready) =
          law.prepares_insertion _ (ne_none (ap (λ ts. ts.temp) begun)) in
        let (w₂, walks, holds) =
          insertion_walk sql db law stmt created t w₁ asc hs (ready, kept ∙ begun) in
        let w₃ = sql.exec db commit_transaction w₂ in
        let (w₄, runs, tables) =
          puts (rows_of (to_list t.root)) [] (sql.finalize (some stmt) w₃).1
            (law.finalizes (some stmt) w₃ ∙ law.commits w₂ ∙ holds.1) in
        (
          w₄,
          ap (after_prepare_v2 sql (suc fuel) db t) prepares
              ∙ ap (after_walk sql (suc fuel) db (some stmt)) walks
              ∙ walked (some stmt) t w₂ w₄ runs,
          tables,
        )

    -- With a database that has none of the tables but perhaps the old journal, and a tree in the order
    -- of its 64-bit hashes, the journal is written: the call returns 0 and leaves the tree, and then
    -- the table of the journal holds the rows of the entries that are written, in their order, and
    -- the temporary tables are gone.
    pub csync_statedb_write-rows_of :
        (t : Files) (w : W)
        → IsFiles t
        → All IsHashed (to_list t.root)
        → (law.tables w).temp ≡ none
        → (law.tables w).wait ≡ none
        → (w' : W) × (csync_statedb_write sql (suc fuel) db t w ≡ some (pos 0, t, w'))
          × (law.tables w'
              ≡ record { metadata = some (rows_of (to_list t.root)); temp = none; wait = none })
    unfolding csync_statedb_write
    csync_statedb_write-rows_of t w v hs no_temp no_wait =
        let (w₁, dropped, t₁) = drops w in
        let (w₂, made, t₂) = creates w₁ (t₁ ∙ rw (no_temp, no_wait) refl) in
        let (w₃, inserted, t₃) = inserts t w₂ v.ascends hs t₂ in
        (w₃, rw (dropped, made, inserted, csync_statedb_write) refl, t₃)
