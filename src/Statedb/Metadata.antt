-- ===== src/Statedb/Metadata.antt =====
-- src/csync_statedb.c: what the program does with the journal's table: it drops and creates it, writes
-- a row for each entry of the local tree, and reads the row of a path or an inode.
use Prim.Native.String.{String}
use ocsync.Base.{
  ℕ, true, false, Option, none, some, List, [], ◌∷◌, ℤ, pos, minus_one, is_negative, leb,
  if◌then◌else◌,
}
use ocsync.Base.Words.{to_int32, to_int64, to_uint32, to_uint64}
use ocsync.RbTree.{c_rbtree_walk}
use ocsync.Sqlite.{SqlRc, ok, Handle, Sqlite}
use ocsync.Statedb.Rows.{csync_statedb_query, is_done}
use ocsync.Types.{Str, Instruction, updated, conflict, ignore, error, deleted, file, FileStat}
use ocsync.Reconcile.{Files}
use ocsync.Sqlite.Statements.{
  drop_metadata, create_metadata_temp, create_metadata, index_phash, index_inode, insert_row,
  rename_metadata, rename_metadata_temp, drop_metadata_wait, begin_transaction, commit_transaction,
  select_by_hash, select_by_inode,
}

module _ {W : Type 0} (sql : Sqlite W) where
  -- the columns of a row, bound to the parameters of the statement
  abbrev pub bind_row : Handle → FileStat → W → W
  bind_row stmt fs w =
      let w₁ = sql.bind_int64 stmt 1 (to_int64 fs.phash) w in
      let w₂ = sql.bind_int64 stmt 2 (to_int64 fs.pathlen) w₁ in
      let w₃ = sql.bind_text stmt 3 fs.path fs.pathlen w₂ in
      let w₄ = sql.bind_int64 stmt 4 (to_int64 fs.inode) w₃ in
      let w₅ = sql.bind_int stmt 5 (to_int32 fs.uid) w₄ in
      let w₆ = sql.bind_int stmt 6 (to_int32 fs.gid) w₅ in
      let w₇ = sql.bind_int stmt 7 (to_int32 fs.mode) w₆ in
      sql.bind_int64 stmt 8 (to_int64 fs.modtime) w₇

  abbrev pub write_row : Handle → FileStat → W → ℤ × W
  write_row stmt fs w =
      let (code, w₁) = sql.step stmt (bind_row stmt fs w) in
      (if is_done code then pos 0 else minus_one, sql.reset stmt w₁)

  -- The statement is the visitor's `userdata`.
  unfoldable pub insert_metadata_visitor : Handle → FileStat → W → ℤ × FileStat × W
  insert_metadata_visitor none fs w = (minus_one, fs, w)
  insert_metadata_visitor (some stmt) fs w =
      let (rc, w') = write_row (some stmt) fs w in
      elim (fs.instruction) [
        | deleted ↦ (pos 0, fs, w)
        | ignore ↦ (pos 0, fs, w)
        | error ↦ (pos 0, fs, w)
        | Instruction.none ↦ (rc, fs, w')
        | updated ↦ (rc, fs, w')
        | conflict ↦ (rc, fs, w')
        | _ ↦ (pos 1, fs, w)
      ]

  module _ (fuel : ℕ) (db : Handle) where
    -- a query whose result is only compared with null
    unfoldable pub execute : String → W → Option (ℤ × W)
    execute statement w = elim (csync_statedb_query sql db fuel statement w) [
      | none ↦ none
      | some (none, w') ↦ some (minus_one, w')
      | some (some result, w') ↦ some (pos 0, w')
    ]

    -- one statement after the other, up to the first that fails
    abbrev pub execute_all : List String → W → Option (ℤ × W)
    execute_all [] w = some (pos 0, w)
    execute_all (s ∷ ss) w = elim (execute s w) [
      | none ↦ none
      | some (rc, w') ↦ elim (is_negative rc) [
        | true ↦ some (minus_one, w')
        | false ↦ execute_all ss w'
      ]
    ]

    unfoldable pub csync_statedb_create_tables : W → Option (ℤ × W)
    csync_statedb_create_tables w =
        execute_all (create_metadata_temp ∷ create_metadata ∷ index_phash ∷ index_inode ∷ []) w

    unfoldable pub csync_statedb_drop_tables : W → Option (ℤ × W)
    csync_statedb_drop_tables w = execute_all (drop_metadata ∷ []) w

    -- the queries whose results are thrown away
    abbrev pub execute_each : List String → W → Option W
    execute_each [] w = some w
    execute_each (s ∷ ss) w = elim (execute s w) [
      | none ↦ none
      | some (rc, w') ↦ execute_each ss w'
    ]

    abbrev pub rename_tables : W → Option (ℤ × W)
    rename_tables w =
        elim (execute_each (rename_metadata ∷ rename_metadata_temp ∷ drop_metadata_wait ∷ []) w) [
          | none ↦ none
          | some w' ↦ some (pos 0, w')
        ]

    -- after the walk over the tree: the end of the transaction, and the new table put in place
    abbrev pub after_walk : Handle → ℤ × Files × W → Option (ℤ × Files × W)
    after_walk stmt (rc, tree, w) =
        let w' = (sql.finalize stmt (sql.exec db commit_transaction w)).1 in
        if is_negative rc
        then some (minus_one, tree, w)
        else elim (rename_tables w') [ none ↦ none | some (rc', w'') ↦ some (rc', tree, w'') ]

    -- after `sqlite3_prepare_v2`, by its code
    abbrev pub after_prepare_v2 : Files → SqlRc × Handle × W → Option (ℤ × Files × W)
    after_prepare_v2 tree (ok, stmt, w) =
        after_walk stmt (c_rbtree_walk (insert_metadata_visitor stmt) tree w)
    after_prepare_v2 tree (code, stmt, w) = some (minus_one, tree, w)

    unfoldable pub csync_statedb_insert_metadata : Files → W → Option (ℤ × Files × W)
    csync_statedb_insert_metadata tree w =
        after_prepare_v2 tree (sql.prepare_v2 db insert_row (sql.exec db begin_transaction w))

    unfoldable pub csync_statedb_write : Files → W → Option (ℤ × Files × W)
    csync_statedb_write tree w = elim (csync_statedb_drop_tables w) [
      | none ↦ none
      | some (rc, w₁) ↦ elim (is_negative rc) [
        | true ↦ some (minus_one, tree, w₁)
        | false ↦ elim (csync_statedb_create_tables w₁) [
          | none ↦ none
          | some (rc', w₂) ↦ elim (is_negative rc') [
            | true ↦ some (minus_one, tree, w₂)
            | false ↦ elim (csync_statedb_insert_metadata tree w₂) [
              | none ↦ none
              | some (rc'', tree', w₃) ↦
                  some (if is_negative rc'' then minus_one else pos 0, tree', w₃)
            ]
          ]
        ]
      ]
    ]

  -- The entry of a row of eight columns; `none` is a read past the end of the row.
  unfoldable pub stat_of_row : (phash : Str → ℕ) → List Str → Option FileStat
  unfolding to_uint32 to_uint64
  stat_of_row phash (c₀ ∷ c₁ ∷ c₂ ∷ c₃ ∷ c₄ ∷ c₅ ∷ c₆ ∷ c₇ ∷ rest) = some (record {
    phash = phash c₀;
    modtime = sql.strtoul c₇;
    size = 0;
    pathlen = to_uint64 (sql.atoi c₁);
    inode = to_uint64 (sql.atoi c₃);
    uid = to_uint32 (sql.atoi c₄);
    gid = to_uint32 (sql.atoi c₅);
    mode = to_uint32 (sql.atoi c₆);
    nlink = 0;
    type = file;
    instruction = Instruction.none;
    path = c₂;
  })
  stat_of_row phash _ = none

  module _ (fuel : ℕ) (db : Handle) where
    unfoldable pub get_stat :
        (phash : Str → ℕ) → (statement : Option String) → W → Option (Option FileStat × W)
    unfolding stat_of_row
    get_stat phash none w = some (none, w)
    get_stat phash (some statement) w = elim (csync_statedb_query sql db fuel statement w) [
      | none ↦ none
      | some (none, w') ↦ some (none, w')
      | some (some result, w') ↦ elim (leb result.count 6) [
        | true ↦ some (none, w')
        | false ↦ elim (stat_of_row phash result.vector) [
          | none ↦ none
          | some st ↦ some (some st, w')
        ]
      ]
    ]

    -- The hash is the one that was asked for.
    unfoldable pub csync_statedb_get_stat_by_hash : ℕ → W → Option (Option FileStat × W)
    unfolding get_stat
    csync_statedb_get_stat_by_hash phash w =
        get_stat (λ text. phash) (sql.mprintf select_by_hash phash) w

    unfoldable pub csync_statedb_get_stat_by_inode : ℕ → W → Option (Option FileStat × W)
    unfolding get_stat
    csync_statedb_get_stat_by_inode inode w =
        get_stat sql.strtoull (sql.mprintf select_by_inode inode) w
