-- ===== src/Statedb/Files.antt =====
-- src/csync_statedb.c: the journal's file, which is opened through a copy beside it that replaces it in
-- the end.
use ocsync.Base.{
  ℕ, ◌==◌, Bool, true, false, Option, none, some, [], ◌∷◌, ◌++◌, ℤ, pos, minus_one, is_negative,
  if◌then◌else◌,
}
use ocsync.Exclude.{bytes}
use ocsync.FileCopy.{Posix, c_streq, c_copy}
use ocsync.FileSystem.{is_zero}
use ocsync.Sqlite.{SqlRc, ok, Handle, Sqlite}
use ocsync.Sqlite.Statements.{count_metadata, default_synchronous}
use ocsync.Statedb.Rows.{csync_statedb_query}
use ocsync.Types.{Str, Ctx}

-- a character array as a string
abbrev pub until_nul : Str → Str
until_nul [] = []
until_nul (c ∷ s) = let rest = until_nul s in if c == 0 then [] else c ∷ rest

abbrev pub sqlite_header : Str
sqlite_header = bytes "SQLite format 3"

-- "%s.ctmp"
abbrev pub temporary_of : Str → Str
temporary_of statedb = statedb ++ bytes ".ctmp"

-- 0644
abbrev pub statedb_mode : ℕ
statedb_mode = 420

module _ {W : Type 0} (posix : Posix W) (sql : Sqlite W) where
  abbrev pub is_ok : SqlRc → Bool
  is_ok ok = true
  is_ok _ = false

  -- `sqlite3_open`, with `sqlite3_close` whatever it answered
  abbrev pub opens : Str → W → Bool × W
  opens statedb w = let (code, db, w₁) = sql.open_db statedb w in (is_ok code, sql.close_db db w₁)

  -- "create database"
  abbrev pub create_database : Str → W → ℤ × W
  create_database statedb w =
      let (opened, w₁) = opens statedb w in (if opened then pos 0 else minus_one, w₁)

  -- what is done with the first bytes of the file; a database that cannot be opened is unlinked before
  -- it is closed
  abbrev pub check_header : Str → Option Str × W → ℤ × W
  check_header statedb (none, w) = create_database statedb w
  check_header statedb (some buf, w) =
      let (code, db, w₁) = sql.open_db statedb w in
      if c_streq (until_nul buf) sqlite_header
      then (if is_ok code
          then (pos 0, sql.close_db db w₁)
          else create_database statedb (sql.close_db db (posix.unlink statedb w₁).1))
      else create_database statedb (posix.unlink statedb w).1

  unfoldable pub statedb_check : Str → W → ℤ × W
  statedb_check statedb w =
      let (file, w₁) = posix.open_read statedb w in
      elim file [
        | none ↦ create_database statedb w₁
        | some fd ↦
            let (buf, w₂) = posix.read fd 15 w₁ in check_header statedb (buf, posix.close fd w₂)
      ]

  module _ (fuel : ℕ) where
    -- Whether the query for the number of rows fails: there is no table.
    unfoldable pub statedb_is_empty : Handle → W → Option (Bool × W)
    unfolding csync_statedb_query
    statedb_is_empty db w = elim (csync_statedb_query sql db fuel count_metadata w) [
      | none ↦ none
      | some (none, w') ↦ some (true, w')
      | some (some result, w') ↦ some (false, w')
    ]

    -- the new handle, which the context keeps, opened on the temporary copy
    abbrev pub open_temporary : Handle → Str → Ctx → ℤ × W → Option (ℤ × Handle × Ctx × W)
    open_temporary old statedb ctx (copied, w) =
        let (code, db, w₁) = sql.open_db (temporary_of statedb) w in
        if is_negative copied
        then some (minus_one, old, ctx, w)
        else if is_ok code
        then elim (statedb_is_empty db w₁) [
          | none ↦ none
          | some (empty, w₂) ↦ elim (csync_statedb_query sql db fuel default_synchronous w₂) [
            | none ↦ none
            | some (result, w₃) ↦
                some (pos 0, db, record ctx { statedb_exists = if empty then false else true }, w₃)
          ]
        ]
        else some (minus_one, db, ctx, w₁)

    -- `old` is the handle before, which stays where the copy fails.
    unfoldable pub csync_statedb_load : Handle → Str → Ctx → W → Option (ℤ × Handle × Ctx × W)
    unfolding statedb_check statedb_is_empty c_copy
    csync_statedb_load old statedb ctx w =
        let (rc, w₁) = statedb_check statedb w in
        if is_negative rc
        then some (minus_one, old, ctx, w₁)
        else elim (c_copy posix fuel statedb (temporary_of statedb) statedb_mode w₁) [
          | none ↦ none
          | some copied ↦ open_temporary old statedb ctx copied
        ]

    -- after the copy of the temporary file onto the journal
    abbrev pub after_copy : Str → Option (ℤ × W) → Option (ℤ × W)
    after_copy statedb none = none
    after_copy statedb (some (rc, w)) =
        some (rc, if is_zero rc then (posix.unlink (temporary_of statedb) w).1 else w)

    unfoldable pub csync_statedb_close : Handle → Str → (jwritten : Bool) → W → Option (ℤ × W)
    csync_statedb_close db statedb jwritten w =
        let w₁ = sql.close_db db w in
        if jwritten
        then after_copy statedb (c_copy posix fuel (temporary_of statedb) statedb statedb_mode w₁)
        else some (pos 0, (posix.unlink (temporary_of statedb) w₁).1)
