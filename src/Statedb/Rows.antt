-- ===== src/Statedb/Rows.antt =====
-- src/csync_statedb.c: the query of the database, with its retries and the loop over the rows.
use Prim.Native.String.{String}
use ocsync.Base.{
  ℕ, zero, suc, ◌+◌, ◌-◌, ◌==◌, Bool, Option, none, some, is_negative, ltb, if◌then◌else◌,
}
use ocsync.Sqlite.{SqlRc, ok, error, busy, done, schema, Handle, Sqlite}
use ocsync.StrList.{c_strlist_new, c_strlist_add}
use ocsync.Types.{Str, StrList}

abbrev pub is_done : SqlRc → Bool
is_done done = Bool.true
is_done _ = Bool.false

abbrev pub is_schema : SqlRc → Bool
is_schema schema = Bool.true
is_schema _ = Bool.false

-- How the loop over the rows ends: by a `break`, with the last code, or by `return NULL`.
pub data Stepped (W : Type 0) : Type 0 where
  ended : SqlRc → (busy_count : ℕ) → Option StrList → W → Stepped W
  gave_up : W → Stepped W
  unfinished : Stepped W

module _ {W : Type 0} (sql : Sqlite W) (db : Handle) where
  -- `err == SQLITE_BUSY && busy_count++ < 120` goes `again`
  abbrev pub after_prepare :
      (again : W → SqlRc × Handle × W) → SqlRc × Handle × W → SqlRc × Handle × W
  after_prepare again (busy, stmt, w) = again w
  after_prepare again (code, stmt, w) = (code, stmt, w)

  -- The loop over `sqlite3_prepare`; `left` is how often a busy database is still asked again.
  unfoldable pub prepare_loop :
      (left busy_count : ℕ) → (statement : String) → W → SqlRc × Handle × W
  prepare_loop zero busy_count statement w =
      sql.prepare db statement (if busy_count == 0 then w else sql.usleep 100000 w)
  prepare_loop (suc left) busy_count statement w =
      after_prepare (prepare_loop left (busy_count + 1) statement)
        (sql.prepare db statement (if busy_count == 0 then w else sql.usleep 100000 w))

  -- a column's text, added to the list, and `again` for the columns after it
  abbrev pub after_column :
      (again : StrList → Option StrList) → StrList → Option Str → Option StrList
  after_column again result none = none
  after_column again result (some text) =
      let (rc, result') = c_strlist_add result text in
      if is_negative rc then none else again result'

  -- the columns `i` and on of a row, added to the list
  unfoldable pub add_columns : (count i : ℕ) → Handle → W → StrList → Option StrList
  unfolding c_strlist_add
  add_columns zero i stmt w result = some result
  add_columns (suc count) i stmt w result =
      after_column (add_columns count (i + 1) stmt w) result (sql.column_text stmt i w)

  unfoldable pub read_row : (column_count : ℕ) → Handle → W → Option StrList
  unfolding add_columns c_strlist_new
  read_row column_count stmt w = elim (c_strlist_new column_count) [
    | none ↦ none
    | some result ↦ add_columns column_count 0 stmt w result
  ]

  -- the row that was read, with which the loop goes on
  abbrev pub after_row : (again : Option StrList → Stepped W) → W → Option StrList → Stepped W
  after_row again w none = gave_up w
  after_row again w (some result) = again (some result)

  abbrev pub or_empty_list : Option StrList → Option StrList
  or_empty_list none = c_strlist_new 1
  or_empty_list (some result) = some result

  -- the body of the loop over `sqlite3_step`; `again` is the rest of the loop
  unfoldable pub after_step :
      (again : (busy_count : ℕ) → Option StrList → W → Stepped W)
      → (column_count : ℕ) → Handle
      → (busy_count : ℕ) → Option StrList
      → SqlRc × W
      → Stepped W
  unfolding read_row c_strlist_new
  after_step again column_count stmt busy_count result (busy, w) =
      if ltb 120 busy_count
      then ended busy (busy_count + 1) result w
      else again (busy_count + 1) result (sql.usleep 100000 w)
  after_step again column_count stmt busy_count result (done, w) =
      ended done busy_count (or_empty_list result) w
  after_step again column_count stmt busy_count result (error, w) = ended error busy_count result w
  after_step again column_count stmt busy_count result (code, w) =
      after_row (λ r. again busy_count r w) w (read_row column_count stmt w)

  unfoldable pub step_loop :
      (fuel : ℕ) → (column_count : ℕ) → Handle → (busy_count : ℕ) → Option StrList → W → Stepped W
  unfolding after_step
  step_loop zero column_count stmt busy_count result w = unfinished
  step_loop (suc fuel) column_count stmt busy_count result w =
      after_step (step_loop fuel column_count stmt) column_count stmt busy_count result
        (sql.step stmt w)

  -- what the outer loop makes of the code of `sqlite3_finalize`; it goes to `retry` where the schema
  -- has changed and the rounds are not used up
  abbrev pub after_finalize :
      (retry : Option StrList → W → Option (Option StrList × W))
      → (is_last : Bool) → SqlRc
      → Option StrList
      → SqlRc × W
      → Option (Option StrList × W)
  after_finalize retry Bool.true err result (schema, w) = some (c_strlist_new 1, w)
  after_finalize retry Bool.false err result (schema, w) = retry result w
  after_finalize retry is_last err result (code, w) =
      some (if is_done err then result else c_strlist_new 1, w)

  unfoldable pub finish_round :
      (is_last : Bool)
      → (retry : (busy_count : ℕ) → Option StrList → W → Option (Option StrList × W)) → Handle
      → Stepped W
      → Option (Option StrList × W)
  unfolding c_strlist_new
  finish_round is_last retry stmt unfinished = none
  finish_round is_last retry stmt (gave_up w) = some (none, w)
  finish_round is_last retry stmt (ended err busy_count result w) =
      after_finalize (retry busy_count) is_last err result (sql.finalize stmt w)

  -- a round of the outer loop, from the code of `sqlite3_prepare`
  unfoldable pub round :
      (fuel : ℕ)
      → (is_last : Bool)
      → (retry : (busy_count : ℕ) → Option StrList → W → Option (Option StrList × W))
      → Option StrList
      → SqlRc × Handle × W
      → Option (Option StrList × W)
  unfolding step_loop finish_round
  round fuel is_last retry result (ok, stmt, w) =
      finish_round is_last retry stmt (step_loop fuel (sql.column_count stmt w) stmt 0 result w)
  round fuel is_last retry result (code, stmt, w) = some (result, w)

  -- The outer loop; `left` is how many rounds may follow this one.
  unfoldable pub query_rounds :
      (fuel left : ℕ) → String → (busy_count : ℕ) → Option StrList → W → Option (Option StrList × W)
  unfolding prepare_loop round
  query_rounds fuel zero statement busy_count result w =
      round fuel Bool.true (λ count r w'. none) result
        (prepare_loop (120 - busy_count) busy_count statement w)
  query_rounds fuel (suc left) statement busy_count result w =
      round fuel Bool.false (query_rounds fuel left statement) result
        (prepare_loop (120 - busy_count) busy_count statement w)

  -- at most ten rounds
  unfoldable pub csync_statedb_query : (fuel : ℕ) → String → W → Option (Option StrList × W)
  unfolding query_rounds
  csync_statedb_query fuel statement w = query_rounds fuel 9 statement 0 none w
