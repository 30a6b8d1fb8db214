-- ===== src/Statedb/Failures.antt =====
-- src/csync_statedb.c: what a query answers where the database is busy or a statement fails.
use Prim.Native.String.{String}
use ocsync.Base.{
  ℕ, zero, suc, ◌+◌, ◌<◌, ◌≤◌, ltb, lt→ltb, arith, ◌≡◌, refl, ap, ◌∙◌, false, Option, none, some,
  pos, ◌⊎◌, inl, inr,
}
use ocsync.Sqlite.{SqlRc, ok, error, busy, row, done, misuse, schema, other, Handle, Sqlite}
use ocsync.Sqlite.Statements.{drop_metadata}
use ocsync.Statedb.Query.{empty_result, prepare_once}
use ocsync.Statedb.Rows.{
  ended, is_done, is_schema, after_step, after_finalize, step_loop, finish_round, round,
  query_rounds, csync_statedb_query,
}
use ocsync.Statedb.Metadata.{execute, execute_all, csync_statedb_drop_tables}
use ocsync.StrList.{c_strlist_new}
use ocsync.Types.{StrList}

not_above : (b : ℕ) → b ≤ 120 → ltb 120 b ≡ false
not_above b h = ground arith

module _ {W : Type 0} (sql : Sqlite W) (db : Handle) where
  -- what comes after the code of `sqlite3_finalize` where the last step was not `SQLITE_DONE`
  undone_finalize :
      (retry : Option StrList → W → Option (Option StrList × W)) (err code : SqlRc)
      (result : Option StrList) (w : W)
      → is_done err ≡ false
      → is_schema code ≡ false
      → after_finalize sql db retry false err result (code, w) ≡ some (some empty_result, w)
  unfolding c_strlist_new
  undone_finalize retry err ok result w e f = rw (e) refl
  undone_finalize retry err error result w e f = rw (e) refl
  undone_finalize retry err busy result w e f = rw (e) refl
  undone_finalize retry err misuse result w e f = rw (e) refl
  undone_finalize retry err row result w e f = rw (e) refl
  undone_finalize retry err done result w e f = rw (e) refl
  undone_finalize retry err schema result w e f = cc
  undone_finalize retry err (other n) result w e f = rw (e) refl

  -- A statement is prepared at once, its loop ends with a code other than `SQLITE_DONE`, and the schema
  -- has not changed.
  undone_round :
      (fuel count : ℕ) (statement : String) (stmt : Handle) (err : SqlRc) (result : Option StrList)
      (w w₁ w₂ : W)
      → sql.prepare db statement w ≡ (ok, stmt, w₁)
      → step_loop sql db fuel (sql.column_count stmt w₁) stmt 0 none w₁ ≡ ended err count result w₂
      → is_done err ≡ false
      → is_schema (sql.finalize stmt w₂).0 ≡ false
      → csync_statedb_query sql db fuel statement w
        ≡ some (some empty_result, (sql.finalize stmt w₂).1)
  unfolding csync_statedb_query query_rounds round finish_round
  undone_round fuel count statement stmt err result w w₁ w₂ e f u g =
      ap (round sql db fuel false (query_rounds sql db fuel 8 statement) none)
        (prepare_once sql db 119 statement w w₁ stmt e)
      ∙ ap (finish_round sql db false (query_rounds sql db fuel 8 statement) stmt) f
      ∙ undone_finalize (query_rounds sql db fuel 8 statement count) err (sql.finalize stmt w₂).0
          result (sql.finalize stmt w₂).1 u g

  step_error :
      (fuel n busy_count : ℕ) (stmt : Handle) (w w₁ : W) (result : Option StrList)
      → sql.step stmt w ≡ (error, w₁)
      → step_loop sql db (suc fuel) n stmt busy_count result w ≡ ended error busy_count result w₁
  unfolding step_loop
  step_error fuel n busy_count stmt w w₁ result e =
      ap (after_step sql db (step_loop sql db fuel n stmt) n stmt busy_count result) e

  -- the world after the steps of a statement that is busy each time
  abbrev pub busy_steps : (left : ℕ) → Handle → W → W
  busy_steps zero stmt w = (sql.step stmt w).1
  busy_steps (suc left) stmt w = busy_steps left stmt (sql.usleep 100000 (sql.step stmt w).1)

  step_busy :
      (left fuel n busy_count : ℕ) (stmt : Handle) (w : W) (result : Option StrList)
      → ((v : W) → (sql.step stmt v).0 ≡ busy)
      → left + busy_count ≡ 121
      → left < fuel
      → step_loop sql db fuel n stmt busy_count result w
        ≡ ended busy 122 result (busy_steps left stmt w)
  unfolding step_loop after_step
  step_busy left zero n b stmt w result always e h = absurd (omega arith)
  step_busy zero (suc fuel) n b stmt w result always e h =
      ap
        (λ code.
          after_step sql db (step_loop sql db fuel n stmt) n stmt b result
            (code, (sql.step stmt w).1))
        (always w)
      ∙ rw (lt→ltb 120 b (omega arith))
          (ap (λ k. ended busy k result (sql.step stmt w).1) (omega arith))
  step_busy (suc left) (suc fuel) n b stmt w result always e h =
      ap
        (λ code.
          after_step sql db (step_loop sql db fuel n stmt) n stmt b result
            (code, (sql.step stmt w).1))
        (always w)
      ∙ rw (not_above b (omega arith)) (
          step_busy left fuel n (b + 1) stmt (sql.usleep 100000 (sql.step stmt w).1) result always
            (omega arith) (omega arith))

  execute-empty :
      (fuel : ℕ) (statement : String) (w w' : W)
      → csync_statedb_query sql db fuel statement w ≡ some (some empty_result, w')
      → execute sql fuel db statement w ≡ some (pos 0, w')
  unfolding execute
  execute-empty fuel statement w w' e = rw (e, execute) refl

  drop-empty :
      (fuel : ℕ) (w w' : W)
      → csync_statedb_query sql db fuel drop_metadata w ≡ some (some empty_result, w')
      → csync_statedb_drop_tables sql fuel db w ≡ some (pos 0, w')
  unfolding csync_statedb_drop_tables
  drop-empty fuel w w' e = rw (execute-empty fuel drop_metadata w w' e, execute_all) refl

  -- Where the statement that drops the table is prepared, and then fails, or finds the database busy
  -- each time, the code of `sqlite3_finalize` says that the schema has not changed, and the fuel is
  -- for 122 steps: the call comes back and returns 0, as if the table had been dropped.
  pub csync_statedb_drop_tables-failed :
      (fuel : ℕ) (stmt : Handle) (w w₁ : W)
      → 121 < fuel
      → sql.prepare db drop_metadata w ≡ (ok, stmt, w₁)
      → ((v : W) → is_schema (sql.finalize stmt v).0 ≡ false)
      → ((w₂ : W) × (sql.step stmt w₁ ≡ (error, w₂))) ⊎ ((v : W) → (sql.step stmt v).0 ≡ busy)
      → (w' : W) × (csync_statedb_drop_tables sql fuel db w ≡ some (pos 0, w'))
  csync_statedb_drop_tables-failed zero stmt w w₁ h prepares unchanged fault = absurd (omega arith)
  csync_statedb_drop_tables-failed (suc fuel) stmt w w₁ h prepares unchanged (inl (w₂, fails)) = (
    (sql.finalize stmt w₂).1,
    drop-empty (suc fuel) w (sql.finalize stmt w₂).1 (
        undone_round (suc fuel) 0 drop_metadata stmt error none w w₁ w₂ prepares
          (step_error fuel _ 0 stmt w₁ w₂ none fails) refl (unchanged w₂)),
  )
  csync_statedb_drop_tables-failed (suc fuel) stmt w w₁ h prepares unchanged (inr always) =
      let w₂ = busy_steps 121 stmt w₁ in
      (
        (sql.finalize stmt w₂).1,
        drop-empty (suc fuel) w (sql.finalize stmt w₂).1 (
            undone_round (suc fuel) 122 drop_metadata stmt busy none w w₁ w₂ prepares
              (step_busy 121 (suc fuel) _ 0 stmt w₁ none always refl (omega arith)) refl
              (unchanged w₂)),
      )
