-- ===== src/Statedb/Query.antt =====
-- src/csync_statedb.c: the query, where the database answers at once.
use Prim.Native.String.{String}
use ocsync.Base.{
  ℕ, suc, ◌+◌, ◌<◌, ◌≤◌, lt→ltb, append-nil, append_assoc, arith, ◌≡◌, refl, ◌∙◌, ap, false, Option,
  none, some, List, [], ◌∷◌, ◌++◌, length,
}
use ocsync.Sqlite.{ok, row, done, Handle, Sqlite}
use ocsync.Sqlite.Laws.{Executes, Selects, Columns}
use ocsync.Statedb.Rows.{
  after_column, csync_statedb_query, ended, read_row, after_prepare, after_step, after_row,
  after_finalize, or_empty_list, round, prepare_loop, step_loop, finish_round, query_rounds,
  add_columns,
}
use ocsync.StrList.{c_strlist_add}
use ocsync.Types.{Str, StrList}

-- `c_strlist_new(1)`
abbrev pub empty_result : StrList
empty_result = record { vector = []; count = 0; size = 1 }

module _ {W : Type 0} (sql : Sqlite W) (db : Handle) where
  pub prepare_once :
      (left : ℕ) (statement : String) (w w₁ : W) (stmt : Handle)
      → sql.prepare db statement w ≡ (ok, stmt, w₁)
      → prepare_loop sql db (suc left) 0 statement w ≡ (ok, stmt, w₁)
  unfolding prepare_loop
  prepare_once left statement w w₁ stmt e =
      ap (after_prepare sql db (prepare_loop sql db left 1 statement)) e

  step_done :
      (fuel n busy_count : ℕ) (stmt : Handle) (w w₁ : W) (result : Option StrList)
      → sql.step stmt w ≡ (done, w₁)
      → step_loop sql db (suc fuel) n stmt busy_count result w
        ≡ ended done busy_count (or_empty_list sql db result) w₁
  unfolding step_loop
  step_done fuel n busy_count stmt w w₁ result e =
      ap (after_step sql db (step_loop sql db fuel n stmt) n stmt busy_count result) e

  step_row :
      (fuel n busy_count : ℕ) (stmt : Handle) (w w₁ : W) (result : Option StrList) (r : StrList)
      → sql.step stmt w ≡ (row, w₁)
      → read_row sql db n stmt w₁ ≡ some r
      → step_loop sql db (suc fuel) n stmt busy_count result w
        ≡ step_loop sql db fuel n stmt busy_count (some r) w₁
  unfolding step_loop
  step_row fuel n busy_count stmt w w₁ result r e f =
      ap (after_step sql db (step_loop sql db fuel n stmt) n stmt busy_count result) e
      ∙ ap (after_row sql db (λ r'. step_loop sql db fuel n stmt busy_count r' w₁) w₁) f

  -- a statement that is prepared at once, stepped through, and finalized
  one_round :
      (fuel : ℕ) (statement : String) (w w₁ w₂ w₃ : W) (stmt : Handle) (result : Option StrList)
      → sql.prepare db statement w ≡ (ok, stmt, w₁)
      → step_loop sql db fuel (sql.column_count stmt w₁) stmt 0 none w₁ ≡ ended done 0 result w₂
      → sql.finalize stmt w₂ ≡ (ok, w₃)
      → csync_statedb_query sql db fuel statement w ≡ some (result, w₃)
  unfolding csync_statedb_query query_rounds round finish_round
  one_round fuel statement w w₁ w₂ w₃ stmt result e f g =
      ap (round sql db fuel false (query_rounds sql db fuel 8 statement) none)
        (prepare_once 119 statement w w₁ stmt e)
      ∙ ap (finish_round sql db false (query_rounds sql db fuel 8 statement) stmt) f
      ∙ ap (after_finalize sql db (query_rounds sql db fuel 8 statement 0) false done result) g

  -- a statement without rows answers an empty list
  pub query-Executes :
      (fuel : ℕ) (statement : String) (w w' : W)
      → Executes sql db statement w w'
      → csync_statedb_query sql db (suc fuel) statement w ≡ some (some empty_result, w')
  unfolding csync_statedb_query
  query-Executes fuel statement w w' e =
      one_round (suc fuel) statement w e.prepared e.stepped w' e.stmt (some empty_result) e.prepares
        (step_done fuel _ 0 e.stmt e.prepared e.stepped none e.steps) e.finalizes

  add_column :
      (again : StrList → Option StrList) (t : Str) (v : List Str) (c n : ℕ)
      → c < n
      → after_column sql db again (record { vector = v; count = c; size = n }) (some t)
        ≡ again (record { vector = v ++ t ∷ []; count = c + 1; size = n })
  unfolding c_strlist_add
  add_column again t v c n h = rw (lt→ltb c n h) refl

  add_columns-Columns :
      (ts : List Str) (i : ℕ) (stmt : Handle) (w : W) (v : List Str) (c n : ℕ)
      → Columns sql stmt w i ts
      → c + length ts ≤ n
      → add_columns sql db (length ts) i stmt w (record { vector = v; count = c; size = n })
        ≡ some (record { vector = v ++ ts; count = c + length ts; size = n })
  unfolding add_columns
  add_columns-Columns [] i stmt w v c n u h =
      rw (append-nil v) (ap (λ k. some (record { vector = v; count = k; size = n })) (omega arith))
  add_columns-Columns (t ∷ ts) i stmt w v c n (e, es) h =
      ap (after_column sql db (add_columns sql db (length ts) (i + 1) stmt w) _) e
      ∙ add_column (add_columns sql db (length ts) (i + 1) stmt w) t v c n (omega arith)
      ∙ add_columns-Columns ts (i + 1) stmt w (v ++ t ∷ []) (c + 1) n es (omega arith)
      ∙ ap some (
          rw (append_assoc v (t ∷ []) ts)
            (ap (λ k. record { vector = v ++ t ∷ ts; count = k; size = n }) (omega arith)))

  pub query-Selects :
      (fuel : ℕ) (statement : String) (w : W) (c₀ c₁ c₂ c₃ c₄ c₅ c₆ c₇ : Str)
      → (e : Selects sql db statement w (c₀ ∷ c₁ ∷ c₂ ∷ c₃ ∷ c₄ ∷ c₅ ∷ c₆ ∷ c₇ ∷ []))
      → csync_statedb_query sql db (suc (suc fuel)) statement w
        ≡ some (
          some
              (record { vector = c₀ ∷ c₁ ∷ c₂ ∷ c₃ ∷ c₄ ∷ c₅ ∷ c₆ ∷ c₇ ∷ []; count = 8; size = 8 }),
          e.after,
        )
  unfolding read_row
  query-Selects fuel statement w c₀ c₁ c₂ c₃ c₄ c₅ c₆ c₇ e =
      one_round (suc (suc fuel)) statement w e.prepared e.stepped e.after e.stmt _ e.prepares
        (rw (e.counts) (
          step_row (suc fuel) 8 0 e.stmt e.prepared e.answered none _ e.steps
            (add_columns-Columns _ 0 e.stmt e.answered [] 0 8 e.columns (omega arith))
          ∙ step_done fuel 8 0 e.stmt e.answered e.stepped _ e.ends))
        e.finalizes
