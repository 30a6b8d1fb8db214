-- ===== src/Sqlite/Laws.antt =====
-- What the journal relies on of the database: the effect of its statements on the tables.
use Prim.Native.String.{String}
use ocsync.Base.{
  ℕ, ◌+◌, ◌<◌, ◌==◌, Bool, false, if◌then◌else◌, Option, none, some, List, [], ◌∷◌, ◌++◌, ℤ, pos,
  negsuc, true, ◌≡◌, ◌≢◌, All, take,
}
use ocsync.Base.Words.{IsInt32}
use ocsync.Sqlite.{ok, row, done, Handle, Sqlite}
use ocsync.Sqlite.Statements.{
  drop_metadata, create_metadata_temp, create_metadata, index_phash, index_inode, insert_row,
  rename_metadata, rename_metadata_temp, drop_metadata_wait, begin_transaction, commit_transaction,
  select_by_hash,
}
use ocsync.Types.{Str}

-- a row of `metadata` or of `metadata_temp`
pub record Row : Type 0 where
  pub phash : ℤ
  pub pathlen : ℤ
  pub path : Str
  pub inode : ℤ
  pub uid : ℤ
  pub gid : ℤ
  pub mode : ℤ
  pub modtime : ℤ

-- the tables that there are; `wait` is `metadata_wait`
pub record Tables : Type 0 where
  pub metadata : Option (List Row)
  pub temp : Option (List Row)
  pub wait : Option (List Row)

module _ {W : Type 0} (sql : Sqlite W) where
  -- The statement runs without rows to its end, and the world becomes `w'`.
  pub record Executes (db : Handle) (statement : String) (w w' : W) : Type 0 where
    pub stmt : Handle
    pub prepared : W
    pub stepped : W
    pub prepares : sql.prepare db statement w ≡ (ok, stmt, prepared)
    pub steps : sql.step stmt prepared ≡ (done, stepped)
    pub finalizes : sql.finalize stmt stepped ≡ (ok, w')

  -- the columns `i` and on of the row that the statement is at
  abbrev pub Columns : Handle → W → ℕ → List Str → Type 0
  Columns stmt w i [] = Unit
  Columns stmt w i (t ∷ ts) = (sql.column_text stmt i w ≡ some t) × Columns stmt w (i + 1) ts

  -- The statement answers one row of eight columns, `texts`, and ends.
  pub record Selects (db : Handle) (statement : String) (w : W) (texts : List Str) : Type 0 where
    pub stmt : Handle
    pub prepared : W
    pub answered : W
    pub stepped : W
    pub after : W
    pub prepares : sql.prepare db statement w ≡ (ok, stmt, prepared)
    pub steps : sql.step stmt prepared ≡ (row, answered)
    pub ends : sql.step stmt answered ≡ (done, stepped)
    pub finalizes : sql.finalize stmt stepped ≡ (ok, after)
    pub counts : sql.column_count stmt prepared ≡ 8
    pub columns : Columns stmt answered 0 texts

  -- the values of a row, bound to the parameters of a statement; the text is cut at its size
  abbrev pub bind_values : Handle → Row → (size : ℕ) → W → W
  bind_values stmt r size w =
      let w₁ = sql.bind_int64 stmt 1 r.phash w in
      let w₂ = sql.bind_int64 stmt 2 r.pathlen w₁ in
      let w₃ = sql.bind_text stmt 3 r.path size w₂ in
      let w₄ = sql.bind_int64 stmt 4 r.inode w₃ in
      let w₅ = sql.bind_int stmt 5 r.uid w₄ in
      let w₆ = sql.bind_int stmt 6 r.gid w₅ in
      let w₇ = sql.bind_int stmt 7 r.mode w₆ in sql.bind_int64 stmt 8 r.modtime w₇

  -- The statement runs where `pre` holds of the tables, and makes `f` of them.
  abbrev pub Runs : Handle → (W → Tables) → String → (Tables → Type 0) → (Tables → Tables) → Type 0
  Runs db tables statement pre f =
      (w : W) → pre (tables w) → (w' : W) × Executes db statement w w' × (tables w' ≡ f (tables w))

-- the same integer
abbrev pub same : ℤ → ℤ → Bool
same (pos a) (pos b) = a == b
same (negsuc a) (negsuc b) = a == b
same _ _ = false

abbrev pub or_empty : Option (List Row) → Option (List Row)
or_empty none = some []
or_empty (some rows) = some rows

-- the first row with the key
abbrev pub row_of_key : ℤ → List Row → Option Row
row_of_key k [] = none
row_of_key k (r ∷ rs) = if same k r.phash then some r else row_of_key k rs

-- Documented behaviour of a database that nobody else has open: how the journal's statements change
-- its tables and what a selection answers, where `metadata` holds integers in two's complement and a
-- number in a text is compared by its value; that a column's text is read back as its number.
pub record IsDatabase {W : Type 0} (sql : Sqlite W) (db : Handle) : Type 0 where
  pub tables : W → Tables
  -- the statement is that of the insertion, and has no parameters bound that are not bound anew
  pub ready : Handle → W → Bool
  pub decimal : ℤ → Str
  pub selection : ℕ → String
  pub drop : Runs sql db tables drop_metadata (λ t. Unit) (λ t. record t { metadata = none })
  pub create_temp :
      Runs sql db tables create_metadata_temp (λ t. Unit) (λ t. record t { temp = or_empty t.temp })
  pub create :
      Runs sql db tables create_metadata
        (λ t. Unit)
        (λ t. record t { metadata = or_empty t.metadata })
  pub index_by_phash : Runs sql db tables index_phash (λ t. t.metadata ≢ none) (λ t. t)
  pub index_by_inode : Runs sql db tables index_inode (λ t. t.metadata ≢ none) (λ t. t)
  pub rename :
      Runs sql db tables rename_metadata
        (λ t. (t.metadata ≢ none) × (t.wait ≡ none))
        (λ t. record t { metadata = none; wait = t.metadata })
  pub rename_temp :
      Runs sql db tables rename_metadata_temp
        (λ t. (t.temp ≢ none) × (t.metadata ≡ none))
        (λ t. record t { temp = none; metadata = t.temp })
  pub drop_wait :
      Runs sql db tables drop_metadata_wait (λ t. t.wait ≢ none) (λ t. record t { wait = none })
  pub begins : (w : W) → tables (sql.exec db begin_transaction w) ≡ tables w
  pub commits : (w : W) → tables (sql.exec db commit_transaction w) ≡ tables w
  pub prepares_insertion :
      (w : W)
      → (tables w).temp ≢ none
      → (stmt : ℕ) × (w' : W) × (sql.prepare_v2 db insert_row w ≡ (ok, some stmt, w'))
        × (tables w' ≡ tables w)
        × (ready (some stmt) w' ≡ true)
  pub inserts :
      (stmt : Handle) (r : Row) (size : ℕ) (rows : List Row) (w : W)
      → ready stmt w ≡ true
      → (tables w).temp ≡ some rows
      → All (λ s. r.phash ≢ s.phash) rows
      → let o = sql.step stmt (bind_values sql stmt r size w) in
        let w' = sql.reset stmt (o.1) in
        (o.0 ≡ done)
        × (tables w'
            ≡ record (tables w) { temp = some (rows ++ record r { path = take size r.path } ∷ []) })
        × (ready stmt w' ≡ true)
  pub finalizes : (stmt : Handle) (w : W) → tables ((sql.finalize stmt w).1) ≡ tables w
  pub prints : (n : ℕ) → sql.mprintf select_by_hash n ≡ some (selection n)
  pub selects_row :
      (n : ℕ) (rows : List Row) (r : Row) (w : W)
      → (tables w).metadata ≡ some rows
      → row_of_key (pos n) rows ≡ some r
      → Selects sql db (selection n) w (
          decimal r.phash
          ∷ decimal r.pathlen
          ∷ r.path
          ∷ decimal r.inode
          ∷ decimal r.uid
          ∷ decimal r.gid
          ∷ decimal r.mode
          ∷ decimal r.modtime
          ∷ [])
  pub selects_nothing :
      (n : ℕ) (rows : List Row) (w : W)
      → (tables w).metadata ≡ some rows
      → row_of_key (pos n) rows ≡ none
      → (w' : W) × Executes sql db (selection n) w w'
  pub atoi-decimal : (z : ℤ) → IsInt32 z → sql.atoi (decimal z) ≡ z
  pub strtoul-decimal : (n : ℕ) → n < 0x10000000000000000 → sql.strtoul (decimal (pos n)) ≡ n
