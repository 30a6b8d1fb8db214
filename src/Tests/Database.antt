-- ===== src/Tests/Database.antt =====
-- A small database that keeps the laws of `IsDatabase`: tables, one statement at a time, texts of
-- numbers that hold the number itself, and selections spelled in one letter.
use Prim.Native.Char.{code}
use Prim.Native.String.{String}
use text.Mathlib.Text.{◌==◌ as str_eq}
use ocsync.Base.{
  ℕ, zero, suc, ◌==◌, ◌≡◌, ◌∙◌, refl, ap, Bool, true, false, Option, none, some, List, [], ◌∷◌,
  ◌++◌, ℤ, pos, negsuc, if◌then◌else◌, take,
}
use ocsync.Base.Words.{IsInt32}
use ocsync.Types.{Str}
use ocsync.Sqlite.{SqlRc, ok, row, done, Handle, Sqlite}
use ocsync.Sqlite.Laws.{
  bind_values, Executes, Selects, Row, Tables, IsDatabase, or_empty, row_of_key,
}
use ocsync.Sqlite.Statements.{
  drop_metadata, create_metadata_temp, create_metadata, index_phash, index_inode, rename_metadata,
  rename_metadata_temp, drop_metadata_wait,
}

-- the tables, whether the statement is the insertion, the row bound to it, the statement's effect,
-- the row that it still answers, and the row that it is at
pub record Disk : Type 0 where
  pub tables : Tables
  pub inserting : Bool
  pub bound : Row
  pub effect : Tables → Tables
  pub rest : Option Row
  pub at : Option Row

abbrev decimal : ℤ → Str
decimal (pos n) = 0 ∷ n ∷ []
decimal (negsuc n) = 1 ∷ n ∷ []

abbrev atoi : Str → ℤ
atoi (zero ∷ n ∷ []) = pos n
atoi (suc sign ∷ n ∷ []) = negsuc n
atoi _ = pos 0

abbrev strtoul : Str → ℕ
strtoul (sign ∷ n ∷ []) = n
strtoul _ = 0

pub selection : ℕ → String
selection zero = String.[]
selection (suc n) = String.◌∷◌ "s" (selection n)

-- the number that a selection is for; `none` for any other statement
pub selected : String → Option ℕ
selected String.[] = some 0
selected (String.◌∷◌ c s) = elim (selected s) [
  | none ↦ none
  | some n ↦ if code c == b's' then some (suc n) else none
]

selected-selection : (n : ℕ) → selected (selection n) ≡ some n
unfolding selected selection
selected-selection zero = refl
selected-selection (suc n) = rw (selected-selection n) refl

abbrev rename_metadata_effect : Tables → Tables
rename_metadata_effect t = record t { metadata = none; wait = t.metadata }

effect_of : String → Tables → Tables
effect_of s t =
    if str_eq s drop_metadata
    then record t { metadata = none }
    else if str_eq s create_metadata_temp
    then record t { temp = or_empty t.temp }
    else if str_eq s create_metadata
    then record t { metadata = or_empty t.metadata }
    else if str_eq s rename_metadata
    then rename_metadata_effect t
    else if str_eq s rename_metadata_temp
    then record t { temp = none; metadata = t.temp }
    else if str_eq s drop_metadata_wait
    then record t { wait = none }
    else t

abbrev find_row : ℤ → Option (List Row) → Option Row
find_row k none = none
find_row k (some rows) = row_of_key k rows

abbrev append_row : Option (List Row) → Row → Option (List Row)
append_row none r = none
append_row (some rows) r = some (rows ++ r ∷ [])

prepared : Option ℕ → String → Disk → Disk
prepared none s w = record w { inserting = false; effect = effect_of s; rest = none }
prepared (some n) s w = record w {
  inserting = false;
  effect = λ t. t;
  rest = find_row (pos n) w.tables.metadata;
}

abbrev bind_number : ℕ → ℤ → Row → Row
bind_number i z r =
    if i == 1
    then record r { phash = z }
    else if i == 2
    then record r { pathlen = z }
    else if i == 4
    then record r { inode = z }
    else if i == 5
    then record r { uid = z }
    else if i == 6
    then record r { gid = z }
    else if i == 7
    then record r { mode = z }
    else record r { modtime = z }

abbrev column : ℕ → Row → Str
column i r =
    if i == 0
    then decimal r.phash
    else if i == 1
    then decimal r.pathlen
    else if i == 2
    then r.path
    else if i == 3
    then decimal r.inode
    else if i == 4
    then decimal r.uid
    else if i == 5
    then decimal r.gid
    else if i == 6
    then decimal r.mode
    else decimal r.modtime

abbrev insert_bound : Disk → Disk
insert_bound w = record w { tables = record (w.tables) { temp = append_row w.tables.temp w.bound } }

abbrev step_rest : Disk → Option Row → SqlRc × Disk
step_rest w none = (done, record w { tables = w.effect w.tables; effect = λ t. t })
step_rest w (some r) = (row, record w { rest = none; at = some r })

abbrev pub step_disk : Disk → SqlRc × Disk
step_disk w = if w.inserting then (done, insert_bound w) else step_rest w w.rest

unfoldable pub disk : Sqlite Disk
unfolding selection selected effect_of prepared
disk = record {
  open_db = λ uri w. (ok, some 0, w);
  close_db = λ db w. w;
  prepare = λ db s w. (ok, some 0, prepared (selected s) s w);
  prepare_v2 = λ db s w. (ok, some 0, record w { inserting = true });
  exec = λ db s w. w;
  step = λ stmt w. step_disk w;
  reset = λ stmt w. w;
  finalize = λ stmt w. (ok, w);
  column_count = λ stmt w. 8;
  column_text = λ stmt i w. elim (w.at) [ none ↦ none | some r ↦ some (column i r) ];
  bind_int = λ stmt i z w. record w { bound = bind_number i z w.bound };
  bind_int64 = λ stmt i z w. record w { bound = bind_number i z w.bound };
  bind_text = λ stmt i s n w. record w { bound = record (w.bound) { path = take n s } };
  last_insert_rowid = λ db w. pos 0;
  mprintf = λ format n. some (selection n);
  usleep = λ n w. w;
  atoi = atoi;
  strtoul = strtoul;
  strtoull = strtoul;
}

pub atoi-decimal : (z : ℤ) → IsInt32 z → atoi (decimal z) ≡ z
atoi-decimal (pos n) h = refl
atoi-decimal (negsuc n) h = refl

-- what a statement other than a selection makes of the tables
pub affected : String → Disk → Disk
affected s w = (step_disk (prepared none s w)).1

pub effect_runs :
    (s : String) (w : Disk) → selected s ≡ none → Executes disk (some 0) s w (affected s w)
unfolding disk affected
effect_runs s w e = record {
  stmt = some 0;
  prepared = prepared none s w;
  stepped = affected s w;
  prepares = ap (λ o. let r : SqlRc × Handle × Disk = (ok, some 0, prepared o s w) in r) e;
  steps = refl;
  finalizes = refl;
}

inserting_step : (w : Disk) → w.inserting ≡ true → step_disk w ≡ (done, insert_bound w)
inserting_step w e = ap (λ b. if b then (done, insert_bound w) else step_rest w w.rest) e

pub inserts :
    (stmt : Handle) (r : Row) (size : ℕ) (rows : List Row) (w : Disk)
    → w.inserting ≡ true
    → w.tables.temp ≡ some rows
    → let o = step_disk (bind_values disk stmt r size w) in
      (o.0 ≡ done)
      × (o.1.tables
          ≡ record (w.tables) { temp = some (rows ++ record r { path = take size r.path } ∷ []) })
      × (o.1.inserting ≡ true)
unfolding disk
inserts stmt r size rows w e t =
    let s = inserting_step (bind_values disk stmt r size w) e in
    (
      ap (λ o. o.0) s,
      ap (λ o. o.1.tables) s
          ∙ ap {A = Option (List Row)} {B = Tables}
              (λ temp. record (w.tables) {
                temp = append_row temp (record r { path = take size r.path });
              })
              t,
      ap (λ o. o.1.inserting) s ∙ e,
    )

-- the row that a selection will answer
selected_row :
    (n : ℕ) (rows : List Row) (o : Option Row) (w : Disk)
    → w.tables.metadata ≡ some rows
    → row_of_key (pos n) rows ≡ o
    → disk.prepare (some 0) (selection n) w
      ≡ (ok, some 0, record w { inserting = false; effect = λ t. t; rest = o })
unfolding disk
selected_row n rows o w held e =
    ap (λ k. let r : SqlRc × Handle × Disk = (ok, some 0, prepared k (selection n) w) in r)
      (selected-selection n)
    ∙ ap
        (λ m.
          let r : SqlRc × Handle × Disk = (
            ok,
            some 0,
            record w { inserting = false; effect = λ t. t; rest = find_row (pos n) m },
          ) in
          r)
        held
    ∙ ap
        (λ m.
          let r : SqlRc × Handle × Disk =
            (ok, some 0, record w { inserting = false; effect = λ t. t; rest = m }) in
          r)
        e

pub answers_row :
    (n : ℕ) (rows : List Row) (r : Row) (w : Disk)
    → w.tables.metadata ≡ some rows
    → row_of_key (pos n) rows ≡ some r
    → Selects disk (some 0) (selection n) w (
        decimal r.phash
        ∷ decimal r.pathlen
        ∷ r.path
        ∷ decimal r.inode
        ∷ decimal r.uid
        ∷ decimal r.gid
        ∷ decimal r.mode
        ∷ decimal r.modtime
        ∷ [])
unfolding disk
answers_row n rows r w held e = record {
  stmt = some 0;
  prepared = record w { inserting = false; effect = λ t. t; rest = some r };
  answered = record w { inserting = false; effect = λ t. t; rest = none; at = some r };
  stepped = record w { inserting = false; effect = λ t. t; rest = none; at = some r };
  after = record w { inserting = false; effect = λ t. t; rest = none; at = some r };
  prepares = selected_row n rows (some r) w held e;
  steps = refl;
  ends = refl;
  finalizes = refl;
  counts = refl;
  columns = (refl, (refl, (refl, (refl, (refl, (refl, (refl, (refl, tt))))))));
}

pub answers_nothing :
    (n : ℕ) (rows : List Row) (w : Disk)
    → w.tables.metadata ≡ some rows
    → row_of_key (pos n) rows ≡ none
    → (w' : Disk) × Executes disk (some 0) (selection n) w w'
unfolding disk
answers_nothing n rows w held e = (
  record w { inserting = false; effect = λ t. t; rest = none },
  record {
    stmt = some 0;
    prepared = record w { inserting = false; effect = λ t. t; rest = none };
    stepped = record w { inserting = false; effect = λ t. t; rest = none };
    prepares = selected_row n rows none w held e;
    steps = refl;
    finalizes = refl;
  },
)

unfoldable pub disk-IsDatabase : IsDatabase disk (some 0)
unfolding disk affected
disk-IsDatabase = record {
  tables = λ w. w.tables;
  ready = λ stmt w. w.inserting;
  decimal = decimal;
  selection = selection;
  drop = λ w pre. (_, effect_runs drop_metadata w refl, refl);
  create_temp = λ w pre. (_, effect_runs create_metadata_temp w refl, refl);
  create = λ w pre. (_, effect_runs create_metadata w refl, refl);
  index_by_phash = λ w pre. (_, effect_runs index_phash w refl, refl);
  index_by_inode = λ w pre. (_, effect_runs index_inode w refl, refl);
  rename = λ w pre. (_, effect_runs rename_metadata w refl, refl);
  rename_temp = λ w pre. (_, effect_runs rename_metadata_temp w refl, refl);
  drop_wait = λ w pre. (_, effect_runs drop_metadata_wait w refl, refl);
  begins = λ w. refl;
  commits = λ w. refl;
  prepares_insertion = λ w some_temp. (0, record w { inserting = true }, refl, refl, refl);
  inserts = λ stmt r size rows w ready temp other. inserts stmt r size rows w ready temp;
  finalizes = λ stmt w. refl;
  prints = λ n. refl;
  selects_row = λ n rows r w held found. answers_row n rows r w held found;
  selects_nothing = λ n rows w held missing. answers_nothing n rows w held missing;
  atoi-decimal = atoi-decimal;
  strtoul-decimal = λ n h. refl;
}
