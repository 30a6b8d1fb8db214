-- ===== src/Sqlite.antt =====
-- The calls of the journal's database that src/csync_statedb.c makes, and those of the C library that
-- read its columns.
--
-- The database is a parameter: what its calls return, and what they make of the world `W`, in which
-- it lies with its files. A handle is a number or null.
pub mod Statements
pub mod Laws
use Prim.Native.String.{String}
use ocsync.Base.{ℕ, Option, ℤ}
use ocsync.Types.{Str}

-- the result codes that the program names; `other` are the rest
pub data SqlRc : Type 0 where
  ok error busy misuse row done schema : SqlRc
  other : ℕ → SqlRc

abbrev pub Handle : Type 0
Handle = Option ℕ

pub record Sqlite (W : Type 0) : Type 0 where
  pub open_db : Str → W → SqlRc × Handle × W
  pub close_db : Handle → W → W
  pub prepare : (db : Handle) → String → W → SqlRc × Handle × W
  pub prepare_v2 : (db : Handle) → String → W → SqlRc × Handle × W
  pub exec : (db : Handle) → String → W → W
  pub step : Handle → W → SqlRc × W
  pub reset : Handle → W → W
  pub finalize : Handle → W → SqlRc × W
  pub column_count : Handle → W → ℕ
  pub column_text : Handle → (column : ℕ) → W → Option Str
  pub bind_int : Handle → (parameter : ℕ) → ℤ → W → W
  pub bind_int64 : Handle → (parameter : ℕ) → ℤ → W → W
  pub bind_text : Handle → (parameter : ℕ) → Str → (size : ℕ) → W → W
  pub last_insert_rowid : (db : Handle) → W → ℤ
  -- `sqlite3_mprintf` with one number
  pub mprintf : (format : String) → ℕ → Option String
  pub usleep : ℕ → W → W
  pub atoi : Str → ℤ
  pub strtoul : Str → ℕ
  pub strtoull : Str → ℕ
