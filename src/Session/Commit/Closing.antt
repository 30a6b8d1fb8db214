-- ===== src/Session/Commit/Closing.antt =====
-- src/csync.c with src/csync_statedb.c: what becomes of the journal's file at the end.
use ocsync.Base.{
  ℕ, ==_iff, [], ◌∷◌, ◌≡◌, refl, ap, ◌∙◌, Bool, true, false, Option, some, ◌++◌, ℤ, pos,
  if◌then◌else◌, leb,
}
use ocsync.Exclude.{bytes}
use ocsync.FileCopy.{Posix, c_streq}
use ocsync.FileCopy.Laws.{IsPosix, IsTarget}
use ocsync.Session.{csync_status_done}
use ocsync.Session.Commit.{merge_and_write_statedb, close_journal, merge_and_write}
use ocsync.Sqlite.{Handle, Sqlite}
use ocsync.Statedb.Files.{temporary_of, csync_statedb_close}
use ocsync.Types.{Str, Replica, Ctx}
use ocsync.Update.{VioStat}

longer_streq : (s t : Str) (c : ℕ) → c_streq s (s ++ c ∷ t) ≡ false
longer_streq [] t c = refl
longer_streq (a ∷ s) t c = rw ((==_iff a a).1 refl) (longer_streq s t c)

-- a file's name is another than that of its temporary copy
temporary_streq : (file : Str) → c_streq file (temporary_of file) ≡ false
temporary_streq file = longer_streq file _ _

module _ {W : Type 0} (posix : Posix W) (sql : Sqlite W) (law : IsPosix posix) (file : Str)
    (fuel : ℕ) where
  -- what closing the journal leaves of its file
  abbrev pub IsClosed : (jwritten : Bool) → (bytes : Str) → W → ℤ → W → Type 0
  IsClosed true copy w rc w' = IsTarget posix law file copy rc w'
  IsClosed false copy w rc w' = law.content file w' ≡ law.content file w

  -- Where the synchronisation has not gone through all its phases, and closing the database changes no
  -- file, the journal is closed without an error, its file is as it was, and nothing in the context
  -- changes.
  pub merge_and_write_statedb-unfinished :
      (stat : Replica → Str → W → Option VioStat × W) (vio_commit : W → ℤ × W) (db : ℕ) (ctx : Ctx)
      (w : W)
      → ((p : Str) (h : Handle) (v : W) → law.content p (sql.close_db h v) ≡ law.content p v)
      → leb csync_status_done ctx.status ≡ false
      → (w' : W) × (merge_and_write_statedb posix sql stat vio_commit fuel (some db) file ctx w
          ≡ some (pos 0, ctx, w'))
        × (law.content file w' ≡ law.content file w)
  unfolding merge_and_write_statedb csync_statedb_close
  merge_and_write_statedb-unfinished stat vio_commit db ctx w closes early = (
    (posix.unlink (temporary_of file) (sql.close_db (some db) w)).1,
    ap
        (λ b. close_journal posix sql stat vio_commit fuel (some db) file (
          if b
          then merge_and_write posix sql stat vio_commit fuel (some db) ctx w
          else some (pos 0, false, ctx, w)))
        early,
    law.unlink_content file (temporary_of file) (sql.close_db (some db) w) (temporary_streq file)
        ∙ closes file (some db) w,
  )
