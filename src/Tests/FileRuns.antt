-- ===== src/Tests/FileRuns.antt =====
-- Copies of files on a small file system with one file open for reading and one for writing.
use ocsync.Base.{
  ℕ, arith, ==_iff, ◌≡◌, refl, ap, ◌∙◌, true, false, Option, none, some, [], ◌∷◌, ◌++◌, append-nil,
  ℤ, pos, if◌then◌else◌, length,
}
use ocsync.Exclude.{bytes}
use ocsync.FileCopy.{FileKind, Posix, c_streq, c_copy}
use ocsync.FileCopy.Laws.{IsPosix, IsTarget}
use ocsync.FileCopy.Whole.{c_copy_whole}
use ocsync.Session.Commit.{merge_and_write_statedb}
use ocsync.Session.Commit.Closing.{merge_and_write_statedb-unfinished}
use ocsync.Sqlite.{ok, error, Sqlite}
use ocsync.Statedb.Files.{temporary_of}
use ocsync.Types.{Str, Replica}
use ocsync.Update.{VioStat}
use ocsync.Tests.SessionRuns.{start}

record Volume : Type 0 where
  files : Str → Option Str
  source : Str
  unread : Str
  target : Str

abbrev put : Str → Option Str → (Str → Option Str) → Str → Option Str
put p o files q = if c_streq q p then o else files q

abbrev append : Option Str → Str → Option Str
append none buf = some buf
append (some old) buf = some (old ++ buf)

abbrev kind_of : Option Str → Option FileKind
kind_of none = none
kind_of (some s) = some (record { is_dir = false; mode = 420 })

abbrev opened : Str → Option Str → Volume → Option ℕ × Volume
opened p none v = (none, v)
opened p (some s) v = (some 1, record v { source = p; unread = s })

abbrev volume : Posix Volume
volume = record {
  lstat = λ p v. (kind_of (v.files p), v);
  open_read = λ p v. opened p (v.files p) v;
  open_create = λ p mode v. (some 2, record v { files = put p (some []) v.files; target = p });
  read = λ h size v. (some v.unread, record v { unread = [] });
  write = λ h buf v. (
    some (length buf),
    record v { files = put v.target (append (v.files v.target) buf) v.files },
  );
  fsync = λ h v. v;
  close = λ h v. v;
  unlink = λ p v. (true, record v { files = put p none v.files });
}

streq_self : (s : Str) → c_streq s s ≡ true
streq_self [] = refl
streq_self (a ∷ s) = rw ((==_iff a a).1 refl) (streq_self s)

put_self : (p : Str) (o : Option Str) (files : Str → Option Str) → put p o files p ≡ o
put_self p o files = rw (streq_self p) refl

opened_files : (p q : Str) (o : Option Str) (v : Volume) → (opened p o v).1.files q ≡ v.files q
opened_files p q none v = refl
opened_files p q (some s) v = refl

open_held :
    (p : Str) (o : Option Str) (v : Volume) (h : ℕ) (s : Str)
    → (opened p o v).0 ≡ some h
    → o ≡ some s
    → ((opened p o v).1.unread ≡ s) × ((opened p o v).1.source ≡ p)
open_held p none v h s e f = cc
open_held p (some t) v h s e f = (cc, refl)

written_self :
    (v : Volume) (p buf old : Str)
    → v.target ≡ p
    → v.files p ≡ some old
    → put v.target (append (v.files v.target) buf) v.files p ≡ some (old ++ buf)
written_self v p buf old t e =
    ap (λ q. put q (append (v.files q) buf) v.files p) t
    ∙ put_self p (append (v.files p) buf) v.files
    ∙ ap (λ o. append o buf) e

volume-IsPosix : IsPosix volume
volume-IsPosix = record {
  content = λ p v. v.files p;
  source_of = λ h v. v.source;
  unread = λ h v. v.unread;
  target_of = λ h v. v.target;
  lstat_content = λ p q v. refl;
  open_read_content = λ p q v. opened_files q p (v.files q) v;
  open_read_some = λ p v h s e f. open_held p (v.files p) v h s e f;
  create_some = λ p mode v h e. (put_self p (some []) v.files, refl);
  create_unread = λ p mode g v e. refl;
  create_source = λ p mode g v. refl;
  read_some = λ h size v buf e. cc (append-nil buf);
  read_end = λ h size v enough e. cc;
  read_content = λ p h size v. refl;
  read_target = λ g h size v. refl;
  read_source = λ g h size v. refl;
  write_some = λ h p buf old v t e f. written_self v p buf old t e;
  write_target = λ g h buf v. refl;
  write_source = λ g h buf v. refl;
  write_unread = λ g h p buf v t e. refl;
  fsync_content = λ p h v. refl;
  close_content = λ p h v. refl;
  unlink_gone = λ p v e. put_self p none v.files;
  unlink_content = λ p q v e. rw (e) refl;
}

abbrev journal_file : Str
journal_file = bytes "/j"

-- the old journal, and the new one beside it
abbrev two_files : Volume
two_files = record {
  files =
      put journal_file (some (1 ∷ []))
        (put (temporary_of journal_file) (some (2 ∷ 3 ∷ [])) (λ p. none));
  source = [];
  unread = [];
  target = [];
}

c_copy_whole_example :
    (rc : ℤ) × (v : Volume) × (c_copy volume 3 (temporary_of journal_file) journal_file 0 two_files
      ≡ some (rc, v))
    × IsTarget volume volume-IsPosix journal_file (2 ∷ 3 ∷ []) rc v
unfolding volume-IsPosix
c_copy_whole_example =
    c_copy_whole volume volume-IsPosix (temporary_of journal_file) journal_file (2 ∷ 3 ∷ []) refl 3
      0 two_files (record { is_dir = false; mode = 420 }) refl (omega arith) refl refl refl

-- a database that is only opened and closed
abbrev idle : Sqlite Volume
idle = record {
  open_db = λ p v. (ok, some 0, v);
  close_db = λ h v. v;
  prepare = λ db s v. (error, none, v);
  prepare_v2 = λ db s v. (error, none, v);
  exec = λ db s v. v;
  step = λ h v. (error, v);
  reset = λ h v. v;
  finalize = λ h v. (ok, v);
  column_count = λ h v. 0;
  column_text = λ h i v. none;
  bind_int = λ h i z v. v;
  bind_int64 = λ h i z v. v;
  bind_text = λ h i s n v. v;
  last_insert_rowid = λ db v. pos 0;
  mprintf = λ format n. none;
  usleep = λ n v. v;
  atoi = λ s. pos 0;
  strtoul = λ s. 0;
  strtoull = λ s. 0;
}

abbrev no_stat : Replica → Str → Volume → Option VioStat × Volume
no_stat q p v = (none, v)

merge_and_write_statedb-unfinished_example :
    (v : Volume) × (merge_and_write_statedb volume idle no_stat
        (λ w. (pos 0, w))
        3
        (some 0)
        journal_file
        start
        two_files
      ≡ some (pos 0, start, v))
    × (v.files journal_file ≡ some (1 ∷ []))
unfolding volume-IsPosix
merge_and_write_statedb-unfinished_example =
    merge_and_write_statedb-unfinished volume idle volume-IsPosix journal_file 3 no_stat
      (λ w. (pos 0, w)) 0 start two_files (λ p h v. refl) refl
