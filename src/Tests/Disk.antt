-- ===== src/Tests/Disk.antt =====
-- A file system with one file on each replica, whatever its name.
use ocsync.Base.{
  ℕ, zero, suc, ◌<◌, ◌≡◌, refl, sym, ◌∙◌, ap, ◌++◌, true, none, some, [], ◌∷◌, take, drop, length,
  arith,
}
use ocsync.Misc.{Errno}
use ocsync.Types.{Str, Replica, local_replica, remote_replica}
use ocsync.FileSystem.{FileSystem}
use ocsync.Push.Store.{IsStore}

abbrev put : {A : Type 0} → Replica → A → (Replica → A) → Replica → A
put local_replica a f local_replica = a
put local_replica a f remote_replica = f remote_replica
put remote_replica a f local_replica = f local_replica
put remote_replica a f remote_replica = a

pub put_same : {A : Type 0} (q : Replica) (a : A) (f : Replica → A) → put q a f q ≡ a
put_same local_replica a f = refl
put_same remote_replica a f = refl

pub record World : Type 0 where
  pub file : Replica → Str
  pub left : Replica → Str
  pub name : Replica → Str

abbrev pub disk : FileSystem World
disk = record {
  open_read = λ q uri noatime w. (some 1, record w { left = put q (w.file q) w.left });
  open_create = λ q uri w. (some 2, record w { file = put q [] w.file; name = put q uri w.name });
  read = λ q h size w.
      (some (take size (w.left q)), record w { left = put q (drop size (w.left q)) w.left });
  write = λ q h buf w. (some (length buf), record w { file = put q (w.file q ++ buf) w.file });
  close = λ q h w. (true, w);
  stat_size = λ q uri w. (some (length (w.file q)), w);
  rename = λ q from to w. (true, w);
  unlink = λ q uri w. (true, w);
  chmod = λ q uri mode w. (true, w);
  chown = λ q uri uid gid w. w;
  utimes = λ q uri time w. w;
  mkdirs = λ q uri w. (true, w);
  rmdir = λ q uri w. (true, w);
  compare_file = λ a b w. (true, w);
  errno = λ w. Errno.no_error;
  rand = λ w. (7, w);
  time_string = λ w. [];
}

pub take-drop : (n : ℕ) (xs : Str) → xs ≡ take n xs ++ drop n xs
take-drop zero xs = refl
take-drop (suc n) [] = refl
take-drop (suc n) (x ∷ xs) = ap (λ ys. x ∷ ys) (take-drop n xs)

pub take_none : (n : ℕ) (xs : Str) → 0 < n → take n xs ≡ [] → xs ≡ []
take_none zero xs lt e = absurd (omega (arith, lt))
take_none (suc n) [] lt e = refl
take_none (suc n) (x ∷ xs) lt e = cc

pub some_injective : {x y : Str} → some x ≡ some y → x ≡ y
some_injective e = cc

unfoldable pub disk_store : IsStore disk
disk_store = record {
  content = λ q uri w. w.file q;
  unread = λ q h w. w.left q;
  target_of = λ q h w. w.name q;
  open_read_some = λ q uri noatime w h e. put_same q (w.file q) w.left;
  rand_unread = λ q h w. refl;
  create_some = λ q uri w h e. (put_same q [] w.file, put_same q uri w.name);
  create_unread = λ p q uri h w n. refl;
  read_some = λ q h size w buf e.
      take-drop size (w.left q)
      ∙ ap (λ x. x ++ drop size (w.left q)) (some_injective e)
      ∙ ap (λ x. buf ++ x) (sym (put_same q (drop size (w.left q)) w.left));
  read_end = λ q h size w lt e. take_none size (w.left q) lt (some_injective e);
  read_content = λ p q uri h size w. refl;
  read_target = λ p q g h size w. refl;
  write_some = λ q h uri buf w t e. put_same q (w.file q ++ buf) w.file;
  write_target = λ q h buf w. refl;
  write_unread = λ p q g h buf w n. refl;
  close_content = λ p q uri h w. refl;
  stat_content = λ q uri uri' w. refl;
  rename_true = λ q from to w e. refl;
  chmod_content = λ q uri uri' mode w. refl;
  chown_content = λ q uri uri' uid gid w. refl;
  utimes_content = λ q uri uri' time w. refl;
}

abbrev pub two_files : World
two_files = record {
  file = λ q. elim q [ local_replica ↦ 5 ∷ 6 ∷ 7 ∷ [] | remote_replica ↦ [] ];
  left = λ q. [];
  name = λ q. [];
}

-- the same, where no file can be created
abbrev pub no_directory : FileSystem World
no_directory = record disk { open_create = λ q uri w. (none, w); errno = λ w. Errno.enoent }
