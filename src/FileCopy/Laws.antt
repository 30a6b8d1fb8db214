-- ===== src/FileCopy/Laws.antt =====
-- src/std/c_file.c: what a copy relies on of the operating system.
use ocsync.Base.{
  ◌⊎◌, ℤ, pos, negsuc, true, ℕ, ◌<◌, ◌≡◌, Bool, false, Option, none, some, [], ◌++◌, length,
}
use ocsync.Types.{Str}
use ocsync.FileCopy.{FileKind, Posix, c_streq}

-- Documented behaviour of the operating system, where different paths are different files: a file has
-- its bytes or does not exist, reading gives them in order and an empty chunk at their end, creating
-- empties, writing appends what it says, and unlinking changes no other file and, where it succeeds, removes this one.
pub record IsPosix {W : Type 0} (posix : Posix W) : Type 0 where
  -- the bytes of a file; the file that was last opened for reading under a number, and what has not
  -- been read of it; the file that was last created under a number
  pub content : Str → W → Option Str
  pub source_of : ℕ → W → Str
  pub unread : ℕ → W → Str
  pub target_of : ℕ → W → Str
  pub lstat_content : (p q : Str) (w : W) → content p (posix.lstat q w).1 ≡ content p w
  pub open_read_content : (p q : Str) (w : W) → content p (posix.open_read q w).1 ≡ content p w
  pub open_read_some :
      (p : Str) (w : W) (h : ℕ) (bytes : Str)
      → (posix.open_read p w).0 ≡ some h
      → content p w ≡ some bytes
      → (unread h (posix.open_read p w).1 ≡ bytes) × (source_of h (posix.open_read p w).1 ≡ p)
  pub create_some :
      (p : Str) (mode : ℕ) (w : W) (h : ℕ)
      → (posix.open_create p mode w).0 ≡ some h
      → (content p (posix.open_create p mode w).1 ≡ some [])
        × (target_of h (posix.open_create p mode w).1 ≡ p)
  pub create_unread :
      (p : Str) (mode g : ℕ) (w : W)
      → c_streq (source_of g w) p ≡ false
      → unread g (posix.open_create p mode w).1 ≡ unread g w
  pub create_source :
      (p : Str) (mode g : ℕ) (w : W) → source_of g (posix.open_create p mode w).1 ≡ source_of g w
  pub read_some :
      (h size : ℕ) (w : W) (buf : Str)
      → (posix.read h size w).0 ≡ some buf
      → unread h w ≡ buf ++ unread h (posix.read h size w).1
  pub read_end :
      (h size : ℕ) (w : W) → 0 < size → (posix.read h size w).0 ≡ some [] → unread h w ≡ []
  pub read_content :
      (p : Str) (h size : ℕ) (w : W) → content p (posix.read h size w).1 ≡ content p w
  pub read_target : (g h size : ℕ) (w : W) → target_of g (posix.read h size w).1 ≡ target_of g w
  pub read_source : (g h size : ℕ) (w : W) → source_of g (posix.read h size w).1 ≡ source_of g w
  pub write_some :
      (h : ℕ) (p buf old : Str) (w : W)
      → target_of h w ≡ p
      → content p w ≡ some old
      → (posix.write h buf w).0 ≡ some (length buf)
      → content p (posix.write h buf w).1 ≡ some (old ++ buf)
  pub write_target :
      (g h : ℕ) (buf : Str) (w : W) → target_of g (posix.write h buf w).1 ≡ target_of g w
  pub write_source :
      (g h : ℕ) (buf : Str) (w : W) → source_of g (posix.write h buf w).1 ≡ source_of g w
  pub write_unread :
      (g h : ℕ) (p buf : Str) (w : W)
      → target_of h w ≡ p
      → c_streq (source_of g w) p ≡ false
      → unread g (posix.write h buf w).1 ≡ unread g w
  pub fsync_content : (p : Str) (h : ℕ) (w : W) → content p (posix.fsync h w) ≡ content p w
  pub close_content : (p : Str) (h : ℕ) (w : W) → content p (posix.close h w) ≡ content p w
  pub unlink_gone :
      (p : Str) (w : W) → (posix.unlink p w).0 ≡ true → content p (posix.unlink p w).1 ≡ none
  pub unlink_content :
      (p q : Str) (w : W) → c_streq p q ≡ false → content p (posix.unlink q w).1 ≡ content p w

abbrev pub is_directory : Option FileKind → Bool
is_directory none = false
is_directory (some kind) = kind.is_dir

module _ {W : Type 0} (posix : Posix W) (law : IsPosix posix) where
  -- the world after an unlinking that failed
  abbrev pub UnlinkFailed : Str → W → Type 0
  UnlinkFailed p w = (v : W) × ((posix.unlink p v).0 ≡ false) × (w ≡ (posix.unlink p v).1)

  -- the target of a copy that returned: whole, or else gone, unless its unlinking failed
  abbrev pub IsTarget : (dst bytes : Str) → ℤ → W → Type 0
  IsTarget dst bytes (pos n) w = law.content dst w ≡ some bytes
  IsTarget dst bytes (negsuc n) w = (law.content dst w ≡ none) ⊎ UnlinkFailed dst w
