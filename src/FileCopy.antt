-- ===== src/FileCopy.antt =====
-- src/std/c_file.c, `c_copy`: the copy of a local file, by 4096 bytes at a time.
--
-- The calls of the operating system are a parameter, on a world `W`. The loop runs on fuel; `none` is
-- a copy that did not come back.
pub mod Laws
pub mod Whole
use ocsync.Base.{
  ℕ, zero, suc, Bool, true, false, ◌==◌, Option, none, some, List, [], ◌∷◌, ℤ, pos, minus_one,
  is_negative, if◌then◌else◌, ltb, length,
}
use ocsync.Types.{Str}

-- what `lstat` tells of a file
pub record FileKind : Type 0 where
  pub is_dir : Bool
  pub mode : ℕ

-- `none` is -1, and so is `false`.
pub record Posix (W : Type 0) : Type 0 where
  pub lstat : Str → W → Option FileKind × W
  pub open_read : Str → W → Option ℕ × W
  pub open_create : Str → (mode : ℕ) → W → Option ℕ × W
  pub read : ℕ → (size : ℕ) → W → Option Str × W
  pub write : ℕ → Str → W → Option ℕ × W
  pub fsync : ℕ → W → W
  pub close : ℕ → W → W
  pub unlink : Str → W → Bool × W

-- `c_streq`
abbrev pub c_streq : Str → Str → Bool
c_streq [] [] = true
c_streq (a ∷ s) (b ∷ t) = if a == b then c_streq s t else false
c_streq [] (b ∷ t) = false
c_streq (a ∷ s) [] = false

module _ {W : Type 0} (posix : Posix W) where
  abbrev pub after_write : (again : W → Option (ℤ × W)) → (read : ℕ) → Option ℕ × W → Option (ℤ × W)
  after_write again read (none, w) = some (minus_one, w)
  after_write again read (some written, w) =
      if read == written then again w else some (minus_one, w)

  abbrev pub after_read :
      (again : W → Option (ℤ × W)) → (dstfd : ℕ) → Option Str × W → Option (ℤ × W)
  after_read again dstfd (none, w) = some (minus_one, w)
  after_read again dstfd (some [], w) = some (pos 0, posix.fsync dstfd w)
  after_read again dstfd (some (c ∷ s), w) =
      after_write again (length (c ∷ s)) (posix.write dstfd (c ∷ s) w)

  unfoldable pub copy_chunks : (fuel : ℕ) → (srcfd dstfd : ℕ) → W → Option (ℤ × W)
  copy_chunks zero srcfd dstfd w = none
  copy_chunks (suc fuel) srcfd dstfd w =
      after_read (copy_chunks fuel srcfd dstfd) dstfd (posix.read srcfd 4096 w)

  -- the label `out`; a null file number is -1
  abbrev pub close_open : Option ℕ → W → W
  close_open none w = w
  close_open (some fd) w = if ltb 0 fd then posix.close fd w else w

  abbrev pub end_copy : (srcfd dstfd : Option ℕ) → (dst : Str) → Option (ℤ × W) → Option (ℤ × W)
  end_copy srcfd dstfd dst none = none
  end_copy srcfd dstfd dst (some (rc, w)) =
      let w' = close_open dstfd (close_open srcfd w) in
      some (rc, if is_negative rc then (posix.unlink dst w').1 else w')

  abbrev pub after_create : (fuel srcfd : ℕ) → (dst : Str) → Option ℕ × W → Option (ℤ × W)
  after_create fuel srcfd dst (none, w) = end_copy (some srcfd) none dst (some (minus_one, w))
  after_create fuel srcfd dst (some dstfd, w) =
      end_copy (some srcfd) (some dstfd) dst (copy_chunks fuel srcfd dstfd w)

  abbrev pub after_open : (fuel : ℕ) → (dst : Str) → (mode : ℕ) → Option ℕ × W → Option (ℤ × W)
  after_open fuel dst mode (none, w) = end_copy none none dst (some (minus_one, w))
  after_open fuel dst mode (some srcfd, w) =
      after_create fuel srcfd dst (posix.open_create dst mode w)

  -- from the `lstat` of the target on
  abbrev pub after_target :
      (fuel : ℕ) → (src dst : Str) → (mode : ℕ) → Option FileKind × W → Option (ℤ × W)
  after_target fuel src dst mode (none, w) = after_open fuel dst mode (posix.open_read src w)
  after_target fuel src dst mode (some kind, w) =
      if kind.is_dir then some (minus_one, w) else after_open fuel dst mode (posix.open_read src w)

  -- from the `lstat` of the source on
  abbrev pub after_source :
      (fuel : ℕ) → (src dst : Str) → (mode : ℕ) → Option FileKind × W → Option (ℤ × W)
  after_source fuel src dst mode (none, w) = some (minus_one, w)
  after_source fuel src dst mode (some kind, w) =
      if kind.is_dir
      then some (minus_one, w)
      else after_target fuel src dst (if mode == 0 then kind.mode else mode) (posix.lstat dst w)

  unfoldable pub c_copy : (fuel : ℕ) → (src dst : Str) → (mode : ℕ) → W → Option (ℤ × W)
  unfolding copy_chunks
  c_copy fuel src dst mode w =
      if c_streq src dst
      then some (minus_one, w)
      else after_source fuel src dst mode (posix.lstat src w)
