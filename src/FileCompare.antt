-- ===== src/FileCompare.antt =====
-- src/std/c_file.c, `c_compare_file`: the comparison of two local files, by BUFFER_SIZE bytes at a time.
--
-- The calls of the operating system are a parameter, on a world `W`. A failed read counts as a read of
-- SIZE_MAX bytes; when both reads fail, `memcmp` reads past the buffers, which is `overread`.
pub mod Chunks
pub mod Laws
pub mod Same
use ocsync.Base.{
  ℕ, zero, suc, ◌==◌, Option, none, some, List, [], ◌∷◌, ℤ, pos, minus_one, if◌then◌else◌, length,
}
use ocsync.FileCopy.{c_streq}
use ocsync.Types.{Str}

-- `none` is -1; `stat_size` is the field st_size of a successful `stat`.
pub record Reader (W : Type 0) : Type 0 where
  pub stat_size : Str → W → Option ℕ × W
  pub open_read : Str → W → Option ℕ × W
  pub read : ℕ → (size : ℕ) → W → Option Str × W
  pub close : ℕ → W → W

-- `unfinished` is a comparison without fuel.
pub data Comparison (W : Type 0) : Type 0 where
  answer : ℤ → W → Comparison W
  overread : Comparison W
  unfinished : Comparison W

-- BUFFER_SIZE
abbrev pub buffer_size : ℕ
buffer_size = 16384

module _ {W : Type 0} (os : Reader W) where
  abbrev pub after_second :
      (again : W → Comparison W) → (first : Option Str) → Option Str × W → Comparison W
  after_second again none (none, w) = overread
  after_second again none (some t, w) = answer (pos 0) w
  after_second again (some s) (none, w) = answer (pos 0) w
  after_second again (some s) (some t, w) =
      if length s == length t
      then (if c_streq s t then again w else answer (pos 0) w)
      else answer (pos 0) w

  abbrev pub after_first : (again : W → Comparison W) → (fd2 : ℕ) → Option Str × W → Comparison W
  after_first again fd2 (some [], w) = answer (pos 1) w
  after_first again fd2 (some (c ∷ s), w) =
      after_second again (some (c ∷ s)) (os.read fd2 buffer_size w)
  after_first again fd2 (none, w) = after_second again none (os.read fd2 buffer_size w)

  unfoldable pub compare_chunks : (fuel : ℕ) → (fd1 fd2 : ℕ) → W → Comparison W
  compare_chunks zero fd1 fd2 w = unfinished
  compare_chunks (suc fuel) fd1 fd2 w =
      after_first (compare_chunks fuel fd1 fd2) fd2 (os.read fd1 buffer_size w)

  abbrev pub close_opened : Option ℕ → W → W
  close_opened none w = w
  close_opened (some fd) w = os.close fd w

  -- the label `out`
  abbrev pub close_files : (fd1 fd2 : Option ℕ) → Comparison W → Comparison W
  close_files fd1 fd2 (answer rc w) = answer rc (close_opened fd2 (close_opened fd1 w))
  close_files fd1 fd2 overread = overread
  close_files fd1 fd2 unfinished = unfinished

  abbrev pub after_second_open : (fuel fd1 : ℕ) → Option ℕ × W → Comparison W
  after_second_open fuel fd1 (none, w) = close_files (some fd1) none (answer minus_one w)
  after_second_open fuel fd1 (some fd2, w) =
      close_files (some fd1) (some fd2) (compare_chunks fuel fd1 fd2 w)

  abbrev pub after_first_open : (fuel : ℕ) → (f2 : Str) → Option ℕ × W → Comparison W
  after_first_open fuel f2 (none, w) = close_files none none (answer minus_one w)
  after_first_open fuel f2 (some fd1, w) = after_second_open fuel fd1 (os.open_read f2 w)

  abbrev pub after_second_stat :
      (fuel : ℕ) → (f1 f2 : Str) → (size1 : ℕ) → Option ℕ × W → Comparison W
  after_second_stat fuel f1 f2 size1 (none, w) = close_files none none (answer minus_one w)
  after_second_stat fuel f1 f2 size1 (some size2, w) =
      if size1 == size2
      then after_first_open fuel f2 (os.open_read f1 w)
      else close_files none none (answer (pos 0) w)

  abbrev pub after_first_stat : (fuel : ℕ) → (f1 f2 : Str) → Option ℕ × W → Comparison W
  after_first_stat fuel f1 f2 (none, w) = close_files none none (answer minus_one w)
  after_first_stat fuel f1 f2 (some size1, w) =
      after_second_stat fuel f1 f2 size1 (os.stat_size f2 w)

  unfoldable pub c_compare_file : (fuel : ℕ) → (f1 f2 : Str) → W → Comparison W
  unfolding compare_chunks
  c_compare_file fuel f1 f2 w = after_first_stat fuel f1 f2 (os.stat_size f1 w)
