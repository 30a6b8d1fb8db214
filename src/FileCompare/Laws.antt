-- ===== src/FileCompare/Laws.antt =====
-- src/std/c_file.c: what a comparison relies on of the operating system, and equal lists of bytes.
use ocsync.Base.{
  ℕ, suc, arith, ◌==◌, ==_iff, ◌≡◌, refl, sym, ap, ◌∙◌, Bool, true, false, ◌&&◌, Option, some, [],
  ◌∷◌, ◌++◌, length, if◌then◌else◌, ltb, inl, inr, Bool-cases,
}
use ocsync.FileCopy.{c_streq}
use ocsync.FileCompare.{Reader, buffer_size}
use ocsync.Types.{Str}

-- the bytes that a read of `size` gives of `n` that are left
abbrev pub chunk_size : (size n : ℕ) → ℕ
chunk_size size n = if ltb n size then n else size

-- Documented behaviour of the operating system on regular files: `stat` tells the number of bytes,
-- opening gives a number that no open file has, and a read that succeeds gives as many of the next
-- bytes as are asked for and left.
pub record IsReader {W : Type 0} (os : Reader W) : Type 0 where
  -- the bytes of a file; whether a number is an open file, and what has not been read of it
  pub content : Str → W → Option Str
  pub is_open : ℕ → W → Bool
  pub unread : ℕ → W → Str
  pub stat_some :
      (p : Str) (w : W) (n : ℕ) (bytes : Str)
      → (os.stat_size p w).0 ≡ some n
      → content p w ≡ some bytes
      → n ≡ length bytes
  pub stat_content : (p q : Str) (w : W) → content p (os.stat_size q w).1 ≡ content p w
  pub open_some :
      (p : Str) (w : W) (h : ℕ) (bytes : Str)
      → (os.open_read p w).0 ≡ some h
      → content p w ≡ some bytes
      → (unread h (os.open_read p w).1 ≡ bytes)
        × (is_open h (os.open_read p w).1 ≡ true)
        × (is_open h w ≡ false)
  pub open_content : (p q : Str) (w : W) → content p (os.open_read q w).1 ≡ content p w
  pub open_unread :
      (g : ℕ) (p : Str) (w : W) → is_open g w ≡ true → unread g (os.open_read p w).1 ≡ unread g w
  pub open_is_open :
      (g : ℕ) (p : Str) (w : W) → is_open g w ≡ true → is_open g (os.open_read p w).1 ≡ true
  pub read_is_open : (g h size : ℕ) (w : W) → is_open g (os.read h size w).1 ≡ is_open g w
  pub read_some :
      (h size : ℕ) (w : W) (buf : Str)
      → (os.read h size w).0 ≡ some buf
      → unread h w ≡ buf ++ unread h (os.read h size w).1
  pub read_length :
      (h size : ℕ) (w : W) (buf : Str)
      → (os.read h size w).0 ≡ some buf
      → length buf ≡ chunk_size size (length (unread h w))
  pub read_unread :
      (g h size : ℕ) (w : W) → g == h ≡ false → unread g (os.read h size w).1 ≡ unread g w

-- no call fails on a file that exists, or on a number that is open
pub record Succeeds {W : Type 0} (os : Reader W) (law : IsReader os) : Type 0 where
  pub stat_ok :
      (p : Str) (w : W) (bytes : Str)
      → law.content p w ≡ some bytes
      → (n : ℕ) × ((os.stat_size p w).0 ≡ some n)
  pub open_ok :
      (p : Str) (w : W) (bytes : Str)
      → law.content p w ≡ some bytes
      → (h : ℕ) × ((os.open_read p w).0 ≡ some h)
  pub read_ok :
      (h size : ℕ) (w : W)
      → law.is_open h w ≡ true
      → (buf : Str) × ((os.read h size w).0 ≡ some buf)

pub streq_length : (s t : Str) → c_streq s t ≡ true → length s ≡ length t
streq_length [] [] e = refl
streq_length [] (b ∷ t) e = absurd cc
streq_length (a ∷ s) [] e = absurd cc
streq_length (a ∷ s) (b ∷ t) e = elim (Bool-cases (a == b)) [
  | inl same ↦ ap suc (streq_length s t (ap (λ b. if b then c_streq s t else false) (sym same) ∙ e))
  | inr other ↦ absurd (cc (ap (λ b. if b then c_streq s t else false) (sym other) ∙ e))
]

pub streq-lengths_differ : (s t : Str) → length s == length t ≡ false → c_streq s t ≡ false
streq-lengths_differ s t e = elim (Bool-cases (c_streq s t)) [
  | inr other ↦ other
  | inl same ↦ absurd (cc ((==_iff (length s) (length t)).1 (streq_length s t same)))
]

pub ==-sym : (g h : ℕ) → g == h ≡ false → h == g ≡ false
==-sym g h e = elim (Bool-cases (h == g)) [
  | inr other ↦ other
  | inl same ↦ absurd (cc ((==_iff g h).1 (sym ((==_iff h g).0 same))))
]

pub streq-append :
    (s t u v : Str) → length s ≡ length t → c_streq (s ++ u) (t ++ v) ≡ c_streq s t && c_streq u v
streq-append [] [] u v e = refl
streq-append [] (b ∷ t) u v e = absurd (omega (arith, e))
streq-append (a ∷ s) [] u v e = absurd (omega (arith, e))
streq-append (a ∷ s) (b ∷ t) u v e = elim (Bool-cases (a == b)) [
  | inl same ↦ rw (same) (streq-append s t u v (omega (arith, e)))
  | inr other ↦ rw (other) refl
]

pub chunk_size-zero : (n : ℕ) → 0 ≡ chunk_size buffer_size n → n ≡ 0
chunk_size-zero n e = ground arith

pub empty-streq : (s t : Str) → length s ≡ 0 → length t ≡ 0 → c_streq s t ≡ true
empty-streq [] [] e f = refl
empty-streq [] (b ∷ t) e f = absurd (omega (arith, f))
empty-streq (a ∷ s) t e f = absurd (omega (arith, e))
