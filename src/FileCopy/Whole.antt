-- ===== src/FileCopy/Whole.antt =====
-- src/std/c_file.c: what a copy leaves of its target.
use ocsync.Base.{
  ℕ, zero, suc, ◌<◌, arith, ◌==◌, ==_iff, ◌≡◌, refl, sym, ap, ◌∙◌, false, Option, none, some, [],
  ◌∷◌, ◌++◌, append_assoc, append-nil, length, length-append, ℤ, pos, negsuc, minus_one,
  is_negative, if◌then◌else◌, ltb, inl, inr, Bool-cases,
}
use ocsync.Types.{Str}
use ocsync.FileCopy.{
  FileKind, Posix, c_streq, after_write, after_read, copy_chunks, close_open, end_copy,
  after_create, after_open, after_target, after_source, c_copy,
}
use ocsync.FileCopy.Laws.{IsPosix, is_directory, IsTarget}

module _ {W : Type 0} (posix : Posix W) (law : IsPosix posix) (src dst bytes : Str)
    (other : c_streq src dst ≡ false) where
  -- a loop that came back, and if it succeeded wrote all
  abbrev Ends : Option (ℤ × W) → Type 0
  Ends none = ⊥
  Ends (some (rc, w)) = is_negative rc ≡ false → law.content dst w ≡ some bytes

  -- `old` is written, and the rest is to be read
  record Half (srcfd dstfd : ℕ) (old : Str) (w : W) : Type 0 where
    written : law.content dst w ≡ some old
    to_target : law.target_of dstfd w ≡ dst
    from_source : law.source_of srcfd w ≡ src
    to_read : old ++ law.unread srcfd w ≡ bytes

  -- a chunk that is read and written whole
  chunk-Half :
      (srcfd dstfd : ℕ) (old buf : Str) (w : W)
      → Half srcfd dstfd old w
      → (posix.read srcfd 4096 w).0 ≡ some buf
      → let w₁ = (posix.read srcfd 4096 w).1 in
        (posix.write dstfd buf w₁).0 ≡ some (length buf)
        → Half srcfd dstfd (old ++ buf) (posix.write dstfd buf w₁).1
  chunk-Half srcfd dstfd old buf w half e f =
      let w₁ = (posix.read srcfd 4096 w).1 in
      let w₂ = (posix.write dstfd buf w₁).1 in
      let target = law.read_target dstfd srcfd 4096 w ∙ half.to_target in
      let source = law.read_source srcfd srcfd 4096 w ∙ half.from_source in
      let kept =
        law.write_unread srcfd dstfd dst buf w₁ target (ap (λ p. c_streq p dst) source ∙ other) in
      record {
        written =
            law.write_some dstfd dst buf old w₁ target
              (law.read_content dst srcfd 4096 w ∙ half.written) f;
        to_target = law.write_target dstfd dstfd buf w₁ ∙ target;
        from_source = law.write_source srcfd dstfd buf w₁ ∙ source;
        to_read =
            append_assoc old buf (law.unread srcfd w₂)
            ∙ ap (λ rest. old ++ (buf ++ rest)) kept
            ∙ ap (λ rest. old ++ rest) (sym (law.read_some srcfd 4096 w buf e))
            ∙ half.to_read;
      }

  shorter :
      (srcfd dstfd fuel : ℕ) (old buf : Str) (w : W)
      → Half srcfd dstfd old w
      → (posix.read srcfd 4096 w).0 ≡ some buf
      → 0 < length buf
      → length (law.unread srcfd w) < suc fuel
      → length (law.unread srcfd (posix.write dstfd buf (posix.read srcfd 4096 w).1).1) < fuel
  shorter srcfd dstfd fuel old buf w half e some_bytes enough =
      let w₁ = (posix.read srcfd 4096 w).1 in
      let target = law.read_target dstfd srcfd 4096 w ∙ half.to_target in
      let source = law.read_source srcfd srcfd 4096 w ∙ half.from_source in
      let kept =
        ap length (
          law.write_unread srcfd dstfd dst buf w₁ target
            (ap (λ p. c_streq p dst) source ∙ other)) in
      let split =
        ap length (law.read_some srcfd 4096 w buf e) ∙ length-append buf (law.unread srcfd w₁) in
      omega (arith, kept, split)

  copy_chunks-Ends :
      (fuel srcfd dstfd : ℕ) (old : Str) (w : W)
      → Half srcfd dstfd old w
      → length (law.unread srcfd w) < fuel
      → Ends (copy_chunks posix fuel srcfd dstfd w)
  unfolding copy_chunks
  copy_chunks-Ends zero srcfd dstfd old w half enough = elim enough [ ]
  copy_chunks-Ends (suc fuel) srcfd dstfd old w half enough =
      read_part (posix.read srcfd 4096 w).0 refl (λ buf e f b.
        copy_chunks-Ends fuel srcfd dstfd (old ++ buf) _ (chunk-Half srcfd dstfd old buf w half e f)
          (shorter srcfd dstfd fuel old buf w half e b enough))
    where
      write_part :
          (buf : Str) (o : Option ℕ)
          → (posix.write dstfd buf (posix.read srcfd 4096 w).1).0 ≡ o
          → ((posix.write dstfd buf (posix.read srcfd 4096 w).1).0 ≡ some (length buf)
              → Ends (
                  copy_chunks posix fuel srcfd dstfd
                    (posix.write dstfd buf (posix.read srcfd 4096 w).1).1))
          → Ends (
              after_write posix
                (copy_chunks posix fuel srcfd dstfd)
                (length buf)
                (o, (posix.write dstfd buf (posix.read srcfd 4096 w).1).1))
      write_part buf none f rest = λ ok. absurd cc
      write_part buf (some n) f rest = elim (Bool-cases (length buf == n)) [
        | inr short ↦ rw (short) (λ ok. absurd cc)
        | inl all ↦ rw (all) (rest (f ∙ ap some (sym ((==_iff (length buf) n).0 all))))
      ]

      read_part :
          (o : Option Str)
          → (posix.read srcfd 4096 w).0 ≡ o
          → ((buf : Str)
              → (posix.read srcfd 4096 w).0 ≡ some buf
              → (posix.write dstfd buf (posix.read srcfd 4096 w).1).0 ≡ some (length buf)
              → 0 < length buf
              → Ends (
                  copy_chunks posix fuel srcfd dstfd
                    (posix.write dstfd buf (posix.read srcfd 4096 w).1).1))
          → Ends (
              after_read posix
                (copy_chunks posix fuel srcfd dstfd)
                dstfd
                (o, (posix.read srcfd 4096 w).1))
      read_part none e rest = λ ok. absurd cc
      read_part (some []) e rest = λ ok.
          law.fsync_content dst dstfd (posix.read srcfd 4096 w).1
          ∙ law.read_content dst srcfd 4096 w
          ∙ half.written
          ∙ ap some (
              sym (append-nil old)
              ∙ ap (λ rest. old ++ rest) (sym (law.read_end srcfd 4096 w (omega arith) e))
              ∙ half.to_read)
      read_part (some (c ∷ s)) e rest =
          write_part (c ∷ s) (posix.write dstfd (c ∷ s) (posix.read srcfd 4096 w).1).0 refl
            (λ f. rest (c ∷ s) e f (omega arith))

  -- a copy that came back: the target is whole, or gone
  abbrev Whole : Option (ℤ × W) → Type 0
  Whole none = ⊥
  Whole (some (rc, w)) = IsTarget posix law dst bytes rc w

  close_open_content :
      (fd : Option ℕ) (w : W) → law.content dst (close_open posix fd w) ≡ law.content dst w
  close_open_content none w = refl
  close_open_content (some fd) w = elim (Bool-cases (ltb 0 fd)) [
    | inl e ↦ rw (e) (law.close_content dst fd w)
    | inr e ↦ rw (e) refl
  ]

  end_copy-Whole :
      (srcfd dstfd : Option ℕ) (o : Option (ℤ × W))
      → Ends o
      → Whole (end_copy posix srcfd dstfd dst o)
  end_copy-Whole srcfd dstfd none ends = ends
  end_copy-Whole srcfd dstfd (some (negsuc n, w)) ends =
      let v = close_open posix dstfd (close_open posix srcfd w) in
      elim (Bool-cases (posix.unlink dst v).0) [
        | inl e ↦ inl (law.unlink_gone dst v e)
        | inr e ↦ inr (v, e, refl)
      ]
  end_copy-Whole srcfd dstfd (some (pos n, w)) ends =
      close_open_content dstfd (close_open posix srcfd w) ∙ close_open_content srcfd w ∙ ends refl

  after_create-Whole :
      (fuel srcfd mode : ℕ) (w : W) (o : Option ℕ)
      → (posix.open_create dst mode w).0 ≡ o
      → law.unread srcfd w ≡ bytes
      → law.source_of srcfd w ≡ src
      → length bytes < fuel
      → Whole (after_create posix fuel srcfd dst (o, (posix.open_create dst mode w).1))
  after_create-Whole fuel srcfd mode w none e u s enough =
      end_copy-Whole (some srcfd) none (some (minus_one, _)) (λ ok. absurd cc)
  after_create-Whole fuel srcfd mode w (some dstfd) e u s enough =
      let made = law.create_some dst mode w dstfd e in
      let kept = law.create_unread dst mode srcfd w (ap (λ p. c_streq p dst) s ∙ other) in
      end_copy-Whole (some srcfd) (some dstfd) (copy_chunks posix fuel srcfd dstfd _) (
        copy_chunks-Ends fuel srcfd dstfd [] _
          (record {
            written = made.0;
            to_target = made.1;
            from_source = law.create_source dst mode srcfd w ∙ s;
            to_read = kept ∙ u;
          })
          (omega (arith, ap length kept, ap length u)))

  after_open-Whole :
      (fuel mode : ℕ) (w : W) (o : Option ℕ)
      → (posix.open_read src w).0 ≡ o
      → law.content src w ≡ some bytes
      → length bytes < fuel
      → Whole (after_open posix fuel dst mode (o, (posix.open_read src w).1))
  after_open-Whole fuel mode w none e held enough =
      end_copy-Whole none none (some (minus_one, _)) (λ ok. absurd cc)
  after_open-Whole fuel mode w (some srcfd) e held enough =
      let opened = law.open_read_some src w srcfd bytes e held in
      after_create-Whole fuel srcfd mode (posix.open_read src w).1
        (posix.open_create dst mode (posix.open_read src w).1).0 refl opened.0 opened.1 enough

  after_target-Whole :
      (fuel mode : ℕ) (w : W) (o : Option FileKind)
      → law.content src w ≡ some bytes
      → length bytes < fuel
      → is_directory o ≡ false
      → Whole (after_target posix fuel src dst mode (o, w))
  after_target-Whole fuel mode w none held enough file =
      after_open-Whole fuel mode w (posix.open_read src w).0 refl held enough
  after_target-Whole fuel mode w (some kind) held enough file =
      rw (file) (after_open-Whole fuel mode w (posix.open_read src w).0 refl held enough)

  returned :
      (o : Option (ℤ × W))
      → Whole o
      → (rc : ℤ) × (w' : W) × (o ≡ some (rc, w')) × IsTarget posix law dst bytes rc w'
  returned none e = elim e [ ]
  returned (some (rc, w')) e = (rc, w', refl, e)

  -- A copy of a file onto another path, neither of them a directory, with fuel for one more chunk than
  -- the file has bytes, comes back. If the return code is not negative, the target then has all bytes
  -- of the source; if it is, the target does not exist, whatever it was before, unless its unlinking
  -- has failed.
  pub c_copy_whole :
      (fuel mode : ℕ) (w : W) (kind : FileKind)
      → law.content src w ≡ some bytes
      → length bytes < fuel
      → (posix.lstat src w).0 ≡ some kind
      → kind.is_dir ≡ false
      → is_directory (posix.lstat dst (posix.lstat src w).1).0 ≡ false
      → (rc : ℤ) × (w' : W) × (c_copy posix fuel src dst mode w ≡ some (rc, w'))
        × IsTarget posix law dst bytes rc w'
  unfolding c_copy
  c_copy_whole fuel mode w kind held enough found file target =
      let w₁ = (posix.lstat src w).1 in
      let w₂ = (posix.lstat dst w₁).1 in
      let (rc, w', e, c) = returned _ (
        after_target-Whole fuel (if mode == 0 then kind.mode else mode) w₂ (posix.lstat dst w₁).0
          (law.lstat_content src dst w₁ ∙ law.lstat_content src src w ∙ held) enough target) in
      (
        rc,
        w',
        ap
              (λ b.
                if b
                then some (minus_one, w)
                else after_source posix fuel src dst mode (posix.lstat src w))
              other
            ∙ ap (λ o. after_source posix fuel src dst mode (o, w₁)) found
            ∙ ap
                (λ b.
                  if b
                  then some (minus_one, w₁)
                  else after_target posix fuel src dst (if mode == 0 then kind.mode else mode)
                      (posix.lstat dst w₁))
                file
            ∙ e,
        c,
      )
