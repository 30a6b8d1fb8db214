-- ===== src/FileCompare/Chunks.antt =====
-- src/std/c_file.c: the two chunks that one turn of a comparison reads.
use ocsync.Base.{
  ℕ, suc, ◌<◌, arith, ◌==◌, ◌≡◌, sym, ap, ◌∙◌, true, false, ◌&&◌, some, [], ◌++◌, length,
  length-append,
}
use ocsync.FileCopy.{c_streq}
use ocsync.FileCompare.{Reader, buffer_size}
use ocsync.FileCompare.Laws.{chunk_size, IsReader, chunk_size-zero, empty-streq, streq-append}
use ocsync.Types.{Str}

module _ {W : Type 0} (os : Reader W) (law : IsReader os) where
  -- the rest of two files, of which the same number of bytes is left
  pub record Apart (fd1 fd2 : ℕ) (w : W) : Type 0 where
    pub other : fd1 == fd2 ≡ false
    pub back : fd2 == fd1 ≡ false
    pub first_open : law.is_open fd1 w ≡ true
    pub second_open : law.is_open fd2 w ≡ true
    pub same_length : length (law.unread fd1 w) ≡ length (law.unread fd2 w)

  -- the two chunks that are read
  pub record Chunks (fd1 fd2 : ℕ) (w : W) (b b2 : Str) : Type 0 where
    pub first : (os.read fd1 buffer_size w).0 ≡ some b
    pub second : (os.read fd2 buffer_size (os.read fd1 buffer_size w).1).0 ≡ some b2

  abbrev pub world_after : (fd1 fd2 : ℕ) → W → W
  world_after fd1 fd2 w = (os.read fd2 buffer_size (os.read fd1 buffer_size w).1).1

  first_rest :
      (fd1 fd2 : ℕ) (w : W) (b b2 : Str)
      → Apart fd1 fd2 w
      → Chunks fd1 fd2 w b b2
      → law.unread fd1 w ≡ b ++ law.unread fd1 (world_after fd1 fd2 w)
  first_rest fd1 fd2 w b b2 apart read =
      law.read_some fd1 buffer_size w b read.first
      ∙ ap (λ s. b ++ s) (sym (law.read_unread fd1 fd2 buffer_size _ apart.other))

  pub second_rest :
      (fd1 fd2 : ℕ) (w : W) (b b2 : Str)
      → Apart fd1 fd2 w
      → Chunks fd1 fd2 w b b2
      → law.unread fd2 w ≡ b2 ++ law.unread fd2 (world_after fd1 fd2 w)
  second_rest fd1 fd2 w b b2 apart read =
      sym (law.read_unread fd2 fd1 buffer_size w apart.back)
      ∙ law.read_some fd2 buffer_size _ b2 read.second

  pub chunk_lengths :
      (fd1 fd2 : ℕ) (w : W) (b b2 : Str)
      → Apart fd1 fd2 w
      → Chunks fd1 fd2 w b b2
      → length b ≡ length b2
  chunk_lengths fd1 fd2 w b b2 apart read =
      law.read_length fd1 buffer_size w b read.first
      ∙ ap (chunk_size buffer_size)
          (apart.same_length ∙ ap length (sym (law.read_unread fd2 fd1 buffer_size w apart.back)))
      ∙ sym (law.read_length fd2 buffer_size _ b2 read.second)

  pub next-Apart :
      (fd1 fd2 : ℕ) (w : W) (b b2 : Str)
      → Apart fd1 fd2 w
      → Chunks fd1 fd2 w b b2
      → Apart fd1 fd2 (world_after fd1 fd2 w)
  next-Apart fd1 fd2 w b b2 apart read =
      let w₂ = world_after fd1 fd2 w in
      let one =
        ap length (first_rest fd1 fd2 w b b2 apart read) ∙ length-append b (law.unread fd1 w₂) in
      let two =
        ap length (second_rest fd1 fd2 w b b2 apart read) ∙ length-append b2 (law.unread fd2 w₂) in
      record {
        other = apart.other;
        back = apart.back;
        first_open =
            law.read_is_open fd1 fd2 buffer_size _
            ∙ law.read_is_open fd1 fd1 buffer_size w
            ∙ apart.first_open;
        second_open =
            law.read_is_open fd2 fd2 buffer_size _
            ∙ law.read_is_open fd2 fd1 buffer_size w
            ∙ apart.second_open;
        same_length =
            omega (arith, one, two, chunk_lengths fd1 fd2 w b b2 apart read, apart.same_length);
      }

  pub fewer_left :
      (fuel fd1 fd2 : ℕ) (w : W) (b b2 : Str)
      → Apart fd1 fd2 w
      → Chunks fd1 fd2 w b b2
      → 0 < length b
      → length (law.unread fd1 w) < suc fuel
      → length (law.unread fd1 (world_after fd1 fd2 w)) < fuel
  fewer_left fuel fd1 fd2 w b b2 apart read some_bytes enough =
      let one =
        ap length (first_rest fd1 fd2 w b b2 apart read)
        ∙ length-append b (law.unread fd1 (world_after fd1 fd2 w)) in
      omega (arith, one)

  pub streq_split :
      (fd1 fd2 : ℕ) (w : W) (b b2 : Str)
      → Apart fd1 fd2 w
      → Chunks fd1 fd2 w b b2
      → let w₂ = world_after fd1 fd2 w in
        c_streq (law.unread fd1 w) (law.unread fd2 w)
        ≡ c_streq b b2 && c_streq (law.unread fd1 w₂) (law.unread fd2 w₂)
  streq_split fd1 fd2 w b b2 apart read =
      ap (λ s. c_streq s (law.unread fd2 w)) (first_rest fd1 fd2 w b b2 apart read)
      ∙ ap (λ t. c_streq (b ++ law.unread fd1 (world_after fd1 fd2 w)) t)
          (second_rest fd1 fd2 w b b2 apart read)
      ∙ streq-append b b2 _ _ (chunk_lengths fd1 fd2 w b b2 apart read)

  pub no_bytes_left :
      (fd1 fd2 : ℕ) (w : W)
      → Apart fd1 fd2 w
      → (os.read fd1 buffer_size w).0 ≡ some []
      → c_streq (law.unread fd1 w) (law.unread fd2 w) ≡ true
  no_bytes_left fd1 fd2 w apart e =
      let none_left =
        chunk_size-zero (length (law.unread fd1 w)) (law.read_length fd1 buffer_size w [] e) in
      empty-streq (law.unread fd1 w) (law.unread fd2 w) none_left
        (sym apart.same_length ∙ none_left)
