-- ===== src/FileCompare/Same.antt =====
-- src/std/c_file.c: what the answer of a comparison says of the two files.
use ocsync.Base.{
  ℕ, zero, suc, ◌<◌, arith, ◌==◌, ==_iff, ◌≡◌, refl, sym, ap, ◌∙◌, Bool, true, false, ◌&&◌, Option,
  some, [], ◌∷◌, length, ℤ, pos, if◌then◌else◌, inl, inr, Bool-cases,
}
use ocsync.FileCopy.{c_streq}
use ocsync.FileCompare.{
  Reader, Comparison, answer, buffer_size, after_second, after_first, compare_chunks, close_opened,
  close_files, after_first_open, c_compare_file,
}
use ocsync.FileCompare.Laws.{IsReader, Succeeds, ==-sym, streq-lengths_differ}
use ocsync.Types.{Str}
use ocsync.FileCompare.Chunks.{
  Apart, Chunks, world_after, chunk_lengths, next-Apart, fewer_left, streq_split, no_bytes_left,
}

-- 1 for equal bytes, 0 for others
abbrev pub verdict : Bool → ℤ
verdict same = if same then pos 1 else pos 0

module _ {W : Type 0} (os : Reader W) (law : IsReader os) where
  abbrev Says : Bool → Comparison W → Type 0
  Says b c = (w : W) × (c ≡ answer (verdict b) w)

  module _ (calls : Succeeds os law) where
    -- chunks of the same length, of which the first is not empty
    chunks-Says :
        (again : W → Comparison W) (b b2 : Str) (w : W) (rest : Bool)
        → length b ≡ length b2
        → (c_streq b b2 ≡ true → Says rest (again w))
        → Says (c_streq b b2 && rest) (after_second os again (some b) (some b2, w))
    chunks-Says again b b2 w rest same_length says =
        rw ((==_iff (length b) (length b2)).1 same_length)
          (elim (Bool-cases (c_streq b b2)) [ inl e ↦ rw (e) (says e) | inr e ↦ rw (e) (w, refl) ])

    after_first-Says :
        (again : W → Comparison W) (fd1 fd2 : ℕ) (w : W) (b b2 : Str)
        → Apart os law fd1 fd2 w
        → Chunks os law fd1 fd2 w b b2
        → (0 < length b
            → let w₂ = world_after os law fd1 fd2 w in
              Says (c_streq (law.unread fd1 w₂) (law.unread fd2 w₂)) (again w₂))
        → Says
            (c_streq (law.unread fd1 w) (law.unread fd2 w))
            (after_first os again fd2 (some b, (os.read fd1 buffer_size w).1))
    after_first-Says again fd1 fd2 w [] b2 apart chunks says =
        rw (no_bytes_left os law fd1 fd2 w apart chunks.first) (_, refl)
    after_first-Says again fd1 fd2 w (c ∷ s) b2 apart chunks says =
        rw (chunks.second, streq_split os law fd1 fd2 w (c ∷ s) b2 apart chunks)
          (chunks-Says again (c ∷ s) b2 (world_after os law fd1 fd2 w) _
            (chunk_lengths os law fd1 fd2 w (c ∷ s) b2 apart chunks) (λ e. says (omega arith)))

    compare_chunks-Says :
        (fuel fd1 fd2 : ℕ) (w : W)
        → Apart os law fd1 fd2 w
        → length (law.unread fd1 w) < fuel
        → Says (c_streq (law.unread fd1 w) (law.unread fd2 w)) (compare_chunks os fuel fd1 fd2 w)
    unfolding compare_chunks
    compare_chunks-Says zero fd1 fd2 w apart enough = elim enough [ ]
    compare_chunks-Says (suc fuel) fd1 fd2 w apart enough =
        let w₁ = (os.read fd1 buffer_size w).1 in
        let (b, first) = calls.read_ok fd1 buffer_size w apart.first_open in
        let (b2, second) =
          calls.read_ok fd2 buffer_size w₁
            (law.read_is_open fd2 fd1 buffer_size w ∙ apart.second_open) in
        let chunks : Chunks os law fd1 fd2 w b b2 = record { first = first; second = second } in
        let says =
          after_first-Says (compare_chunks os fuel fd1 fd2) fd1 fd2 w b b2 apart chunks
            (λ some_bytes.
              compare_chunks-Says fuel fd1 fd2 (world_after os law fd1 fd2 w)
                (next-Apart os law fd1 fd2 w b b2 apart chunks)
                (fewer_left os law fuel fd1 fd2 w b b2 apart chunks some_bytes enough)) in
        rw (first) says

    -- an open number is not a fresh one
    different :
        (g h : ℕ) (w : W) → law.is_open g w ≡ true → law.is_open h w ≡ false → g == h ≡ false
    different g h w e f = elim (Bool-cases (g == h)) [
      | inr other ↦ other
      | inl same ↦ absurd (cc ((==_iff g h).0 same))
    ]

    close_files-Says :
        (fd1 fd2 : Option ℕ) (same : Bool) (c : Comparison W)
        → Says same c
        → Says same (close_files os fd1 fd2 c)
    close_files-Says fd1 fd2 same c (w, e) =
        (close_opened os fd2 (close_opened os fd1 w), ap (close_files os fd1 fd2) e)

    opened-Says :
        (fuel : ℕ) (f1 f2 : Str) (w : W) (s t : Str)
        → law.content f1 w ≡ some s
        → law.content f2 w ≡ some t
        → length s ≡ length t
        → length s < fuel
        → Says (c_streq s t) (after_first_open os fuel f2 (os.open_read f1 w))
    opened-Says fuel f1 f2 w s t e f same enough =
        let w₁ = (os.open_read f1 w).1 in
        let w₂ = (os.open_read f2 w₁).1 in
        let (fd1, o1) = calls.open_ok f1 w s e in
        let f' = law.open_content f2 f1 w ∙ f in
        let (fd2, o2) = calls.open_ok f2 w₁ t f' in
        let (u1, i1, _) = law.open_some f1 w fd1 s o1 e in
        let (u2, i2, fresh) = law.open_some f2 w₁ fd2 t o2 f' in
        let left = law.open_unread fd1 f2 w₁ i1 ∙ u1 in
        let apart : Apart os law fd1 fd2 w₂ = record {
          other = different fd1 fd2 w₁ i1 fresh;
          back = ==-sym fd1 fd2 (different fd1 fd2 w₁ i1 fresh);
          first_open = law.open_is_open fd1 f2 w₁ i1;
          second_open = i2;
          same_length = ap length left ∙ same ∙ sym (ap length u2);
        } in
        let (w₃, said) =
          close_files-Says (some fd1) (some fd2) _ _
            (compare_chunks-Says fuel fd1 fd2 w₂ apart (omega (arith, ap length left))) in
        rw (o1, o2)
          (
            w₃,
            said
                ∙ ap (λ b. answer (verdict b) w₃)
                    (ap (λ u. c_streq u (law.unread fd2 w₂)) left ∙ ap (c_streq s) u2),
          )

    -- Where no call fails, the comparison of two files that exist, with fuel for one more chunk than
    -- the first has bytes, comes back with 1 if they have the same bytes and with 0 if they have not,
    -- and reads nothing past its buffers.
    pub c_compare_file-decides :
        (fuel : ℕ) (f1 f2 : Str) (w : W) (s t : Str)
        → law.content f1 w ≡ some s
        → law.content f2 w ≡ some t
        → length s < fuel
        → (w' : W) × (c_compare_file os fuel f1 f2 w
            ≡ answer (if c_streq s t then pos 1 else pos 0) w')
    unfolding c_compare_file
    c_compare_file-decides fuel f1 f2 w s t e f enough =
        let w₁ = (os.stat_size f1 w).1 in
        let w₂ = (os.stat_size f2 w₁).1 in
        let (n, a) = calls.stat_ok f1 w s e in
        let f' = law.stat_content f2 f1 w ∙ f in
        let (m, b) = calls.stat_ok f2 w₁ t f' in
        let size1 = law.stat_some f1 w n s a e in
        let size2 = law.stat_some f2 w₁ m t b f' in
        let e₂ = law.stat_content f1 f2 w₁ ∙ law.stat_content f1 f1 w ∙ e in
        let f₂ = law.stat_content f2 f2 w₁ ∙ f' in
        rw (a, b)
          (elim (Bool-cases (n == m)) [
            | inl same ↦
                let equal = sym size1 ∙ (==_iff n m).0 same ∙ size2 in
                rw (same) (opened-Says fuel f1 f2 w₂ s t e₂ f₂ equal enough)
            | inr other ↦
                let unequal =
                  ap (λ x. x == length t) (sym size1) ∙ ap (λ y. n == y) (sym size2) ∙ other in
                rw (other, streq-lengths_differ s t unequal) (w₂, refl)
          ])
