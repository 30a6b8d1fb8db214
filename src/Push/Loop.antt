-- ===== src/Push/Loop.antt =====
-- src/csync_propagate.c, `_csync_push_file`: the transfer of the bytes.
use ocsync.Base.{
  ℕ, zero, suc, ◌+◌, ◌<◌, Bool, true, false, Option, none, some, [], ◌∷◌, ◌++◌, pos, ◌≡◌, ◌≢◌, refl,
  sym, ◌∙◌, ap, arith, length, length-append, append_assoc, append-nil,
}
use ocsync.Types.{Str, Replica}
use ocsync.FileSystem.{FileSystem, Run, Action, ◌>>◌, call, set_replica}
use ocsync.Push.Store.{
  IsStore, Runs, Runs-bind, Runs-if, Runs-call, Runs-set_replica, Runs-pure, Runs-fail,
}
use ocsync.Transfer.{copy_loop, push_to_tmp_first, wrote_all, max_xfer_buf_size}
use ocsync.Push.Copy.{Partial}

module _ {W : Type 0} (fs : FileSystem W) (store : IsStore fs) (srep drep : Replica)
    (apart : srep ≢ drep) (b : Bool) (suri duri all : Str) where
  -- what has been written and what is still to be read
  abbrev Copying : ℕ → ℕ → Str → Run W → Type 0
  Copying = Partial fs store srep drep apart b suri duri all

  unfoldable pub Written : Str → Run W → Type 0
  Written turi r =
      (push_to_tmp_first r.ctx ≡ b)
      × (b ≡ false → turi ≡ duri)
      × (store.content drep turi r.world ≡ all)

  -- what is left to read is shorter than the fuel
  unfoldable pub Left : ℕ → ℕ → Str → ℕ → Run W → Type 0
  Left hs hd t fuel r = Copying hs hd t r × (length (store.unread srep hs r.world) < fuel)

  -- the same, with the bytes in hand
  Carried : ℕ → ℕ → Str → ℕ → Str → Run W → Type 0
  Carried hs hd t fuel buf r =
      (push_to_tmp_first r.ctx ≡ b)
      × (b ≡ false → t ≡ duri)
      × (store.target_of drep hd r.world ≡ t)
      × (store.content drep t r.world ++ (buf ++ store.unread srep hs r.world) ≡ all)
      × (length buf + length (store.unread srep hs r.world) < fuel)

  Read : ℕ → ℕ → Str → ℕ → Option Str → Run W → Type 0
  Read hs hd t fuel chunk r =
      ((buf : Str) → chunk ≡ some buf → Carried hs hd t fuel buf r)
      × (chunk ≡ some [] → Written t r)

  carry :
      (buf : Str) {unread : Str} (rest : Str) {content content' : Str} {fuel : ℕ}
      → unread ≡ buf ++ rest
      → content' ≡ content
      → content ++ unread ≡ all
      → length unread < fuel
      → (content' ++ (buf ++ rest) ≡ all) × (length buf + length rest < fuel)
  carry buf rest {content = content} e same whole short = (
    ap (λ x. x ++ (buf ++ rest)) same ∙ ap (λ x. content ++ x) (sym e) ∙ whole,
    omega (arith, ap length e, length-append buf rest, short),
  )

  finish :
      {unread content content' : Str}
      → unread ≡ []
      → content' ≡ content
      → content ++ unread ≡ all
      → content' ≡ all
  finish {content = content} e same whole =
      same ∙ sym (append-nil content) ∙ ap (λ x. content ++ x) (sym e) ∙ whole

  read-Runs :
      (hs hd : ℕ) (t : Str) (fuel : ℕ)
      → Runs
          (Left hs hd t fuel)
          (set_replica srep >> call (fs.read srep hs max_xfer_buf_size))
          (Read hs hd t fuel)
  unfolding Left Read Carried Written Partial push_to_tmp_first
  read-Runs hs hd t fuel =
      Runs-bind (λ _. Left hs hd t fuel) (Runs-set_replica srep _ (λ r p. p))
        λ _. Runs-call (fs.read srep hs max_xfer_buf_size) _ (λ r p.
          let w = r.world in
          let same = store.read_content drep srep t hs max_xfer_buf_size w in
          let target = store.read_target drep srep hd hs max_xfer_buf_size w ∙ p.0.2 in
          (
            (λ buf e.
                let c =
                  carry buf (store.unread srep hs (fs.read srep hs max_xfer_buf_size w).1)
                    (store.read_some srep hs max_xfer_buf_size w buf e) same (p.0.3) (p.1) in
                (p.0.0, p.0.1, target, c.0, c.1)),
            (λ e. (
              p.0.0,
              p.0.1,
              finish (store.read_end srep hs max_xfer_buf_size w (omega arith) e) same (p.0.3),
            )),
          ))

  advance :
      (content buf rest rest' : Str) {content' : Str}
      → content' ≡ content ++ buf
      → rest' ≡ rest
      → content ++ (buf ++ rest) ≡ all
      → content' ++ rest' ≡ all
  advance content buf rest rest' e e' h =
      ap (λ x. x ++ rest') e
      ∙ ap (λ x. (content ++ buf) ++ x) e'
      ∙ append_assoc content buf rest
      ∙ h

  wrote : (n : Option ℕ) (buf : Str) → wrote_all n buf ≡ true → n ≡ some (length buf)
  wrote none buf e = cc
  wrote (some n) buf e = ap some (ground arith)

  Runs-chunk :
      (P : Option Str → Run W → Type 0) {Q : Unit → Run W → Type 0} {m n : Action W Unit}
      {f : ℕ → Str → Action W Unit} (buf : Option Str)
      → Runs (P none) m Q
      → Runs (P (some [])) n Q
      → ((c : ℕ) (cs : Str) → Runs (P (some (c ∷ cs))) (f c cs) Q)
      → Runs (P buf) (elim buf [ none ↦ m | some [] ↦ n | some (c ∷ cs) ↦ f c cs ]) Q
  Runs-chunk P none h k l = h
  Runs-chunk P (some []) h k l = k
  Runs-chunk P (some (c ∷ cs)) h k l = l c cs

  pub copy_loop-Runs :
      (fuel hs hd : ℕ) (t : Str)
      → Runs (Left hs hd t fuel) (copy_loop fs fuel srep drep hs hd) (λ _. Written t)
  unfolding copy_loop Left Read Carried Partial push_to_tmp_first
  copy_loop-Runs zero hs hd t = record { runs = λ r p. omega (arith, p.1) }
  copy_loop-Runs (suc fuel) hs hd t =
      Runs-bind (Read hs hd t (suc fuel)) (read-Runs hs hd t (suc fuel)) λ buf.
        Runs-chunk (Read hs hd t (suc fuel)) buf (Runs-fail fs (pos 1) refl)
          (Runs-pure tt _ (λ r p. p.1 refl))
          λ c cs.
            Runs-bind (λ _. Carried hs hd t (suc fuel) (c ∷ cs))
              (Runs-set_replica drep _ (λ r p. p.0 (c ∷ cs) refl))
              λ _.
                Runs-bind (λ n r. wrote_all n (c ∷ cs) ≡ true → Left hs hd t fuel r)
                  (Runs-call (fs.write drep hd (c ∷ cs)) _ (λ r p e.
                    let w = r.world in
                    let more = store.write_some drep hd t (c ∷ cs) w (p.2) (wrote _ (c ∷ cs) e) in
                    let rest = store.write_unread srep drep hs hd (c ∷ cs) w apart in
                    (
                      (
                        p.0,
                        p.1,
                        store.write_target drep hd (c ∷ cs) w ∙ p.2,
                        advance _ (c ∷ cs) _ _ more rest (p.3),
                      ),
                      omega (arith, ap length rest, p.4),
                    )))
                  λ n.
                    Runs-if (wrote_all n (c ∷ cs))
                      (λ e. record { runs = λ r p. (copy_loop-Runs fuel hs hd t).runs r (p e) })
                      (λ e. Runs-fail fs (pos 1) refl)
