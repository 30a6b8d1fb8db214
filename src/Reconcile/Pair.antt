-- ===== src/Reconcile/Pair.antt =====
-- What the reconciliation of both replicas makes of one file.
use ocsync.Base.{Bool, true, false, ◌≡◌, arith, if◌then◌else◌, ℕ, ◌<◌, compare, ◌&&◌}
use ocsync.Types.{Instruction, eval, remove, rename, new, conflict, ignore, sync}
use ocsync.Reconcile.{merged}

-- The local pass and then the remote pass, on a file that both replicas have: the instructions of
-- the local and of the remote version.
abbrev pub settle :
    (keep : Bool)
    → (local_time remote_time : ℕ) → Instruction
    → Instruction
    → Instruction × Instruction
settle keep m n i j =
    let (i₁, j₁) = merged keep (compare m n) i j in
    let (j₂, i₂) = merged keep (compare n m) j₁ i₁ in (i₂, j₂)

-- an instruction that the propagation of a replica acts on (csync_propagate.c, the visitors)
abbrev pub acts : Instruction → Bool
acts new = true
acts sync = true
acts conflict = true
acts remove = true
acts _ = false

-- a version that changed since the last synchronisation
abbrev pub changed : Instruction → Bool
changed new = true
changed eval = true
changed _ = false

-- What the update detection can leave in the local and in the remote entry of one path
-- (`detect_instruction-detected_pair` of Update/Pair.antt), where both find the path in the journal,
-- or neither does.
abbrev pub detected_pair : Instruction → Instruction → Bool
detected_pair ignore Instruction.none = true
detected_pair ignore eval = true
detected_pair ignore new = true
detected_pair ignore ignore = true
detected_pair Instruction.none Instruction.none = true
detected_pair Instruction.none eval = true
detected_pair Instruction.none ignore = true
detected_pair eval Instruction.none = true
detected_pair eval eval = true
detected_pair eval ignore = true
detected_pair new new = true
detected_pair new ignore = true
detected_pair rename new = true
detected_pair rename ignore = true
detected_pair _ _ = false

-- Of the two versions of a file that the update detection found on both replicas, at most one is
-- propagated after both passes, whatever the options and the modification times are.
pub settle_one_side :
    (keep : Bool) (m n : ℕ) (i j : Instruction)
    → detected_pair i j ≡ true
    → (acts (settle keep m n i j).0 && acts (settle keep m n i j).1) ≡ false
unfolding merged
settle_one_side keep m n i j h = ground arith

-- Where the two instructions are a pair that the detection can leave, and both versions changed: if
-- the local one is newer, the local version is propagated, as a conflict exactly if conflict copies
-- are kept, and the remote version is not; if the remote one is newer it is the other way round, and
-- the local version is left with no instruction.
pub settle_newest :
    (keep : Bool) (m n : ℕ) (i j : Instruction)
    → detected_pair i j ≡ true
    → changed i ≡ true
    → changed j ≡ true
    → (n < m
        → ((settle keep m n i j).0 ≡ (if keep then conflict else sync))
          × (acts (settle keep m n i j).1 ≡ false))
      × (m < n
          → ((settle keep m n i j).1 ≡ (if keep then conflict else sync))
            × ((settle keep m n i j).0 ≡ Instruction.none))
unfolding merged
settle_newest keep m n i j h ci cj = (λ lt. ground arith, λ lt. ground arith)

-- Where one version changed and the other has no instruction, the changed one is propagated and
-- nothing is kept aside; where neither has an instruction, nothing happens.
pub settle-changed :
    (keep : Bool) (m n : ℕ) (i : Instruction)
    → changed i ≡ true
    → (settle keep m n i Instruction.none ≡ (sync, Instruction.none))
      × (settle keep m n Instruction.none i ≡ (Instruction.none, sync))
      × (settle keep m n Instruction.none Instruction.none ≡ (Instruction.none, Instruction.none))
unfolding merged
settle-changed keep m n i h = (ground arith, ground arith, ground arith)
