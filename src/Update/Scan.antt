-- ===== src/Update/Scan.antt =====
-- What the trees hold during the update detection: `csync_walker` under the tree walk.
use ocsync.Base.{
  ℕ, ◌==◌, Bool, true, false, ◌≡◌, refl, Option, none, some, arith, Bool-cases, inl, inr, ==_iff,
  if◌then◌else◌, length, ltb, ltb→lt,
}
use mathlib.Core.Path.{subst}
use ocsync.RbTree.{c_rbtree_find}
use ocsync.Hash.{c_jhash64}
use ocsync.Exclude.{csync_excluded}
use ocsync.Reconcile.{Files}
use ocsync.Reconcile.Trees.{IsFiles}
use ocsync.Types.{
  Str, FtwType, file, dir, StrList, FileStat, Ctx, Replica, local_replica, remote_replica,
}
use ocsync.Update.{
  VioStat, FtwFlag, Vio, Journal, current_side, set_current_side, detect_update, detect_instruction,
  excluded_here, csync_walker, flag_of_stat, flag_of, csync_ftw,
}
use ocsync.Update.Detect.{
  Entered, detect_update-short, detect_update-Entered, entry_of, Replica-cases, or_new,
}
use ocsync.Update.Walk.{Ends, csync_ftw-Ends}

-- what the detection of a replica goes by, besides its files
pub record Rules : Type 0 where
  pub matches : (pattern name : Str) → Bool
  pub journal : Journal
  pub journal_exists : Bool
  pub unix : Bool
  pub excludes : Option StrList

abbrev pub rules_of : (matches : (pattern name : Str) → Bool) → Journal → Ctx → Rules
rules_of matches journal ctx = record {
  matches = matches;
  journal = journal;
  journal_exists = ctx.statedb_exists;
  unix = ctx.options.unix_extensions;
  excludes = ctx.excludes;
}

-- An entry that the detection made under a key: the key is the hash of its path, its path is not
-- excluded, and its instruction is the one that the detection chose for some file of that hash.
pub record IsDetected (rules : Rules) (r : Replica) (k : ℕ) (st : FileStat) : Type 0 where
  pub keyed : st.phash ≡ k
  pub hashed : st.phash ≡ c_jhash64 st.path 0
  pub measured : st.pathlen ≡ length st.path
  pub allowed : csync_excluded rules.matches rules.unix rules.excludes st.path ≡ false
  pub decided :
      (fs : VioStat) × (type : FtwType) × (st.instruction
        ≡ detect_instruction rules.journal rules.journal_exists r fs type k)

-- what is found, if anything, satisfies `P`
abbrev pub Holds : (FileStat → Type 0) → Option FileStat → Type 0
Holds P none = Unit
Holds P (some st) = P st

Holds-if :
    (P : FileStat → Type 0) (st : FileStat) (b : Bool) (o : Option FileStat)
    → Holds P o
    → (b ≡ true → P st)
    → Holds P (if b then some (or_new st o) else o)
Holds-if P st true none h p = p refl
Holds-if P st true (some old) h p = h
Holds-if P st false o h p = h

-- a valid tree whose entries are all made by the detection of a replica
pub record IsScan (rules : Rules) (r : Replica) (t : Files) : Type 0 where
  pub valid : IsFiles t
  pub detected : (k : ℕ) → Holds (IsDetected rules r k) (c_rbtree_find t k)

-- both trees of a context are, each for its replica
pub record IsScanned (matches : (pattern name : Str) → Bool) (journal : Journal) (ctx : Ctx)
    : Type 0 where
  pub local_scan : IsScan (rules_of matches journal ctx) local_replica ctx.local.tree
  pub remote_scan : IsScan (rules_of matches journal ctx) remote_replica ctx.remote.tree

module _ (matches : (pattern name : Str) → Bool) (journal : Journal) where
  current-IsScan :
      (ctx : Ctx)
      → IsScanned matches journal ctx
      → IsScan (rules_of matches journal ctx) ctx.current (current_side ctx).tree
  current-IsScan ctx g = elim (Replica-cases ctx.current) [
    | inl e ↦ rw e g.local_scan
    | inr e ↦ rw e g.remote_scan
  ]

  set_current-IsScanned :
      (ctx : Ctx) (t : Files)
      → IsScanned matches journal ctx
      → IsScan (rules_of matches journal ctx) ctx.current t
      → IsScanned matches journal (set_current_side ctx (record (current_side ctx) { tree = t }))
  set_current-IsScanned ctx t g s = elim (Replica-cases ctx.current) [
    | inl e ↦
        let s' = subst (λ q. IsScan (rules_of matches journal ctx) q t) e s in
        rw e (record { local_scan = s'; remote_scan = g.remote_scan })
    | inr e ↦
        let s' = subst (λ q. IsScan (rules_of matches journal ctx) q t) e s in
        rw e (record { local_scan = g.local_scan; remote_scan = s' })
  ]

  -- a new entry joins a tree of detected ones
  Entered-IsScan :
      (ctx ctx' : Ctx) (st : FileStat)
      → IsScan (rules_of matches journal ctx) ctx.current (current_side ctx).tree
      → IsDetected (rules_of matches journal ctx) ctx.current st.phash st
      → (e : Entered st ctx ctx') → IsScan (rules_of matches journal ctx) ctx.current e.tree
  Entered-IsScan ctx ctx' st s d e = record {
    valid = e.valid;
    detected = λ k. rw (e.finds k) (
        Holds-if (IsDetected (rules_of matches journal ctx) ctx.current k) st (k == st.phash)
          (c_rbtree_find (current_side ctx).tree k) (s.detected k)
          (λ same. rw ((==_iff k st.phash).0 same) d));
  }

  detect_update-Ends :
      (ctx : Ctx) (name : Str) (fs : VioStat) (type : FtwType)
      → IsScanned matches journal ctx
      → excluded_here matches ctx name ≡ false
      → Ends (IsScanned matches journal) (detect_update journal ctx name fs type)
  detect_update-Ends ctx name fs type g e =
      elim (Bool-cases (ltb (length (current_side ctx).uri) (length name))) [
        | inl b ↦
            let s = current-IsScan ctx g in
            let (ctx', done, en) =
              detect_update-Entered journal ctx name fs type s.valid (ltb→lt _ _ b) in
            let d : IsDetected (rules_of matches journal ctx) ctx.current
                (entry_of journal ctx name fs type).phash (entry_of journal ctx name fs type) =
              record {
                keyed = refl;
                hashed = refl;
                measured = refl;
                allowed = e;
                decided = (fs, type, refl);
              } in
            rw (done, en.same)
              (set_current-IsScanned ctx en.tree g (Entered-IsScan ctx ctx' _ s d en))
        | inr b ↦
            rw (detect_update-short journal ctx name fs type (ground arith))
              (record { local_scan = g.local_scan; remote_scan = g.remote_scan })
      ]

  by_flag :
      (ctx : Ctx) (name : Str) (fs : VioStat) (flag : FtwFlag)
      → IsScanned matches journal ctx
      → excluded_here matches ctx name ≡ false
      → Ends (IsScanned matches journal) (csync_walker journal ctx name (some fs) flag)
  unfolding csync_walker
  by_flag ctx name fs FtwFlag.flag_file g e = detect_update-Ends ctx name fs file g e
  by_flag ctx name fs FtwFlag.flag_dir g e = detect_update-Ends ctx name fs dir g e
  by_flag ctx name fs _ g e = g

  by_stat :
      (ctx : Ctx) (name : Str) (fs : Option VioStat)
      → IsScanned matches journal ctx
      → excluded_here matches ctx name ≡ false
      → Ends (IsScanned matches journal) (csync_walker journal ctx name fs (flag_of_stat fs))
  unfolding csync_walker
  by_stat ctx name none g e = g
  by_stat ctx name (some fs) g e = by_flag ctx name fs (flag_of fs.type) g e

  -- A walk with `csync_walker`, of any depth and over any file system, whatever fails, ends without
  -- following a null pointer. Where both trees hold only what the detection entered, they stay so:
  -- valid, with entries under their paths' hashes, of no excluded path, and each with the
  -- instruction that the detection chose.
  pub csync_ftw-IsScanned :
      (vio : Vio) (depth : ℕ) (ctx : Ctx) (uri : Str)
      → IsScanned matches journal ctx
      → Ends
          (IsScanned matches journal)
          (csync_ftw matches vio (csync_walker journal) depth ctx uri)
  csync_ftw-IsScanned vio depth ctx uri g =
      csync_ftw-Ends matches vio (csync_walker journal) (IsScanned matches journal)
        (record {
          any_status =
              λ c code h. record { local_scan = h.local_scan; remote_scan = h.remote_scan };
          by_walker = λ c name h e. by_stat c name (vio.stat name) h e;
        })
        depth ctx uri g
