-- ===== src/Merge/Trees.antt =====
-- src/csync_util.c: the local tree after the merge.
use ocsync.Base.{
  ℕ, ◌==◌, ◌≡◌, refl, ◌∙◌, ap, true, false, Option, none, some, ◌++◌, ◌∷◌, ℤ, pos, minus_one,
  is_negative, if◌then◌else◌, inl, inr, Bool-cases, Option-cases, arith,
}
use mathlib.Core.Option
use ocsync.PathName.{slash}
use ocsync.RbTree.{c_rbtree_find, c_rbtree_insert, modify_found}
use ocsync.RbTree.Insert.{insert_absent}
use ocsync.RbTree.Relabel.{modify_found-IsValid, find-modify_found}
use ocsync.Types.{Str, Instruction, error, Replica, FileStat}
use ocsync.Reconcile.{Files, set_instruction}
use ocsync.Reconcile.Trees.{IsFiles}
use ocsync.Update.{VioStat}
use ocsync.Update.Detect.{or_new, finds_absent, finds_present}
use ocsync.Merge.{is_updated, enter_missing, refresh, merge_file_trees_visitor}

abbrev hash : FileStat → ℕ
hash st = st.phash

-- the entry of the local tree that the merge writes to
abbrev pub local_entry : Files → FileStat → FileStat
local_entry tree fs = or_new fs (c_rbtree_find tree fs.phash)

-- the tree in which the key of `fs` has an entry
record HasEntry (tree : Files) (fs : FileStat) (rc : ℤ) (tree₁ : Files) : Type 0 where
  enters : enter_missing tree fs ≡ some (rc, some (local_entry tree fs), tree₁)
  succeeds : is_negative rc ≡ false
  valid : IsFiles tree₁
  finds :
      (k : ℕ)
      → c_rbtree_find tree₁ k
        ≡ (if k == fs.phash then some (or_new fs (c_rbtree_find tree k)) else c_rbtree_find tree k)

same_number : (k : ℕ) → (k == k) ≡ true
same_number k = ground arith

finds_itself :
    (tree tree₁ : Files) (fs : FileStat)
    → ((k : ℕ)
        → c_rbtree_find tree₁ k ≡ (
            if k == fs.phash
            then some (or_new fs (c_rbtree_find tree k))
            else c_rbtree_find tree k))
    → c_rbtree_find tree₁ fs.phash ≡ some (local_entry tree fs)
finds_itself tree tree₁ fs f = f fs.phash ∙ rw (same_number fs.phash) refl

enter_missing_new :
    (tree tree₁ : Files) (fs : FileStat) (rc : ℤ)
    → c_rbtree_find tree fs.phash ≡ none
    → c_rbtree_insert true tree fs ≡ some (rc, tree₁)
    → enter_missing tree fs ≡ some (rc, c_rbtree_find tree₁ fs.phash, tree₁)
unfolding enter_missing
enter_missing_new tree tree₁ fs rc e done = rw (e, enter_missing, done) refl

enter_missing-HasEntry :
    (tree : Files) (fs : FileStat)
    → IsFiles tree
    → (rc : ℤ) × (tree₁ : Files) × HasEntry tree fs rc tree₁
unfolding enter_missing
enter_missing-HasEntry tree fs v = elim (Option-cases (c_rbtree_find tree fs.phash)) [
  | inl e ↦
      let (tree₁, done, a) = insert_absent hash fs tree v e in
      let finds : (k : ℕ)
          → c_rbtree_find tree₁ k ≡ (
              if k == fs.phash
              then some (or_new fs (c_rbtree_find tree k))
              else c_rbtree_find tree k) =
        λ k. finds_absent tree tree₁ fs k e (a.finds k) in
      (
        pos 0,
        tree₁,
        record {
          enters =
              enter_missing_new tree tree₁ fs (pos 0) e done
              ∙ ap (λ o. some (pos 0, o, tree₁)) (finds_itself tree tree₁ fs finds);
          succeeds = refl;
          valid = a.valid;
          finds = finds;
        },
      )
  | inr (old, e) ↦ (
    pos 0,
    tree,
    record {
      enters = rw (e, enter_missing) refl;
      succeeds = refl;
      valid = v;
      finds = λ k. finds_present tree fs old k e;
    },
  )
]

-- the return code of a visit, and what it writes, by the answer of `stat`
abbrev pub visit_rc : Option VioStat → ℤ
visit_rc none = minus_one
visit_rc (some v) = pos 0

abbrev pub visit_writes : Option VioStat → FileStat → FileStat
visit_writes none st = set_instruction error st
visit_writes (some v) st = record st {
  inode = v.inode;
  modtime = v.mtime;
  instruction = Instruction.none;
}

visit_writes-hash : (o : Option VioStat) (st : FileStat) → (visit_writes o st).phash ≡ st.phash
visit_writes-hash none st = refl
visit_writes-hash (some v) st = refl

module _ {W : Type 0} (stat : Replica → Str → W → Option VioStat × W) (q : Replica)
    (uri : Str) where
  -- what the visit of an updated entry leaves, by the answer of `stat`
  pub record Merged (fs : FileStat) (tree : Files) (w : W) (o : Option VioStat × W) : Type 0 where
    pub tree' : Files
    pub visits :
        merge_file_trees_visitor stat q uri fs (some (tree, w))
        ≡ (visit_rc o.0, fs, some (tree', o.1))
    pub valid : IsFiles tree'
    pub finds :
        (k : ℕ)
        → c_rbtree_find tree' k ≡ (
            if k == fs.phash
            then some (visit_writes o.0 (local_entry tree fs))
            else c_rbtree_find tree k)

  told : FileStat → Files → Option VioStat × W → ℤ × FileStat × Option (Files × W)
  told fs tree₁ o = elim (o.0) [
    | none ↦ (minus_one, fs, some (modify_found tree₁ fs.phash (set_instruction error), o.1))
    | some v ↦ (pos 0, fs, some (modify_found tree₁ fs.phash (refresh v), o.1))
  ]

  answered :
      (fs : FileStat) (tree₁ : Files) (o : Option VioStat × W)
      → told fs tree₁ o
        ≡ (visit_rc o.0, fs, some (modify_found tree₁ fs.phash (visit_writes o.0), o.1))
  unfolding told
  answered fs tree₁ (none, w) = refl
  answered fs tree₁ (some v, w) = refl

  written_finds :
      (fs : FileStat) (tree tree₁ : Files) (rc : ℤ) (f : FileStat → FileStat) (k : ℕ)
      → HasEntry tree fs rc tree₁
      → (if k == fs.phash
          then Option.map f (c_rbtree_find tree₁ fs.phash)
          else c_rbtree_find tree₁ k)
        ≡ (if k == fs.phash then some (f (local_entry tree fs)) else c_rbtree_find tree k)
  written_finds fs tree tree₁ rc f k h = elim (Bool-cases (k == fs.phash)) [
    | inl b ↦ rw (b, finds_itself tree tree₁ fs h.finds) refl
    | inr b ↦ rw (b) (h.finds k ∙ rw (b) refl)
  ]

  -- The visit of an updated entry of the remote tree, with a valid local tree: the local tree stays
  -- valid, it has an entry for the key, the one that was there or else a copy of the remote one, with
  -- the inode and the time that `stat` reports and no instruction, and no other entry changes; where
  -- `stat` fails the visit fails, and that entry gets the instruction of an error instead.
  pub merge_file_trees_visitor-Merged :
      (fs : FileStat) (tree : Files) (w : W)
      → IsFiles tree
      → is_updated fs.instruction ≡ true
      → Merged fs tree w (stat q (uri ++ slash ∷ (local_entry tree fs).path) w)
  unfolding merge_file_trees_visitor told
  merge_file_trees_visitor-Merged fs tree w v up =
      let (rc, tree₁, h) = enter_missing-HasEntry tree fs v in
      let o = stat q (uri ++ slash ∷ (local_entry tree fs).path) w in
      record {
        tree' = modify_found tree₁ fs.phash (visit_writes o.0);
        visits = rw (up, h.enters, h.succeeds) (answered fs tree₁ o);
        valid =
            modify_found-IsValid hash tree₁ fs.phash (visit_writes o.0) (visit_writes-hash o.0)
              h.valid;
        finds = λ k.
            find-modify_found hash tree₁ k fs.phash (visit_writes o.0) (visit_writes-hash o.0)
              h.valid
            ∙ written_finds fs tree tree₁ rc (visit_writes o.0) k h;
      }
