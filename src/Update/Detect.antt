-- ===== src/Update/Detect.antt =====
-- What the update detection of one file does to the tree of its replica.
use ocsync.Base.{
  ℕ, ◌<◌, ◌==◌, true, false, ◌≡◌, refl, sym, ◌∙◌, Bool-cases, ==_iff, Option, none, some, pos,
  minus_one, arith, ◌⊎◌, Option-cases, inl, inr, if◌then◌else◌, length, leb, ◌≤◌,
}
use ocsync.RbTree.{c_rbtree_find}
use ocsync.RbTree.Insert.{Added, insert_absent, insert_present}
use ocsync.Hash.{c_jhash64}
use ocsync.Reconcile.Trees.{IsFiles}
use ocsync.Reconcile.{Files}
use ocsync.Types.{Str, FtwType, Replica, local_replica, remote_replica, FileStat, Ctx, param_error}
use ocsync.Update.{
  VioStat, Journal, current_side, set_current_side, detect_instruction, detected_stat,
  relative_path, detect_update,
}

abbrev hash : FileStat → ℕ
hash st = st.phash

-- the entry that `detect_update` makes of a file
abbrev pub entry_of : Journal → Ctx → (name : Str) → VioStat → FtwType → FileStat
entry_of journal ctx name fs type =
    let path = relative_path ctx name in
    detected_stat
      (detect_instruction journal ctx.statedb_exists ctx.current fs type (c_jhash64 path 0)) fs type
      path

-- A name that is no longer than the replica's root is refused: the walk gets -1 and the status
-- says so; the trees stay as they are.
pub detect_update-short :
    (journal : Journal) (ctx : Ctx) (name : Str) (fs : VioStat) (type : FtwType)
    → length name ≤ length (current_side ctx).uri
    → detect_update journal ctx name fs type
      ≡ some (minus_one, record ctx { status_code = param_error })
unfolding detect_update
detect_update-short journal ctx name fs type h =
    let e : leb (length name) (length (current_side ctx).uri) ≡ true = ground arith in rw e refl

detect_update-absent :
    (journal : Journal) (ctx : Ctx) (name : Str) (fs : VioStat) (type : FtwType)
    → IsFiles (current_side ctx).tree
    → length (current_side ctx).uri < length name
    → let side = current_side ctx in
      let st = entry_of journal ctx name fs type in
      c_rbtree_find side.tree st.phash ≡ none
      → (tree : _) × (detect_update journal ctx name fs type
          ≡ some (pos 0, set_current_side ctx (record side { tree = tree })))
        × Added hash st side.tree tree
unfolding detect_update
detect_update-absent journal ctx name fs type v h absent =
    let e : leb (length name) (length (current_side ctx).uri) ≡ false = ground arith in
    let (tree, i, a) =
      insert_absent hash (entry_of journal ctx name fs type) (current_side ctx).tree v absent in
    (tree, rw (e, i) refl, a)

pub Replica-cases : (r : Replica) → (r ≡ local_replica) ⊎ (r ≡ remote_replica)
Replica-cases local_replica = inl refl
Replica-cases remote_replica = inr refl

same_side : (ctx : Ctx) → set_current_side ctx (current_side ctx) ≡ ctx
same_side ctx = elim (Replica-cases ctx.current) [ inl e ↦ rw e refl | inr e ↦ rw e refl ]

detect_update-present :
    (journal : Journal) (ctx : Ctx) (name : Str) (fs : VioStat) (type : FtwType) (old : FileStat)
    → IsFiles (current_side ctx).tree
    → length (current_side ctx).uri < length name
    → c_rbtree_find (current_side ctx).tree (entry_of journal ctx name fs type).phash ≡ some old
    → detect_update journal ctx name fs type ≡ some (pos 0, ctx)
unfolding detect_update
detect_update-present journal ctx name fs type old v h found =
    let e : leb (length name) (length (current_side ctx).uri) ≡ false = ground arith in
    let i =
      insert_present hash true (entry_of journal ctx name fs type) (current_side ctx).tree {y = old}
        v found in
    rw (e, i, same_side ctx) refl

-- the entry that is there, or else the new one
abbrev pub or_new : FileStat → Option FileStat → FileStat
or_new st none = st
or_new st (some old) = old

pub finds_absent :
    (t t' : Files) (st : FileStat) (k : ℕ)
    → c_rbtree_find t st.phash ≡ none
    → c_rbtree_find t' k ≡ (if k == st.phash then some st else c_rbtree_find t k)
    → c_rbtree_find t' k
      ≡ (if k == st.phash then some (or_new st (c_rbtree_find t k)) else c_rbtree_find t k)
finds_absent t t' st k e f = elim (Bool-cases (k == st.phash)) [
  | inl b ↦ let same : k ≡ st.phash = (==_iff k st.phash).0 b in f ∙ rw (b, same, e) refl
  | inr b ↦ f ∙ rw b refl
]

pub finds_present :
    (t : Files) (st old : FileStat) (k : ℕ)
    → c_rbtree_find t st.phash ≡ some old
    → c_rbtree_find t k
      ≡ (if k == st.phash then some (or_new st (c_rbtree_find t k)) else c_rbtree_find t k)
finds_present t st old k e = elim (Bool-cases (k == st.phash)) [
  | inl b ↦ let same : k ≡ st.phash = (==_iff k st.phash).0 b in rw (b, same, e) refl
  | inr b ↦ rw b refl
]

-- What `detect_update` leaves, for the entry `st`: only the tree of the current replica changes, it
-- is valid, and it has an entry for the path of `st`, the one that was there first.
pub record Entered (st : FileStat) (ctx ctx' : Ctx) : Type 0 where
  pub tree : Files
  pub same : ctx' ≡ set_current_side ctx (record (current_side ctx) { tree = tree })
  pub valid : IsFiles tree
  pub finds :
      (k : ℕ)
      → let old = c_rbtree_find (current_side ctx).tree k in
        c_rbtree_find tree k ≡ (if k == st.phash then some (or_new st old) else old)

-- On a file below the root of a replica with a valid tree the detection returns 0, changes only
-- that replica's tree and keeps it valid. A search for the hash of the path then finds the entry
-- that was there, or else the one made of the file's data and of the instruction that
-- `detect_instruction` chose, and every other search finds what it found before.
pub detect_update-Entered :
    (journal : Journal) (ctx : Ctx) (name : Str) (fs : VioStat) (type : FtwType)
    → IsFiles (current_side ctx).tree
    → length (current_side ctx).uri < length name
    → (ctx' : Ctx) × (detect_update journal ctx name fs type ≡ some (pos 0, ctx'))
      × Entered (entry_of journal ctx name fs type) ctx ctx'
detect_update-Entered journal ctx name fs type v h =
    let st = entry_of journal ctx name fs type in
    let t = (current_side ctx).tree in
    elim (Option-cases (c_rbtree_find t st.phash)) [
      | inl e ↦
          let (tree, done, a) = detect_update-absent journal ctx name fs type v h e in
          (
            _,
            done,
            record {
              tree = tree;
              same = refl;
              valid = a.valid;
              finds = λ k. finds_absent t tree st k e (a.finds k);
            },
          )
      | inr (old, e) ↦ (
        ctx,
        detect_update-present journal ctx name fs type old v h e,
        record {
          tree = t;
          same = sym (same_side ctx);
          valid = v;
          finds = λ k. finds_present t st old k e;
        },
      )
    ]
