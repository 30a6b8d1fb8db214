-- ===== src/Reconcile/Trees.antt =====
-- The reconciliation of two whole trees, seen from one path: a pass over a replica's tree.
use ocsync.Base.{
  ℕ, compare, Ordering, Bool, Option, none, some, ◌≡◌, refl, ℤ, pos, arith, ◌==◌, if◌then◌else◌,
  inl, inr, Option-cases,
}
use mathlib.Core.Option
use ocsync.RbTree.{c_rbtree_create, subtree_walk, c_rbtree_find, c_rbtree_walk, modify_found}
use ocsync.RbTree.Insert.{IsValid}
use ocsync.RbTree.Relabel.{IsValid-relabel, modify_found-IsValid, find-modify_found}
use ocsync.RbTree.Pointwise.{
  VisitsOne, AtKey, walk-succeeds, walk-Good, walk-keys, walk-SameShape, walk-AtKey,
}
use ocsync.Types.{FileStat, key_cmp, data_cmp}
use ocsync.Reconcile.{Files, alone, merged, set_instruction, merge_algorithm_visitor}

abbrev pub IsFiles : Files → Type 0
IsFiles t = IsValid (λ st. st.phash) t

-- the visited version, given the other replica's
abbrev pub current_version : (keep : Bool) → FileStat → Option FileStat → FileStat
current_version keep cur none = set_instruction (alone cur.instruction) cur
current_version keep cur (some other) =
    set_instruction
      (merged keep (compare cur.modtime other.modtime) cur.instruction other.instruction).0 cur

-- the other replica's version, given the visited one
abbrev pub other_version : (keep : Bool) → FileStat → Option FileStat → Option FileStat
other_version keep cur none = none
other_version keep cur (some other) = some (
    set_instruction
      (merged keep (compare cur.modtime other.modtime) cur.instruction other.instruction).1 other)

abbrev hash : FileStat → ℕ
hash st = st.phash

module _ (keep : Bool) where
  visitor-none :
      (d : FileStat) (s : Files)
      → c_rbtree_find s d.phash ≡ none
      → (merge_algorithm_visitor keep d s).2 ≡ s
  unfolding merge_algorithm_visitor
  visitor-none d s e = rw (e, merge_algorithm_visitor)

  visitor-some :
      (d : FileStat) (s : Files) {o : FileStat}
      → c_rbtree_find s d.phash ≡ some o
      → (merge_algorithm_visitor keep d s).2
        ≡ modify_found s d.phash (
            set_instruction
              (merged keep (compare d.modtime o.modtime) d.instruction o.instruction).1)
  unfolding merge_algorithm_visitor
  visitor-some d s e = rw (e, merge_algorithm_visitor)

  visitor-found :
      (d : FileStat) (s : Files) (k : ℕ)
      → IsFiles s
      → c_rbtree_find (merge_algorithm_visitor keep d s).2 k
        ≡ (if k == d.phash then other_version keep d (c_rbtree_find s k) else c_rbtree_find s k)
  visitor-found d s k g = elim (Option-cases (c_rbtree_find s d.phash)) [
    | inl e ↦ rw (visitor-none d s e) (ground arith)
    | inr (o, e) ↦
        let f =
          set_instruction
            (merged keep (compare d.modtime o.modtime) d.instruction o.instruction).1 in
        rw (visitor-some d s e) (ground (arith, find-modify_found hash s k d.phash f))
  ]

  visitor-IsFiles :
      (d : FileStat) (s : Files) → IsFiles s → IsFiles (merge_algorithm_visitor keep d s).2
  visitor-IsFiles d s g = elim (Option-cases (c_rbtree_find s d.phash)) [
    | inl e ↦ rw (visitor-none d s e) g
    | inr (o, e) ↦ rw (visitor-some d s e) (
        modify_found-IsValid hash s d.phash
          (set_instruction
            (merged keep (compare d.modtime o.modtime) d.instruction o.instruction).1)
          (λ x. refl) g)
  ]

  current_version-hash :
      (d : FileStat) (e : Option FileStat) → (current_version keep d e).phash ≡ d.phash
  current_version-hash d none = refl
  current_version-hash d (some o) = refl

  -- The visitor of the merge changes an entry and its counterpart, and nothing else.
  merge-VisitsOne :
      (cmp : ℕ → FileStat → Ordering) (law : (k : ℕ) (d : FileStat) → cmp k d ≡ compare k d.phash)
      → VisitsOne hash cmp law
          (merge_algorithm_visitor keep)
          c_rbtree_find
          (current_version keep)
          (other_version keep)
          IsFiles
  unfolding merge_algorithm_visitor
  merge-VisitsOne cmp law = record {
    succeeds = λ d s. ground arith;
    entry = λ d s. ground arith;
    store = visitor-found;
    stays = visitor-IsFiles;
    keeps = current_version-hash;
  }

-- One pass over the tree `a`, with `b` the tree of the other replica.
pub record Passed (keep : Bool) (a b a' b' : Files) : Type 0 where
  pub current_valid : IsFiles a'
  pub other_valid : IsFiles b'
  pub current_found :
      (k : ℕ)
      → c_rbtree_find a' k
        ≡ Option.map (λ d. current_version keep d (c_rbtree_find b k)) (c_rbtree_find a k)
  pub other_found :
      (k : ℕ)
      → c_rbtree_find b' k ≡ (elim (c_rbtree_find a k) [
        | none ↦ c_rbtree_find b k
        | some d ↦ other_version keep d (c_rbtree_find b k)
      ])

module _ (keep : Bool) (a b : Files) (va : IsFiles a) (vb : IsFiles b) where
  abbrev pub one_pass : ℤ × Files × Files
  one_pass = c_rbtree_walk (merge_algorithm_visitor keep) a b

  visits :
      VisitsOne hash a.key_compare va.keyed.by_key
        (merge_algorithm_visitor keep)
        c_rbtree_find
        (current_version keep)
        (other_version keep)
        IsFiles
  visits = merge-VisitsOne keep a.key_compare va.keyed.by_key

  at_key :
      (k : ℕ)
      → AtKey hash a.key_compare va.keyed.by_key
          (merge_algorithm_visitor keep)
          c_rbtree_find
          (current_version keep)
          (other_version keep)
          IsFiles
          a.root
          (subtree_walk (merge_algorithm_visitor keep) a.root b).1
          b
          (subtree_walk (merge_algorithm_visitor keep) a.root b).2
          k
  at_key k =
      walk-AtKey hash a.key_compare va.keyed.by_key (merge_algorithm_visitor keep) c_rbtree_find
        (current_version keep) (other_version keep) IsFiles visits a.root b k va.ascends vb

  pub one_pass-Passed : (one_pass.0 ≡ pos 0) × Passed keep a b one_pass.1 one_pass.2
  unfolding c_rbtree_walk c_rbtree_find
  one_pass-Passed = (
    rw (
        walk-succeeds hash a.key_compare va.keyed.by_key (merge_algorithm_visitor keep)
          c_rbtree_find (current_version keep) (other_version keep) IsFiles visits a.root b),
    record {
      current_valid =
          IsValid-relabel hash a _ va
            (walk-keys hash a.key_compare va.keyed.by_key (merge_algorithm_visitor keep)
              c_rbtree_find (current_version keep) (other_version keep) IsFiles visits a.root b)
            (walk-SameShape hash a.key_compare va.keyed.by_key (merge_algorithm_visitor keep)
              c_rbtree_find (current_version keep) (other_version keep) IsFiles visits a.root b);
      other_valid =
          walk-Good hash a.key_compare va.keyed.by_key (merge_algorithm_visitor keep) c_rbtree_find
            (current_version keep) (other_version keep) IsFiles visits a.root b vb;
      current_found = λ k. (at_key k).entry;
      other_found = λ k. (at_key k).store;
    },
  )

-- The trees that `csync_init` creates are valid.
pub create-IsFiles : IsFiles (c_rbtree_create key_cmp data_cmp)
unfolding c_rbtree_create key_cmp data_cmp
create-IsFiles = record {
  keyed = record { by_key = λ k d. refl; by_data = λ d e. refl };
  ascends = tt;
  balanced = (0, refl);
  root_black = refl;
  counted = refl;
}
