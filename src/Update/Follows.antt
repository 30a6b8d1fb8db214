-- ===== src/Update/Follows.antt =====
-- What the walk keeps of a context: its settings, a valid tree, and the entries found in it.
use ocsync.Base.{
  ℕ, ◌+◌, ◌<◌, ◌==◌, Bool, true, false, ◌≡◌, refl, sym, ap, ◌∙◌, ◌⊎◌, inl, inr, Option, none, some,
  List, [], ◌∷◌, ℤ, arith, Bool-cases, All, All-imp, ==_iff, ltb, ltb→lt, if◌then◌else◌, length,
  drop,
}
use ocsync.RbTree.{c_rbtree_find}
use ocsync.Hash.{c_jhash64}
use ocsync.Reconcile.Trees.{IsFiles}
use ocsync.Types.{
  Str, FtwType, file, dir, StatusCode, status_is_ok, update_error, FileStat, Side, Ctx,
}
use ocsync.Update.{
  VioStat, FtwFlag, flag_file, flag_dir, Vio, Journal, current_side, set_current_side,
  relative_path, detect_update, excluded_here, csync_walker, flag_of_stat, flag_of, csync_ftw,
}
use ocsync.Update.Detect.{
  Entered, detect_update-Entered, detect_update-short, or_new, Replica-cases,
}
use ocsync.Update.Walk.{Ends, IsKept, csync_ftw-Ends}

-- the tree of the current replica has an entry for this hash
abbrev pub is_found : Option FileStat → Bool
is_found none = false
is_found (some st) = true

abbrev pub Has : ℕ → Ctx → Type 0
Has h ctx = is_found (c_rbtree_find (current_side ctx).tree h) ≡ true

-- A context of the walk that started at `start`: the tree is valid, the settings are those of
-- `start`, and the tree has entries for these hashes.
pub record Follows (start : Ctx) (hs : List ℕ) (ctx : Ctx) : Type 0 where
  pub valid : IsFiles (current_side ctx).tree
  pub same_uri : (current_side ctx).uri ≡ (current_side start).uri
  pub same_options : ctx.options ≡ start.options
  pub same_excludes : ctx.excludes ≡ start.excludes
  pub has : All (λ h. Has h ctx) hs

pub with_status :
    (start ctx : Ctx) (hs : List ℕ) (code : StatusCode)
    → Follows start hs ctx
    → Follows start hs (record ctx { status_code = code })
with_status start ctx hs code g = record {
  valid = g.valid;
  same_uri = g.same_uri;
  same_options = g.same_options;
  same_excludes = g.same_excludes;
  has = g.has;
}

pub same_path :
    (start ctx : Ctx) (hs : List ℕ) (name : Str)
    → Follows start hs ctx
    → relative_path ctx name ≡ relative_path start name
same_path start ctx hs name g = ap (λ u. drop (length u + 1) name) g.same_uri

pub same_exclusion :
    (matches : (pattern name : Str) → Bool) (start ctx : Ctx) (hs : List ℕ) (name : Str)
    → Follows start hs ctx
    → excluded_here matches ctx name ≡ excluded_here matches start name
same_exclusion matches start ctx hs name g =
    let p = same_path start ctx hs name g in let o = g.same_options in let e = g.same_excludes in cc

side_set : (ctx : Ctx) (s : Side) → current_side (set_current_side ctx s) ≡ s
side_set ctx s = elim (Replica-cases ctx.current) [ inl e ↦ rw e refl | inr e ↦ rw e refl ]

options_set : (ctx : Ctx) (s : Side) → (set_current_side ctx s).options ≡ ctx.options
options_set ctx s = elim (Replica-cases ctx.current) [ inl e ↦ rw e refl | inr e ↦ rw e refl ]

excludes_set : (ctx : Ctx) (s : Side) → (set_current_side ctx s).excludes ≡ ctx.excludes
excludes_set ctx s = elim (Replica-cases ctx.current) [ inl e ↦ rw e refl | inr e ↦ rw e refl ]

found_if :
    (b : Bool) (st : FileStat) (o : Option FileStat)
    → (b ≡ true) ⊎ (is_found o ≡ true)
    → is_found (if b then some (or_new st o) else o) ≡ true
found_if b st o h = ground arith

-- a detected file is in the tree, and what was there still is
with_tree :
    (start ctx : Ctx) (st : FileStat) (ctx' : Ctx) (hs : List ℕ)
    → Follows start hs ctx
    → Entered st ctx ctx'
    → Follows start (st.phash ∷ hs) ctx'
with_tree start ctx st ctx' hs g e =
    let side = record (current_side ctx) { tree = e.tree } in
    let now : current_side ctx' ≡ side = ap current_side e.same ∙ side_set ctx side in
    let has_now : (h : ℕ) → (h == st.phash ≡ true) ⊎ Has h ctx → Has h ctx' = λ h q.
      rw (now, e.finds h)
        (found_if (h == st.phash) st (c_rbtree_find (current_side ctx).tree h) q) in
    record {
      valid = rw now e.valid;
      same_uri = ap (λ s. s.uri) now ∙ g.same_uri;
      same_options = ap (λ c. c.options) e.same ∙ (options_set ctx side ∙ g.same_options);
      same_excludes = ap (λ c. c.excludes) e.same ∙ (excludes_set ctx side ∙ g.same_excludes);
      has = (
        has_now st.phash (inl ((==_iff st.phash st.phash).1 refl)),
        All-imp (λ h q. has_now h (inr q)) hs g.has,
      );
    }

pub forget :
    (start ctx : Ctx) (h : ℕ) (hs : List ℕ) → Follows start (h ∷ hs) ctx → Follows start hs ctx
forget start ctx h hs g = record {
  valid = g.valid;
  same_uri = g.same_uri;
  same_options = g.same_options;
  same_excludes = g.same_excludes;
  has = g.has.1;
}

module _ (matches : (pattern name : Str) → Bool) (vio : Vio) (journal : Journal) (start : Ctx) where
  abbrev pub hash_of : Str → ℕ
  hash_of name = c_jhash64 (relative_path start name) 0

  -- The detection keeps what is found, and adds the file where its name is long enough.
  detect_update-Follows :
      (ctx : Ctx) (hs : List ℕ) (name : Str) (fs : VioStat) (type : FtwType)
      → Follows start hs ctx
      → Ends (Follows start hs) (detect_update journal ctx name fs type)
  detect_update-Follows ctx hs name fs type g =
      elim (Bool-cases (ltb (length (current_side ctx).uri) (length name))) [
        | inl b ↦
            let (ctx', done, en) =
              detect_update-Entered journal ctx name fs type g.valid (ltb→lt _ _ b) in
            rw done (forget start ctx' _ hs (with_tree start ctx _ ctx' hs g en))
        | inr b ↦
            rw (detect_update-short journal ctx name fs type (ground arith))
              (with_status start ctx hs _ g)
      ]

  pub detect_update-Has :
      (ctx : Ctx) (name : Str) (fs : VioStat) (type : FtwType)
      → Follows start [] ctx
      → length (current_side start).uri < length name
      → Ends (Follows start (hash_of name ∷ [])) (detect_update journal ctx name fs type)
  detect_update-Has ctx name fs type g long =
      let u = g.same_uri in
      let long' : length (current_side ctx).uri < length name = rw u long in
      let (ctx', done, en) = detect_update-Entered journal ctx name fs type g.valid long' in
      rw (done, sym (same_path start ctx [] name g)) (with_tree start ctx _ ctx' [] g en)

  by_flag :
      (ctx : Ctx) (hs : List ℕ) (name : Str) (fs : VioStat) (flag : FtwFlag)
      → Follows start hs ctx
      → Ends (Follows start hs) (csync_walker journal ctx name (some fs) flag)
  unfolding csync_walker
  by_flag ctx hs name fs flag_file g = detect_update-Follows ctx hs name fs file g
  by_flag ctx hs name fs flag_dir g = detect_update-Follows ctx hs name fs dir g
  by_flag ctx hs name fs _ g = g

  pub by_stat :
      (ctx : Ctx) (hs : List ℕ) (name : Str) (fs : Option VioStat)
      → Follows start hs ctx
      → Ends (Follows start hs) (csync_walker journal ctx name fs (flag_of_stat fs))
  unfolding csync_walker
  by_stat ctx hs name none g = g
  by_stat ctx hs name (some fs) g = by_flag ctx hs name fs (flag_of fs.type) g

  pub walker_keeps : (hs : List ℕ) → IsKept matches vio (csync_walker journal) (Follows start hs)
  walker_keeps hs = record {
    any_status = λ c code h. with_status start c hs code h;
    by_walker = λ c name h e. by_stat c hs name (vio.stat name) h;
  }

  -- the recursive call keeps what is found
  abbrev pub Keeps : (ℤ → Ctx → Str → Option (ℤ × Ctx)) → Type 0
  Keeps descend =
      (hs : List ℕ) (rc : ℤ) (ctx : Ctx) (name : Str)
      → Follows start hs ctx
      → Ends (Follows start hs) (descend rc ctx name)

  pub csync_ftw-Keeps :
      (depth : ℕ) → Keeps (λ rc c name. csync_ftw matches vio (csync_walker journal) depth c name)
  csync_ftw-Keeps depth hs rc ctx name g =
      csync_ftw-Ends matches vio (csync_walker journal) (Follows start hs) (walker_keeps hs) depth
        ctx name g

  pub status_if :
      (ctx : Ctx) (hs : List ℕ)
      → Follows start hs ctx
      → Follows start hs
          (if status_is_ok ctx.status_code then ctx else record ctx { status_code = update_error })
  status_if ctx hs g = elim (Bool-cases (status_is_ok ctx.status_code)) [
    | inl e ↦ rw e g
    | inr e ↦ rw e (with_status start ctx hs update_error g)
  ]
