-- ===== src/Update/Reached.antt =====
-- The files that a walk from a directory reaches.
use ocsync.Update.Gives.{Gives, Gives-bind, Gives-if, Gives-Ends, Gives-some, true-ne-false}
use ocsync.Update.Follows.{
  is_found, Has, Follows, with_status, same_exclusion, forget, by_stat, walker_keeps, Keeps,
  csync_ftw-Keeps, status_if, detect_update-Has, hash_of,
}
use ocsync.Base.{
  ℕ, zero, suc, ◌<◌, Bool, true, false, ◌≡◌, refl, sym, ap, ◌∙◌, ◌⊎◌, inl, inr, Option, none, some,
  List, [], ◌∷◌, ◌++◌, ℤ, pos, is_negative, length,
}
use ocsync.PathName.{slash}
use ocsync.RbTree.{c_rbtree_find}
use ocsync.Hash.{c_jhash64}
use ocsync.Reconcile.Trees.{IsFiles}
use ocsync.Types.{Str, file, dir, Ctx}
use ocsync.Update.{
  VioStat, FtwFlag, flag_file, flag_dir, entries, Vio, Journal, current_side, relative_path,
  excluded_here, csync_walker, flag_of_stat, flag_of, is_dots, is_flag_dir, ftw_visit, ftw_loop,
  ftw_opened, ftw_dir, csync_ftw,
}
use ocsync.Update.Walk.{Ends, ftw_visit-Ends, ftw_loop-Ends}

-- the directory lists this name
abbrev pub Listed : Str → List (Option Str) → Type 0
Listed n [] = ⊥
Listed n (none ∷ rest) = Listed n rest
Listed n (some m ∷ rest) = (m ≡ n) ⊎ Listed n rest

-- A file that a walk of some depth from `uri` reaches: it is listed in a directory on the way, it is
-- neither "." nor ".." nor excluded, and it is a directory or treated as a regular file.
pub data Reaches (matches : (pattern name : Str) → Bool) (vio : Vio) (start : Ctx)
    : ℕ → Str → Str → Type 0 where
  here :
      (depth : ℕ) (uri : Str) (names : List (Option Str)) (n : Str) (fs : VioStat)
      → vio.opendir uri ≡ entries names
      → Listed n names
      → is_dots n ≡ false
      → excluded_here matches start (uri ++ slash ∷ n) ≡ false
      → vio.stat (uri ++ slash ∷ n) ≡ some fs
      → (flag_of fs.type ≡ flag_file) ⊎ (flag_of fs.type ≡ flag_dir)
      → Reaches matches vio start depth uri (uri ++ slash ∷ n)
  below :
      (depth : ℕ) (uri : Str) (names : List (Option Str)) (n : Str) (name : Str)
      → vio.opendir uri ≡ entries names
      → Listed n names
      → is_dots n ≡ false
      → excluded_here matches start (uri ++ slash ∷ n) ≡ false
      → flag_of_stat (vio.stat (uri ++ slash ∷ n)) ≡ flag_dir
      → Reaches matches vio start depth (uri ++ slash ∷ n) name
      → Reaches matches vio start (suc depth) uri name

-- The walk goes on from there, and if the code did not fail the tree has an entry for the hash.
abbrev Reached : Ctx → ℕ → ℤ → Ctx → Type 0
Reached start h rc ctx = Follows start [] ctx × (is_negative rc ≡ false → Has h ctx)

module _ (matches : (pattern name : Str) → Bool) (vio : Vio) (journal : Journal) (start : Ctx) where
  add_found : (ctx : Ctx) (h : ℕ) → Follows start [] ctx → Has h ctx → Follows start (h ∷ []) ctx
  add_found ctx h g p = record {
    valid = g.valid;
    same_uri = g.same_uri;
    same_options = g.same_options;
    same_excludes = g.same_excludes;
    has = (p, tt);
  }

  found : (h : ℕ) (rc : ℤ) (ctx : Ctx) → Follows start (h ∷ []) ctx → Reached start h rc ctx
  found h rc ctx g = (forget start ctx h [] g, λ ok. g.has.0)

  failed :
      (h : ℕ) (rc : ℤ) (ctx : Ctx)
      → is_negative rc ≡ true
      → Follows start [] ctx
      → Reached start h rc ctx
  failed h rc ctx neg g = (g, λ ok. absurd (true-ne-false (sym neg ∙ ok)))

  -- the walker on a file or a directory
  walker-Has :
      (ctx : Ctx) (name : Str) (fs : VioStat) (flag : FtwFlag)
      → (flag ≡ flag_file) ⊎ (flag ≡ flag_dir)
      → Follows start [] ctx
      → length (current_side start).uri < length name
      → Ends
          (Follows start (hash_of matches vio journal start name ∷ []))
          (csync_walker journal ctx name (some fs) flag)
  unfolding csync_walker
  walker-Has ctx name fs flag (inl e) g long =
      rw e (detect_update-Has matches vio journal start ctx name fs file g long)
  walker-Has ctx name fs flag (inr e) g long =
      rw e (detect_update-Has matches vio journal start ctx name fs dir g long)

  ftw_visit-here :
      (descend : ℤ → Ctx → Str → Option (ℤ × Ctx)) (ctx : Ctx) (name : Str) (fs : VioStat)
      → Keeps matches vio journal start descend
      → vio.stat name ≡ some fs
      → (flag_of fs.type ≡ flag_file) ⊎ (flag_of fs.type ≡ flag_dir)
      → Follows start [] ctx
      → length (current_side start).uri < length name
      → Gives
          (Reached start (hash_of matches vio journal start name))
          (ftw_visit matches vio (csync_walker journal) descend ctx name)
  unfolding ftw_visit
  ftw_visit-here descend ctx name fs keeps e k g long =
      let h = hash_of matches vio journal start name in
      let first : Ends (Follows start (h ∷ []))
          (csync_walker journal ctx name (vio.stat name) (flag_of_stat (vio.stat name))) =
        rw e (walker-Has ctx name fs (flag_of fs.type) k g long) in
      Gives-bind (λ rc c. Follows start (h ∷ []) c) (Reached start h)
        (csync_walker journal ctx name (vio.stat name) (flag_of_stat (vio.stat name))) _
        (Gives-Ends (Follows start (h ∷ [])) _ _ (λ rc c q. q) first)
        (λ rc c q.
          Gives-if (Reached start h) (is_negative rc) _ _
            (λ neg. found h rc _ (status_if matches vio journal start c (h ∷ []) q))
            (λ ok.
              Gives-if (Reached start h) (is_flag_dir (flag_of_stat (vio.stat name))) _ _
                (λ is_dir.
                  Gives-Ends (Follows start (h ∷ [])) (Reached start h) _ (found h)
                    (keeps (h ∷ []) rc c name q))
                (λ no_dir. found h rc c q)))

  ftw_visit-below :
      (descend : ℤ → Ctx → Str → Option (ℤ × Ctx)) (ctx : Ctx) (name : Str) (h : ℕ)
      → flag_of_stat (vio.stat name) ≡ flag_dir
      → ((rc : ℤ) (c : Ctx) → Follows start [] c → Gives (Reached start h) (descend rc c name))
      → Follows start [] ctx
      → Gives (Reached start h) (ftw_visit matches vio (csync_walker journal) descend ctx name)
  unfolding ftw_visit
  ftw_visit-below descend ctx name h e inside g =
      Gives-bind (λ rc c. Follows start [] c) (Reached start h)
        (csync_walker journal ctx name (vio.stat name) (flag_of_stat (vio.stat name))) _
        (Gives-Ends (Follows start []) _ _ (λ rc c q. q)
          (by_stat matches vio journal start ctx [] name (vio.stat name) g))
        (λ rc c q.
          Gives-if (Reached start h) (is_negative rc) _ _
            (λ neg. failed h rc _ neg (status_if matches vio journal start c [] q))
            (λ ok.
              Gives-if (Reached start h) (is_flag_dir (flag_of_stat (vio.stat name))) _ _
                (λ is_dir. inside rc c q)
                (λ no_dir. absurd (true-ne-false (sym (ap is_flag_dir e) ∙ no_dir)))))

  -- the loop over the names of a directory that lists `n`
  ftw_loop-Reached :
      (descend : ℤ → Ctx → Str → Option (ℤ × Ctx)) (uri : Str) (rc : ℤ) (ctx : Ctx)
      (names : List (Option Str)) (n : Str) (h : ℕ)
      → Keeps matches vio journal start descend
      → Listed n names
      → is_dots n ≡ false
      → excluded_here matches start (uri ++ slash ∷ n) ≡ false
      → ((c : Ctx)
          → Follows start [] c
          → Gives
              (Reached start h)
              (ftw_visit matches vio (csync_walker journal) descend c (uri ++ slash ∷ n)))
      → Follows start [] ctx
      → Gives
          (Reached start h)
          (ftw_loop matches vio (csync_walker journal) descend uri rc ctx names)
  unfolding ftw_loop
  ftw_loop-Reached descend uri rc ctx [] n h keeps l d x visit g = elim l [ ]
  ftw_loop-Reached descend uri rc ctx (none ∷ rest) n h keeps l d x visit g =
      (with_status start ctx [] _ g, λ ok. absurd (true-ne-false ok))
  ftw_loop-Reached descend uri rc ctx (some m ∷ rest) n h keeps (inl e) d x visit g =
      let name = uri ++ slash ∷ m in
      let same : excluded_here matches ctx name ≡ false =
        same_exclusion matches start ctx [] name g
        ∙ (ap (λ k. excluded_here matches start (uri ++ slash ∷ k)) e ∙ x) in
      Gives-if (Reached start h) (is_dots m) _ _
        (λ t. absurd (true-ne-false (sym t ∙ (ap is_dots e ∙ d))))
        (λ _.
          Gives-if (Reached start h) (excluded_here matches ctx name) _ _
            (λ t. absurd (true-ne-false (sym t ∙ same)))
            (λ _.
              Gives-bind (Reached start h) (Reached start h)
                (ftw_visit matches vio (csync_walker journal) descend ctx name) _
                (rw e (visit ctx g))
                (λ rc' c q.
                  Gives-if (Reached start h) (is_negative rc') _ _ (λ neg. q)
                    (λ ok. Gives-Ends (Follows start (h ∷ [])) (Reached start h) _ (found h) (
                      ftw_loop-Ends matches vio (csync_walker journal) (Follows start (h ∷ []))
                        (walker_keeps matches vio journal start (h ∷ [])) descend uri rc' c rest
                        (keeps (h ∷ [])) (add_found c h q.0 (q.1 ok)))))))
  ftw_loop-Reached descend uri rc ctx (some m ∷ rest) n h keeps (inr l) d x visit g =
      let name = uri ++ slash ∷ m in
      let skipped = ftw_loop-Reached descend uri rc ctx rest n h keeps l d x visit g in
      Gives-if (Reached start h) (is_dots m) _ _ (λ _. skipped)
        (λ _.
          Gives-if (Reached start h) (excluded_here matches ctx name) _ _ (λ _. skipped)
            (λ e.
              Gives-bind (λ rc c. Follows start [] c) (Reached start h)
                (ftw_visit matches vio (csync_walker journal) descend ctx name) _
                (Gives-Ends (Follows start []) _ _ (λ rc c q. q)
                  (ftw_visit-Ends matches vio (csync_walker journal) (Follows start [])
                    (walker_keeps matches vio journal start []) descend ctx name (keeps []) g e))
                (λ rc' c q.
                  Gives-if (Reached start h) (is_negative rc') _ _ (λ neg. failed h rc' c neg q)
                    (λ ok. ftw_loop-Reached descend uri rc' c rest n h keeps l d x visit q))))

  ftw_dir-Reached :
      (descend : ℤ → Ctx → Str → Option (ℤ × Ctx)) (ctx : Ctx) (uri : Str)
      (names : List (Option Str)) (n : Str) (h : ℕ)
      → Keeps matches vio journal start descend
      → vio.opendir uri ≡ entries names
      → Listed n names
      → is_dots n ≡ false
      → excluded_here matches start (uri ++ slash ∷ n) ≡ false
      → ((c : Ctx)
          → Follows start [] c
          → Gives
              (Reached start h)
              (ftw_visit matches vio (csync_walker journal) descend c (uri ++ slash ∷ n)))
      → Follows start [] ctx
      → Gives (Reached start h) (ftw_dir matches vio (csync_walker journal) descend ctx uri)
  unfolding ftw_dir ftw_opened
  ftw_dir-Reached descend ctx [] names n h keeps o l d x visit g =
      (with_status start ctx [] _ g, λ ok. absurd (true-ne-false ok))
  ftw_dir-Reached descend ctx (c ∷ cs) names n h keeps o l d x visit g =
      rw o (ftw_loop-Reached descend (c ∷ cs) (pos 0) ctx names n h keeps l d x visit g)

  stays-Keeps : Keeps matches vio journal start (λ rc c name. some (rc, c))
  stays-Keeps hs rc ctx name g = g

  csync_ftw-Reached :
      (depth : ℕ) (ctx : Ctx) (uri name : Str)
      → Reaches matches vio start depth uri name
      → Follows start [] ctx
      → length (current_side start).uri < length name
      → Gives
          (Reached start (hash_of matches vio journal start name))
          (csync_ftw matches vio (csync_walker journal) depth ctx uri)
  unfolding csync_ftw
  csync_ftw-Reached zero ctx uri name (Reaches.here _ _ names n fs o l d x s k) g long =
      let stay : ℤ → Ctx → Str → Option (ℤ × Ctx) = λ rc c f. some (rc, c) in
      ftw_dir-Reached stay ctx uri names n (hash_of matches vio journal start (uri ++ slash ∷ n))
        stays-Keeps o l d x
        (λ c q. ftw_visit-here stay c (uri ++ slash ∷ n) fs stays-Keeps s k q long) g
  csync_ftw-Reached (suc depth) ctx uri name (Reaches.here _ _ names n fs o l d x s k) g long =
      let inner : ℤ → Ctx → Str → Option (ℤ × Ctx) =
        λ rc c f. csync_ftw matches vio (csync_walker journal) depth c f in
      let keeps = csync_ftw-Keeps matches vio journal start depth in
      ftw_dir-Reached inner ctx uri names n (hash_of matches vio journal start (uri ++ slash ∷ n))
        keeps o l d x (λ c q. ftw_visit-here inner c (uri ++ slash ∷ n) fs keeps s k q long) g
  csync_ftw-Reached (suc depth) ctx uri name (Reaches.below _ _ names n _ o l d x e r) g long =
      let inner : ℤ → Ctx → Str → Option (ℤ × Ctx) =
        λ rc c f. csync_ftw matches vio (csync_walker journal) depth c f in
      let h = hash_of matches vio journal start name in
      let keeps = csync_ftw-Keeps matches vio journal start depth in
      ftw_dir-Reached inner ctx uri names n h keeps o l d x
        (λ c q.
          ftw_visit-below inner c (uri ++ slash ∷ n) h e
            (λ rc c' q'. csync_ftw-Reached depth c' (uri ++ slash ∷ n) name r q' long) q)
        g

  -- A walk of any depth from a valid tree ends; if it does not fail, it has entered every file that
  -- it can reach and whose name is longer than the replica's root: the tree of the replica then has
  -- an entry for the hash of the file's path.
  pub csync_ftw-Reaches :
      (depth : ℕ) (uri name : Str)
      → IsFiles (current_side start).tree
      → Reaches matches vio start depth uri name
      → length (current_side start).uri < length name
      → (rc : ℤ) × (ctx' : Ctx) × (csync_ftw matches vio (csync_walker journal) depth start uri
          ≡ some (rc, ctx'))
        × (is_negative rc ≡ false
            → is_found
                (c_rbtree_find (current_side ctx').tree (c_jhash64 (relative_path start name) 0))
              ≡ true)
  csync_ftw-Reaches depth uri name v r long =
      let g : Follows start [] start = record {
        valid = v;
        same_uri = refl;
        same_options = refl;
        same_excludes = refl;
        has = tt;
      } in
      let (rc, ctx', done, q) =
        Gives-some (Reached start (hash_of matches vio journal start name)) _
          (csync_ftw-Reached depth start uri name r g long) in
      (rc, ctx', done, q.1)
