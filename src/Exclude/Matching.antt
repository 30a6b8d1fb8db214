-- ===== src/Exclude/Matching.antt =====
-- Which paths are excluded.
use ocsync.Base.{
  ℕ, Bool, true, false, ◌||◌, ◌&&◌, not, ◌≡◌, refl, ap, ◌∙◌, Option, none, some, List, [], ◌∷◌,
  ◌++◌, All, arith,
}
use ocsync.PathName.{slash, is_slash, not_slash, c_basename}
use ocsync.PathName.Parts.{c_dirname-c_basename}
use ocsync.Types.{Str, StrList}
use ocsync.Exclude.{
  journal_name, journal_pattern, has_special, match_loop, csync_excluded, csync_exclude_load,
}
use ocsync.Exclude.Load.{
  IsLine, IsPatterns, patterns, unlines, entries_of, csync_exclude_load-lines,
}

or_assoc : (a b c : Bool) → (a || (b || c)) ≡ ((a || b) || c)
or_assoc a b c = ground arith

or_third : (a b c d : Bool) → c ≡ true → ((a || (b || c)) || d) ≡ true
or_third a b c d h = ground arith

module _ (matches : (pattern name : Str) → Bool) where
  match_loop-append :
      (ps qs : List Str) (path bname : Str)
      → match_loop matches (ps ++ qs) path bname
        ≡ match_loop matches ps path bname || match_loop matches qs path bname
  unfolding match_loop
  match_loop-append [] qs path bname = refl
  match_loop-append (p ∷ ps) qs path bname =
      let e = match_loop-append ps qs path bname in ground arith

  -- what is excluded with every list of patterns
  abbrev always : Bool → Str → Bool
  always unix path =
      (not unix && has_special path)
      || (matches journal_pattern path || matches journal_pattern (c_basename path))

  -- the exclusion test as one condition
  excluded_by_patterns :
      (unix : Bool) (ex : Option StrList) (path : Str)
      → csync_excluded matches unix ex path
        ≡ always unix path || match_loop matches (patterns ex) path (c_basename path)
  unfolding csync_excluded match_loop
  excluded_by_patterns unix none path = ground arith
  excluded_by_patterns unix (some l) path = ground arith

  -- After a file of patterns has been loaded, a path is excluded exactly if it was before or if one of
  -- the file's entries matches it or its last component.
  pub csync_excluded-csync_exclude_load :
      (unix : Bool) (ex : Option StrList) (lines : List Str) (rest path : Str)
      → All IsLine lines
      → IsLine rest
      → IsPatterns ex
      → csync_excluded matches unix (csync_exclude_load (some (unlines lines ++ rest)) ex).1 path
        ≡ csync_excluded matches unix ex path
          || match_loop matches (entries_of lines) path (c_basename path)
  csync_excluded-csync_exclude_load unix ex lines rest path h r g =
      let (ex', done, good, holds) = csync_exclude_load-lines lines rest ex h r g in
      let before = excluded_by_patterns unix ex path in
      let after = excluded_by_patterns unix ex' path in
      let both = match_loop-append (patterns ex) (entries_of lines) path (c_basename path) in
      rw (done, after, before, holds, both)
        (or_assoc (always unix path) (match_loop matches (patterns ex) path (c_basename path))
          (match_loop matches (entries_of lines) path (c_basename path)))

  -- Where the journal's pattern matches every name that starts as the journal does, such a file is
  -- excluded in every directory and with every list of patterns.
  pub csync_excluded-journal :
      ((s : Str) → matches journal_pattern (journal_name ++ s) ≡ true)
      → (unix : Bool) (ex : Option StrList) (d : Str) (e : ℕ) (n : Str) (m : ℕ) (s : Str)
      → is_slash e ≡ false
      → All (λ c. not_slash c ≡ true) n
      → is_slash m ≡ false
      → n ++ m ∷ [] ≡ journal_name ++ s
      → csync_excluded matches unix ex ((d ++ e ∷ slash ∷ []) ++ (n ++ m ∷ [])) ≡ true
  csync_excluded-journal star unix ex d e n m s he hn hm is_journal =
      let path = (d ++ e ∷ slash ∷ []) ++ (n ++ m ∷ []) in
      let base : c_basename path ≡ n ++ m ∷ [] =
        (c_dirname-c_basename d e [] n m [] he tt hn hm tt).1 in
      let hit : matches journal_pattern (c_basename path) ≡ true =
        ap (matches journal_pattern) (base ∙ is_journal) ∙ star s in
      excluded_by_patterns unix ex path ∙ or_third _ _ _ _ hit
