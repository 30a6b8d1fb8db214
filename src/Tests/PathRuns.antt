-- ===== src/Tests/PathRuns.antt =====
-- The hash, the path functions and the list of excluded patterns on small inputs.
use ocsync.Base.{
  ◌^◌, ◌-◌, ◌+◌, ◌*◌, ℕ, ltb, none, minus_one, if◌then◌else◌, ◌==◌, ◌&&◌, ◌||◌, ◌≡◌, refl, Bool,
  true, false, Option, some, List, [], ◌∷◌, ◌++◌, pos, arith, All,
}
use ocsync.Types.{Str, StrList}
use ocsync.Hash.{State, mix64}
use ocsync.Hash.Mix.{IsWords, unmix64, unmix64-mix64}
use ocsync.PathName.Split.{c_split_path, split_last, split_extension, c_split_path_whole}
use ocsync.PathName.{c_dirname, c_basename}
use ocsync.PathName.Parts.{c_dirname-c_basename}
use ocsync.PathName.Uri.{is_digit, c_parse_uri}
use ocsync.PathName.Uri.Whole.{c_parse_uri_whole}
use ocsync.Exclude.{
  bytes, journal_pattern, journal_name, match_loop, csync_excluded, csync_exclude_load,
}
use ocsync.Exclude.Load.{
  IsLine, IsPatterns, patterns, unlines, entries_of, csync_exclude_load-lines,
}
use ocsync.Exclude.Matching.{csync_excluded-csync_exclude_load}

abbrev words : State
words = record { a = 1; b = 2; c = 2 ^ 64 - 1 }

unmix64-mix64_example : IsWords (mix64 words) × (unmix64 (mix64 words) ≡ words)
unmix64-mix64_example =
    unmix64-mix64 words (record { a_lt = omega arith; b_lt = omega arith; c_lt = omega arith })

-- "a/b//c/" is the component "c" of the directory "a/b"
c_dirname-c_basename_example :
    (c_dirname (bytes "a/b//cd/") ≡ bytes "a/b") × (c_basename (bytes "a/b//cd/") ≡ bytes "cd")
c_dirname-c_basename_example =
    c_dirname-c_basename (bytes "a/") b'b' (bytes "/") (bytes "c") b'd' (bytes "/") refl (refl, tt)
      (refl, tt) refl (refl, tt)

-- With no slash before the component, a trailing one stays.
basename_keeps_slash : c_basename (bytes "foo/") ≡ bytes "foo/"
unfolding c_basename
basename_keeps_slash = refl

-- `fnmatch` on patterns whose only special character is a trailing star
abbrev star_matches : (pattern name : Str) → Bool
star_matches [] [] = true
star_matches [] (d ∷ ds) = false
star_matches (c ∷ []) [] = c == b'*'
star_matches (c ∷ []) (d ∷ []) = c == b'*' || c == d
star_matches (c ∷ []) (d ∷ e ∷ ds) = c == b'*'
star_matches (c ∷ c' ∷ cs) [] = false
star_matches (c ∷ c' ∷ cs) (d ∷ ds) = c == d && star_matches (c' ∷ cs) ds

abbrev sample_lines : List Str
sample_lines = bytes "#temporary" ∷ bytes "*.tmp" ∷ [] ∷ bytes "core" ∷ []

abbrev sample_patterns : Option StrList
sample_patterns = some (record { vector = bytes "a" ∷ []; count = 1; size = 1 })

sample_IsLine : All IsLine sample_lines
sample_IsLine = ground arith

lost_IsLine : IsLine (bytes "lost")
lost_IsLine = ground arith

csync_exclude_load-lines_example :
    (ex' : Option StrList) × (csync_exclude_load
        (some (unlines sample_lines ++ bytes "lost"))
        sample_patterns
      ≡ (pos 0, ex'))
    × IsPatterns ex'
    × (patterns ex' ≡ patterns sample_patterns ++ entries_of sample_lines)
csync_exclude_load-lines_example =
    csync_exclude_load-lines sample_lines (bytes "lost") sample_patterns sample_IsLine lost_IsLine
      (record { counted = refl; fits = omega arith; room = omega arith })

-- the two entries are there, and the text behind the last newline is not
load_keeps_lines : entries_of sample_lines ≡ bytes "*.tmp" ∷ bytes "core" ∷ []
load_keeps_lines = refl

csync_excluded-csync_exclude_load_example :
    csync_excluded star_matches true
      (csync_exclude_load (some (unlines sample_lines ++ bytes "lost")) sample_patterns).1
      (bytes "d/core")
    ≡ csync_excluded star_matches true sample_patterns (bytes "d/core")
      || match_loop star_matches
          (entries_of sample_lines)
          (bytes "d/core")
          (c_basename (bytes "d/core"))
csync_excluded-csync_exclude_load_example =
    csync_excluded-csync_exclude_load star_matches true sample_patterns sample_lines (bytes "lost")
      (bytes "d/core") sample_IsLine lost_IsLine
      (record { counted = refl; fits = omega arith; room = omega arith })

star_journal : (s : Str) → star_matches journal_pattern (journal_name ++ s) ≡ true
star_journal [] = refl
star_journal (c ∷ []) = refl
star_journal (c ∷ d ∷ ds) = refl

c_split_path_parts :
    c_split_path (bytes "a/b.c/.x.tar")
    ≡ record { directory = bytes "a/b.c/"; filename = bytes ".x"; extension = bytes ".tar" }
unfolding c_split_path split_last split_extension
c_split_path_parts = refl

c_split_path_whole_example :
    let info = c_split_path (bytes "a/b~") in
    info.directory ++ (info.filename ++ info.extension) ≡ bytes "a/b~"
c_split_path_whole_example = c_split_path_whole (bytes "a/b~")

-- the digits of a base, and what follows them
abbrev read_digits : (base value : ℕ) → Str → ℕ × Str
read_digits base value [] = (value, [])
read_digits base value (c ∷ s) =
    let rest = read_digits base (value * base + (c - b'0')) s in
    if is_digit c && ltb (c - b'0') base then rest else (value, c ∷ s)

-- as `strtoul` with base 0 reads decimal and octal numbers
abbrev read_number : Str → ℕ × Str
read_number [] = (0, [])
read_number (c ∷ s) = read_digits (if c == b'0' then 8 else 10) 0 (c ∷ s)

c_parse_uri_whole_example : c_parse_uri read_number true (bytes "sftp://ann:x@host:22/dir") ≡ (
  pos 0,
  record {
    scheme = some (bytes "sftp");
    user = some (bytes "ann");
    passwd = some (bytes "x");
    host = some (bytes "host");
    port = some 22;
    path = some (bytes "/dir");
  },
)
c_parse_uri_whole_example =
    c_parse_uri_whole read_number b's' (bytes "ftp") (bytes "ann") (bytes "x") (bytes "host") b'2'
      (bytes "2") (bytes "dir") 22
      (record {
        scheme_plain = (refl, (refl, (refl, (refl, tt))));
        user_plain = (refl, (refl, (refl, tt)));
        passwd_plain = (refl, tt);
        passwd_whole = (refl, tt);
        host_plain = (refl, (refl, (refl, (refl, tt))));
        digits_plain = (refl, (refl, tt));
      })
      refl refl

-- An address in brackets and a port that begins with 0, which is read as octal and left at the 8.
octal_port : c_parse_uri read_number true (bytes "http://[::1]:080/p") ≡ (
  minus_one,
  record {
    scheme = some (bytes "http");
    user = none;
    passwd = none;
    host = some (bytes "::1");
    port = some 0;
    path = none;
  },
)
unfolding c_parse_uri
octal_port = refl
