-- ===== src/Exclude.antt =====
-- src/csync_exclude.c: the patterns of files that are not synchronised.
-- `csync_fnmatch` calls `fnmatch(3)`, a parameter: whether a pattern matches a name.

pub mod Load
pub mod Matching
use ocsync.Base.{
  ℕ, ◌+◌, ◌*◌, ◌==◌, Bool, true, false, ◌||◌, ◌&&◌, not, Option, none, some, List, [], ◌∷◌, ◌++◌, ℤ,
  pos, negsuc, minus_one, is_negative, if◌then◌else◌,
}
use Prim.Native.String.{String}
use Prim.Native.Char.{code}
use ocsync.PathName.{c_basename}
use ocsync.StrList.{c_strlist_new, c_strlist_expand, c_strlist_add}
use ocsync.Types.{Str, StrList}

-- the bytes of an ASCII literal
abbrev pub bytes : String → Str
bytes String.[] = []
bytes (String.◌∷◌ c s) = code c ∷ bytes s

abbrev pub newline : ℕ
newline = 10

pub add_to : StrList → Str → ℤ × Option StrList
unfolding c_strlist_add c_strlist_expand
add_to l s = elim (if l.count == l.size then c_strlist_expand l (2 * l.size) else some l) [
  | none ↦ (minus_one, some l)
  | some l' ↦ (let (rc, l'') = c_strlist_add l' s in (rc, some l''))
]

-- `_csync_exclude_add`, on `ctx->excludes`
unfoldable pub csync_exclude_add : Option StrList → Str → ℤ × Option StrList
unfolding add_to c_strlist_new
csync_exclude_add none s = elim (c_strlist_new 32) [
  | none ↦ (minus_one, none)
  | some l ↦ add_to l s
]
csync_exclude_add (some l) s = add_to l s

-- an entry as a C string ends at its first zero byte
abbrev pub c_string : Str → Str
c_string [] = []
c_string (c ∷ cs) = if c == 0 then [] else c ∷ c_string cs

-- Whether a line is added: it is not empty, and no comment.
abbrev pub is_entry : Str → Bool
is_entry [] = false
is_entry (c ∷ cs) = not (c == b'#') || c == newline

-- The loop over the bytes of the file; `entry` is the line up to here. What stands behind the last
-- newline is dropped.
pub load_loop : (rest entry : Str) → Option StrList → ℤ × Option StrList
load_loop [] entry ex = (pos 0, ex)
load_loop (c ∷ rest) entry ex =
    let (rc, ex') = csync_exclude_add ex (c_string entry) in
    let skipped = load_loop rest [] ex in
    let added = load_loop rest [] ex' in
    let longer = load_loop rest (entry ++ c ∷ []) ex in
    if c == newline
    then (if is_entry entry then (if is_negative rc then (rc, ex') else added) else skipped)
    else longer

-- `contents` is what the file holds, `none` where it cannot be opened or read.
unfoldable pub csync_exclude_load : (contents : Option Str) → Option StrList → ℤ × Option StrList
unfolding load_loop csync_exclude_add
csync_exclude_load none ex = (minus_one, ex)
csync_exclude_load (some bytes) ex = load_loop bytes [] ex

-- the characters that a replica with no Unix file names refuses
abbrev pub is_special : ℕ → Bool
is_special c =
    c == b'\\'
    || (c == b':'
        || (c == b'?' || (c == b'*' || (c == b'"' || (c == b'>' || (c == b'<' || c == b'|'))))))

abbrev pub has_special : Str → Bool
has_special [] = false
has_special (c ∷ cs) = is_special c || has_special cs

abbrev pub journal_name : Str
journal_name = bytes ".csync_journal.db"

abbrev pub journal_pattern : Str
journal_pattern = bytes ".csync_journal.db*"

module _ (matches : (pattern name : Str) → Bool) where
  pub match_loop : List Str → (path bname : Str) → Bool
  match_loop [] path bname = false
  match_loop (p ∷ ps) path bname = (matches p path || matches p bname) || match_loop ps path bname

  -- `csync_excluded`: 1 is `true`
  unfoldable pub csync_excluded : (unix_extensions : Bool) → Option StrList → Str → Bool
  unfolding match_loop
  csync_excluded unix ex path =
      if not unix && has_special path
      then true
      else if matches journal_pattern path
      then true
      else if matches journal_pattern (c_basename path)
      then true
      else elim ex [ none ↦ false | some l ↦ match_loop l.vector path (c_basename path) ]
