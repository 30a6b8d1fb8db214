-- ===== src/Exclude/Load.antt =====
-- `csync_exclude_load` on a file of lines.
use ocsync.Base.{
  ℕ, ◌+◌, ◌*◌, ◌==◌, ◌≤◌, ◌<◌, ◌≡◌, ◌≢◌, refl, sym, ap, ◌∙◌, true, false, Option, none, some, List,
  [], ◌∷◌, ◌++◌, pos, arith, All, append_assoc, append-nil, if◌then◌else◌, length, length-append,
  Bool-cases, inl, inr, ltb, leb, ==_iff,
}
use ocsync.StrList.{c_strlist_add, c_strlist_expand}
use ocsync.Types.{Str, StrList}
use ocsync.Exclude.{
  newline, add_to, csync_exclude_add, c_string, is_entry, load_loop, csync_exclude_load,
}

-- the capacity is not exceeded and can be doubled
pub record IsStrList (l : StrList) : Type 0 where
  pub counted : l.count ≡ length l.vector
  pub fits : l.count ≤ l.size
  pub room : 0 < l.size

-- the patterns that a context holds
abbrev pub patterns : Option StrList → List Str
patterns none = []
patterns (some l) = l.vector

abbrev pub IsPatterns : Option StrList → Type 0
IsPatterns none = Unit
IsPatterns (some l) = IsStrList l

-- `ex'` holds the patterns of `ex` and these
pub record Extended (ex ex' : Option StrList) (more : List Str) : Type 0 where
  pub good : IsPatterns ex'
  pub holds : patterns ex' ≡ patterns ex ++ more

abbrev added : StrList → Str → ℕ → StrList
added l s size = record { vector = l.vector ++ s ∷ []; count = l.count + 1; size = size }

added-Extended :
    (l : StrList) (s : Str) (size : ℕ)
    → IsStrList l
    → l.count < size
    → Extended (some l) (some (added l s size)) (s ∷ [])
added-Extended l s size h less =
    let n = length-append l.vector (s ∷ []) in
    let c = h.counted in
    record {
      good = record {
        counted = omega (arith, n, c);
        fits = omega (arith, less);
        room = omega (arith, less);
      };
      holds = refl;
    }

strlist_add-added :
    (l : StrList) (s : Str) → l.count < l.size → c_strlist_add l s ≡ (pos 0, added l s l.size)
unfolding c_strlist_add
strlist_add-added l s h = let b : ltb l.count l.size ≡ true = ground arith in rw b refl

-- The capacity is doubled where the list is full.
add_to-Extended :
    (l : StrList) (s : Str)
    → IsStrList l
    → (ex' : Option StrList) × (add_to l s ≡ (pos 0, ex')) × Extended (some l) ex' (s ∷ [])
unfolding add_to c_strlist_expand
add_to-Extended l s h = elim (Bool-cases (l.count == l.size)) [
  | inl e ↦
      let same : l.count ≡ l.size = (==_iff l.count l.size).0 e in
      let r = h.room in
      let z : (2 * l.size == 0) ≡ false = ground arith in
      let g : leb (2 * l.size) l.size ≡ false = ground arith in
      let less : l.count < 2 * l.size = omega (arith, same, r) in
      (
        some (added l s (2 * l.size)),
        rw
            (
              e,
              z,
              g,
              strlist_add-added (record l { size = 2 * l.size }) s less,
              add_to,
              c_strlist_expand,
            )
            refl,
        added-Extended l s (2 * l.size) h less,
      )
  | inr e ↦
      let f = h.fits in
      let less : l.count < l.size = ground arith in
      (
        some (added l s l.size),
        rw (e, strlist_add-added l s less, add_to) refl,
        added-Extended l s l.size h less,
      )
]

abbrev empty_list : StrList
empty_list = record { vector = []; count = 0; size = 32 }

none-Extended :
    (ex' : Option StrList) (more : List Str)
    → Extended (some empty_list) ex' more
    → Extended none ex' more
none-Extended ex' more e = record { good = e.good; holds = e.holds }

add-Extended :
    (ex : Option StrList) (s : Str)
    → IsPatterns ex
    → (ex' : Option StrList) × (csync_exclude_add ex s ≡ (pos 0, ex')) × Extended ex ex' (s ∷ [])
unfolding csync_exclude_add
add-Extended none s h = (
  some (added empty_list s 32),
  refl,
  none-Extended _ _ (
      added-Extended empty_list s 32
        (record { counted = refl; fits = omega arith; room = omega arith }) (omega arith)),
)
add-Extended (some l) s h = add_to-Extended l s h

-- a line of a text: no newline and no zero byte
abbrev pub IsLine : Str → Type 0
IsLine s = All (λ c. (c ≢ newline) × (c ≢ 0)) s

-- the lines, each with a newline behind it
abbrev pub unlines : List Str → Str
unlines [] = []
unlines (l ∷ ls) = l ++ newline ∷ unlines ls

abbrev pub entries_of : List Str → List Str
entries_of [] = []
entries_of (l ∷ ls) = if is_entry l then l ∷ entries_of ls else entries_of ls

c_string-IsLine : (s : Str) → IsLine s → c_string s ≡ s
c_string-IsLine [] h = refl
c_string-IsLine (c ∷ cs) h =
    let b : (c == 0) ≡ false = let n = h.0.1 in ground arith in rw (b, c_string-IsLine cs h.1) refl

load_loop-line :
    (line rest entry : Str) (ex : Option StrList)
    → IsLine line
    → load_loop (line ++ rest) entry ex ≡ load_loop rest (entry ++ line) ex
unfolding load_loop
load_loop-line [] rest entry ex h = rw (append-nil) refl
load_loop-line (c ∷ cs) rest entry ex h =
    let b : (c == newline) ≡ false = let n = h.0.0 in ground arith in
    rw (b, load_loop-line cs rest (entry ++ c ∷ []) ex h.1, append_assoc) refl

load_loop-kept :
    (line rest : Str) (ex ex' : Option StrList)
    → is_entry line ≡ true
    → csync_exclude_add ex (c_string line) ≡ (pos 0, ex')
    → load_loop (newline ∷ rest) line ex ≡ load_loop rest [] ex'
unfolding load_loop
load_loop-kept line rest ex ex' e a = rw (e, a) refl

load_loop-skipped :
    (line rest : Str) (ex : Option StrList)
    → is_entry line ≡ false
    → load_loop (newline ∷ rest) line ex ≡ load_loop rest [] ex
unfolding load_loop
load_loop-skipped line rest ex e = rw e refl

-- a line and its newline
load_loop-first :
    (line : Str) (lines : List Str) (rest : Str) (ex : Option StrList)
    → IsLine line
    → load_loop (unlines (line ∷ lines) ++ rest) [] ex
      ≡ load_loop (newline ∷ (unlines lines ++ rest)) line ex
load_loop-first line lines rest ex h =
    ap (λ s. load_loop s [] ex) (append_assoc line (newline ∷ unlines lines) rest)
    ∙ load_loop-line line (newline ∷ (unlines lines ++ rest)) [] ex h

load_loop-rest :
    (rest : Str) (ex : Option StrList) → IsLine rest → load_loop rest [] ex ≡ (pos 0, ex)
unfolding load_loop
load_loop-rest rest ex h =
    ap (λ s. load_loop s [] ex) (sym (append-nil rest)) ∙ load_loop-line rest [] [] ex h

load_loop-lines :
    (lines : List Str) (rest : Str) (ex : Option StrList)
    → All IsLine lines
    → IsLine rest
    → IsPatterns ex
    → (ex' : Option StrList) × (load_loop (unlines lines ++ rest) [] ex ≡ (pos 0, ex'))
      × Extended ex ex' (entries_of lines)
load_loop-lines [] rest ex h r g =
    (ex, load_loop-rest rest ex r, record { good = g; holds = sym (append-nil (patterns ex)) })
load_loop-lines (l ∷ ls) rest ex h r g = elim (Bool-cases (is_entry l)) [
  | inl e ↦
      let (ex₁, done, x) = add-Extended ex (c_string l) g in
      let (ex₂, done', x') = load_loop-lines ls rest ex₁ h.1 r x.good in
      (
        ex₂,
        load_loop-first l ls rest ex h.0
            ∙ (load_loop-kept l (unlines ls ++ rest) ex ex₁ e done ∙ done'),
        rw e (record {
          good = x'.good;
          holds =
              x'.holds
              ∙ (ap (λ v. v ++ entries_of ls) x.holds
                  ∙ (append_assoc (patterns ex) (c_string l ∷ []) (entries_of ls)
                      ∙ ap (λ s. patterns ex ++ s ∷ entries_of ls) (c_string-IsLine l h.0)));
        }),
      )
  | inr e ↦
      let (ex₂, done', x') = load_loop-lines ls rest ex h.1 r g in
      (
        ex₂,
        load_loop-first l ls rest ex h.0 ∙ (load_loop-skipped l (unlines ls ++ rest) ex e ∙ done'),
        rw e x',
      )
]

-- Loading a readable file of any lines, of which the last may lack its newline, returns 0 and adds
-- exactly the lines that are neither empty nor comments, in their order and behind the patterns
-- that were there; what stands behind the last newline is not added. The list of patterns grows
-- as needed and stays well formed. The lines hold no zero byte.
pub csync_exclude_load-lines :
    (lines : List Str) (rest : Str) (ex : Option StrList)
    → All IsLine lines
    → IsLine rest
    → IsPatterns ex
    → (ex' : Option StrList) × (csync_exclude_load (some (unlines lines ++ rest)) ex ≡ (pos 0, ex'))
      × IsPatterns ex'
      × (patterns ex' ≡ patterns ex ++ entries_of lines)
unfolding csync_exclude_load
csync_exclude_load-lines lines rest ex h r g =
    let (ex', done, x) = load_loop-lines lines rest ex h r g in (ex', done, x.good, x.holds)
